-- ===== src/Maildir/Safe.antt =====
-- No name of a mailbox leads out of the data directory.
use desertemail.Prelude.{
  Lacks, split-join, ℕ, ◌≡◌, refl, ap, ◌∙◌, ◌≢◌, ◌⊎◌, inl, inr, Bool, true, false, ◌&&◌, ◌||◌, List,
  [], ◌∷◌, ◌++◌, map, arith, ◌==◌, if◌then◌else◌, Bool-cases, if-all, All, All-append, is_empty,
  Bytes, codes, bytes_eq, push_piece, split, join,
}
use mathlib.Core.List.{append_assoc}
use mathlib.Core.Path.{subst}
use desertemail.Maildir.Paths.{
  split_where, is_separator, is_skipped, safe_char, add_parts, sanitize,
}

-- A segment of a path that names something below its directory: not empty, not the directory itself
-- and not the one above.
pub record IsBelow (segment : Bytes) : Type 0 where
  pub not_empty : segment ≢ []
  pub not_here : segment ≢ codes "."
  pub not_above : segment ≢ codes ".."

-- a segment, with no slash in it
abbrev IsSegment : Bytes → Type 0
IsSegment s = IsBelow s × Lacks b'/' s

module _ (is_alphanumeric : ℕ → Bool) where
  abbrev clean : Bytes → Bytes
  clean part = map (safe_char is_alphanumeric) part

  -- a character that is not another one does not become that, unless that is the underscore
  safe_char_other :
      (x c : ℕ) → b'_' == x ≡ false → c == x ≡ false → safe_char is_alphanumeric c == x ≡ false
  unfolding safe_char
  safe_char_other x c h g = if-all (λ y. y == x ≡ false) _ c b'_' (λ _. g) (λ _. h)

  clean-Lacks : (part : Bytes) → Lacks b'/' part → Lacks b'/' (clean part)
  clean-Lacks [] h = tt
  clean-Lacks (c ∷ part) h = (safe_char_other b'/' c refl h.0, clean-Lacks part h.1)

  push_piece-Lacks :
      (x c : ℕ) (ps : List Bytes)
      → c == x ≡ false
      → All (Lacks x) ps
      → All (Lacks x) (push_piece c ps)
  push_piece-Lacks x c [] h all = ((h, tt), tt)
  push_piece-Lacks x c (p ∷ ps) h all = ((h, all.0), all.1)

  split_where-Lacks : (s : Bytes) → All (Lacks b'/') (split_where is_separator s)
  unfolding split_where
  split_where-Lacks [] = (tt, tt)
  split_where-Lacks (c ∷ s) =
      if-all (All (Lacks b'/')) (is_separator c) ([] ∷ split_where is_separator s)
        (push_piece c (split_where is_separator s)) (λ _. (tt, split_where-Lacks s))
        (λ h.
          push_piece-Lacks b'/' c (split_where is_separator s) (ground arith) (split_where-Lacks s))

  skipped_clean : (part : Bytes) → is_skipped part ≡ false → is_skipped (clean part) ≡ false
  unfolding bytes_eq
  skipped_clean [] h = cc
  skipped_clean (c ∷ []) h =
      let other : c == b'.' ≡ false = ground arith in rw (safe_char_other b'.' c refl other) refl
  skipped_clean (c ∷ d ∷ []) h = elim (Bool-cases (c == b'.')) [
    | inl e ↦
        (let other : d == b'.' ≡ false = ground arith in
          rw (safe_char_other b'.' d refl other) (two_false (safe_char is_alphanumeric c == b'.')))
    | inr e ↦ rw (safe_char_other b'.' c refl e) refl
  ]
    where
      two_false : (b : Bool) → b && false || b && false ≡ false
      two_false true = refl
      two_false false = refl
  skipped_clean (c ∷ d ∷ e ∷ part) h =
      long (safe_char is_alphanumeric c == b'.') (safe_char is_alphanumeric d == b'.')
    where
      long : (a b : Bool) → a && false || a && (b && false) ≡ false
      long true true = refl
      long true false = refl
      long false b = refl

  skipped-IsBelow : (part : Bytes) → is_skipped part ≡ false → IsBelow part
  skipped-IsBelow part h = record {
    not_empty = λ e. (let no : true ≡ false = subst (λ x. is_skipped x ≡ false) e h in cc);
    not_here = λ e.
        (let no : true ≡ false = (unfold bytes_eq in subst (λ x. is_skipped x ≡ false) e h) in cc);
    not_above = λ e.
        (let no : true ≡ false = (unfold bytes_eq in subst (λ x. is_skipped x ≡ false) e h) in cc);
  }

  -- the text is empty, or made of segments
  Made : Bytes → Type 0
  Made out =
      (out ≡ [])
      ⊎ ((segment : Bytes) × (segments : List Bytes) × All IsSegment (segment ∷ segments)
          × (out ≡ join (b'/' ∷ []) (segment ∷ segments)))

  join_one_more :
      (s : Bytes) (ss : List Bytes) (t : Bytes)
      → join (b'/' ∷ []) (s ∷ ss) ++ b'/' ∷ t ≡ join (b'/' ∷ []) (s ∷ (ss ++ t ∷ []))
  unfolding join
  join_one_more s [] t = refl
  join_one_more s (q ∷ ss) t =
      append_assoc s (b'/' ∷ join (b'/' ∷ []) (q ∷ ss)) (b'/' ∷ t)
      ∙ ap (λ x. s ++ b'/' ∷ x) (join_one_more q ss t)

  join_full : (s : Bytes) (ss : List Bytes) → s ≢ [] → is_empty (join (b'/' ∷ []) (s ∷ ss)) ≡ false
  unfolding join
  join_full [] ss h = absurd (h refl)
  join_full (c ∷ s) [] h = refl
  join_full (c ∷ s) (q ∷ ss) h = refl

  grown-Made :
      (out t : Bytes)
      → Made out
      → IsSegment t
      → Made ((if is_empty out then out else out ++ b'/' ∷ []) ++ t)
  unfolding Made
  grown-Made out t (inl e) h = inr (t, [], (h, tt), (unfold join in rw e refl))
  grown-Made out t (inr (s, ss, all, e)) h = inr (
    s,
    ss ++ t ∷ [],
    (all.0, All-append IsSegment ss (t ∷ []) all.1 (h, tt)),
    (rw e (
        rw (join_full s ss all.0.0.not_empty)
          (append_assoc (join (b'/' ∷ []) (s ∷ ss)) (b'/' ∷ []) t ∙ join_one_more s ss t))),
  )

  add_parts-Made :
      (out : Bytes) (parts : List Bytes)
      → Made out
      → All (Lacks b'/') parts
      → Made (add_parts is_alphanumeric out parts)
  unfolding add_parts
  add_parts-Made out [] m h = m
  add_parts-Made out (part ∷ parts) m h =
      let grown = if is_empty out then out else out ++ b'/' ∷ [] in
      add_parts-Made (if is_skipped part then out else grown ++ clean part) parts
        (if-all Made (is_skipped part) out (grown ++ clean part) (λ _. m)
          (λ kept.
            grown-Made out (clean part) m
              (skipped-IsBelow (clean part) (skipped_clean part kept), clean-Lacks part h.0)))
        h.1

  All-IsBelow : (ss : List Bytes) → All IsSegment ss → All IsBelow ss
  All-IsBelow [] h = tt
  All-IsBelow (s ∷ ss) h = (h.0.0, All-IsBelow ss h.1)

  All-Lacks : (ss : List Bytes) → All IsSegment ss → All (Lacks b'/') ss
  All-Lacks [] h = tt
  All-Lacks (s ∷ ss) h = (h.0.1, All-Lacks ss h.1)

  -- Whatever name a client gives, the path made of it is empty or each of its segments names something
  -- below the directory that comes before.
  pub sanitize-IsBelow :
      (s : Bytes)
      → (sanitize is_alphanumeric s ≡ []) ⊎ All IsBelow (split b'/' (sanitize is_alphanumeric s))
  unfolding sanitize Made
  sanitize-IsBelow s =
      elim (add_parts-Made [] (split_where is_separator s) (inl refl) (split_where-Lacks s)) [
        | inl e ↦ inl e
        | inr (segment, segments, all, e) ↦ inr (
            rw e (
              rw (split-join b'/' segment segments (All-Lacks (segment ∷ segments) all))
                (All-IsBelow (segment ∷ segments) all)))
      ]
