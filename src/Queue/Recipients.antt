-- ===== src/Queue/Recipients.antt =====
-- The list of recipients on its line of a queue file, and its numbers: texts without white space.
use desertemail.Prelude.{
  Lacks, split-join, All-map, digit_visible, ℕ, ◌≤◌, ◌≡◌, refl, ap, ◌∙◌, ◌≢◌, inl, inr, true, false,
  not, List, [], ◌∷◌, ◌++◌, map, arith, ◌==◌, Bool-cases, All, All-append, length, retain, is_empty,
  Bytes, is_whitespace, trim_start, trim_end, trim_matches, split, join, is_digit,
}
use desertemail.Queue.File.{comma, trim, read_recipients}
use desertemail.Queue.Values.{
  IsTrimmed, IsValue, IsRecipient, trim_start_cons, trim_end_cons, trim_end-append,
}

-- A text with no white space at all.
abbrev pub Solid : Bytes → Type 0
Solid s = All (λ c. is_whitespace c ≡ false) s

pub Solid-trim_start : (s : Bytes) → Solid s → trim_start is_whitespace s ≡ s
unfolding trim_start
Solid-trim_start [] h = refl
Solid-trim_start (c ∷ s) h = rw (h.0) refl

pub Solid-trim_end : (s : Bytes) → Solid s → trim_end is_whitespace s ≡ s
unfolding trim_end
Solid-trim_end [] h = refl
Solid-trim_end (c ∷ []) h = rw (h.0) refl
Solid-trim_end (c ∷ d ∷ s) h = trim_end_cons c (d ∷ s) (d ∷ s) (Solid-trim_end (d ∷ s) h.1) (cc)

pub length-trim_start : (s : Bytes) → length (trim_start is_whitespace s) ≤ length s
unfolding trim_start
length-trim_start [] = omega arith
length-trim_start (c ∷ s) = ground (arith, length-trim_start s)

-- a text that is trimmed at its start begins with no white space
pub head_visible :
    (c : ℕ) (s : Bytes) → trim_start is_whitespace (c ∷ s) ≡ c ∷ s → is_whitespace c ≡ false
unfolding trim_start
head_visible c s h = elim (Bool-cases (is_whitespace c)) [
  | inr fine ↦ fine
  | inl blank ↦
      let shorter : trim_start is_whitespace s ≡ c ∷ s = rw blank at h in
      absurd (omega (arith, ap length shorter, length-trim_start s))
]

pub trimmed_end-append :
    (a b : Bytes) → trim_end is_whitespace b ≡ b → b ≢ [] → trim_end is_whitespace (a ++ b) ≡ a ++ b
trimmed_end-append a [] h ne = absurd (ne refl)
trimmed_end-append a (c ∷ b) h ne = trim_end-append a c b h

pub join-ne-nil : (r : Bytes) (rs : List Bytes) → r ≢ [] → join comma (r ∷ rs) ≢ []
unfolding join
join-ne-nil [] rs ne = absurd (ne refl)
join-ne-nil (c ∷ r) [] ne = cc
join-ne-nil (c ∷ r) (q ∷ rs) ne = cc

pub join_start :
    (r : Bytes) (rs : List Bytes)
    → IsRecipient r
    → trim_start is_whitespace (join comma (r ∷ rs)) ≡ join comma (r ∷ rs)
unfolding join
join_start [] rs h = absurd (h.named refl)
join_start (c ∷ r) [] h = h.value.trimmed.at_start
join_start (c ∷ r) (q ∷ rs) h =
    trim_start_cons c (r ++ (comma ++ join comma (q ∷ rs)))
      (head_visible c r h.value.trimmed.at_start)

pub join_end :
    (rs : List Bytes) → All IsRecipient rs → trim_end is_whitespace (join comma rs) ≡ join comma rs
unfolding join
join_end [] h = unfold trim_end in refl
join_end (r ∷ []) h = h.0.value.trimmed.at_end
join_end (r ∷ q ∷ rs) h =
    trimmed_end-append r (comma ++ join comma (q ∷ rs))
      (trimmed_end-append comma (join comma (q ∷ rs)) (join_end (q ∷ rs) h.1)
        (join-ne-nil q rs h.1.0.named))
      (cc)

pub join_line : (rs : List Bytes) → All IsRecipient rs → Lacks b'\n' (join comma rs)
unfolding join
join_line [] h = tt
join_line (r ∷ []) h = h.0.value.one_line
join_line (r ∷ q ∷ rs) h =
    All-append (λ x. x == b'\n' ≡ false) r (comma ++ join comma (q ∷ rs)) h.0.value.one_line
      (refl, join_line (q ∷ rs) h.1)

pub trim_lem : (s : Bytes) → IsTrimmed s → trim s ≡ s
unfolding trim_matches
trim_lem s t = ap (trim_end is_whitespace) t.at_start ∙ t.at_end

pub kept :
    (rs : List Bytes) → All IsRecipient rs → retain (λ s. not (is_empty s)) (map trim rs) ≡ rs
kept [] h = refl
kept ([] ∷ rs) h = absurd (h.0.named refl)
kept ((c ∷ r) ∷ rs) h = rw (trim_lem (c ∷ r) h.0.value.trimmed) (ap (◌∷◌ (c ∷ r)) (kept rs h.1))

pub All-Lacks : (rs : List Bytes) → All IsRecipient rs → All (Lacks b',') rs
All-Lacks [] h = tt
All-Lacks (r ∷ rs) h = (h.0.no_comma, All-Lacks rs h.1)

-- decimals and joined recipients stand on a line of their own
pub digit-ne-lf : (c : ℕ) → is_digit c ≡ true → c == b'\n' ≡ false
digit-ne-lf c h = ground arith

pub digits-IsValue : (s : Bytes) → All (λ c. is_digit c ≡ true) s → IsValue s
digits-IsValue s h = record {
  trimmed = record {
    at_start = Solid-trim_start s (All-map s (λ x d. digit_visible x d) h);
    at_end = Solid-trim_end s (All-map s (λ x d. digit_visible x d) h);
  };
  one_line = All-map s (λ x d. digit-ne-lf x d) h;
}

pub join-IsValue : (rs : List Bytes) → All IsRecipient rs → IsValue (join comma rs)
join-IsValue [] h = record {
  trimmed = record { at_start = unfold join trim_start in refl; at_end = join_end [] h };
  one_line = join_line [] h;
}
join-IsValue (r ∷ rs) h = record {
  trimmed = record { at_start = join_start r rs h.0; at_end = join_end (r ∷ rs) h };
  one_line = join_line (r ∷ rs) h;
}

pub read_recipients-join :
    (rs : List Bytes) → All IsRecipient rs → read_recipients (join comma rs) ≡ rs
unfolding join split trim_matches trim_start trim_end
read_recipients-join [] h = refl
read_recipients-join (r ∷ rs) h =
    ap (λ ps. retain (λ s. not (is_empty s)) (map trim ps))
      (split-join b',' r rs (All-Lacks (r ∷ rs) h))
    ∙ kept (r ∷ rs) h
