-- ===== src/Dns/RoundTrip.antt =====
-- What `encode_name` writes, `parse_name` reads back.
use desertemail.Prelude.{
  ℕ, zero, suc, ◌+◌, ◌≤◌, ◌<◌, ◌≡◌, refl, sym, ap, ◌∙◌, ◌≢◌, inl, inr, false, ◌||◌, some, List, [],
  ◌∷◌, ◌++◌, arith, ltb, if◌then◌else◌, Bool-cases, All, length, is_empty, length-append,
  get_elem?-length_append, take-drop_append, Bytes, codes, trim_end, split, join, split-ne-nil,
  join-split,
}
use mathlib.Core.Path.{subst, ap₂}
use mathlib.Core.List.{append_assoc, append-nil}
use desertemail.Dns.{
  ok, Reader, done, next, rounds_for, round, read_rounds, parse_name, encode_labels, encode_name,
  is_dot, join_labels, byte_at, slice,
}

-- the labels that `encode_labels` accepts
label_size :
    (l : Bytes) → is_empty l || ltb 63 (length l) ≡ false → (0 < length l) × (length l ≤ 63)
label_size [] h = absurd (cc)
label_size (c ∷ cs) h = ground arith

-- the reader behind a label that stands before any pointer
abbrev after_label : Bytes → Reader → Reader
after_label l r = record r {
  pos = r.pos + 1 + length l;
  labels = r.labels ++ l ∷ [];
  end_pos = r.pos + 1 + length l;
}

module _ (lossy : Bytes → Bytes) where
  byte_here : (pre : Bytes) (x : ℕ) (more : Bytes) → byte_at (pre ++ x ∷ more) (length pre) ≡ x
  byte_here pre x more = rw get_elem?-length_append

  slice_behind :
      (pre : Bytes) (x : ℕ) (l more : Bytes)
      → slice (pre ++ x ∷ (l ++ more)) (length pre + 1) (length l) ≡ l
  slice_behind pre x l more =
      let behind : length (pre ++ x ∷ []) ≡ length pre + 1 = length-append pre (x ∷ []) in
      rw (← behind)
        (rw (← append_assoc pre (x ∷ []) (l ++ more)) (take-drop_append (pre ++ x ∷ []) l more))

  -- one label, read before any pointer
  round_label :
      (pre l more : Bytes) (r : Reader)
      → r.pos ≡ length pre
      → r.jumped ≡ false
      → is_empty l || ltb 63 (length l) ≡ false
      → lossy l ≡ l
      → round lossy (pre ++ length l ∷ (l ++ more)) r ≡ next (after_label l r)
  unfolding round
  round_label pre l more r p j fits plain =
      let msg = pre ++ length l ∷ (l ++ more) in
      let here = byte_here pre (length l) (l ++ more) in
      let piece = slice_behind pre (length l) l more in
      let size : length msg ≡ length pre + 1 + length l + length more =
        omega (arith, length-append pre (length l ∷ (l ++ more)), length-append l more) in
      let sized = label_size l fits in
      rw p (rw here (rw piece (rw plain (rw j (ground (arith, size, sized))))))

  encode_labels-cons :
      (l : Bytes) (ls : List Bytes) (enc : Bytes)
      → encode_labels (l ∷ ls) ≡ some enc
      → (rest : Bytes) × (encode_labels ls ≡ some rest)
        × (enc ≡ length l ∷ (l ++ rest))
        × (is_empty l || ltb 63 (length l) ≡ false)
  unfolding encode_labels
  encode_labels-cons l ls enc h = ground arith

  round_end :
      (pre more : Bytes) (r : Reader)
      → r.pos ≡ length pre
      → r.jumped ≡ false
      → round lossy (pre ++ 0 ∷ more) r ≡ done (length pre + 1)
  unfolding round
  round_end pre more r p j =
      let size = length-append pre (0 ∷ more) in
      rw p (rw (byte_here pre 0 more) (rw j (ground (arith, size))))

  read_rounds-done :
      (fuel : ℕ) (msg : Bytes) (r : Reader) (end_pos : ℕ)
      → round lossy msg r ≡ done end_pos
      → read_rounds (suc fuel) lossy msg r ≡ ok (join_labels r.labels, end_pos)
  unfolding read_rounds
  read_rounds-done fuel msg r end_pos e = rw (e, read_rounds)

  read_rounds-next :
      (fuel : ℕ) (msg : Bytes) (r r' : Reader)
      → round lossy msg r ≡ next r'
      → read_rounds (suc fuel) lossy msg r ≡ read_rounds fuel lossy msg r'
  unfolding read_rounds
  read_rounds-next fuel msg r r' e = rw (e, read_rounds)

  assoc_label :
      (pre l rest more : Bytes)
      → pre ++ ((length l ∷ (l ++ rest)) ++ more) ≡ pre ++ length l ∷ (l ++ (rest ++ more))
  assoc_label pre l rest more = simp append_assoc

  -- a message seen from behind its next label
  regroup :
      (pre l rest more : Bytes)
      → pre ++ ((length l ∷ (l ++ rest)) ++ more) ≡ (pre ++ length l ∷ l) ++ (rest ++ more)
  regroup pre l rest more = simp append_assoc

  read_rounds-label :
      (fuel : ℕ) (pre l rest more : Bytes) (r : Reader)
      → r.pos ≡ length pre
      → r.jumped ≡ false
      → is_empty l || ltb 63 (length l) ≡ false
      → lossy l ≡ l
      → read_rounds (suc fuel) lossy (pre ++ ((length l ∷ (l ++ rest)) ++ more)) r
        ≡ read_rounds fuel lossy ((pre ++ length l ∷ l) ++ (rest ++ more)) (after_label l r)
  read_rounds-label fuel pre l rest more r p j fits plain =
      let apart = assoc_label pre l rest more in
      ap (λ m. read_rounds (suc fuel) lossy m r) apart
      ∙ read_rounds-next fuel (pre ++ length l ∷ (l ++ (rest ++ more))) r (after_label l r)
          (round_label pre l (rest ++ more) r p j fits plain)
      ∙ ap (λ m. read_rounds fuel lossy m (after_label l r)) (sym apart ∙ regroup pre l rest more)

  read_labels :
      (ls : List Bytes) (pre enc more : Bytes) (fuel : ℕ) (r : Reader)
      → encode_labels ls ≡ some enc
      → All (λ l. lossy l ≡ l) ls
      → length enc ≤ fuel
      → r.pos ≡ length pre
      → r.jumped ≡ false
      → read_rounds fuel lossy (pre ++ (enc ++ more)) r
        ≡ ok (join_labels (r.labels ++ ls), length pre + length enc)
  unfolding encode_labels
  read_labels [] pre enc more fuel r h plain f p j =
      let zero_byte : 0 ∷ [] ≡ enc = cc in
      let one_round : 1 ≤ fuel = omega (arith, ap (λ (b : Bytes). length b) zero_byte) in
      subst
        (λ b.
          read_rounds fuel lossy (pre ++ (b ++ more)) r
          ≡ ok (join_labels (r.labels ++ []), length pre + length b))
        zero_byte (rw append-nil (last fuel one_round))
    where
      last :
          (fuel : ℕ)
          → 1 ≤ fuel
          → read_rounds fuel lossy (pre ++ 0 ∷ more) r ≡ ok (join_labels r.labels, length pre + 1)
      last zero f = absurd (omega arith)
      last (suc fuel) f = read_rounds-done fuel _ r _ (round_end pre more r p j)
  read_labels (l ∷ ls) pre enc more zero r h plain f p j =
      let (rest, hr, e, fits) = encode_labels-cons l ls enc h in
      absurd (omega (arith, ap (λ (b : Bytes). length b) e))
  read_labels (l ∷ ls) pre enc more (suc fuel) r h plain f p j =
      let (rest, hr, e, fits) = encode_labels-cons l ls enc h in
      let whole = length-append pre (length l ∷ l) in
      let tail_size = length-append l rest in
      let size = ap (λ (b : Bytes). length b) e in
      let later =
        read_labels ls (pre ++ length l ∷ l) rest more fuel (after_label l r) hr plain.1
          (omega arith) (omega arith) j in
      let step = read_rounds-label fuel pre l rest more r p j fits plain.0 in
      subst
        (λ b.
          read_rounds (suc fuel) lossy (pre ++ (b ++ more)) r
          ≡ ok (join_labels (r.labels ++ (l ∷ ls)), length pre + length b))
        (sym e)
        (step
          ∙ later
          ∙ ap₂ (λ (ws : List Bytes) (n : ℕ). ok (join_labels ws, n))
              (append_assoc r.labels (l ∷ []) ls) (omega arith))

-- the text that stands for a name when it is read: the root is a dot
abbrev pub read_as : Bytes → Bytes
read_as name = let trimmed = trim_end is_dot name in if is_empty trimmed then codes "." else trimmed

join_labels-split : (s : Bytes) → join_labels (split b'.' s) ≡ s
join_labels-split s = same (split b'.' s) (split-ne-nil b'.' s) ∙ join-split b'.' s
  where
    same : (ls : List Bytes) → ls ≢ [] → join_labels ls ≡ join (codes ".") ls
    same [] h = absurd (h refl)
    same (l ∷ ls) h = refl

-- A name that can be encoded, its labels valid UTF-8, is read back from any place in any message:
-- without the dots at its end, a root as one dot, and with the position just behind it.
pub parse_name-encode_name :
    (lossy : Bytes → Bytes) (name pre enc more : Bytes)
    → encode_name name ≡ some enc
    → All (λ l. lossy l ≡ l) (split b'.' (trim_end is_dot name))
    → parse_name lossy (pre ++ (enc ++ more)) (length pre)
      ≡ ok (read_as name, length pre + length enc)
unfolding parse_name encode_name encode_labels
parse_name-encode_name lossy name pre enc more h plain =
    let msg = pre ++ (enc ++ more) in
    let fits : length enc ≤ rounds_for msg =
      omega (arith, length-append pre (enc ++ more), length-append enc more) in
    elim (Bool-cases (is_empty (trim_end is_dot name))) [
      | inl root ↦
          rw root
            (read_labels lossy [] pre enc more (rounds_for msg) _ (rw root at h) tt fits refl refl)
      | inr named ↦ rw named (
          read_labels lossy (split b'.' (trim_end is_dot name)) pre enc more (rounds_for msg) _
            (rw named at h) plain fits refl refl
          ∙ ap (λ n. ok (n, length pre + length enc)) (join_labels-split (trim_end is_dot name)))
    ]
