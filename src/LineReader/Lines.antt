-- ===== src/LineReader/Lines.antt =====
-- The reader gives back the lines that the writer writes.
use desertemail.Prelude.{
  ltb_of_le, ℕ, zero, suc, ◌+◌, ◌≤◌, ◌≡◌, refl, ap, Bool, true, false, some, List, [], ◌∷◌, ◌++◌,
  arith, ◌==◌, All, length, is_empty, length-append, Bytes,
}
use mathlib.Core.Option
use desertemail.LineReader.{
  line, max_line_bytes, take_through, strip_ending, read_line, write_line, lines_from, read_lines,
}

-- A line that goes over a connection: no LF, valid, and not too long with its end.
pub record IsSendable (valid : Bytes → Bool) (l : Bytes) : Type 0 where
  pub one_line : All (λ c. c == b'\n' ≡ false) l
  pub text : valid (write_line l) ≡ true
  pub short : length (write_line l) ≤ max_line_bytes

-- the lines as `write_line` writes them, one after another
unfoldable pub write_all_lines : List Bytes → Bytes
write_all_lines [] = []
write_all_lines (l ∷ ls) = write_line l ++ write_all_lines ls

take_through-line :
    (l rest : Bytes)
    → All (λ c. c == b'\n' ≡ false) l
    → take_through (write_line l ++ rest) ≡ (write_line l, rest)
unfolding take_through
take_through-line [] rest h = refl
take_through-line (c ∷ l) rest h = rw (h.0) (rw (take_through-line l rest h.1) refl)

strip_ending-line : (l : Bytes) → strip_ending (write_line l) ≡ l
unfolding strip_ending
strip_ending-line [] = refl
strip_ending-line (c ∷ []) = refl
strip_ending-line (c ∷ d ∷ []) = refl
strip_ending-line (c ∷ d ∷ e ∷ l) = ap (◌∷◌ c) (strip_ending-line (d ∷ e ∷ l))

is_empty-line : (l rest : Bytes) → is_empty (write_line l ++ rest) ≡ false
is_empty-line [] rest = refl
is_empty-line (c ∷ l) rest = refl

read_line-write_line :
    (valid : Bytes → Bool) (l rest : Bytes)
    → IsSendable valid l
    → read_line valid (write_line l ++ rest) ≡ line l rest
unfolding read_line
read_line-write_line valid l rest h = rw (is_empty-line l rest) (
    rw (take_through-line l rest h.one_line) (
      rw (ltb_of_le max_line_bytes (length (write_line l)) h.short)
        (rw (h.text) (ap (λ x. line x rest) (strip_ending-line l)))))

length-write :
    (l : Bytes) (ls : List Bytes)
    → length (write_all_lines (l ∷ ls)) ≡ length l + 2 + length (write_all_lines ls)
unfolding write_all_lines
length-write l ls =
    rw (length-append (write_line l) (write_all_lines ls), length-append l (b'\r' ∷ b'\n' ∷ []))
      refl

lines_from-write :
    (valid : Bytes → Bool) (fuel : ℕ) (ls : List Bytes)
    → All (IsSendable valid) ls
    → length (write_all_lines ls) ≤ fuel
    → lines_from fuel valid (write_all_lines ls) ≡ some ls
unfolding lines_from write_all_lines
lines_from-write valid zero [] all h = refl
lines_from-write valid (suc fuel) [] all h = unfold read_line in refl
lines_from-write valid zero (l ∷ ls) all h = absurd (omega (arith, length-write l ls))
lines_from-write valid (suc fuel) (l ∷ ls) (one, all) h =
    rw (read_line-write_line valid l (write_all_lines ls) one, lines_from)
      (ap (Option.map (◌∷◌ l))
        (lines_from-write valid fuel ls all (omega (arith, length-write l ls))))

-- Lines that can be sent are read back as they were written, and nothing else.
pub read_lines-write :
    (valid : Bytes → Bool) (ls : List Bytes)
    → All (IsSendable valid) ls
    → read_lines valid (write_all_lines ls) ≡ some ls
unfolding read_lines
read_lines-write valid ls all =
    lines_from-write valid (length (write_all_lines ls)) ls all (omega arith)
