-- ===== src/Smtp/Headers.antt =====
-- src/smtp.rs: the address of a command, and the count of the `Received:` headers.
use desertemail.Prelude.{
  ℕ, ◌+◌, Bool, ◌||◌, Option, none, some, List, [], ◌∷◌, ◌==◌, if◌then◌else◌, Bytes, codes,
  to_lowercase, is_whitespace, trim_start, trim_matches, starts_with, split_once, split, get_or,
}

abbrev is_angle : ℕ → Bool
is_angle c = c == b'<' || c == b'>'

-- what stands behind the first `<`, up to the next `>`
abbrev in_angles : Option (Bytes × Bytes) → Option Bytes
in_angles none = none
in_angles (some (_, rest)) = elim (split_once b'>' rest) [
  | none ↦ none
  | some (inner, _) ↦ some inner
]

abbrev after_colon : Option (Bytes × Bytes) → Bytes
after_colon none = []
after_colon (some (_, rest)) = trim_matches is_angle (trim_matches is_whitespace rest)

unfoldable pub extract_angle : Bytes → Bytes
extract_angle line = elim (in_angles (split_once b'<' line)) [
  | some inner ↦ trim_matches is_whitespace inner
  | none ↦ after_colon (split_once b':' line)
]

-- `raw.windows(n).position(..)` and the slice before it; `none` if it does not occur
unfoldable pub before : Bytes → Bytes → Option Bytes
before pattern [] = none
before pattern (c ∷ cs) =
    let rest = before pattern cs in
    if starts_with pattern (c ∷ cs)
    then some []
    else elim rest [ none ↦ none | some p ↦ some (c ∷ p) ]

-- the header section: to the first CRLF CRLF, else to the first LF LF, else all
unfoldable pub header_section : Bytes → Bytes
header_section raw = get_or (before (codes "\r\n\r\n") raw) (get_or (before (codes "\n\n") raw) raw)

abbrev is_wsp : ℕ → Bool
is_wsp c = c == b' ' || c == b'\t'

-- a line without one CR at its end
unfoldable pub strip_cr : Bytes → Bytes
strip_cr [] = []
strip_cr (c ∷ []) = if c == b'\r' then [] else c ∷ []
strip_cr (c ∷ d ∷ cs) = c ∷ strip_cr (d ∷ cs)

unfoldable pub is_received : Bytes → Bool
is_received line =
    starts_with (codes "received:") (to_lowercase (trim_start is_wsp (strip_cr line)))

abbrev pub count_lines : (Bytes → Bool) → List Bytes → ℕ
count_lines p [] = 0
count_lines p (l ∷ ls) = (if p l then 1 else 0) + count_lines p ls

unfoldable pub count_received_headers : Bytes → ℕ
count_received_headers raw = count_lines is_received (split b'\n' (header_section raw))
