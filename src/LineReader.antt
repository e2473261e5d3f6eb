-- ===== src/LineReader.antt =====
-- src/util.rs: `read_line` and `write_line`, the lines of every protocol. The bytes still to come on a
-- connection are a list; how they arrive in pieces makes no difference, since the reader keeps what it
-- has buffered. The check of `String::from_utf8` is the parameter `valid`.
pub mod Lines
mod Examples
use mathlib.Core.Option
use desertemail.Prelude.{
  ℕ, zero, suc, ◌+◌, ◌-◌, ◌*◌, ◌/◌, ◌%◌, ◌^◌, ◌≤◌, ◌<◌, min, max, ◌≡◌, refl, sym, ap, ◌∙◌, ◌≢◌, ◌↔◌,
  ◌⊎◌, inl, inr, Bool, true, false, not, ◌&&◌, ◌||◌, Option, none, some, List, [], ◌∷◌, ◌++◌, map,
  arith, ltb, leb, ◌==◌, if◌then◌else◌, Bool-cases, Option-cases, ltb→lt, lt→ltb, le→leb, leb→le,
  ==_refl, u64_max, saturating_add, if-all, All, All-append, length, get_elem?, take, drop, retain,
  any, is_empty, length-append, retain-append, retain-All, take-length_append, drop-length_append,
  get_elem?-length_append, get_elem?-some, get_elem?-none, length-take, length-drop,
  take-drop_append, Bytes, codes, bytes_eq, bytes_eq_iff, bytes_eq_refl, lower_byte, to_lowercase,
  is_whitespace, trim_start, trim_end, trim_matches, strip_prefix, starts_with, split_once,
  push_piece, split, join, split_whitespace, is_digit, digits_from, at_most, all_digits,
  parse_unsigned, upper_byte, to_uppercase, Map, empty, insert, remove, get_or, filter_value,
  retain_values, push_piece-ne-nil, split-ne-nil, join-split, decimal_from, decimal, decimal_digits,
  parse_unsigned-decimal,
}

abbrev pub max_line_bytes : ℕ
max_line_bytes = 1024 * 1024

-- `failed` is an error, after which the caller drops the connection.
pub data Line : Type 0 where
  eof failed : Line
  line : Bytes → Bytes → Line

-- the bytes through the first LF, and those behind it
unfoldable pub take_through : Bytes → Bytes × Bytes
take_through [] = ([], [])
take_through (c ∷ cs) =
    let (front, rest) = take_through cs in if c == b'\n' then (c ∷ [], cs) else (c ∷ front, rest)

-- without one CR LF or LF at the end
unfoldable pub strip_ending : Bytes → Bytes
strip_ending [] = []
strip_ending (c ∷ []) = if c == b'\n' then [] else c ∷ []
strip_ending (c ∷ d ∷ []) = if d == b'\n' then (if c == b'\r' then [] else c ∷ []) else c ∷ d ∷ []
strip_ending (c ∷ d ∷ e ∷ cs) = c ∷ strip_ending (d ∷ e ∷ cs)

abbrev accept_line : (Bytes → Bool) → Bytes × Bytes → Line
accept_line valid (buf, rest) =
    if ltb max_line_bytes (length buf)
    then failed
    else if valid buf
    then line (strip_ending buf) rest
    else failed

unfoldable pub read_line : (Bytes → Bool) → Bytes → Line
unfolding take_through strip_ending
read_line valid input = if is_empty input then eof else accept_line valid (take_through input)

abbrev pub write_line : Bytes → Bytes
write_line s = s ++ b'\r' ∷ b'\n' ∷ []

-- All lines to the end of the connection; `none` if the reader fails. Each takes a byte at least.
unfoldable pub lines_from : ℕ → (Bytes → Bool) → Bytes → Option (List Bytes)
lines_from zero valid input = some []
lines_from (suc fuel) valid input = elim (read_line valid input) [
  | eof ↦ some []
  | failed ↦ none
  | line l rest ↦ Option.map (◌∷◌ l) (lines_from fuel valid rest)
]

unfoldable pub read_lines : (Bytes → Bool) → Bytes → Option (List Bytes)
unfolding lines_from
read_lines valid input = lines_from (length input) valid input
