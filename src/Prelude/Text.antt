-- ===== src/Prelude/Text.antt =====
-- Texts as their bytes: `&str`, `String` and `&[u8]` of the source. Where the source lower-cases
-- or trims by Unicode's tables, the functions here are exact on ASCII.
use Prim.Native.Nat.{ℕ, ◌+◌, ◌-◌, ◌*◌}
use Prim.Native.Char.{code}
use Prim.Native.String.{String}
use mathlib.Core.Bool.{Bool, true, false, ◌&&◌, ◌||◌}
use mathlib.Core.List.{List, [], ◌∷◌, ◌++◌, map, append-nil, append_assoc}
use mathlib.Core.Logic.{◌↔◌, ◌≢◌}
use mathlib.Core.Option.{Option, none, some}
use mathlib.Core.Path.{◌≡◌, refl, sym, ap, ◌∙◌}
use native.Mathlib.Omega.{arith}
use desertemail.Prelude.Lists.{All}
use desertemail.Prelude.Tests.{leb, ◌==◌, if◌then◌else◌}

abbrev pub Bytes : Type 0
Bytes = List ℕ

abbrev pub codes : String → Bytes
codes String.[] = []
codes (String.◌∷◌ c s) = code c ∷ codes s

-- `==` on texts
unfoldable pub bytes_eq : Bytes → Bytes → Bool
bytes_eq [] [] = true
bytes_eq (x ∷ xs) (y ∷ ys) = x == y && bytes_eq xs ys
bytes_eq _ _ = false

pub bytes_eq_iff : (a b : Bytes) → (bytes_eq a b ≡ true) ↔ (a ≡ b)
unfolding bytes_eq
bytes_eq_iff (x ∷ a) (y ∷ b) = ground (arith, bytes_eq_iff a b)
bytes_eq_iff _ _ = ground arith

pub bytes_eq_refl : (a : Bytes) → bytes_eq a a ≡ true
bytes_eq_refl a = (bytes_eq_iff a a).1 refl

-- `to_ascii_lowercase` of one byte
abbrev pub lower_byte : ℕ → ℕ
lower_byte c = if leb b'A' c && leb c b'Z' then c + 32 else c

unfoldable pub to_lowercase : Bytes → Bytes
to_lowercase = map lower_byte

-- `char::is_whitespace` on ASCII: tab to carriage return, and space
abbrev pub is_whitespace : ℕ → Bool
is_whitespace c = (leb 9 c && leb c 13) || c == b' '

unfoldable pub trim_start : (ℕ → Bool) → Bytes → Bytes
trim_start p [] = []
trim_start p (c ∷ cs) = let rest = trim_start p cs in if p c then rest else c ∷ cs

unfoldable pub trim_end : (ℕ → Bool) → Bytes → Bytes
trim_end p [] = []
trim_end p (c ∷ cs) = elim (trim_end p cs) [ [] ↦ if p c then [] else c ∷ [] | x ∷ r ↦ c ∷ x ∷ r ]

-- `trim_matches`; `trim` is this at `is_whitespace`
unfoldable pub trim_matches : (ℕ → Bool) → Bytes → Bytes
unfolding trim_start trim_end
trim_matches p s = trim_end p (trim_start p s)

-- `strip_prefix`
unfoldable pub strip_prefix : Bytes → Bytes → Option Bytes
strip_prefix [] s = some s
strip_prefix (p ∷ ps) [] = none
strip_prefix (p ∷ ps) (c ∷ cs) = let rest = strip_prefix ps cs in if p == c then rest else none

unfoldable pub starts_with : Bytes → Bytes → Bool
unfolding strip_prefix
starts_with p s = elim (strip_prefix p s) [ none ↦ false | some _ ↦ true ]

-- `s.find(c)` with the slices on both sides of the byte found
unfoldable pub split_once : ℕ → Bytes → Option (Bytes × Bytes)
split_once c [] = none
split_once c (x ∷ xs) =
    let rest = split_once c xs in
    if x == c then some ([], xs) else elim rest [ none ↦ none | some (l, r) ↦ some (x ∷ l, r) ]

-- `split(c)`: the first piece and the others; always at least one piece
abbrev pub push_piece : ℕ → List Bytes → List Bytes
push_piece x [] = (x ∷ []) ∷ []
push_piece x (p ∷ ps) = (x ∷ p) ∷ ps

unfoldable pub split : ℕ → Bytes → List Bytes
split c [] = [] ∷ []
split c (x ∷ xs) = let rest = split c xs in if x == c then [] ∷ rest else push_piece x rest

-- `join`
unfoldable pub join : Bytes → List Bytes → Bytes
join sep [] = []
join sep (p ∷ []) = p
join sep (p ∷ q ∷ ps) = p ++ (sep ++ join sep (q ∷ ps))

-- The words of a text: `split_whitespace`. `word` is what has been read of the current one.
abbrev flush : Bytes → List Bytes → List Bytes
flush [] rest = rest
flush (c ∷ cs) rest = (c ∷ cs) ∷ rest

words_from : Bytes → Bytes → List Bytes
words_from word [] = flush word []
words_from word (c ∷ cs) =
    let blank = is_whitespace c in
    let rest = words_from (if blank then [] else word ++ c ∷ []) cs in
    if blank then flush word rest else rest

unfoldable pub split_whitespace : Bytes → List Bytes
unfolding words_from
split_whitespace = words_from []

words_from-word :
    (word ds rest : Bytes)
    → word ≢ []
    → All (λ c. is_whitespace c ≡ false) ds
    → words_from word (ds ++ b' ' ∷ rest) ≡ (word ++ ds) ∷ words_from [] rest
unfolding words_from
words_from-word [] [] rest ne h = absurd (ne refl)
words_from-word (w ∷ ws) [] rest ne h = ap (λ x. (w ∷ x) ∷ words_from [] rest) (sym (append-nil ws))
words_from-word word (d ∷ ds) rest ne h = rw (h.0) (
    words_from-word (word ++ d ∷ []) ds rest (snoc-ne-nil word d) h.1
    ∙ ap (λ x. x ∷ words_from [] rest) (append_assoc word (d ∷ []) ds))
  where
    snoc-ne-nil : (xs : Bytes) (x : ℕ) → (xs ++ x ∷ []) ≢ []
    snoc-ne-nil [] x e = cc
    snoc-ne-nil (y ∷ ys) x e = cc

-- the first word of a text, and the words behind it
pub split_whitespace-word :
    (ds rest : Bytes)
    → ds ≢ []
    → All (λ c. is_whitespace c ≡ false) ds
    → split_whitespace (ds ++ b' ' ∷ rest) ≡ ds ∷ split_whitespace rest
unfolding split_whitespace words_from
split_whitespace-word [] rest ne h = absurd (ne refl)
split_whitespace-word (d ∷ ds) rest ne h = rw (h.0) (words_from-word (d ∷ []) ds rest (λ e. cc) h.1)

abbrev pub is_digit : ℕ → Bool
is_digit c = leb b'0' c && leb c b'9'

unfoldable pub digits_from : ℕ → Bytes → Option ℕ
digits_from n [] = some n
digits_from n (c ∷ cs) =
    let rest = digits_from (n * 10 + (c - b'0')) cs in if is_digit c then rest else none

abbrev pub at_most : ℕ → Option ℕ → Option ℕ
at_most limit none = none
at_most limit (some n) = if leb n limit then some n else none

-- one digit at least
abbrev pub all_digits : Bytes → Option ℕ
all_digits [] = none
all_digits (c ∷ cs) = digits_from 0 (c ∷ cs)

-- `parse` of an unsigned type with the largest value `limit`: digits, one `+` allowed before them
unfoldable pub parse_unsigned : ℕ → Bytes → Option ℕ
unfolding digits_from
parse_unsigned limit [] = none
parse_unsigned limit (c ∷ cs) =
    at_most limit (if c == b'+' then all_digits cs else all_digits (c ∷ cs))

abbrev pub upper_byte : ℕ → ℕ
upper_byte c = if leb b'a' c && leb c b'z' then c - 32 else c

-- `to_uppercase`, exact on ASCII
unfoldable pub to_uppercase : Bytes → Bytes
to_uppercase = map upper_byte
