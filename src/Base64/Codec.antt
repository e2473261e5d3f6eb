-- ===== src/Base64/Codec.antt =====
-- src/util.rs: `base64_decode` and `base64_encode`.
use desertemail.Prelude.{
  ℕ, suc, ◌+◌, ◌-◌, ◌*◌, ◌/◌, ◌%◌, ◌^◌, true, false, Option, none, some, [], ◌∷◌, leb, ◌==◌,
  if◌then◌else◌, get_elem?, Bytes, codes, get_or,
}

abbrev pub table : Bytes
table = codes "ABCDEFGHIJKLMNOPQRSTUVWXYZabcdefghijklmnopqrstuvwxyz0123456789+/"

-- `TABLE.iter().position(..)`
unfoldable pub position : ℕ → Bytes → Option ℕ
position c [] = none
position c (x ∷ xs) =
    let rest = position c xs in
    if x == c then some 0 else elim rest [ none ↦ none | some i ↦ some (suc i) ]

-- what the loop makes of a character: `=` ends it, one that is not in the table is passed over
pub data Symbol : Type 0 where
  pad foreign : Symbol
  value : ℕ → Symbol

abbrev of_position : Option ℕ → Symbol
of_position none = foreign
of_position (some i) = value i

unfoldable pub classify : ℕ → Symbol
unfolding position
classify c = if c == b'=' then pad else of_position (position c table)

-- One character of 6 bits: a byte is pushed when 8 bits are there.
unfoldable pub decode_from : Bytes → ℕ → ℕ → Bytes
decode_from [] buf bits = []
decode_from (c ∷ cs) buf bits = elim (classify c) [
  | pad ↦ []
  | foreign ↦ decode_from cs buf bits
  | value val ↦ elim (leb 8 (bits + 6)) [
    | true ↦
        (buf * 64 + val) / 2 ^ (bits + 6 - 8) % 256
        ∷ decode_from cs ((buf * 64 + val) % 2 ^ (bits + 6 - 8)) (bits + 6 - 8)
    | false ↦ decode_from cs (buf * 64 + val) (bits + 6)
  ]
]

unfoldable pub base64_decode : Bytes → Bytes
base64_decode input = decode_from input 0 0

unfoldable pub char_at : ℕ → ℕ
char_at i = get_or (get_elem? table i) 0

-- `chunks(3)`: of a short chunk, as many characters as its bits need, then `=`
unfoldable pub base64_encode : Bytes → Bytes
base64_encode [] = []
base64_encode (a ∷ []) = char_at (a / 4) ∷ char_at (a % 4 * 16) ∷ b'=' ∷ b'=' ∷ []
base64_encode (a ∷ b ∷ []) =
    char_at (a / 4) ∷ char_at (a % 4 * 16 + b / 16) ∷ char_at (b % 16 * 4) ∷ b'=' ∷ []
base64_encode (a ∷ b ∷ c ∷ rest) =
    char_at (a / 4)
    ∷ char_at (a % 4 * 16 + b / 16)
    ∷ char_at (b % 16 * 4 + c / 64)
    ∷ char_at (c % 64)
    ∷ base64_encode rest
