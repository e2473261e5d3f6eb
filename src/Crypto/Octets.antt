-- ===== src/Crypto/Octets.antt =====
-- src/crypto.rs: `from_be_bytes`, `to_be_bytes` and `to_be_bytes_padded` of `BigUint`.
use desertemail.Prelude.{
  ℕ, zero, suc, ◌-◌, ◌*◌, ◌/◌, ◌%◌, ◌^◌, ◌&&◌, List, [], ◌∷◌, ◌++◌, ltb, ◌==◌, if◌then◌else◌,
  length, take, drop, is_empty, Bytes,
}
use Prim.Native.Nat.{bit_or}
use desertemail.Crypto.BigUint.{BigUint, normalize, zero_uint, is_zero, zeros}

-- the bytes of one slice taken up into a u32
unfoldable pub word_from : ℕ → Bytes → ℕ
word_from val [] = val
word_from val (b ∷ bs) = word_from (bit_or (val * 2 ^ 8 % 2 ^ 32) b) bs

-- The slices of four bytes that end at `i`, the last one first; the fuel is the number of bytes.
unfoldable pub limbs_from : ℕ → Bytes → ℕ → List ℕ
unfolding word_from
limbs_from zero bytes i = []
limbs_from (suc fuel) bytes i =
    let rest = limbs_from fuel bytes (i - 4) in
    if i == 0 then [] else word_from 0 (take (i - (i - 4)) (drop (i - 4) bytes)) ∷ rest

unfoldable pub from_be_bytes : Bytes → BigUint
unfolding limbs_from normalize
from_be_bytes bytes =
    if is_empty bytes then zero_uint else normalize (limbs_from (length bytes) bytes (length bytes))

-- `to_be_bytes` of a u32
abbrev pub limb_bytes : ℕ → Bytes
limb_bytes l = l / 2 ^ 24 % 256 ∷ l / 2 ^ 16 % 256 ∷ l / 2 ^ 8 % 256 ∷ l % 256 ∷ []

-- the top limb without its leading zeros
abbrev pub top_bytes : ℕ → Bytes
top_bytes l =
    if ltb 0xffffff l
    then limb_bytes l
    else if ltb 0xffff l
    then l / 2 ^ 16 % 256 ∷ l / 2 ^ 8 % 256 ∷ l % 256 ∷ []
    else if ltb 0xff l
    then l / 2 ^ 8 % 256 ∷ l % 256 ∷ []
    else l % 256 ∷ []

unfoldable pub bytes_of : List ℕ → Bytes
bytes_of [] = []
bytes_of (l ∷ []) = top_bytes l
bytes_of (l ∷ x ∷ r) = bytes_of (x ∷ r) ++ limb_bytes l

unfoldable pub to_be_bytes : BigUint → Bytes
unfolding bytes_of
to_be_bytes x = if is_zero x then 0 ∷ [] else bytes_of (x.limbs)

-- zeros in front go while there are more bytes than `width`
unfoldable pub strip_zeros : ℕ → Bytes → Bytes
strip_zeros width [] = []
strip_zeros width (b ∷ bs) =
    let rest = strip_zeros width bs in
    if ltb width (length (b ∷ bs)) && b == 0 then rest else b ∷ bs

abbrev pub pad_to : ℕ → Bytes → Bytes
pad_to width raw =
    if ltb width (length raw)
    then drop (length raw - width) raw
    else zeros (width - length raw) ++ raw

unfoldable pub to_be_bytes_padded : BigUint → ℕ → Bytes
unfolding to_be_bytes strip_zeros zeros
to_be_bytes_padded x width = pad_to width (strip_zeros width (to_be_bytes x))
