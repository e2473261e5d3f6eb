-- ===== src/Crypto/Der.antt =====
-- src/crypto.rs: DER written and read, and the public keys in it. A `DerReader` is its bytes from
-- `pos` on; an error of the source is `none`, without its text.
use desertemail.Prelude.{
  ℕ, ◌+◌, ◌*◌, ◌/◌, ◌%◌, ◌^◌, not, ◌||◌, Option, none, some, [], ◌∷◌, ◌++◌, ltb, leb, ◌==◌,
  if◌then◌else◌, length, take, drop, Bytes,
}
use Prim.Native.Nat.{bit_or}
use desertemail.Crypto.BigUint.{BigUint}
use desertemail.Crypto.Division.{◌>>=◌, bit_len}
use desertemail.Crypto.Octets.{from_be_bytes, to_be_bytes, strip_zeros}
use desertemail.Crypto.Rsa.{RsaKey, RsaPublicKey}

-- Three bytes of length are the most: a longer value loses the top of its length.
unfoldable pub encode_der_length : ℕ → Bytes
encode_der_length len =
    if ltb len 0x80
    then len % 256 ∷ []
    else if leb len 0xff
    then 0x81 ∷ len % 256 ∷ []
    else if leb len 0xffff
    then 0x82 ∷ len / 2 ^ 8 % 256 ∷ len % 256 ∷ []
    else 0x83 ∷ len / 2 ^ 16 % 256 ∷ len / 2 ^ 8 % 256 ∷ len % 256 ∷ []

unfoldable pub der_tlv : ℕ → Bytes → Bytes
unfolding encode_der_length
der_tlv tag content = tag ∷ (encode_der_length (length content) ++ content)

-- a zero in front of a byte with the high bit
abbrev pub positive : Bytes → Bytes
positive [] = []
positive (b ∷ bs) = if b / 2 ^ 7 % 2 == 1 then 0 ∷ b ∷ bs else b ∷ bs

unfoldable pub encode_der_integer : BigUint → Bytes
unfolding der_tlv to_be_bytes
encode_der_integer n = der_tlv 0x02 (positive (to_be_bytes n))

abbrev pub DerReader : Type 0
DerReader = Bytes

unfoldable pub length_from : ℕ → Bytes → ℕ
length_from l [] = l
length_from l (b ∷ bs) = length_from (bit_or (l * 2 ^ 8 % 2 ^ 64) b) bs

abbrev pub with_length : ℕ → ℕ → DerReader → Option (ℕ × ℕ × DerReader)
with_length tag len r = if ltb (length r) len then none else some (tag, len, r)

unfoldable pub read_tag_len : DerReader → Option (ℕ × ℕ × DerReader)
unfolding length_from
read_tag_len [] = none
read_tag_len (tag ∷ []) = none
read_tag_len (tag ∷ first ∷ r) =
    let n = first % 128 in
    if ltb first 0x80
    then with_length tag first r
    else if n == 0 || ltb 4 n || ltb (length r) n
    then none
    else with_length tag (length_from 0 (take n r)) (drop n r)

abbrev pub cut_value : ℕ → ℕ × ℕ × DerReader → Option (Bytes × DerReader)
cut_value want (tag, len, r) = if not (tag == want) then none else some (take len r, drop len r)

unfoldable pub expect_tag : ℕ → DerReader → Option (Bytes × DerReader)
unfolding read_tag_len
expect_tag want r = read_tag_len r >>= cut_value want

abbrev pub integer_of : Bytes × DerReader → Option (BigUint × DerReader)
integer_of (bytes, r) = some (from_be_bytes (strip_zeros 1 bytes), r)

unfoldable pub read_integer : DerReader → Option (BigUint × DerReader)
unfolding expect_tag from_be_bytes strip_zeros
read_integer r = expect_tag 0x02 r >>= integer_of

abbrev pub enter_sequence : DerReader → Option (DerReader × DerReader)
enter_sequence r = expect_tag 0x30 r

abbrev pub of_size : BigUint → BigUint → Option RsaPublicKey
of_size n e =
    let k = (bit_len n + 7) / 8 in
    if ltb k 64 then none else some (record { modulus = n; exponent = e; size = k })

unfoldable pub parse_rsa_public_key_der : Bytes → Option RsaPublicKey
unfolding read_integer bit_len
parse_rsa_public_key_der der = do
  (seq, _) ← enter_sequence der
  (n, after_n) ← read_integer seq
  (e, _) ← read_integer after_n
  of_size n e

-- the first byte of the BIT STRING, the number of unused bits, is passed over
abbrev pub bit_string_key : Bytes → Option RsaPublicKey
bit_string_key [] = none
bit_string_key (unused ∷ key_der) = parse_rsa_public_key_der key_der

unfoldable pub parse_spki_rsa : Bytes → Option RsaPublicKey
unfolding parse_rsa_public_key_der
parse_spki_rsa der = do
  (seq, _) ← enter_sequence der
  (_, after_alg) ← expect_tag 0x30 seq
  (bits, _) ← expect_tag 0x03 after_alg
  bit_string_key bits

abbrev pub or_parse : Option RsaPublicKey → Bytes → Option RsaPublicKey
or_parse none der = parse_rsa_public_key_der der
or_parse (some pk) der = some pk

unfoldable pub from_der : Bytes → Option RsaPublicKey
unfolding parse_spki_rsa
from_der der = or_parse (parse_spki_rsa der) der

unfoldable pub public_key_der : RsaKey → Bytes
unfolding encode_der_integer
public_key_der key = der_tlv 0x30 (encode_der_integer (key.n) ++ encode_der_integer (key.e))

-- rsaEncryption and NULL
abbrev pub rsa_algorithm : Bytes
rsa_algorithm =
    0x06 ∷ 0x09 ∷ 0x2a ∷ 0x86 ∷ 0x48 ∷ 0x86 ∷ 0xf7 ∷ 0x0d ∷ 0x01 ∷ 0x01 ∷ 0x01 ∷ 0x05 ∷ 0x00 ∷ []

unfoldable pub spki_der : RsaKey → Bytes
unfolding public_key_der
spki_der key = der_tlv 0x30 (der_tlv 0x30 rsa_algorithm ++ der_tlv 0x03 (0x00 ∷ public_key_der key))
