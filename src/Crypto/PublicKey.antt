-- ===== src/Crypto/PublicKey.antt =====
-- src/crypto.rs: the public key that `public_key_der` and `spki_der` write is read back by
-- `from_der`.
use desertemail.Prelude.{
  ℕ, ◌+◌, ◌-◌, ◌/◌, ◌^◌, ◌≤◌, ◌<◌, ◌≡◌, refl, sym, ap, ◌∙◌, false, none, some, [], ◌∷◌, ◌++◌, arith,
  ltb, if◌then◌else◌, ltb_of_le, length, length-append, Bytes,
}
use mathlib.Core.List.{append-nil}
use desertemail.Crypto.BigUint.{BigUint}
use desertemail.Crypto.Der.{
  encode_der_length, positive, der_tlv, encode_der_integer, expect_tag, read_integer, of_size,
  parse_rsa_public_key_der, parse_spki_rsa, or_parse, from_der, public_key_der, rsa_algorithm,
  spki_der,
}
use desertemail.Crypto.DerRoundTrip.{
  expect_tag-der_tlv, expect_tag-other, read_integer-encode_der_integer, length-der_tlv,
}
use desertemail.Crypto.Division.{bit_len}
use desertemail.Crypto.Octets.{to_be_bytes}
use desertemail.Crypto.Rsa.{RsaKey, RsaPublicKey}
use desertemail.Crypto.Value.{IsNormal}

-- a value with nothing behind it
expect_tag-whole :
    (tag : ℕ) (content : Bytes)
    → length content < 2 ^ 24
    → expect_tag tag (der_tlv tag content) ≡ some (content, [])
expect_tag-whole tag content h =
    ap (expect_tag tag) (sym (append-nil (der_tlv tag content)))
    ∙ expect_tag-der_tlv tag content [] h

read_integer-whole :
    (n : BigUint)
    → IsNormal n
    → length (encode_der_integer n) < 2 ^ 24
    → read_integer (encode_der_integer n) ≡ some (n, [])
read_integer-whole n h small =
    ap read_integer (sym (append-nil (encode_der_integer n)))
    ∙ read_integer-encode_der_integer n [] h small

-- a key whose writing fits the lengths
abbrev pub Fits : RsaKey → Type 0
Fits key = IsNormal (key.n) × IsNormal (key.e) × (length (public_key_der key) < 2 ^ 24 - 64)

abbrev public_body : RsaKey → Bytes
public_body key = encode_der_integer (key.n) ++ encode_der_integer (key.e)

body-Fits : (key : RsaKey) → Fits key → length (public_body key) < 2 ^ 24 - 64
unfolding public_key_der
body-Fits key (hn, he, small) = omega (arith, small, length-der_tlv 0x30 (public_body key))

parse_rsa-public_key :
    (key : RsaKey)
    → Fits key
    → parse_rsa_public_key_der (public_key_der key) ≡ of_size (key.n) (key.e)
unfolding parse_rsa_public_key_der public_key_der
parse_rsa-public_key key (hn, he, small) =
    let body = body-Fits key (hn, he, small) in
    let both = length-append (encode_der_integer (key.n)) (encode_der_integer (key.e)) in
    rw
      (
        expect_tag-whole 0x30 (public_body key) (omega (arith, body)),
        read_integer-encode_der_integer (key.n) (encode_der_integer (key.e)) hn
            (omega (arith, body, both)),
        read_integer-whole (key.e) he (omega (arith, body, both)),
      )
      refl

not_sequence :
    (n : BigUint) (rest : Bytes)
    → length (encode_der_integer n) < 2 ^ 24
    → expect_tag 0x30 (encode_der_integer n ++ rest) ≡ none
unfolding encode_der_integer
not_sequence n rest h =
    expect_tag-other 0x30 0x02 (positive (to_be_bytes n)) rest
      (omega (arith, h, length-der_tlv 0x02 (positive (to_be_bytes n)))) refl

-- a value of more than three bytes of length takes five more bytes at most
length-der_tlv_le : (tag : ℕ) (content : Bytes) → length (der_tlv tag content) ≤ length content + 5
unfolding der_tlv encode_der_length
length-der_tlv_le tag content =
    let total = length-append (encode_der_length (length content)) content in
    omega (arith, total, short (length content))
  where
    short : (len : ℕ) → length (encode_der_length len) ≤ 4
    short len = ground arith

-- As SubjectPublicKeyInfo it is refused: its first element is an INTEGER.
parse_spki-public_key : (key : RsaKey) → Fits key → parse_spki_rsa (public_key_der key) ≡ none
unfolding parse_spki_rsa public_key_der
parse_spki-public_key key (hn, he, small) =
    let body = body-Fits key (hn, he, small) in
    rw
      (
        expect_tag-whole 0x30 (public_body key) (omega (arith, body)),
        not_sequence (key.n) (encode_der_integer (key.e)) (
            omega (
              arith,
              body,
              length-append (encode_der_integer (key.n)) (encode_der_integer (key.e)),
            )),
      )
      refl

parse_spki-spki :
    (key : RsaKey) → Fits key → parse_spki_rsa (spki_der key) ≡ of_size (key.n) (key.e)
unfolding parse_spki_rsa spki_der
parse_spki-spki key (hn, he, small) =
    rw
      (
        expect_tag-whole 0x30
            (der_tlv 0x30 rsa_algorithm ++ der_tlv 0x03 (0x00 ∷ public_key_der key))
            (omega (
              arith,
              small,
              length-append (der_tlv 0x30 rsa_algorithm) (der_tlv 0x03 (0x00 ∷ public_key_der key)),
              length-der_tlv_le 0x30 rsa_algorithm,
              length-der_tlv_le 0x03 (0x00 ∷ public_key_der key),
            )),
        expect_tag-der_tlv 0x30 rsa_algorithm (der_tlv 0x03 (0x00 ∷ public_key_der key))
            (omega arith),
        expect_tag-whole 0x03 (0x00 ∷ public_key_der key) (omega (arith, small)),
      )
      (parse_rsa-public_key key (hn, he, small))

-- For a modulus and an exponent in the normal form, the modulus of 64 bytes at least, and a writing
-- shorter than 2^24 - 64 bytes: `from_der` reads the key back from both of its writings, the plain
-- one, which it takes for no SubjectPublicKeyInfo, and the SubjectPublicKeyInfo.
pub from_der-written :
    (key : RsaKey)
    → Fits key
    → 64 ≤ (bit_len (key.n) + 7) / 8
    → (pk : RsaPublicKey) × (from_der (public_key_der key) ≡ some pk)
      × (from_der (spki_der key) ≡ some pk)
      × (pk.modulus ≡ key.n)
      × (pk.exponent ≡ key.e)
unfolding from_der
from_der-written key fits large =
    let sized : ltb ((bit_len (key.n) + 7) / 8) 64 ≡ false = ltb_of_le _ 64 large in
    let made = ap (λ b. if b then none else some (key_of key)) sized in
    (
      key_of key,
      ap (λ o. or_parse o (public_key_der key)) (parse_spki-public_key key fits)
          ∙ (parse_rsa-public_key key fits ∙ made),
      ap (λ o. or_parse o (spki_der key)) (parse_spki-spki key fits ∙ made),
      refl,
      refl,
    )
  where
    key_of : RsaKey → RsaPublicKey
    key_of key = record { modulus = key.n; exponent = key.e; size = (bit_len (key.n) + 7) / 8 }
