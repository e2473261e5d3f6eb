-- ===== src/Crypto/Examples.antt =====
-- Numbers of several limbs, and a key of 512 bits whose exponents are both 1.
use desertemail.Prelude.{
  ℕ, zero, suc, ◌*◌, ◌/◌, ◌%◌, ◌^◌, ◌<◌, ◌≡◌, refl, ap, ◌∙◌, ◌↔◌, inl, inr, true, none, some, List,
  [], ◌∷◌, arith, Bytes, codes, bytes_eq, bytes_eq_iff,
}
use native.Mathlib.Nat.{mod-eq_of_lt}
use desertemail.Crypto.BigUint.{
  BigUint, from_u32, normalize, drop_zeros, cmp_limbs, sub_limbs, sub, add, add_limbs, mul, mul_row,
  mul_rows, carry_on, push_carry, zeros, all_zero,
}
use desertemail.Crypto.Congruence.{pow_one}
use desertemail.Crypto.Der.{
  public_key_der, spki_der, from_der, encode_der_integer, der_tlv, encode_der_length,
}
use desertemail.Crypto.Division.{
  div_rem, modpow, bit_len, bits_within, divide_bits, divide_bit, shl, shl_limbs, shr1, shr_limbs,
  set_bit, or_limb, div_rem_u32, div_limbs, power_rounds,
}
use desertemail.Crypto.Inverse.{mod_inverse, euclid, signed_sub}
use desertemail.Crypto.Invert.{Inverts, mod_inverse-Inverts}
use desertemail.Crypto.Octets.{to_be_bytes, bytes_of}
use desertemail.Crypto.OctetValue.{AreBytes}
use desertemail.Crypto.Powers.{modpow-power}
use desertemail.Crypto.Products.{mul-product}
use desertemail.Crypto.PublicKey.{from_der-written}
use desertemail.Crypto.Quotients.{div_rem-quotient}
use desertemail.Crypto.Rsa.{
  RsaKey, RsaPublicKey, signature, verify_sha256_modpow, sign_sha256_modpow,
}
use desertemail.Crypto.Signature.{Accepts, verify_sha256_modpow_iff, verify_sha256_modpow-sign}
use desertemail.Crypto.Value.{limbs_value, value, IsBounded, IsNormal, top_limb}

abbrev large : BigUint
large = record { limbs = 7 ∷ 4294967295 ∷ 5 ∷ [] }

abbrev two_limbs : BigUint
two_limbs = record { limbs = 3 ∷ 2 ∷ [] }

large-IsBounded : IsBounded large
large-IsBounded = (omega arith, (omega arith, (omega arith, tt)))

two_limbs-IsBounded : IsBounded two_limbs
two_limbs-IsBounded = (omega arith, (omega arith, tt))

two_limbs-IsNormal : IsNormal two_limbs
unfolding top_limb
two_limbs-IsNormal = (two_limbs-IsBounded, omega arith, inr (omega arith))

product_carries : (mul large two_limbs).limbs ≡ 21 ∷ 11 ∷ 16 ∷ 12 ∷ []
unfolding mul mul_rows mul_row carry_on push_carry zeros normalize drop_zeros all_zero
product_carries = refl

mul-product_example :
    (value (mul large two_limbs) ≡ value large * value two_limbs) × IsNormal (mul large two_limbs)
mul-product_example = mul-product large two_limbs large-IsBounded two_limbs-IsBounded

-- 2 ^ 10 modulo 1000
power_of_two : modpow (from_u32 2) (from_u32 10) (from_u32 1000) ≡ some (from_u32 24)
unfolding modpow power_rounds bit_len bits_within top_limb div_rem div_rem_u32 div_limbs mul
    mul_rows mul_row carry_on push_carry zeros normalize drop_zeros all_zero cmp_limbs
power_of_two = refl

one_limb-IsNormal : (l : ℕ) → l < 2 ^ 32 → IsNormal (from_u32 l)
one_limb-IsNormal l h = ((h, tt), omega arith, inl refl)

modpow-power_example :
    (r : BigUint) × (modpow large (from_u32 65537) two_limbs ≡ some r)
    × (value r ≡ value large ^ value (from_u32 65537) % value two_limbs)
    × IsBounded r
unfolding limbs_value
modpow-power_example =
    modpow-power large (from_u32 65537) two_limbs large-IsBounded (omega arith, tt)
      two_limbs-IsNormal (omega arith)

-- the long division, its quotient of two limbs
divides :
    div_rem large two_limbs
    ≡ some (record { limbs = 4294967291 ∷ 2 ∷ [] }, record { limbs = 22 ∷ [] })
unfolding div_rem divide_bits divide_bit shl shl_limbs shr1 shr_limbs set_bit or_limb bit_len
    bits_within top_limb div_rem_u32 div_limbs sub sub_limbs zeros normalize drop_zeros all_zero
    cmp_limbs
divides = refl

div_rem-quotient_example :
    (q : BigUint) × (r : BigUint) × (div_rem large two_limbs ≡ some (q, r))
    × (value q ≡ value large / value two_limbs)
    × (value r ≡ value large % value two_limbs)
    × IsBounded q
    × IsBounded r
unfolding limbs_value
div_rem-quotient_example =
    div_rem-quotient large two_limbs large-IsBounded two_limbs-IsNormal (omega arith)

-- 3 times 5 is 1 modulo 7, and 6 has no inverse modulo 9
inverts :
    (mod_inverse 7 (from_u32 3) (from_u32 7) ≡ some (some (from_u32 5)))
    × (mod_inverse 9 (from_u32 6) (from_u32 9) ≡ some none)
unfolding mod_inverse euclid signed_sub div_rem divide_bits divide_bit shl shr1 set_bit bit_len
    bits_within top_limb div_rem_u32 div_limbs mul mul_rows mul_row carry_on push_carry sub
    sub_limbs add add_limbs zeros normalize drop_zeros all_zero cmp_limbs
inverts = (refl, refl)

mod_inverse-Inverts_example :
    Inverts (from_u32 65537) two_limbs (mod_inverse (value two_limbs) (from_u32 65537) two_limbs)
unfolding limbs_value
mod_inverse-Inverts_example =
    mod_inverse-Inverts (from_u32 65537) two_limbs (one_limb-IsNormal 65537 (omega arith))
      two_limbs-IsNormal (omega arith)

abbrev repeat : ℕ → ℕ → List ℕ
repeat zero l = []
repeat (suc n) l = l ∷ repeat n l

-- 2 ^ 512 - 1
abbrev modulus_512 : BigUint
modulus_512 = record { limbs = repeat 16 4294967295 }

modulus_512-IsNormal : IsNormal modulus_512
unfolding top_limb
modulus_512-IsNormal = (words 16, omega arith, inr (omega arith))
  where
    words : (n : ℕ) → IsBounded (record { limbs = repeat n 4294967295 })
    words zero = tt
    words (suc n) = (omega arith, words n)

abbrev key : RsaKey
key = record { n = modulus_512; e = from_u32 1; d = from_u32 1; k = 64 }

abbrev no_hash : Bytes → Bytes
no_hash m = repeat 32 9

no_hash-AreBytes : (m : Bytes) → AreBytes (no_hash m)
no_hash-AreBytes m = nines 32
  where
    nines : (n : ℕ) → AreBytes (repeat n 9)
    nines zero = tt
    nines (suc n) = (omega arith, nines n)

undone :
    (x : ℕ)
    → x < value (key.n)
    → (x ^ value (key.d) % value (key.n)) ^ value (key.e) % value (key.n) ≡ x
unfolding limbs_value
undone x h =
    let once : x ^ 1 % value (key.n) ≡ x =
      ap (λ (n : ℕ). n % value (key.n)) (pow_one x) ∙ mod-eq_of_lt h in
    ap (λ (n : ℕ). n ^ 1 % value (key.n)) once ∙ once

verify_sha256_modpow-sign_example :
    (sig : Bytes) × (sign_sha256_modpow no_hash key (codes "hello") ≡ signature sig)
    × (verify_sha256_modpow no_hash bytes_eq
          (record { modulus = key.n; exponent = key.e; size = key.k })
          (codes "hello")
          sig
        ≡ true)
unfolding limbs_value
verify_sha256_modpow-sign_example =
    verify_sha256_modpow-sign no_hash (λ m. refl) no_hash-AreBytes bytes_eq bytes_eq_iff key
      (codes "hello") modulus_512-IsNormal (omega arith, tt) (omega arith, tt) (omega arith)
      (omega arith) (omega arith) undone

abbrev public : RsaPublicKey
public = record { modulus = modulus_512; exponent = from_u32 1; size = 64 }

verify_sha256_modpow_iff_example :
    (verify_sha256_modpow no_hash bytes_eq public (codes "hello") (repeat 64 9) ≡ true)
    ↔ Accepts public (no_hash (codes "hello")) (repeat 64 9)
unfolding limbs_value
verify_sha256_modpow_iff_example =
    verify_sha256_modpow_iff no_hash (λ m. refl) no_hash-AreBytes bytes_eq bytes_eq_iff public
      (codes "hello") (repeat 64 9)
      (modulus_512-IsNormal, (omega arith, tt), omega arith, omega arith) (nines 64)
  where
    nines : (n : ℕ) → AreBytes (repeat n 9)
    nines zero = tt
    nines (suc n) = (omega arith, nines n)

from_der-written_example :
    (pk : RsaPublicKey) × (from_der (public_key_der key) ≡ some pk)
    × (from_der (spki_der key) ≡ some pk)
    × (pk.modulus ≡ key.n)
    × (pk.exponent ≡ key.e)
unfolding public_key_der encode_der_integer der_tlv encode_der_length to_be_bytes bytes_of bit_len
    bits_within top_limb all_zero
from_der-written_example =
    from_der-written key (modulus_512-IsNormal, one_limb-IsNormal 1 (omega arith), omega arith)
      (omega arith)
