-- ===== src/Crypto/Lengths.antt =====
-- src/crypto.rs: `bit_len` and `get_bit` of `BigUint` as statements about the numbers.
use desertemail.Prelude.{
  ℕ, zero, suc, ◌+◌, ◌-◌, ◌*◌, ◌/◌, ◌%◌, ◌^◌, ◌≤◌, ◌<◌, ◌≡◌, refl, sym, ap, ◌∙◌, ◌⊎◌, inl, inr,
  false, List, [], ◌∷◌, arith, ◌==◌, if-all, length, get_elem?,
}
use native.Mathlib.Nat.{
  add-mul-mod_self_right, zero-div, mul-le-mul_right, pow-suc, add-mul-div_left, div-div-eq-div-mul,
}
use desertemail.Crypto.BigUint.{BigUint, is_zero, all_zero}
use desertemail.Crypto.Division.{bits_within, leading_zeros, bit_len, bit_of, get_bit}
use desertemail.Crypto.Shifts.{pow-add, pow_pos}
use desertemail.Crypto.Value.{
  limbs_value, value, AreWords, IsBounded, IsNormal, top_limb, all_zero_iff,
}

ℕ-cases : (n : ℕ) → (n ≡ 0) ⊎ (0 < n)
ℕ-cases zero = inl refl
ℕ-cases (suc n) = inr (omega arith)

bits_within-zero : (fuel : ℕ) → bits_within fuel 0 ≡ 0
unfolding bits_within
bits_within-zero zero = refl
bits_within-zero (suc fuel) = refl

-- the length of a word: between the powers of two on its sides
bits_within-bounds :
    (fuel l : ℕ)
    → l < 2 ^ fuel
    → (bits_within fuel l ≤ fuel)
      × (l < 2 ^ bits_within fuel l)
      × (0 < l → 2 ^ bits_within fuel l ≤ 2 * l)
unfolding bits_within
bits_within-bounds zero l h = (omega arith, h, λ p. absurd (omega arith))
bits_within-bounds (suc fuel) l h =
    let rest = bits_within-bounds fuel (l / 2) (omega (arith, pow-suc 2 fuel)) in
    let next = pow-suc 2 (bits_within fuel (l / 2)) in
    if-all (λ n. (n ≤ suc fuel) × (l < 2 ^ n) × (0 < l → 2 ^ n ≤ 2 * l)) (l == 0) 0
      (suc (bits_within fuel (l / 2)))
      (λ z. (omega arith, ground arith, λ p. absurd (ground arith)))
      (λ z. (omega (arith, rest.0), omega (arith, rest.1, next), λ p. large rest next p))
  where
    power : l / 2 ≡ 0 → 2 ^ bits_within fuel (l / 2) ≡ 1
    power z =
        ap (λ (n : ℕ). 2 ^ bits_within fuel n) z ∙ ap (λ (n : ℕ). 2 ^ n) (bits_within-zero fuel)

    large :
        ((bits_within fuel (l / 2) ≤ fuel)
          × (l / 2 < 2 ^ bits_within fuel (l / 2))
          × (0 < l / 2 → 2 ^ bits_within fuel (l / 2) ≤ 2 * (l / 2)))
        → 2 ^ suc (bits_within fuel (l / 2)) ≡ 2 ^ bits_within fuel (l / 2) * 2
        → 0 < l
        → 2 ^ suc (bits_within fuel (l / 2)) ≤ 2 * l
    large rest next p = elim (ℕ-cases (l / 2)) [
      | inl none_above ↦ omega (arith, next, p, power none_above)
      | inr some_above ↦ omega (arith, next, rest.2 some_above)
    ]

-- the place of the top limb
abbrev top_place : List ℕ → ℕ
top_place ls = 2 ^ ((length ls - 1) * 32)

next_place : (l x : ℕ) (r : List ℕ) → top_place (l ∷ x ∷ r) ≡ 2 ^ 32 * top_place (x ∷ r)
next_place l x r = ap (λ (n : ℕ). 2 ^ n) (omega arith) ∙ pow-add 32 ((length (x ∷ r) - 1) * 32)

top-bounds :
    (ls : List ℕ)
    → 0 < length ls
    → AreWords ls
    → (limbs_value ls < suc (top_limb ls) * top_place ls)
      × (top_limb ls * top_place ls ≤ limbs_value ls)
      × (top_limb ls < 2 ^ 32)
unfolding limbs_value top_limb
top-bounds [] p h = absurd (omega arith)
top-bounds (l ∷ []) p h = (ground arith, ground arith, h.0)
top-bounds (l ∷ x ∷ r) p h =
    let above = top-bounds (x ∷ r) (omega arith) h.1 in
    let scale : (t : ℕ) → t * top_place (l ∷ x ∷ r) ≡ 2 ^ 32 * (t * top_place (x ∷ r)) =
      λ t. grind (arith, ap (λ (n : ℕ). t * n) (next_place l x r)) in
    (
      omega (arith, h.0, above.0, scale (suc (top_limb (x ∷ r)))),
      omega (arith, above.1, scale (top_limb (x ∷ r))),
      above.2,
    )

-- the power of two at the length of the top limb, scaled to its place
length-bounds :
    (ls : List ℕ)
    → 0 < length ls
    → AreWords ls
    → (limbs_value ls < 2 ^ ((length ls - 1) * 32 + (32 - leading_zeros (top_limb ls))))
      × (0 < top_limb ls
          → 2 ^ ((length ls - 1) * 32 + (32 - leading_zeros (top_limb ls))) ≤ 2 * limbs_value ls)
length-bounds ls p h =
    let top = top-bounds ls p h in
    let word = bits_within-bounds 32 (top_limb ls) top.2 in
    let width : 32 - leading_zeros (top_limb ls) ≡ bits_within 32 (top_limb ls) =
      omega (arith, word.0) in
    let upper : suc (top_limb ls) * top_place ls ≤ 2 ^ bits_within 32 (top_limb ls) * top_place ls =
      mul-le-mul_right (top_place ls) word.1 in
    let lower : 0 < top_limb ls
        → 2 ^ bits_within 32 (top_limb ls) * top_place ls ≤ 2 * top_limb ls * top_place ls =
      λ t. mul-le-mul_right (top_place ls) (word.2 t) in
    rw (width, pow-add ((length ls - 1) * 32) (bits_within 32 (top_limb ls)))
      (grind (arith, top.0, upper), λ t. grind (arith, top.1, lower t))

-- The number is below the power of two at `bit_len`; of a normal one but 0, half of that power is
-- not above it.
pub bit_len-bounds :
    (x : BigUint)
    → IsBounded x
    → (value x < 2 ^ bit_len x) × (IsNormal x → 0 < value x → 2 ^ bit_len x ≤ 2 * value x)
unfolding bit_len all_zero
bit_len-bounds x h =
    if-all (λ n. (value x < 2 ^ n) × (IsNormal x → 0 < value x → 2 ^ n ≤ 2 * value x)) (is_zero x) 0
      ((length (x.limbs) - 1) * 32 + (32 - leading_zeros (top_limb (x.limbs))))
      (λ z.
        let nothing = (all_zero_iff (x.limbs)).0 z in
        (omega (arith, nothing), λ n p. absurd (omega (arith, nothing))))
      (λ z.
        let bounds = length-bounds (x.limbs) (filled (x.limbs) z) h in
        (bounds.0, λ n p. bounds.1 (top_positive (x.limbs) n p)))
  where
    filled : (ls : List ℕ) → all_zero ls ≡ false → 0 < length ls
    filled [] z = absurd (cc)
    filled (l ∷ ls) z = omega arith

    top_positive :
        (ls : List ℕ) → IsNormal (record { limbs = ls }) → 0 < limbs_value ls → 0 < top_limb ls
    top_positive ls (w, p, inr t) v = t
    top_positive ls (w, p, inl one) v =
        let top = top-bounds ls p w in
        let unit : top_place ls ≡ 1 = ap (λ (n : ℕ). 2 ^ ((n - 1) * 32)) one in
        grind (arith, top.0, unit, v)

-- A bit that is read is a digit of the number in base two.
bit_of-digit :
    (ls : List ℕ) (limb bit : ℕ)
    → bit < 32
    → AreWords ls
    → bit_of (get_elem? ls limb) bit ≡ (limbs_value ls / 2 ^ (limb * 32 + bit) % 2 == 1)
unfolding limbs_value
bit_of-digit [] limb bit b h = ap (λ n. n % 2 == 1) (sym (zero-div (2 ^ (limb * 32 + bit))))
bit_of-digit (l ∷ ls) zero bit b h = ap (λ n. n == 1) (sym low)
  where
    whole : 2 ^ bit * (2 ^ (31 - bit) * 2) ≡ 2 ^ 32
    whole =
        ap (λ (n : ℕ). 2 ^ bit * n) (sym (pow-suc 2 (31 - bit)))
        ∙ (sym (pow-add bit (suc (31 - bit))) ∙ ap (λ (n : ℕ). 2 ^ n) {y = 32} (omega arith))

    the_bit : 0 * 32 + bit ≡ bit
    the_bit = omega arith

    apart :
        (l + 2 ^ 32 * limbs_value ls) / 2 ^ (0 * 32 + bit)
        ≡ (l + 2 ^ bit * (2 ^ (31 - bit) * limbs_value ls * 2)) / 2 ^ bit
    apart =
        rw (the_bit)
          (ap (λ (n : ℕ). n / 2 ^ bit) (grind (arith, ap (λ (n : ℕ). n * limbs_value ls) whole)))

    low : (l + 2 ^ 32 * limbs_value ls) / 2 ^ (0 * 32 + bit) % 2 ≡ l / 2 ^ bit % 2
    low =
        ap (λ (n : ℕ). n % 2)
          (apart
            ∙ add-mul-div_left l (2 ^ (31 - bit) * limbs_value ls * 2) {y = 2 ^ bit} (pow_pos bit))
        ∙ add-mul-mod_self_right (l / 2 ^ bit) (2 ^ (31 - bit) * limbs_value ls) 2
bit_of-digit (l ∷ ls) (suc limb) bit b h =
    bit_of-digit ls limb bit b h.1 ∙ ap (λ n. n % 2 == 1) (sym high)
  where
    place : 2 ^ (suc limb * 32 + bit) ≡ 2 ^ 32 * 2 ^ (limb * 32 + bit)
    place = ap (λ (n : ℕ). 2 ^ n) (omega arith) ∙ pow-add 32 (limb * 32 + bit)

    high :
        (l + 2 ^ 32 * limbs_value ls) / 2 ^ (suc limb * 32 + bit)
        ≡ limbs_value ls / 2 ^ (limb * 32 + bit)
    high =
        ap (λ (n : ℕ). (l + 2 ^ 32 * limbs_value ls) / n) place
        ∙ (sym (div-div-eq-div-mul (l + 2 ^ 32 * limbs_value ls) (2 ^ 32) (2 ^ (limb * 32 + bit)))
            ∙ ap (λ (n : ℕ). n / 2 ^ (limb * 32 + bit)) (omega (arith, h.0)))

pub get_bit-digit : (x : BigUint) (i : ℕ) → IsBounded x → get_bit x i ≡ (value x / 2 ^ i % 2 == 1)
get_bit-digit x i h =
    bit_of-digit (x.limbs) (i / 32) (i % 32) (omega arith) h
    ∙ ap (λ (n : ℕ). value x / 2 ^ n % 2 == 1) (omega arith)
