-- ===== src/Crypto/Powers.antt =====
-- src/crypto.rs: `modpow` of `BigUint` against the power of the numbers modulo the third.
use desertemail.Prelude.{
  ℕ, ◌/◌, ◌%◌, ◌^◌, ◌<◌, ◌≡◌, refl, sym, ap, ◌∙◌, ◌↔◌, ◌⊎◌, inl, inr, true, false, ◌&&◌, ◌||◌, some,
  List, [], ◌∷◌, arith, ◌==◌, Bool-cases, length,
}
use native.Mathlib.Nat.{mod-eq_of_lt, mod-one, mod-mod}
use desertemail.Crypto.BigUint.{BigUint, from_u32, is_zero, zero_uint}
use desertemail.Crypto.Congruence.{Same, pow-Same}
use desertemail.Crypto.Division.{bit_len, is_one, modpow}
use desertemail.Crypto.Lengths.{bit_len-bounds}
use desertemail.Crypto.Quotients.{one_limb}
use desertemail.Crypto.Value.{limbs_value, value, IsBounded, IsNormal, all_zero_iff, top_limb}
use desertemail.Crypto.PowerRounds.{rem-Reduces, power_rounds-Same}

pub top_of_zero : (ls : List ℕ) → limbs_value ls ≡ 0 → top_limb ls ≡ 0
unfolding limbs_value top_limb
top_of_zero [] e = refl
top_of_zero (l ∷ []) e = omega arith
top_of_zero (l ∷ x ∷ r) e = top_of_zero (x ∷ r) (omega arith)

-- Of the normal numbers the test for one finds the number one alone.
pub one_iff :
    (ls : List ℕ)
    → IsNormal (record { limbs = ls })
    → (is_one (record { limbs = ls }) ≡ true) ↔ (limbs_value ls ≡ 1)
unfolding limbs_value top_limb
one_iff ls (w, filled, shape) = (
  (λ e. let single = one_limb ls (ground arith) w in ground (arith, single.0)),
  λ e. test ls e shape,
)
  where
    test :
        (ls : List ℕ)
        → limbs_value ls ≡ 1
        → (length ls ≡ 1) ⊎ (0 < top_limb ls)
        → length ls == 1 && top_limb ls == 1 ≡ true
    test [] e shape = absurd (omega arith)
    test (l ∷ []) e shape = ground arith
    test (l ∷ x ∷ r) e (inl short) = absurd (omega arith)
    test (l ∷ x ∷ r) e (inr top) = absurd (omega (arith, top, top_of_zero (x ∷ r) (omega arith)))

-- For a base and an exponent of any lengths, with limbs below 2^32, and a modulus in the normal form
-- that is not 0, `modpow` gives the power modulo the modulus.
pub modpow-power :
    (x exp m : BigUint)
    → IsBounded x
    → IsBounded exp
    → IsNormal m
    → 0 < value m
    → (r : BigUint) × (modpow x exp m ≡ some r)
      × (value r ≡ value x ^ value exp % value m)
      × IsBounded r
unfolding modpow
modpow-power x exp m hx he hm pos = elim (Bool-cases (is_zero m || is_one m)) [
  | inl trivial ↦ (zero_uint, rw trivial refl, modulo_one (unit trivial), (omega arith, tt))
  | inr proper ↦ powered proper
]
  where
    unit : is_zero m || is_one m ≡ true → value m ≡ 1
    unit trivial = ground (arith, all_zero_iff (m.limbs), one_iff (m.limbs) hm)

    modulo_one : value m ≡ 1 → value zero_uint ≡ value x ^ value exp % value m
    modulo_one e = rw (e, mod-one (value x ^ value exp)) (unfold limbs_value in omega arith)

    large : is_zero m || is_one m ≡ false → 1 < value m
    large proper = ground (arith, one_iff (m.limbs) hm)

    exponent : value exp / 2 ^ 0 % 2 ^ bit_len exp ≡ value exp
    exponent =
        let whole : value exp / 2 ^ 0 ≡ value exp = omega arith in
        rw whole (mod-eq_of_lt ((bit_len-bounds exp he).0))

    one_is_one : value (from_u32 1) ≡ 1
    one_is_one = unfold limbs_value in omega arith

    powered :
        is_zero m || is_one m ≡ false
        → (r : BigUint) × (modpow x exp m ≡ some r)
          × (value r ≡ value x ^ value exp % value m)
          × IsBounded r
    powered proper =
        let (base, reduced, e, hb) = rem-Reduces x m hx hm pos in
        let (out, done, same, bound, ho) =
          power_rounds-Same m exp (bit_len exp) 0 (from_u32 1) base he (omega arith, tt) hb hm pos
            (omega (arith, one_is_one, large proper)) in
        let steps : Same (value m) (value base ^ value exp) (value x ^ value exp) =
          pow-Same (value m) (value base) (value x) (value exp)
            (ap (λ (n : ℕ). n % value m) e ∙ mod-mod (value x) (value m)) in
        (
          out.0,
          rw (proper, reduced, done) refl,
          sym (mod-eq_of_lt bound)
              ∙ (same
                  ∙ (rw (exponent, one_is_one) (ap (λ (n : ℕ). n % value m) (omega arith))
                      ∙ steps)),
          ho,
        )
