-- ===== src/Crypto/PowerRounds.antt =====
-- src/crypto.rs: the rounds of `modpow`.
use desertemail.Prelude.{
  ℕ, zero, suc, ◌*◌, ◌/◌, ◌%◌, ◌^◌, ◌<◌, ◌≡◌, refl, sym, ap, ◌∙◌, Bool, true, false, Option, some,
  arith,
}
use mathlib.Core.Path.{subst}
use native.Mathlib.Nat.{mod-one, mod-lt, mod-mod, pow-zero}
use desertemail.Crypto.BigUint.{BigUint, mul}
use desertemail.Crypto.Congruence.{
  Same, mul-Same, pow-Same, pow_one, pow_sum, pow_square, low_digit,
}
use desertemail.Crypto.Division.{get_bit, rem, power_round, power_rounds}
use desertemail.Crypto.Lengths.{get_bit-digit}
use desertemail.Crypto.Products.{mul-product}
use desertemail.Crypto.Quotients.{div_rem-quotient}
use desertemail.Crypto.Value.{value, IsBounded, IsNormal}

-- a remainder of a number
abbrev pub Reduces : ℕ → ℕ → Option BigUint → Type 0
Reduces m n o = (r : BigUint) × (o ≡ some r) × (value r ≡ n % m) × IsBounded r

pub rem-Reduces :
    (x m : BigUint) → IsBounded x → IsNormal m → 0 < value m → Reduces (value m) (value x) (rem x m)
rem-Reduces x m hx hm pos =
    let (q, r, found, _, e, _, hr) = div_rem-quotient x m hx hm pos in (r, rw found refl, e, hr)

mul-rem-Reduces :
    (a b m : BigUint)
    → IsBounded a
    → IsBounded b
    → IsNormal m
    → 0 < value m
    → Reduces (value m) (value a * value b) (rem (mul a b) m)
mul-rem-Reduces a b m ha hb hm pos =
    let (e, normal) = mul-product a b ha hb in
    subst (λ n. Reduces (value m) n (rem (mul a b) m)) e (rem-Reduces (mul a b) m normal.0 hm pos)

-- A round multiplies the result by the base or not, and squares the base.
abbrev digit_of : Bool → ℕ
digit_of true = 1
digit_of false = 0

power_round-step :
    (m : BigUint) (bit : Bool) (result base : BigUint)
    → IsBounded result
    → IsBounded base
    → IsNormal m
    → 0 < value m
    → value result < value m
    → (next : BigUint × BigUint) × (power_round m bit (result, base) ≡ some next)
      × Same (value m) (value (next.0)) (value result * value base ^ digit_of bit)
      × Same (value m) (value (next.1)) (value base * value base)
      × (value (next.0) < value m)
      × IsBounded (next.0)
      × IsBounded (next.1)
power_round-step m true result base hr hb hm pos small =
    let (r, found, e, h) = mul-rem-Reduces result base m hr hb hm pos in
    let (b, squared, e', h') = mul-rem-Reduces base base m hb hb hm pos in
    (
      (r, b),
      rw (found, squared) refl,
      ap (λ (n : ℕ). n % value m) e
          ∙ (mod-mod (value result * value base) (value m)
              ∙ ap (λ (n : ℕ). value result * n % value m) (sym (pow_one (value base)))),
      ap (λ (n : ℕ). n % value m) e' ∙ mod-mod (value base * value base) (value m),
      omega (arith, e, mod-lt (value result * value base) pos),
      h,
      h',
    )
power_round-step m false result base hr hb hm pos small =
    let (b, squared, e', h') = mul-rem-Reduces base base m hb hb hm pos in
    (
      (result, b),
      rw squared refl,
      ap (λ (n : ℕ). n % value m) (grind (arith, pow-zero (value base))),
      ap (λ (n : ℕ). n % value m) e' ∙ mod-mod (value base * value base) (value m),
      small,
      hr,
      h',
    )

-- The rounds from the bit `i` on take up the digits from there.
pub power_rounds-Same :
    (m exp : BigUint) (rounds i : ℕ) (result base : BigUint)
    → IsBounded exp
    → IsBounded result
    → IsBounded base
    → IsNormal m
    → 0 < value m
    → value result < value m
    → (out : BigUint × BigUint) × (power_rounds m exp rounds i (result, base) ≡ some out)
      × Same
          (value m)
          (value (out.0))
          (value result * value base ^ (value exp / 2 ^ i % 2 ^ rounds))
      × (value (out.0) < value m)
      × IsBounded (out.0)
unfolding power_rounds
power_rounds-Same m exp zero i result base he hr hb hm pos small = (
  (result, base),
  refl,
  ap (λ (n : ℕ). n % value m)
      (grind (
        arith,
        ap (λ (n : ℕ). value base ^ n) (mod-one (value exp / 2 ^ i)),
        pow-zero (value base),
      )),
  small,
  hr,
)
power_rounds-Same m exp (suc rounds) i result base he hr hb hm pos small =
    let ((r, b), found, e, e', less, h, h') =
      power_round-step m (get_bit exp i) result base hr hb hm pos small in
    let (out, rest, same, bound, ho) =
      power_rounds-Same m exp rounds (suc i) r b he h h' hm pos less in
    (
      out,
      rw found rest,
      same
          ∙ (mul-Same (value m) _ _ _ _ e (pow-Same (value m) _ _ t e')
              ∙ ap (λ (n : ℕ). n % value m) joined),
      bound,
      ho,
    )
  where
    t : ℕ
    t = value exp / 2 ^ suc i % 2 ^ rounds

    low : digit_of (get_bit exp i) ≡ value exp / 2 ^ i % 2
    low = rw (get_bit-digit exp i he) (ground arith)

    joined :
        value result * value base ^ digit_of (get_bit exp i) * (value base * value base) ^ t
        ≡ value result * value base ^ (value exp / 2 ^ i % 2 ^ suc rounds)
    joined =
        rw
          (
            low_digit (value exp) i rounds,
            low,
            pow_square (value base) t,
            pow_sum (value base) (value exp / 2 ^ i % 2) (t * 2),
          )
          (grind arith)
