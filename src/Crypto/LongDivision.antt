-- ===== src/Crypto/LongDivision.antt =====
-- src/crypto.rs: the rounds of the long division in `div_rem`.
use desertemail.Prelude.{
  ℕ, zero, suc, ◌+◌, ◌-◌, ◌*◌, ◌/◌, ◌^◌, ◌≤◌, ◌<◌, ◌≡◌, sym, ap, ◌∙◌, inl, inr, true, false, List,
  arith, if-all,
}
use native.Mathlib.Nat.{pow-suc, mul-le-mul_left, pow-le-pow_right}
use desertemail.Crypto.BigUint.{BigUint, cmp, is_less, sub, zero_uint}
use desertemail.Crypto.Division.{
  bit_len, shl, shr1, set_bit, unwrap, divide_bit, divide_bits, both_normal, long_division,
}
use desertemail.Crypto.Lengths.{bit_len-bounds}
use desertemail.Crypto.Shifts.{pow-add, shl-scaled, shr1-half, set_bit-added}
use desertemail.Crypto.Sums.{less_iff, sub-difference}
use desertemail.Crypto.Value.{
  limbs_value, value, IsBounded, IsNormal, value-normalize, normalize-IsNormal,
}

-- a quotient and a remainder of the numbers `n` and `d`, of words
abbrev pub Divides : ℕ → ℕ → BigUint × BigUint → Type 0
Divides n d r =
    (value (r.0) * d + value (r.1) ≡ n) × (value (r.1) < d) × IsBounded (r.0) × IsBounded (r.1)

-- Between two bits: the rest is below twice the divisor as it stands, the quotient is a multiple.
abbrev Between : ℕ → ℕ → ℕ → BigUint × BigUint → Type 0
Between n d s state =
    (value (state.0) * d + value (state.1) ≡ n)
    × (value (state.1) < 2 ^ s * d)
    × ((q : ℕ) × (value (state.0) ≡ 2 ^ s * q))
    × IsBounded (state.0)
    × IsBounded (state.1)

power_doubles : (s d : ℕ) → 2 ^ suc s * d ≡ 2 ^ s * d * 2
power_doubles s d = grind (arith, ap (λ (w : ℕ). w * d) (pow-suc 2 s))

-- the round that subtracts
subtracted :
    (n d s : ℕ) (x : BigUint) (state : BigUint × BigUint) (less : BigUint) (q : ℕ)
    → value x ≡ 2 ^ s * d
    → value less + value x ≡ value (state.1)
    → IsBounded less
    → IsBounded (state.0)
    → value (state.0) * d + value (state.1) ≡ n
    → value (state.1) < 2 ^ suc s * d
    → value (state.0) ≡ 2 ^ suc s * q
    → Between n d s (set_bit (state.0) s, less)
subtracted n d s x state less q e diff hl hq total small m =
    let set = set_bit-added (state.0) s q hq m in
    (
      grind (arith, set.0, total, diff, e),
      omega (arith, power_doubles s d, small, diff, e),
      (q * 2 + 1, grind (arith, set.0, m, power_doubles s q)),
      set.1,
      hl,
    )

divide_bit-Between :
    (n d s : ℕ) (x : BigUint) (state : BigUint × BigUint)
    → IsBounded x
    → value x ≡ 2 ^ s * d
    → Between n d (suc s) state
    → Between n d s (divide_bit s x state)
unfolding divide_bit
divide_bit-Between n d s x state hx e (total, small, (q, m), hq, hr) =
    if-all (Between n d s) (is_less (cmp (state.1) x)) state
      (set_bit (state.0) s, unwrap (sub (state.1) x))
      (λ less. (
        total,
        omega (arith, (less_iff (state.1) x hr hx).0 less, e),
        (q * 2, grind (arith, m, power_doubles s q)),
        hq,
        hr,
      ))
      (λ more. elim (sub-difference (state.1) x hr hx) [
        | inl (less, _) ↦ absurd (apart (sym more ∙ (less_iff (state.1) x hr hx).1 less))
        | inr (r, found, diff, normal) ↦
            rw found (subtracted n d s x state r q e diff (normal.0) hq total small m)
      ])
  where
    apart : ¬ (false ≡ true)
    apart h = absurd (cc)

divide_bits-Divides :
    (n d s : ℕ) (x : BigUint) (state : BigUint × BigUint)
    → IsBounded x
    → value x ≡ 2 ^ s * d / 2
    → Between n d s state
    → Divides n d (divide_bits s x state)
unfolding divide_bits
divide_bits-Divides n d zero x state hx e (total, small, m, hq, hr) =
    (total, omega (arith, small), hq, hr)
divide_bits-Divides n d (suc s) x state hx e between =
    let half = shr1-half x hx in
    let here : value x ≡ 2 ^ s * d = omega (arith, e, power_doubles s d) in
    divide_bits-Divides n d s (shr1 x) (divide_bit s x state) half.1 (omega (arith, half.0, here))
      (divide_bit-Between n d s x state hx here between)

abbrev q_limbs : BigUint × BigUint → List ℕ
q_limbs (q, r) = q.limbs

abbrev r_limbs : BigUint × BigUint → List ℕ
r_limbs (q, r) = r.limbs

pub long_division-Divides :
    (x d : BigUint)
    → IsBounded x
    → IsNormal d
    → 0 < value d
    → Divides (value x) (value d) (long_division x d) × IsNormal ((long_division x d).1)
unfolding limbs_value
long_division-Divides x d hx hd pos =
    renormalized (divide_bits (suc shift) (shl d shift) (zero_uint, x)) (
      divide_bits-Divides (value x) (value d) (suc shift) (shl d shift) (zero_uint, x) up.1
        (up.0 ∙ omega (arith, power_doubles shift (value d)))
        (
          omega (arith, zero_is_none),
          covers,
          (0, omega (arith, zero_is_none)),
          (omega arith, tt),
          hx,
        ))
  where
    shift : ℕ
    shift = bit_len x - bit_len d

    up : (value (shl d shift) ≡ 2 ^ shift * value d) × IsBounded (shl d shift)
    up = shl-scaled d shift hd.0

    zero_is_none : value zero_uint ≡ 0
    zero_is_none = omega arith

    wide : 2 ^ bit_len x ≤ 2 ^ (shift + bit_len d)
    wide = pow-le-pow_right (omega arith) (omega arith)

    doubled : 2 ^ shift * 2 ^ bit_len d ≤ 2 ^ shift * (2 * value d)
    doubled = mul-le-mul_left (2 ^ shift) ((bit_len-bounds d hd.0).1 hd pos)

    covers : value x < 2 ^ suc shift * value d
    covers = grind (
      arith,
      (bit_len-bounds x hx).0,
      wide,
      pow-add shift (bit_len d),
      doubled,
      power_doubles shift (value d),
    )

    renormalized :
        (r : BigUint × BigUint)
        → Divides (value x) (value d) r
        → Divides (value x) (value d) (both_normal r) × IsNormal ((both_normal r).1)
    renormalized r (total, small, hq, hr) =
        rw (value-normalize (q_limbs r), value-normalize (r_limbs r))
          (
            (
              total,
              small,
              (normalize-IsNormal (q_limbs r) hq).0,
              (normalize-IsNormal (r_limbs r) hr).0,
            ),
            normalize-IsNormal (r_limbs r) hr,
          )
