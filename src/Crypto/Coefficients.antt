-- ===== src/Crypto/Coefficients.antt =====
-- src/crypto.rs: the coefficient that `mod_inverse` ends with, in the range of the modulus.
use desertemail.Prelude.{
  ℕ, ◌+◌, ◌*◌, ◌/◌, ◌%◌, ◌≤◌, ◌<◌, ◌≡◌, refl, sym, ap, ◌∙◌, inl, inr, true, false, some, arith,
}
use native.Mathlib.Nat.{add-mul-mod_self_left, div-add-mod, mod-lt}
use desertemail.Crypto.Bezout.{Cong, Stands}
use desertemail.Crypto.BigUint.{BigUint}
use desertemail.Crypto.Congruence.{Same}
use desertemail.Crypto.Division.{rem}
use desertemail.Crypto.Inverse.{Signed, in_range}
use desertemail.Crypto.Quotients.{div_rem-IsNormal}
use desertemail.Crypto.Sums.{sub-difference}
use desertemail.Crypto.Value.{value, IsBounded, IsNormal}

pub Cong→Same : (m x y : ℕ) → Cong m x y → Same m x y
Cong→Same m x y (k, l, e) =
    sym (add-mul-mod_self_left x m k) ∙ (ap (λ (n : ℕ). n % m) e ∙ add-mul-mod_self_left y m l)

-- A remainder of a normal number: there, and normal.
pub rem-IsNormal :
    (x m : BigUint)
    → IsBounded x
    → IsNormal m
    → 0 < value m
    → (r : BigUint) × (rem x m ≡ some r)
      × (value r ≡ value x % value m)
      × IsBounded r
      × (IsNormal x → IsNormal r)
rem-IsNormal x m hx hm pos =
    let (q, r, found, _, e, _, hr, n) = div_rem-IsNormal x m hx hm pos in
    (r, rw found refl, e, hr, n)

-- The coefficient in the range of the modulus still is one.
pub in_range-Cong :
    (m : BigUint) (c : ℕ) (s : Signed)
    → IsNormal m
    → 0 < value m
    → IsBounded (s.0)
    → Stands (value m) c s 1
    → (r : BigUint) × (in_range m s ≡ some (some r))
      × Cong (value m) (value r * c) 1
      × (value r ≤ value m)
in_range-Cong m c (s, false) hm pos hs (k, l, e) =
    let (r, found, total, hr, n) = rem-IsNormal s m hs hm pos in
    let parts = div-add-mod (value s) (value m) in
    (
      r,
      rw found refl,
      (
        k + value s / value m * c,
        l,
        grind (arith, e, total, ap (λ (w : ℕ). w * c) parts, ap (λ (w : ℕ). w * c) total),
      ),
      omega (arith, total, mod-lt (value s) pos),
    )
in_range-Cong m c (s, true) hm pos hs (k, l, e) =
    let (r, found, total, hr, n) = rem-IsNormal s m hs hm pos in
    let parts = div-add-mod (value s) (value m) in
    elim (sub-difference m r hm.0 hr) [
      | inl (less, _) ↦ absurd (omega (arith, less, total, mod-lt (value s) pos))
      | inr (d, given, diff, normal) ↦ (
        d,
        rw (found, given) refl,
        (
          k,
          value s / value m * c + c + l,
          grind (
            arith,
            e,
            ap (λ (w : ℕ). w * c) parts,
            ap (λ (w : ℕ). w * c) total,
            ap (λ (w : ℕ). w * c) diff,
          ),
        ),
        omega (arith, diff),
      )
    ]
