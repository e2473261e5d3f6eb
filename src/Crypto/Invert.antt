-- ===== src/Crypto/Invert.antt =====
-- src/crypto.rs: the result of `mod_inverse`.
use desertemail.Prelude.{
  ℕ, zero, suc, ◌+◌, ◌*◌, ◌/◌, ◌%◌, ◌≤◌, ◌<◌, ◌≡◌, refl, sym, ap, ◌∙◌, ◌≢◌, ◌⊎◌, inl, inr, true,
  false, Option, none, some, arith, if◌then◌else◌, Bool-cases, if-all,
}
use mathlib.Core.Path.{subst}
use native.Mathlib.Nat.{
  mod-mod, zero-mod, mul-zero, div-add-mod, mod-lt, mod-eq_of_lt, mul-mod_left, mul-mod_right,
  mul-add-mod_self_right,
}
use desertemail.Crypto.Bezout.{Stands, Holds, Divisor, euclid-Holds}
use desertemail.Crypto.BigUint.{BigUint, from_u32, zero_uint, is_zero}
use desertemail.Crypto.Congruence.{Same, mul-Same}
use desertemail.Crypto.Division.{rem, ◌>>=◌, is_one}
use desertemail.Crypto.Inverse.{Euclid, euclid, in_range, euclid_start, finish_inverse, mod_inverse}
use desertemail.Crypto.Powers.{one_iff}
use desertemail.Crypto.Value.{limbs_value, value, IsNormal, all_zero_iff}
use desertemail.Crypto.Coefficients.{Cong→Same, rem-IsNormal, in_range-Cong}

-- The steps of `mod_inverse`, each with what it finds.
mod_inverse_steps :
    (fuel : ℕ) (x m a : BigUint) (out : Euclid)
    → is_zero m ≡ false
    → rem x m ≡ some a
    → is_zero a ≡ false
    → euclid fuel (euclid_start a m) ≡ some out
    → mod_inverse fuel x m ≡ finish_inverse m out
unfolding mod_inverse
mod_inverse_steps fuel x m a out z found z' done =
    ap (λ b. if b then some none else (rem x m >>= after)) z
    ∙ (ap (λ o. o >>= after) found
        ∙ (ap
              (λ b.
                if b
                then some none
                else (euclid fuel (euclid_start a m) >>= λ e. finish_inverse m e))
              z'
            ∙ ap (λ o. o >>= λ e. finish_inverse m e) done))
  where
    after : BigUint → Option (Option BigUint)
    after a =
        if is_zero a
        then some none
        else (euclid fuel (euclid_start a m) >>= λ e. finish_inverse m e)

mod_inverse_zero :
    (fuel : ℕ) (x m a : BigUint)
    → is_zero m ≡ false
    → rem x m ≡ some a
    → is_zero a ≡ true
    → mod_inverse fuel x m ≡ some none
unfolding mod_inverse
mod_inverse_zero fuel x m a z found z' =
    ap (λ b. if b then some none else (rem x m >>= after)) z
    ∙ (ap (λ o. o >>= after) found
        ∙ ap
            (λ b.
              if b then some none else (euclid fuel (euclid_start a m) >>= λ e. finish_inverse m e))
            z')
  where
    after : BigUint → Option (Option BigUint)
    after a =
        if is_zero a
        then some none
        else (euclid fuel (euclid_start a m) >>= λ e. finish_inverse m e)

-- what `mod_inverse` may give: an inverse below the modulus, or nothing where there is none
abbrev pub Inverts : BigUint → BigUint → Option (Option BigUint) → Type 0
Inverts x m o =
    ((r : BigUint) × (o ≡ some (some r)) × (value r < value m) × (value r * value x % value m ≡ 1))
    ⊎ ((o ≡ some none) × ((k : ℕ) → k * value x % value m ≢ 1))

-- A divisor of the modulus and of the remainder divides 1 if there is an inverse.
no_inverse : (m x g u v k : ℕ) → m ≡ u * g → x % m ≡ v * g → 1 < m → g ≢ 1 → k * x % m ≢ 1
no_inverse m x g u v k em ex large ne inv =
    ne (unit g (k * (x / m) * u + k * v) (k * x / m * u) whole)
  where
    factor : k * x ≡ (k * (x / m) * u + k * v) * g
    factor = grind (
      arith,
      ap (λ (w : ℕ). k * w) (div-add-mod x m),
      ap (λ (w : ℕ). k * w) ex,
      ap (λ (w : ℕ). k * w * (x / m)) em,
    )

    whole : (k * (x / m) * u + k * v) * g ≡ k * x / m * u * g + 1
    whole =
        sym factor ∙ grind (arith, div-add-mod (k * x) m, inv, ap (λ (w : ℕ). w * (k * x / m)) em)

    unit : (g p q : ℕ) → p * g ≡ q * g + 1 → g ≡ 1
    unit zero p q e = absurd (omega arith)
    unit (suc zero) p q e = refl
    unit (suc (suc g)) p q e =
        let clash : 0 ≡ 1 % suc (suc g) =
          sym (mul-mod_left p (suc (suc g)))
          ∙ (ap (λ (n : ℕ). n % suc (suc g)) e ∙ mul-add-mod_self_right q (suc (suc g)) 1) in
        absurd (omega (arith, clash, mod-eq_of_lt {n = 1} {m = suc (suc g)} (omega arith)))

lt_or_eq : {a b : ℕ} → a ≤ b → (a < b) ⊎ (a ≡ b)
lt_or_eq {a} {b} h = ground arith

finish_inverse-Inverts :
    (x m a : BigUint) (out : Euclid)
    → IsNormal m
    → 1 < value m
    → value a ≡ value x % value m
    → Holds (value m) (value a) out
    → Divisor (value (out.old_r)) (euclid_start a m)
    → Inverts x m (finish_inverse m out)
finish_inverse-Inverts x m a out hm large ea (ho, hr, hos, hs, stands, stands') (u, v, eu, ev) =
    if-all (Inverts x m) (is_one (out.old_r)) _ (some none)
      (λ one. found ((one_iff ((out.old_r).limbs) ho).0 one))
      (λ other. inr (
        refl,
        λ k.
            no_inverse (value m) (value x) (value (out.old_r)) u v k eu (sym ea ∙ ev) large
              (λ e. absurd (true_false (sym ((one_iff ((out.old_r).limbs) ho).1 e) ∙ other))),
      ))
  where
    true_false : ¬ (true ≡ false)
    true_false e = absurd (cc)

    below : {r : ℕ} → r ≤ value m → r * value x % value m ≡ 1 → r < value m
    below {r} le product = elim (lt_or_eq le) [
      | inl less ↦ less
      | inr e ↦ absurd (
          omega (
            arith,
            product,
            ap (λ (n : ℕ). n * value x % value m) e,
            mul-mod_right (value m) (value x),
          ))
    ]

    found : value (out.old_r) ≡ 1 → Inverts x m (in_range m (out.old_s))
    found one =
        let (r, given, cong, le) =
          in_range-Cong m (value a) (out.old_s) hm (omega (arith, large)) hos
            (subst (λ n. Stands (value m) (value a) (out.old_s) n) one stands) in
        let product : value r * value x % value m ≡ 1 =
          mul-Same (value m) (value r) (value r) (value x) (value a) refl
            (sym (mod-mod (value x) (value m)) ∙ ap (λ (n : ℕ). n % value m) (sym ea))
          ∙ (Cong→Same (value m) (value r * value a) 1 cong ∙ mod-eq_of_lt large) in
        inl (r, given, below le product, product)

-- For a number and a modulus in the normal form, the modulus above 1, and as many rounds as the
-- modulus has values, `mod_inverse` returns: it finds an inverse below the modulus, or it gives
-- none and no number is an inverse.
pub mod_inverse-Inverts :
    (x m : BigUint)
    → IsNormal x
    → IsNormal m
    → 1 < value m
    → Inverts x m (mod_inverse (value m) x m)
unfolding limbs_value
mod_inverse-Inverts x m hx hm large =
    let (a, found, ea, ha, normal) = rem-IsNormal x m hx.0 hm (omega (arith, large)) in
    elim (Bool-cases (is_zero a)) [
      | inl z ↦ inr (mod_inverse_zero (value m) x m a nonzero found z, λ k e. none_for a k z ea e)
      | inr z ↦
          let (out, done, held, divides) =
            euclid-Holds (value m) (value m) (value a) (euclid_start a m)
              (
                hm,
                normal hx,
                (omega arith, tt),
                (omega arith, tt),
                (1, 0, begin a),
                (0, 0, start a),
              )
              (omega (arith, ea, mod-lt (value x) {m = value m} (omega (arith, large)))) in
          subst (Inverts x m) (sym (mod_inverse_steps (value m) x m a out nonzero found z done))
            (finish_inverse-Inverts x m a out hm large ea held divides)
    ]
  where
    nonzero : is_zero m ≡ false
    nonzero = ground (arith, all_zero_iff (m.limbs))

    zero-value : value zero_uint ≡ 0
    zero-value = omega arith

    one-value : value (from_u32 1) ≡ 1
    one-value = omega arith

    begin :
        (a : BigUint)
        → value zero_uint * value a + value m * 1 ≡ value m + 0 * value a + value m * 0
    begin a = grind (arith, ap (λ (w : ℕ). w * value a) zero-value)

    start :
        (a : BigUint)
        → value (from_u32 1) * value a + value m * 0 ≡ value a + 0 * value a + value m * 0
    start a = grind (arith, ap (λ (w : ℕ). w * value a) one-value)

    none_for :
        (a : BigUint) (k : ℕ)
        → is_zero a ≡ true
        → value a ≡ value x % value m
        → k * value x % value m ≢ 1
    none_for a k z ea e =
        let same : Same (value m) (k * value x) (k * 0) =
          mul-Same (value m) k k (value x) 0 refl
            (sym ea ∙ ((all_zero_iff (a.limbs)).0 z ∙ sym (zero-mod (value m)))) in
        absurd (
          omega (arith, sym e ∙ same, ap (λ (n : ℕ). n % value m) (mul-zero k), zero-mod (value m)))
