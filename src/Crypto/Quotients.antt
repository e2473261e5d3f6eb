-- ===== src/Crypto/Quotients.antt =====
-- src/crypto.rs: `div_rem` of `BigUint` against the quotient and the remainder of the numbers.
use desertemail.Prelude.{
  ℕ, ◌+◌, ◌*◌, ◌/◌, ◌%◌, ◌^◌, ◌<◌, ◌≡◌, refl, sym, ap, inl, inr, true, some, List, [], ◌∷◌, arith,
  ◌==◌, if◌then◌else◌, Bool-cases, if-all, length,
}
use mathlib.Core.Path.{subst}
use native.Mathlib.Nat.{div-eq_of_lt-le, div-add-mod', mod-lt, div-lt_iff_lt-mul}
use desertemail.Prelude.Bits.{high-or-low}
use desertemail.Crypto.BigUint.{BigUint, is_zero, cmp, is_less, zero_uint}
use desertemail.Crypto.Division.{div_limbs, div_rem_u32, long_division, div_rem}
use desertemail.Crypto.Sums.{less_iff}
use desertemail.Crypto.Value.{
  limbs_value, value, AreWords, IsBounded, IsNormal, value-normalize, normalize-IsNormal,
  all_zero_iff, top_limb,
}
use desertemail.Crypto.LongDivision.{Divides, long_division-Divides}

-- the division by one limb
div_limbs-Divides :
    (ls : List ℕ) (d : ℕ)
    → AreWords ls
    → 0 < d
    → d < 2 ^ 32
    → (limbs_value ((div_limbs ls d).0) * d + (div_limbs ls d).1 ≡ limbs_value ls)
      × ((div_limbs ls d).1 < d)
      × AreWords ((div_limbs ls d).0)
unfolding div_limbs limbs_value
div_limbs-Divides [] d h pos small = (omega arith, pos, tt)
div_limbs-Divides (l ∷ ls) d h pos small =
    let above = div_limbs-Divides ls d h.1 pos small in
    let r = (div_limbs ls d).1 in
    let fits : r * 2 ^ 32 % 2 ^ 64 ≡ r * 2 ^ 32 = omega (arith, above.1) in
    let parts = div-add-mod' (r * 2 ^ 32 + l) d in
    let few : (r * 2 ^ 32 + l) / d < 2 ^ 32 =
      (div-lt_iff_lt-mul pos).1 (omega (arith, above.1, h.0)) in
    let word : (r * 2 ^ 32 + l) / d % 2 ^ 32 ≡ (r * 2 ^ 32 + l) / d = omega (arith, few) in
    rw (fits, high-or-low 32 r l h.0, word)
      (grind (arith, parts, above.0), mod-lt (r * 2 ^ 32 + l) pos, (few, above.2))

div_rem_u32-Divides :
    (x : BigUint) (d : ℕ) → IsBounded x → 0 < d → d < 2 ^ 32 → Divides (value x) d (div_rem_u32 x d)
unfolding div_rem_u32 limbs_value
div_rem_u32-Divides x d h pos small =
    let r = div_limbs-Divides (x.limbs) d h pos small in
    let word : (div_limbs (x.limbs) d).1 % 2 ^ 32 ≡ (div_limbs (x.limbs) d).1 =
      omega (arith, r.1) in
    rw (word, value-normalize ((div_limbs (x.limbs) d).0))
      (
        omega (arith, r.0),
        omega (arith, r.1),
        (normalize-IsNormal ((div_limbs (x.limbs) d).0) r.2).0,
        (omega (arith, r.1), tt),
      )

-- one limb is the number
pub one_limb :
    (ls : List ℕ)
    → length ls ≡ 1
    → AreWords ls
    → (limbs_value ls ≡ top_limb ls) × (top_limb ls < 2 ^ 32)
unfolding limbs_value top_limb
one_limb [] e h = absurd (omega arith)
one_limb (l ∷ []) e h = (omega arith, h.0)
one_limb (l ∷ x ∷ r) e h = absurd (omega arith)

-- the same with a remainder in the normal form if the number is
abbrev Quotient : BigUint → ℕ → BigUint × BigUint → Type 0
Quotient x d r = Divides (value x) d r × (IsNormal x → IsNormal (r.1))

div_rem-Divides :
    (x d : BigUint)
    → IsBounded x
    → IsNormal d
    → 0 < value d
    → (r : BigUint × BigUint) × (div_rem x d ≡ some r) × Quotient x (value d) r
unfolding div_rem limbs_value
div_rem-Divides x d hx hd pos = elim (Bool-cases (is_zero d)) [
  | inl z ↦ absurd (omega (arith, (all_zero_iff (d.limbs)).0 z))
  | inr z ↦ (_, rw z refl, chosen)
]
  where
    single :
        length (d.limbs) == 1 ≡ true → Quotient x (value d) (div_rem_u32 x (top_limb (d.limbs)))
    single one =
        let known = one_limb (d.limbs) (ground arith) hd.0 in
        (
          subst (λ n. Divides (value x) n (div_rem_u32 x (top_limb (d.limbs)))) (sym known.0)
              (div_rem_u32-Divides x (top_limb (d.limbs)) hx (omega (arith, known.0)) known.1),
          λ n. ((omega arith, tt), omega arith, inl refl),
        )

    long : Quotient x (value d) (long_division x d)
    long = let r = long_division-Divides x d hx hd pos in (r.0, λ n. r.1)

    chosen : Quotient x (value d) (
        if is_less (cmp x d)
        then (zero_uint, x)
        else if length (d.limbs) == 1
        then div_rem_u32 x (top_limb (d.limbs))
        else long_division x d)
    chosen =
        if-all (Quotient x (value d)) (is_less (cmp x d)) (zero_uint, x) _
          (λ less. ((omega arith, (less_iff x d hx hd.0).0 less, (omega arith, tt), hx), λ n. n))
          (λ more.
            if-all (Quotient x (value d)) (length (d.limbs) == 1) _ _ single (λ more_limbs. long))

pub div_rem-IsNormal :
    (x d : BigUint)
    → IsBounded x
    → IsNormal d
    → 0 < value d
    → (q : BigUint) × (r : BigUint) × (div_rem x d ≡ some (q, r))
      × (value q ≡ value x / value d)
      × (value r ≡ value x % value d)
      × IsBounded q
      × IsBounded r
      × (IsNormal x → IsNormal r)
div_rem-IsNormal x d hx hd pos =
    let ((q, r), found, ((total, small, hq, hr), normal)) = div_rem-Divides x d hx hd pos in
    let quotient : value x / value d ≡ value q =
      div-eq_of_lt-le (value d) (omega (arith, total)) (grind (arith, total, small)) in
    (
      q,
      r,
      found,
      sym quotient,
      omega (arith, total, div-add-mod' (value x) (value d), ap (λ (n : ℕ). n * value d) quotient),
      hq,
      hr,
      normal,
    )

-- The division of a number with limbs below 2^32 by one in the normal form that is not 0, of any
-- lengths: it is done, and the two results are the quotient and the remainder of the numbers.
pub div_rem-quotient :
    (x d : BigUint)
    → IsBounded x
    → IsNormal d
    → 0 < value d
    → (q : BigUint) × (r : BigUint) × (div_rem x d ≡ some (q, r))
      × (value q ≡ value x / value d)
      × (value r ≡ value x % value d)
      × IsBounded q
      × IsBounded r
div_rem-quotient x d hx hd pos =
    let (q, r, found, eq, er, hq, hr, _) = div_rem-IsNormal x d hx hd pos in
    (q, r, found, eq, er, hq, hr)
