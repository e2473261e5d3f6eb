-- ===== src/Crypto/Bezout.antt =====
-- src/crypto.rs: the rounds of `mod_inverse` keep Bezout's equations, and end.
use desertemail.Prelude.{
  ℕ, zero, suc, ◌+◌, ◌*◌, ◌/◌, ◌%◌, ◌≤◌, ◌<◌, ◌≡◌, ap, ◌∙◌, inl, inr, true, false, some, arith,
  if◌then◌else◌, Bool-cases, if-all,
}
use native.Mathlib.Nat.{div-add-mod, mod-lt}
use desertemail.Crypto.BigUint.{BigUint, is_zero, cmp, is_less, sub, mul}
use desertemail.Crypto.Division.{unwrap, div_rem, ◌>>=◌}
use desertemail.Crypto.Inverse.{Signed, signed_sub, Euclid, euclid_round, quotient_of, euclid}
use desertemail.Crypto.Products.{mul-product}
use desertemail.Crypto.Quotients.{div_rem-IsNormal}
use desertemail.Crypto.Sums.{add-sum, sub-difference, less_iff}
use desertemail.Crypto.Value.{value, IsBounded, IsNormal, all_zero_iff}

-- the two parts of a signed number, of which one is 0
abbrev pub pos_part : Signed → ℕ
pos_part (a, false) = value a
pos_part (a, true) = 0

abbrev pub neg_part : Signed → ℕ
neg_part (a, false) = 0
neg_part (a, true) = value a

-- equal up to multiples of m
abbrev pub Cong : ℕ → ℕ → ℕ → Type 0
Cong m x y = (k : ℕ) × (l : ℕ) × (x + m * k ≡ y + m * l)

-- the signed number times `c` is `r` modulo m
abbrev pub Stands : ℕ → ℕ → Signed → ℕ → Type 0
Stands m c s r = Cong m (pos_part s * c) (r + neg_part s * c)

-- The next coefficient stands for the next remainder.
next-Stands :
    (m c q po mo ps ns p n ro r next : ℕ)
    → Cong m (po * c) (ro + mo * c)
    → Cong m (ps * c) (r + ns * c)
    → p + mo + q * ps ≡ n + po + q * ns
    → next + q * r ≡ ro
    → Cong m (p * c) (next + n * c)
next-Stands m c q po mo ps ns p n ro r next (k, l, e) (k', l', e') coeff rest = (
  k + q * l',
  l + q * k',
  grind (arith, e, ap (λ (w : ℕ). q * w) e', ap (λ (w : ℕ). w * c) coeff, rest),
)

unwrap-difference :
    (a b : BigUint)
    → IsBounded a
    → IsBounded b
    → value b ≤ value a
    → (value (unwrap (sub a b)) + value b ≡ value a) × IsNormal (unwrap (sub a b))
unwrap-difference a b h k le = elim (sub-difference a b h k) [
  | inl (less, _) ↦ absurd (omega (arith, less))
  | inr (d, found, e, normal) ↦ rw found (e, normal)
]

-- the parts of a difference of signed numbers
abbrev Difference : Signed → Signed → Signed → Type 0
Difference a b out =
    (pos_part out + neg_part a + pos_part b ≡ neg_part out + pos_part a + neg_part b)
    × IsBounded (out.0)

signed_sub-Difference :
    (a b : Signed) → IsBounded (a.0) → IsBounded (b.0) → Difference a b (signed_sub a b)
unfolding signed_sub
signed_sub-Difference (a, false) (b, false) h k =
    if-all (Difference (a, false) (b, false)) (is_less (cmp a b)) _ _
      (λ l.
        let d = unwrap-difference b a k h (omega (arith, (less_iff a b h k).0 l)) in
        (omega (arith, d.0), d.1.0))
      (λ l.
        let d = unwrap-difference a b h k (ground (arith, less_iff a b h k)) in
        (omega (arith, d.0), d.1.0))
signed_sub-Difference (a, true) (b, true) h k =
    if-all (Difference (a, true) (b, true)) (is_less (cmp b a)) _ _
      (λ l.
        let d = unwrap-difference a b h k (omega (arith, (less_iff b a k h).0 l)) in
        (omega (arith, d.0), d.1.0))
      (λ l.
        let d = unwrap-difference b a k h (ground (arith, less_iff b a k h)) in
        (omega (arith, d.0), d.1.0))
signed_sub-Difference (a, false) (b, true) h k =
    let s = add-sum a b h k in (omega (arith, s.0), s.1.0)
signed_sub-Difference (a, true) (b, false) h k =
    let s = add-sum a b h k in (omega (arith, s.0), s.1.0)

-- the state between two rounds
abbrev pub Holds : ℕ → ℕ → Euclid → Type 0
Holds m c e =
    IsNormal (e.old_r)
    × IsNormal (e.r)
    × IsBounded ((e.old_s).0)
    × IsBounded ((e.s).0)
    × Stands m c (e.old_s) (value (e.old_r))
    × Stands m c (e.s) (value (e.r))

-- a product has the sign of its second factor
scaled-parts :
    (q : ℕ) (s : Signed) (t : BigUint)
    → value t ≡ q * value (s.0)
    → (pos_part (t, s.1) ≡ q * pos_part s) × (neg_part (t, s.1) ≡ q * neg_part s)
scaled-parts q (s, false) t e = (e, omega arith)
scaled-parts q (s, true) t e = (omega arith, e)

round-Holds :
    (m c : ℕ) (e : Euclid) (q : BigUint)
    → Holds m c e
    → 0 < value (e.r)
    → IsBounded q
    → value q ≡ value (e.old_r) / value (e.r)
    → Holds m c (euclid_round e q)
      × (value ((euclid_round e q).r) < value (e.r))
      × (value ((euclid_round e q).r) + value q * value (e.r) ≡ value (e.old_r))
round-Holds m c e q (ho, hr, hos, hs, stands, stands') pos hq quotient =
    let (e1, n1) = mul-product q (e.r) hq hr.0 in
    let (e2, n2) = mul-product q ((e.s).0) hq hs in
    let parts : value (e.r) * value q + value (e.old_r) % value (e.r) ≡ value (e.old_r) =
      ap (λ (w : ℕ). value (e.r) * w + value (e.old_r) % value (e.r)) quotient
      ∙ div-add-mod (value (e.old_r)) (value (e.r)) in
    let fits : value (mul q (e.r)) ≤ value (e.old_r) = grind (arith, e1, parts) in
    let (diff, normal) = unwrap-difference (e.old_r) (mul q (e.r)) ho.0 n1.0 fits in
    let next : value (unwrap (sub (e.old_r) (mul q (e.r)))) + value q * value (e.r)
        ≡ value (e.old_r) =
      omega (arith, diff, e1) in
    let (coeff, hd) = signed_sub-Difference (e.old_s) (mul q ((e.s).0), (e.s).1) hos n2.0 in
    let scaled = scaled-parts (value q) (e.s) (mul q ((e.s).0)) e2 in
    (
      (
        hr,
        normal,
        hs,
        hd,
        stands',
        next-Stands m c (value q) (pos_part (e.old_s)) (neg_part (e.old_s)) (pos_part (e.s))
            (neg_part (e.s)) _ _ (value (e.old_r)) (value (e.r)) _ stands stands'
            (omega (arith, coeff, scaled.0, scaled.1)) next,
      ),
      grind (arith, next, parts, mod-lt (value (e.old_r)) pos),
      next,
    )

-- a common divisor of the remainders
abbrev pub Divisor : ℕ → Euclid → Type 0
Divisor g e = (u : ℕ) × (v : ℕ) × (value (e.old_r) ≡ u * g) × (value (e.r) ≡ v * g)

euclid_next :
    (fuel : ℕ) (e : Euclid) (d : BigUint × BigUint)
    → is_zero (e.r) ≡ false
    → div_rem (e.old_r) (e.r) ≡ some d
    → euclid (suc fuel) e ≡ euclid fuel (euclid_round e (quotient_of d))
unfolding euclid
euclid_next fuel e d z found =
    ap
      (λ b.
        if b
        then some e
        else (div_rem (e.old_r) (e.r) >>= λ d. euclid fuel (euclid_round e (quotient_of d))))
      z
    ∙ ap (λ o. o >>= λ d. euclid fuel (euclid_round e (quotient_of d))) found

euclid_last : (fuel : ℕ) (e : Euclid) → is_zero (e.r) ≡ true → euclid (suc fuel) e ≡ some e
unfolding euclid
euclid_last fuel e z =
    ap
      (λ b.
        if b
        then some e
        else (div_rem (e.old_r) (e.r) >>= λ d. euclid fuel (euclid_round e (quotient_of d))))
      z

-- The loop ends, with a remainder that divides those it began with.
pub euclid-Holds :
    (fuel m c : ℕ) (e : Euclid)
    → Holds m c e
    → value (e.r) < fuel
    → (out : Euclid) × (euclid fuel e ≡ some out) × Holds m c out × Divisor (value (out.old_r)) e
euclid-Holds zero m c e h fuel = absurd (omega arith)
euclid-Holds (suc fuel) m c e h enough = elim (Bool-cases (is_zero (e.r))) [
  | inl z ↦ (
    e,
    euclid_last fuel e z,
    h,
    (1, 0, omega arith, omega (arith, (all_zero_iff ((e.r).limbs)).0 z)),
  )
  | inr z ↦ further z (λ next held less. euclid-Holds fuel m c next held less)
]
  where
    further :
        is_zero (e.r) ≡ false
        → ((next : Euclid)
            → Holds m c next
            → value (next.r) < fuel
            → (out : Euclid) × (euclid fuel next ≡ some out)
              × Holds m c out
              × Divisor (value (out.old_r)) next)
        → (out : Euclid) × (euclid (suc fuel) e ≡ some out)
          × Holds m c out
          × Divisor (value (out.old_r)) e
    further z again =
        let pos : 0 < value (e.r) = ground (arith, all_zero_iff ((e.r).limbs)) in
        let (q, r, found, quotient, _, hq, _, _) =
          div_rem-IsNormal (e.old_r) (e.r) (h.0.0) h.1 pos in
        let (next, less, total) = round-Holds m c e q h pos hq quotient in
        let (out, done, held, (u, v, eu, ev)) =
          again (euclid_round e q) next (omega (arith, less)) in
        (
          out,
          euclid_next fuel e (q, r) z found ∙ done,
          held,
          (v + value q * u, u, grind (arith, total, eu, ev, ap (λ (w : ℕ). value q * w) eu), eu),
        )
