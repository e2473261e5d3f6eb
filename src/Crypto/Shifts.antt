-- ===== src/Crypto/Shifts.antt =====
-- src/crypto.rs: `shl`, `shr1` and `set_bit` of `BigUint` as arithmetic on the numbers.
use desertemail.Prelude.{
  ℕ, zero, suc, ◌+◌, ◌-◌, ◌*◌, ◌/◌, ◌%◌, ◌^◌, ◌≤◌, ◌<◌, ◌≡◌, sym, ap, ◌∙◌, true, ◌||◌, List, [],
  ◌∷◌, ◌++◌, arith, ltb, ◌==◌, if◌then◌else◌, if-all, All-append,
}
use Prim.Native.Nat.{bit_or}
use mathlib.Core.Path.{subst}
use native.Mathlib.Nat.{
  pow-suc, one-le-pow, div-add-mod, mod-lt, mul-le-mul_right, div-lt_iff_lt-mul, div-add-mod',
  add-mul-mod_self_left, mul-mod_right, pow-le-pow_right,
}
use desertemail.Prelude.Bits.{high-or-low, low-or-high}
use desertemail.Crypto.BigUint.{BigUint, is_zero, zeros}
use desertemail.Crypto.Division.{shl_limbs, shl, shr_limbs, shr1, or_limb, set_bit}
use desertemail.Crypto.Value.{
  limbs_value, value, AreWords, IsBounded, value-normalize, normalize-IsNormal, all_zero_iff,
  zeros-words,
}

pub pow-add : (m n : ℕ) → 2 ^ (m + n) ≡ 2 ^ m * 2 ^ n
pow-add m zero = ground arith
pow-add m (suc n) = grind (arith, pow-add m n, pow-suc 2 (m + n), pow-suc 2 n)

pub pow_pos : (n : ℕ) → 1 ≤ 2 ^ n
pow_pos n = one-le-pow n 2 (omega arith)

scaled : (p q h r : ℕ) → p * q ≡ 2 ^ 32 → (q * h + r) * p ≡ r * p + 2 ^ 32 * h
scaled p q h r e = grind (arith, ap (λ (w : ℕ). w * h) e)

-- a limb that goes up by some bits, and what leaves it
split_limb :
    (l p q : ℕ)
    → p * q ≡ 2 ^ 32
    → 0 < q
    → (l * p ≡ l % q * p + 2 ^ 32 * (l / q)) × (l % q * p + p ≤ 2 ^ 32)
split_limb l p q e pos =
    let below : suc (l % q) * p ≤ q * p = mul-le-mul_right p (mod-lt l {m = q} pos) in
    (
      ap (λ (w : ℕ). w * p) (sym (div-add-mod l q)) ∙ scaled p q (l / q) (l % q) e,
      grind (arith, below, e),
    )

-- The bits that leave a limb fit the shift.
leaving : (l p q : ℕ) → p * q ≡ 2 ^ 32 → 0 < q → l < 2 ^ 32 → l / q < p
leaving l p q e pos h = (div-lt_iff_lt-mul pos).1 (omega (arith, h, e))

-- the limbs with their values, all of them words
abbrev pub Holds : List ℕ → ℕ → Type 0
Holds r v = (limbs_value r ≡ v) × AreWords r

shl_limbs-Holds :
    (ls : List ℕ) (b up carry : ℕ)
    → b + up ≡ 32
    → AreWords ls
    → carry < 2 ^ b
    → Holds (shl_limbs ls b carry) (carry + 2 ^ b * limbs_value ls)
unfolding shl_limbs limbs_value
shl_limbs-Holds [] b up carry e h c =
    let small : 2 ^ b ≤ 2 ^ 32 = pow-le-pow_right (omega arith) {j = 32} (omega arith) in
    if-all (λ r. Holds r (carry + 2 ^ b * 0)) (ltb 0 carry) (carry ∷ []) []
      (λ p. (grind arith, (omega arith, tt))) (λ p. (ground arith, tt))
shl_limbs-Holds (l ∷ ls) b up carry e h c =
    let width : 32 - b ≡ up = omega arith in
    let whole : 2 ^ b * 2 ^ up ≡ 2 ^ 32 = sym (pow-add b up) ∙ ap (λ (n : ℕ). 2 ^ n) e in
    let parts = split_limb l (2 ^ b) (2 ^ up) whole (pow_pos up) in
    let rest =
      shl_limbs-Holds ls b up (l / 2 ^ up) e h.1
        (leaving l (2 ^ b) (2 ^ up) whole (pow_pos up) h.0) in
    let kept : l * 2 ^ b % 2 ^ 32 ≡ l % 2 ^ up * 2 ^ b =
      omega (arith, parts.0, parts.1, pow_pos b) in
    rw (width, kept, high-or-low b (l % 2 ^ up) carry c)
      (grind (arith, rest.0, parts.0), (omega (arith, parts.1), rest.1))

append_zeros : (n : ℕ) (ls : List ℕ) → limbs_value (zeros n ++ ls) ≡ 2 ^ (n * 32) * limbs_value ls
unfolding zeros limbs_value
append_zeros zero ls = ground arith
append_zeros (suc n) ls =
    let more : 2 ^ (suc n * 32) ≡ 2 ^ 32 * 2 ^ (n * 32) =
      ap (λ (m : ℕ). 2 ^ m) (omega arith) ∙ pow-add 32 (n * 32) in
    grind (arith, append_zeros n ls, ap (λ (w : ℕ). w * limbs_value ls) more)

-- `<<` multiplies, with no bound on the shift.
pub shl-scaled :
    (x : BigUint) (bits : ℕ)
    → IsBounded x
    → (value (shl x bits) ≡ 2 ^ bits * value x) × IsBounded (shl x bits)
unfolding shl
shl-scaled x bits h =
    if-all (λ r. (value r ≡ 2 ^ bits * value x) × IsBounded r) (bits == 0 || is_zero x) _ _
      (λ z. (unmoved z, h))
      (λ z. (
        value-normalize _ ∙ (append_zeros (bits / 32) moved ∙ whole),
        (normalize-IsNormal (zeros (bits / 32) ++ moved) (
            All-append (λ l. l < 2 ^ 32) (zeros (bits / 32)) moved (zeros-words (bits / 32))
              inner.1)).0,
      ))
  where
    unmoved : bits == 0 || is_zero x ≡ true → value x ≡ 2 ^ bits * value x
    unmoved z = grind (arith, all_zero_iff (x.limbs))

    moved : List ℕ
    moved = if bits % 32 == 0 then x.limbs else shl_limbs (x.limbs) (bits % 32) 0

    the_zero : bits % 32 == 0 ≡ true → bits % 32 ≡ 0
    the_zero z = ground arith

    inner : Holds moved (2 ^ (bits % 32) * value x)
    inner =
        if-all (λ r. Holds r (2 ^ (bits % 32) * value x)) (bits % 32 == 0) _ _
          (λ z. (rw (the_zero z) (omega arith), h))
          (λ z.
            let r =
              shl_limbs-Holds (x.limbs) (bits % 32) (32 - bits % 32) 0 (omega arith) h
                (pow_pos (bits % 32)) in
            (omega (arith, r.0), r.1))

    powers : 2 ^ (bits / 32 * 32) * 2 ^ (bits % 32) ≡ 2 ^ bits
    powers = sym (pow-add _ _) ∙ ap (λ (n : ℕ). 2 ^ n) (omega arith)

    whole : 2 ^ (bits / 32 * 32) * limbs_value moved ≡ 2 ^ bits * value x
    whole =
        ap (λ (v : ℕ). 2 ^ (bits / 32 * 32) * v) (inner.0)
        ∙ grind (arith, ap (λ (w : ℕ). w * value x) powers)

shr_limbs-Holds :
    (ls : List ℕ)
    → AreWords ls
    → Holds ((shr_limbs ls).0) (limbs_value ls / 2) × ((shr_limbs ls).1 ≡ limbs_value ls % 2)
unfolding shr_limbs limbs_value
shr_limbs-Holds [] h = ((omega arith, tt), omega arith)
shr_limbs-Holds (l ∷ ls) h =
    let above = shr_limbs-Holds ls h.1 in
    let fits : (shr_limbs ls).1 * 2 ^ 31 % 2 ^ 32 ≡ (shr_limbs ls).1 * 2 ^ 31 =
      omega (arith, above.1) in
    rw (fits, low-or-high 31 ((shr_limbs ls).1) (l / 2) (omega (arith, h.0)))
      ((omega (arith, above.0.0, above.1), (omega (arith, above.1, h.0), above.0.1)), omega arith)

-- `>>` by one bit halves.
pub shr1-half : (x : BigUint) → IsBounded x → (value (shr1 x) ≡ value x / 2) × IsBounded (shr1 x)
unfolding shr1
shr1-half x h =
    let r = shr_limbs-Holds (x.limbs) h in
    (value-normalize _ ∙ r.0.0, (normalize-IsNormal _ r.0.1).0)

limb_power : (limb n : ℕ) → 2 ^ (suc limb * 32 + n) ≡ 2 ^ 32 * 2 ^ (limb * 32 + n)
limb_power limb n = ap (λ (m : ℕ). 2 ^ m) (omega arith) ∙ pow-add 32 (limb * 32 + n)

-- a limb whose low bits are clear, and the bit under them set
or_clear :
    (l b up v q : ℕ)
    → b + 1 + up ≡ 32
    → l < 2 ^ 32
    → l + 2 ^ 32 * v ≡ 2 ^ (b + 1) * q
    → (bit_or l (2 ^ b) ≡ l + 2 ^ b) × (l + 2 ^ b < 2 ^ 32)
or_clear l b up v q e h m =
    let whole : 2 ^ (b + 1) * 2 ^ up ≡ 2 ^ 32 =
      sym (pow-add (b + 1) up) ∙ ap (λ (n : ℕ). 2 ^ n) e in
    let twice : 2 ^ (b + 1) ≡ 2 ^ b * 2 = pow-add b 1 in
    let clear : l % 2 ^ (b + 1) ≡ 0 =
      sym (add-mul-mod_self_left l (2 ^ (b + 1)) (2 ^ up * v))
      ∙ (ap (λ (n : ℕ). n % 2 ^ (b + 1)) (grind (arith, m, ap (λ (w : ℕ). w * v) whole))
          ∙ mul-mod_right (2 ^ (b + 1)) q) in
    let parts : l / 2 ^ (b + 1) * 2 ^ (b + 1) ≡ l =
      omega (arith, div-add-mod' l (2 ^ (b + 1)), clear) in
    let few : l / 2 ^ (b + 1) < 2 ^ up =
      leaving l (2 ^ up) (2 ^ (b + 1)) (grind (arith, whole)) (pow_pos (b + 1)) h in
    let most : suc (l / 2 ^ (b + 1)) * 2 ^ (b + 1) ≤ 2 ^ up * 2 ^ (b + 1) =
      mul-le-mul_right (2 ^ (b + 1)) few in
    (
      subst (λ n. bit_or n (2 ^ b) ≡ n + 2 ^ b) parts
          (high-or-low (b + 1) (l / 2 ^ (b + 1)) (2 ^ b) (omega (arith, twice, pow_pos b))),
      grind (arith, most, parts, twice, whole, pow_pos b),
    )

or_limb-Holds :
    (ls : List ℕ) (limb b up q : ℕ)
    → b + 1 + up ≡ 32
    → AreWords ls
    → limbs_value ls ≡ 2 ^ (limb * 32 + (b + 1)) * q
    → Holds (or_limb ls limb (2 ^ b)) (limbs_value ls + 2 ^ (limb * 32 + b))
unfolding or_limb limbs_value
or_limb-Holds [] zero b up q e h m =
    let one = or_clear 0 b up 0 0 e (omega arith) (omega arith) in
    rw (one.0) (ground arith, (one.1, tt))
or_limb-Holds [] (suc limb) b up q e h m =
    let rest = or_limb-Holds [] limb b up 0 e tt (omega arith) in
    (omega (arith, rest.0, limb_power limb b), (omega arith, rest.1))
or_limb-Holds (l ∷ ls) zero b up q e h m =
    let one = or_clear l b up (limbs_value ls) q e h.0 (rw m (ground arith)) in
    rw (one.0) (ground arith, (one.1, h.1))
or_limb-Holds (l ∷ ls) (suc limb) b up q e h m =
    let above : limbs_value ls ≡ 2 ^ (limb * 32 + (b + 1)) * q =
      omega (arith, m, ap (λ (w : ℕ). w * q) (limb_power limb (b + 1)), h.0) in
    let rest = or_limb-Holds ls limb b up q e h.1 above in
    (omega (arith, rest.0, limb_power limb b), (h.0, rest.1))

-- A bit is set by adding it, under bits that are clear from it down.
pub set_bit-added :
    (x : BigUint) (bit q : ℕ)
    → IsBounded x
    → value x ≡ 2 ^ suc bit * q
    → (value (set_bit x bit) ≡ value x + 2 ^ bit) × IsBounded (set_bit x bit)
unfolding set_bit
set_bit-added x bit q h m =
    let place : bit / 32 * 32 + bit % 32 ≡ bit = omega arith in
    let next : bit / 32 * 32 + (bit % 32 + 1) ≡ suc bit = omega arith in
    let r =
      or_limb-Holds (x.limbs) (bit / 32) (bit % 32) (31 - bit % 32) q (omega arith) h
        (m ∙ ap (λ (n : ℕ). 2 ^ n * q) (sym next)) in
    (r.0 ∙ ap (λ (n : ℕ). value x + 2 ^ n) place, r.1)
