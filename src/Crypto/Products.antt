-- ===== src/Crypto/Products.antt =====
-- src/crypto.rs: `mul` of `BigUint` against the product of the numbers.
use desertemail.Prelude.{
  ℕ, suc, ◌+◌, ◌-◌, ◌*◌, ◌/◌, ◌%◌, ◌^◌, ◌≤◌, ◌<◌, ◌≡◌, refl, ◌∙◌, inl, true, false, ◌||◌, List, [],
  ◌∷◌, arith, ltb, if-all, length,
}
use native.Mathlib.Nat.{mul-le-mul}
use desertemail.Crypto.BigUint.{
  BigUint, is_zero, push_carry, carry_on, product, mul_row, mul_rows, zeros, mul, from_u32,
}
use desertemail.Crypto.Value.{
  limbs_value, value, AreWords, IsBounded, IsNormal, value-normalize, normalize-IsNormal,
  all_zero_iff, value-zeros, zeros-words, length-zeros,
}

-- A product of two limbs, a limb and a carry fit a u64.
pub product-fits :
    (x b l carry : ℕ)
    → x < 2 ^ 32
    → b < 2 ^ 32
    → l < 2 ^ 32
    → carry < 2 ^ 32
    → (product x b l carry ≡ x * b + l + carry) × (product x b l carry / 2 ^ 32 < 2 ^ 32)
product-fits x b l carry hx hb hl hc =
    let most : x * b ≤ (2 ^ 32 - 1) * (2 ^ 32 - 1) =
      mul-le-mul {n₂ = 2 ^ 32 - 1} {m₂ = 2 ^ 32 - 1} (omega arith) (omega arith) in
    (omega (arith, most), omega (arith, most))

-- The limbs have the value, they are words, and there are as many as before or more.
abbrev Row : List ℕ → ℕ → ℕ → Type 0
Row r v n = (limbs_value r ≡ v) × AreWords r × (n ≤ length r)

carry_on-Row :
    (ls : List ℕ) (carry : ℕ)
    → AreWords ls
    → carry < 2 ^ 32
    → Row (carry_on ls carry) (limbs_value ls + carry) (length ls)
unfolding carry_on push_carry limbs_value
carry_on-Row [] carry h c =
    if-all (λ r. Row r (0 + carry) 0) (ltb 0 carry) _ []
      (λ p.
        let small : ltb 0 (carry / 2 ^ 32) ≡ false = ground arith in
        rw small (ground arith, (omega arith, tt), omega arith))
      (λ p. (ground arith, tt, omega arith))
carry_on-Row (l ∷ ls) carry h c =
    let rest = carry_on-Row ls ((l + carry) % 2 ^ 64 / 2 ^ 32) h.1 (omega arith) in
    if-all (λ r. Row r (l + 2 ^ 32 * limbs_value ls + carry) (suc (length ls))) (ltb 0 carry) _ _
      (λ p. (omega (arith, rest.0), (omega arith, rest.1), omega (arith, rest.2)))
      (λ p. (ground arith, h, omega arith))

mul_row-Row :
    (x : ℕ) (bs ls : List ℕ) (carry : ℕ)
    → x < 2 ^ 32
    → AreWords bs
    → AreWords ls
    → carry < 2 ^ 32
    → length bs ≤ length ls
    → Row (mul_row x bs ls carry) (limbs_value ls + x * limbs_value bs + carry) (length ls)
unfolding mul_row limbs_value
mul_row-Row x [] ls carry hx hb hl hc n =
    let rest = carry_on-Row ls carry hl hc in (grind (arith, rest.0), rest.1, rest.2)
mul_row-Row x (b ∷ bs) [] carry hx hb hl hc n = absurd (omega arith)
mul_row-Row x (b ∷ bs) (l ∷ ls) carry hx hb hl hc n =
    let fits = product-fits x b l carry hx hb.0 hl.0 hc in
    let rest =
      mul_row-Row x bs ls (product x b l carry / 2 ^ 32) hx hb.1 hl.1 fits.1 (omega arith) in
    (grind (arith, rest.0, fits.0), (omega arith, rest.1), omega (arith, rest.2))

mul_rows-Row :
    (a bs acc : List ℕ)
    → AreWords a
    → AreWords bs
    → AreWords acc
    → length a + length bs ≤ length acc
    → Row (mul_rows a bs acc) (limbs_value acc + limbs_value a * limbs_value bs) 0
unfolding mul_rows limbs_value
mul_rows-Row [] bs acc ha hb hc n = (omega arith, hc, omega arith)
mul_rows-Row (a ∷ ls) bs acc ha hb hc n =
    by_row (mul_row a bs acc 0) (mul_row-Row a bs acc 0 ha.0 hb hc (omega arith) (omega arith))
      (λ l rest. mul_rows-Row ls bs rest ha.1 hb)
  where
    by_row :
        (r : List ℕ)
        → Row r (limbs_value acc + a * limbs_value bs + 0) (length acc)
        → ((l : ℕ) (rest : List ℕ)
            → AreWords rest
            → length ls + length bs ≤ length rest
            → Row (mul_rows ls bs rest) (limbs_value rest + limbs_value ls * limbs_value bs) 0)
        → Row
            (elim r [ [] ↦ [] | l ∷ rest ↦ l ∷ mul_rows ls bs rest ])
            (limbs_value acc + (a + 2 ^ 32 * limbs_value ls) * limbs_value bs)
            0
    by_row [] h rows = absurd (omega (arith, h.2))
    by_row (l ∷ rest) h rows =
        let above = rows l rest h.1.1 (omega (arith, h.2)) in
        (grind (arith, h.0, above.0), (h.1.0, above.1), omega arith)

-- The product of two numbers of any lengths, with limbs below 2^32, is exact and in the normal
-- form.
pub mul-product :
    (a b : BigUint)
    → IsBounded a
    → IsBounded b
    → (value (mul a b) ≡ value a * value b) × IsNormal (mul a b)
unfolding mul limbs_value
mul-product a b h k =
    if-all (λ r. (value r ≡ value a * value b) × IsNormal r) (is_zero a || is_zero b) _ _
      (λ z. (nothing z, one_zero))
      (λ z.
        (value-normalize _ ∙ (rows.0 ∙ rw value-zeros (omega arith)), normalize-IsNormal _ rows.1))
  where
    rows :
        Row
          (mul_rows (a.limbs) (b.limbs) (zeros (length (a.limbs) + length (b.limbs))))
          (limbs_value (zeros (length (a.limbs) + length (b.limbs))) + value a * value b)
          0
    rows =
        mul_rows-Row (a.limbs) (b.limbs) (zeros (length (a.limbs) + length (b.limbs))) h k
          (zeros-words _) (omega (arith, length-zeros (length (a.limbs) + length (b.limbs))))

    one_zero : IsNormal (from_u32 0)
    one_zero = ((omega arith, tt), omega arith, inl refl)

    nothing : is_zero a || is_zero b ≡ true → value (from_u32 0) ≡ value a * value b
    nothing z = grind (arith, all_zero_iff (a.limbs), all_zero_iff (b.limbs))
