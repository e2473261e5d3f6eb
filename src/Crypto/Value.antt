-- ===== src/Crypto/Value.antt =====
-- What a `BigUint` of src/crypto.rs stands for: the number, and the forms of its limbs.
use desertemail.Prelude.{
  ℕ, zero, suc, ◌+◌, ◌*◌, ◌^◌, ◌<◌, ◌≡◌, refl, ◌↔◌, ◌⊎◌, inl, inr, true, List, [], ◌∷◌, arith, ◌==◌,
  if◌then◌else◌, if-all, All, length,
}
use Prim.Native.Nat.{compare}
use desertemail.Crypto.BigUint.{BigUint, drop_zeros, normalize, all_zero, or_else, cmp_limbs, zeros}

-- the number: 2 ^ 32 to the power of its place for each limb
unfoldable pub limbs_value : List ℕ → ℕ
limbs_value [] = 0
limbs_value (l ∷ ls) = l + 2 ^ 32 * limbs_value ls

abbrev pub value : BigUint → ℕ
value x = limbs_value (x.limbs)

abbrev pub AreWords : List ℕ → Type 0
AreWords = All (λ l. l < 2 ^ 32)

-- every limb is a u32
abbrev pub IsBounded : BigUint → Type 0
IsBounded x = AreWords (x.limbs)

-- the top limb, and 0 of no limbs
unfoldable pub top_limb : List ℕ → ℕ
top_limb [] = 0
top_limb (l ∷ []) = l
top_limb (l ∷ x ∷ r) = top_limb (x ∷ r)

-- what `normalize` leaves: one limb, or a top limb that is not 0
abbrev pub IsNormal : BigUint → Type 0
IsNormal x =
    IsBounded x × (0 < length (x.limbs)) × ((length (x.limbs) ≡ 1) ⊎ (0 < top_limb (x.limbs)))

drop_zeros-value : (ls : List ℕ) → limbs_value (drop_zeros ls) ≡ limbs_value ls
unfolding drop_zeros limbs_value
drop_zeros-value [] = refl
drop_zeros-value (l ∷ ls) = by_rest (drop_zeros ls) (drop_zeros-value ls)
  where
    by_rest :
        (r : List ℕ)
        → limbs_value r ≡ limbs_value ls
        → limbs_value (elim r [ [] ↦ if l == 0 then [] else l ∷ [] | x ∷ t ↦ l ∷ x ∷ t ])
          ≡ l + 2 ^ 32 * limbs_value ls
    by_rest [] e =
        if-all (λ r. limbs_value r ≡ l + 2 ^ 32 * limbs_value ls) (l == 0) [] (l ∷ [])
          (λ z. ground arith) (λ z. ground arith)
    by_rest (x ∷ t) e = omega arith

pub value-normalize : (ls : List ℕ) → value (normalize ls) ≡ limbs_value ls
unfolding normalize limbs_value
value-normalize ls = by_rest (drop_zeros ls) (drop_zeros-value ls)
  where
    by_rest :
        (r : List ℕ)
        → limbs_value r ≡ limbs_value ls
        → value (elim r [ [] ↦ record { limbs = 0 ∷ [] } | x ∷ t ↦ record { limbs = x ∷ t } ])
          ≡ limbs_value ls
    by_rest [] e = omega arith
    by_rest (x ∷ t) e = e

-- no zero on top
abbrev IsTrimmed : List ℕ → Type 0
IsTrimmed ls = AreWords ls × ((ls ≡ []) ⊎ (0 < top_limb ls))

top_positive : (x : ℕ) (t : List ℕ) → ((x ∷ t ≡ []) ⊎ (0 < top_limb (x ∷ t))) → 0 < top_limb (x ∷ t)
top_positive x t (inl e) = absurd (cc)
top_positive x t (inr p) = p

drop_zeros-IsTrimmed : (ls : List ℕ) → AreWords ls → IsTrimmed (drop_zeros ls)
unfolding drop_zeros top_limb
drop_zeros-IsTrimmed [] w = (tt, inl refl)
drop_zeros-IsTrimmed (l ∷ ls) w = by_rest (drop_zeros ls) (drop_zeros-IsTrimmed ls w.1)
  where
    by_rest :
        (r : List ℕ)
        → IsTrimmed r
        → IsTrimmed (elim r [ [] ↦ if l == 0 then [] else l ∷ [] | x ∷ t ↦ l ∷ x ∷ t ])
    by_rest [] h =
        if-all IsTrimmed (l == 0) [] (l ∷ []) (λ z. (tt, inl refl))
          (λ z. ((w.0, tt), inr (ground arith)))
    by_rest (x ∷ t) h = ((w.0, h.0), inr (top_positive x t (h.1)))

pub normalize-IsNormal : (ls : List ℕ) → AreWords ls → IsNormal (normalize ls)
unfolding normalize top_limb
normalize-IsNormal ls w = by_rest (drop_zeros ls) (drop_zeros-IsTrimmed ls w)
  where
    by_rest :
        (r : List ℕ)
        → IsTrimmed r
        → IsNormal (elim r [ [] ↦ record { limbs = 0 ∷ [] } | x ∷ t ↦ record { limbs = x ∷ t } ])
    by_rest [] h = ((omega arith, tt), omega arith, inl refl)
    by_rest (x ∷ t) h = (h.0, omega arith, inr (top_positive x t (h.1)))

pub all_zero_iff : (ls : List ℕ) → (all_zero ls ≡ true) ↔ (limbs_value ls ≡ 0)
unfolding all_zero limbs_value
all_zero_iff [] = ground arith
all_zero_iff (l ∷ ls) = ground (arith, all_zero_iff ls)

-- `cmp` compares the numbers.
compare_places :
    (x y v w : ℕ)
    → x < 2 ^ 32
    → y < 2 ^ 32
    → or_else (compare v w) (compare x y) ≡ compare (x + 2 ^ 32 * v) (y + 2 ^ 32 * w)
compare_places x y v w h k = ground arith

pub compare-limbs :
    (xs ys : List ℕ)
    → AreWords xs
    → AreWords ys
    → cmp_limbs xs ys ≡ compare (limbs_value xs) (limbs_value ys)
unfolding cmp_limbs limbs_value
compare-limbs [] [] h k = refl
compare-limbs [] (y ∷ ys) h k =
    rw (compare-limbs [] ys tt k.1) (compare_places 0 y 0 (limbs_value ys) (omega arith) k.0)
compare-limbs (x ∷ xs) [] h k =
    rw (compare-limbs xs [] h.1 tt) (compare_places x 0 (limbs_value xs) 0 h.0 (omega arith))
compare-limbs (x ∷ xs) (y ∷ ys) h k =
    rw (compare-limbs xs ys h.1 k.1) (compare_places x y (limbs_value xs) (limbs_value ys) h.0 k.0)

pub value-zeros : (n : ℕ) → limbs_value (zeros n) ≡ 0
unfolding zeros limbs_value
value-zeros zero = refl
value-zeros (suc n) = omega (arith, value-zeros n)

pub zeros-words : (n : ℕ) → AreWords (zeros n)
unfolding zeros
zeros-words zero = tt
zeros-words (suc n) = (omega arith, zeros-words n)

pub length-zeros : (n : ℕ) → length (zeros n) ≡ n
unfolding zeros
length-zeros zero = refl
length-zeros (suc n) = omega (arith, length-zeros n)
