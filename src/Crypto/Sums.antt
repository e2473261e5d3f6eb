-- ===== src/Crypto/Sums.antt =====
-- src/crypto.rs: `add` and `sub` of `BigUint` against the sum and the difference of the numbers.
use desertemail.Prelude.{
  ℕ, ◌+◌, ◌*◌, ◌/◌, ◌%◌, ◌^◌, ◌≤◌, ◌<◌, ◌≡◌, refl, ◌∙◌, ◌↔◌, ◌⊎◌, inl, inr, true, false, none, some,
  List, [], ◌∷◌, arith, ltb, Bool-cases, if-all,
}
use desertemail.Crypto.BigUint.{
  BigUint, normalize, cmp, is_less, add_limbs, add, sub_limbs, sub, sum, difference, borrowed,
  borrow_of,
}
use desertemail.Crypto.Value.{
  limbs_value, value, AreWords, IsBounded, IsNormal, value-normalize, normalize-IsNormal,
  compare-limbs,
}

add_limbs-value :
    (a b : List ℕ) (carry : ℕ)
    → AreWords a
    → AreWords b
    → carry ≤ 1
    → limbs_value (add_limbs a b carry) ≡ limbs_value a + limbs_value b + carry
unfolding add_limbs limbs_value
add_limbs-value [] [] carry h k c = ground arith
add_limbs-value [] (b ∷ bs) carry h k c =
    omega (arith, add_limbs-value [] bs (sum 0 b carry / 2 ^ 32) h k.1 (omega arith))
add_limbs-value (a ∷ ls) [] carry h k c =
    omega (arith, add_limbs-value ls [] (sum a 0 carry / 2 ^ 32) h.1 k (omega arith))
add_limbs-value (a ∷ ls) (b ∷ bs) carry h k c =
    omega (arith, add_limbs-value ls bs (sum a b carry / 2 ^ 32) h.1 k.1 (omega arith))

add_limbs-words : (a b : List ℕ) (carry : ℕ) → AreWords (add_limbs a b carry)
unfolding add_limbs
add_limbs-words [] [] carry =
    if-all AreWords (ltb 0 carry) (carry % 2 ^ 32 ∷ []) [] (λ c. (omega arith, tt)) (λ c. tt)
add_limbs-words [] (b ∷ bs) carry = (omega arith, add_limbs-words [] bs _)
add_limbs-words (a ∷ ls) [] carry = (omega arith, add_limbs-words ls [] _)
add_limbs-words (a ∷ ls) (b ∷ bs) carry = (omega arith, add_limbs-words ls bs _)

-- The sum of two numbers of any length is exact and in the normal form.
pub add-sum :
    (a b : BigUint)
    → IsBounded a
    → IsBounded b
    → (value (add a b) ≡ value a + value b) × IsNormal (add a b)
unfolding add
add-sum a b h k = (
  value-normalize _ ∙ (add_limbs-value (a.limbs) (b.limbs) 0 h k (omega arith) ∙ omega arith),
  normalize-IsNormal _ (add_limbs-words (a.limbs) (b.limbs) 0),
)

-- one limb of a difference
sub_limb :
    (a owed v w : ℕ)
    → a < 2 ^ 32
    → owed ≤ 2 ^ 32
    → (difference a owed < 2 ^ 32)
      × (borrow_of (borrowed a owed) ≤ 1)
      × (difference a owed + owed ≡ a + 2 ^ 32 * borrow_of (borrowed a owed))
sub_limb a owed v w h k = (ground arith, ground arith, ground arith)

sub_limbs-value :
    (a b : List ℕ) (borrow : ℕ)
    → AreWords a
    → AreWords b
    → borrow ≤ 1
    → limbs_value b + borrow ≤ limbs_value a
    → limbs_value (sub_limbs a b borrow) + limbs_value b + borrow ≡ limbs_value a
unfolding sub_limbs limbs_value
sub_limbs-value [] b borrow h k c le = omega arith
sub_limbs-value (a ∷ ls) [] borrow h k c le =
    let one = sub_limb a borrow 0 0 h.0 (omega arith) in
    omega (
      arith,
      one.0,
      one.2,
      sub_limbs-value ls [] (borrow_of (borrowed a borrow)) h.1 k one.1
          (omega (arith, one.0, one.2)),
    )
sub_limbs-value (a ∷ ls) (b ∷ bs) borrow h k c le =
    let one = sub_limb a (b + borrow) 0 0 h.0 (omega (arith, k.0)) in
    omega (
      arith,
      one.0,
      one.2,
      sub_limbs-value ls bs (borrow_of (borrowed a (b + borrow))) h.1 k.1 one.1
          (omega (arith, one.0, one.2)),
    )

sub_limbs-words : (a b : List ℕ) (borrow : ℕ) → AreWords (sub_limbs a b borrow)
unfolding sub_limbs
sub_limbs-words [] b borrow = tt
sub_limbs-words (a ∷ ls) [] borrow = (omega arith, sub_limbs-words ls [] _)
sub_limbs-words (a ∷ ls) (b ∷ bs) borrow = (omega arith, sub_limbs-words ls bs _)

pub less_iff :
    (a b : BigUint) → IsBounded a → IsBounded b → (is_less (cmp a b) ≡ true) ↔ (value a < value b)
less_iff a b h k = rw (compare-limbs (a.limbs) (b.limbs) h k) (ground arith)

-- What `sub` gives: nothing when the number would be negative, the exact difference otherwise.
pub sub-difference :
    (a b : BigUint)
    → IsBounded a
    → IsBounded b
    → ((value a < value b) × (sub a b ≡ none))
      ⊎ ((d : BigUint) × (sub a b ≡ some d) × (value d + value b ≡ value a) × IsNormal d)
unfolding sub
sub-difference a b h k = elim (Bool-cases (is_less (cmp a b))) [
  | inl less ↦ inl ((less_iff a b h k).0 less, rw less refl)
  | inr more ↦ inr (
    normalize (sub_limbs (a.limbs) (b.limbs) 0),
    rw more refl,
    (rw value-normalize
        (omega (arith, sub_limbs-value (a.limbs) (b.limbs) 0 h k (omega arith) (not_less more)))),
    normalize-IsNormal _ (sub_limbs-words (a.limbs) (b.limbs) 0),
  )
]
  where
    not_less : is_less (cmp a b) ≡ false → value b + 0 ≤ value a
    not_less e = ground (arith, less_iff a b h k)
