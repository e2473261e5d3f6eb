-- ===== src/Crypto/BigUint.antt =====
-- src/crypto.rs: `BigUint`, its order, sum, difference and product. The intermediate values of
-- u64 wrap where they would; a loop on an index from 0 is a recursion on the limbs, a loop from
-- the top limb down uses the result of the limbs above.
use desertemail.Prelude.{
  ℕ, zero, suc, ◌+◌, ◌-◌, ◌*◌, ◌/◌, ◌%◌, ◌^◌, Bool, true, false, ◌&&◌, ◌||◌, Option, none, some,
  List, [], ◌∷◌, ltb, ◌==◌, if◌then◌else◌, length,
}
use Prim.Native.Nat.{compare, Ordering}

-- the lowest limb first; each is a u32
pub record BigUint : Type 0 where
  pub limbs : List ℕ

unfoldable pub drop_zeros : List ℕ → List ℕ
drop_zeros [] = []
drop_zeros (l ∷ ls) = elim (drop_zeros ls) [
  | [] ↦ if l == 0 then [] else l ∷ []
  | x ∷ r ↦ l ∷ x ∷ r
]

-- `normalize`: at least one limb stays
unfoldable pub normalize : List ℕ → BigUint
unfolding drop_zeros
normalize ls = elim (drop_zeros ls) [
  | [] ↦ record { limbs = 0 ∷ [] }
  | x ∷ r ↦ record { limbs = x ∷ r }
]

abbrev pub from_u32 : ℕ → BigUint
from_u32 v = record { limbs = v ∷ [] }

abbrev pub zero_uint : BigUint
zero_uint = from_u32 0

unfoldable pub all_zero : List ℕ → Bool
all_zero [] = true
all_zero (l ∷ ls) = l == 0 && all_zero ls

abbrev pub is_zero : BigUint → Bool
is_zero x = all_zero (x.limbs)

-- the comparison of the limbs above goes first
abbrev pub or_else : Ordering → Ordering → Ordering
or_else Ordering.lt o = Ordering.lt
or_else Ordering.eq o = o
or_else Ordering.gt o = Ordering.gt

unfoldable pub cmp_limbs : List ℕ → List ℕ → Ordering
cmp_limbs [] [] = Ordering.eq
cmp_limbs [] (y ∷ ys) = or_else (cmp_limbs [] ys) (compare 0 y)
cmp_limbs (x ∷ xs) [] = or_else (cmp_limbs xs []) (compare x 0)
cmp_limbs (x ∷ xs) (y ∷ ys) = or_else (cmp_limbs xs ys) (compare x y)

abbrev pub cmp : BigUint → BigUint → Ordering
cmp a b = cmp_limbs (a.limbs) (b.limbs)

abbrev pub is_less : Ordering → Bool
is_less Ordering.lt = true
is_less _ = false

-- one round of the loop in `add`: the sum `s` in a u64
abbrev pub sum : ℕ → ℕ → ℕ → ℕ
sum a b carry = (a + b + carry) % 2 ^ 64

unfoldable pub add_limbs : List ℕ → List ℕ → ℕ → List ℕ
add_limbs [] [] carry = if ltb 0 carry then carry % 2 ^ 32 ∷ [] else []
add_limbs [] (b ∷ bs) carry = sum 0 b carry % 2 ^ 32 ∷ add_limbs [] bs (sum 0 b carry / 2 ^ 32)
add_limbs (a ∷ ls) [] carry = sum a 0 carry % 2 ^ 32 ∷ add_limbs ls [] (sum a 0 carry / 2 ^ 32)
add_limbs (a ∷ ls) (b ∷ bs) carry =
    sum a b carry % 2 ^ 32 ∷ add_limbs ls bs (sum a b carry / 2 ^ 32)

unfoldable pub add : BigUint → BigUint → BigUint
unfolding normalize add_limbs
add a b = normalize (add_limbs (a.limbs) (b.limbs) 0)

-- `d` is a - b - borrow, and 2 ^ 32 more where that is negative.
abbrev pub borrowed : ℕ → ℕ → Bool
borrowed a owed = ltb a owed

abbrev pub difference : ℕ → ℕ → ℕ
difference a owed = if borrowed a owed then a + 2 ^ 32 - owed else a - owed

abbrev pub borrow_of : Bool → ℕ
borrow_of true = 1
borrow_of false = 0

unfoldable pub sub_limbs : List ℕ → List ℕ → ℕ → List ℕ
sub_limbs [] bs borrow = []
sub_limbs (a ∷ ls) [] borrow =
    difference a borrow % 2 ^ 32 ∷ sub_limbs ls [] (borrow_of (borrowed a borrow))
sub_limbs (a ∷ ls) (b ∷ bs) borrow =
    difference a (b + borrow) % 2 ^ 32 ∷ sub_limbs ls bs (borrow_of (borrowed a (b + borrow)))

unfoldable pub sub : BigUint → BigUint → Option BigUint
unfolding cmp_limbs normalize sub_limbs
sub a b = if is_less (cmp a b) then none else some (normalize (sub_limbs (a.limbs) (b.limbs) 0))

-- `while carry > 0` past the last limb, which is pushed: a u64 takes two rounds at most
unfoldable pub push_carry : ℕ → List ℕ
push_carry carry =
    if ltb 0 carry
    then carry % 2 ^ 32 ∷ (if ltb 0 (carry / 2 ^ 32) then carry / 2 ^ 32 % 2 ^ 32 ∷ [] else [])
    else []

unfoldable pub carry_on : List ℕ → ℕ → List ℕ
unfolding push_carry
carry_on [] carry = push_carry carry
carry_on (l ∷ ls) carry =
    let s = (l + carry) % 2 ^ 64 in
    let rest = carry_on ls (s / 2 ^ 32) in if ltb 0 carry then s % 2 ^ 32 ∷ rest else l ∷ ls

-- One `i` of `mul`: the limb `x` times the limbs of `other`, added to the limbs from `i` on. There
-- are always enough of these, so the clause without one stands for an index that is not reached.
abbrev pub product : ℕ → ℕ → ℕ → ℕ → ℕ
product x b l carry = (x * b + l + carry) % 2 ^ 64

unfoldable pub mul_row : ℕ → List ℕ → List ℕ → ℕ → List ℕ
unfolding carry_on
mul_row x [] ls carry = carry_on ls carry
mul_row x (b ∷ bs) [] carry = []
mul_row x (b ∷ bs) (l ∷ ls) carry =
    product x b l carry % 2 ^ 32 ∷ mul_row x bs ls (product x b l carry / 2 ^ 32)

unfoldable pub mul_rows : List ℕ → List ℕ → List ℕ → List ℕ
unfolding mul_row
mul_rows [] bs acc = acc
mul_rows (a ∷ ls) bs acc = elim (mul_row a bs acc 0) [
  | [] ↦ []
  | l ∷ rest ↦ l ∷ mul_rows ls bs rest
]

unfoldable pub zeros : ℕ → List ℕ
zeros zero = []
zeros (suc n) = 0 ∷ zeros n

unfoldable pub mul : BigUint → BigUint → BigUint
unfolding all_zero normalize mul_rows zeros
mul a b =
    if is_zero a || is_zero b
    then zero_uint
    else normalize (mul_rows (a.limbs) (b.limbs) (zeros (length (a.limbs) + length (b.limbs))))
