-- ===== src/Crypto/Division.antt =====
-- src/crypto.rs: the bits of `BigUint`, its division with a remainder, and the powers modulo.
use desertemail.Prelude.{
  ℕ, zero, suc, ◌+◌, ◌-◌, ◌*◌, ◌/◌, ◌%◌, ◌^◌, Bool, false, ◌&&◌, ◌||◌, Option, none, some, List, [],
  ◌∷◌, ◌++◌, ltb, ◌==◌, if◌then◌else◌, length, get_elem?,
}
use Prim.Native.Nat.{bit_or}
use desertemail.Crypto.BigUint.{
  BigUint, normalize, from_u32, zero_uint, is_zero, cmp, is_less, sub, mul, zeros,
}
use desertemail.Crypto.Value.{top_limb}

-- the bits that a u32 needs: 32 without its `leading_zeros`
unfoldable pub bits_within : ℕ → ℕ → ℕ
bits_within zero l = 0
bits_within (suc fuel) l = let rest = bits_within fuel (l / 2) in if l == 0 then 0 else suc rest

abbrev pub leading_zeros : ℕ → ℕ
leading_zeros l = 32 - bits_within 32 l

unfoldable pub bit_len : BigUint → ℕ
unfolding bits_within top_limb
bit_len x =
    if is_zero x then 0 else (length (x.limbs) - 1) * 32 + (32 - leading_zeros (top_limb (x.limbs)))

abbrev pub bit_of : Option ℕ → ℕ → Bool
bit_of none bit = false
bit_of (some l) bit = l / 2 ^ bit % 2 == 1

abbrev pub get_bit : BigUint → ℕ → Bool
get_bit x i = bit_of (get_elem? (x.limbs) (i / 32)) (i % 32)

-- `carry` is what was shifted out of the limb below.
unfoldable pub shl_limbs : List ℕ → ℕ → ℕ → List ℕ
shl_limbs [] bit_shift carry = if ltb 0 carry then carry ∷ [] else []
shl_limbs (l ∷ ls) bit_shift carry =
    bit_or (l * 2 ^ bit_shift % 2 ^ 32) carry ∷ shl_limbs ls bit_shift (l / 2 ^ (32 - bit_shift))

unfoldable pub shl : BigUint → ℕ → BigUint
unfolding normalize zeros shl_limbs
shl x bits =
    if bits == 0 || is_zero x
    then x
    else normalize (
        zeros (bits / 32)
        ++ (if bits % 32 == 0 then x.limbs else shl_limbs (x.limbs) (bits % 32) 0))

-- the limbs, and the bit that leaves the lowest one
unfoldable pub shr_limbs : List ℕ → List ℕ × ℕ
shr_limbs [] = ([], 0)
shr_limbs (l ∷ ls) =
    let above = shr_limbs ls in (bit_or (l / 2) (above.1 * 2 ^ 31 % 2 ^ 32) ∷ above.0, l % 2)

unfoldable pub shr1 : BigUint → BigUint
unfolding normalize shr_limbs
shr1 x = normalize (shr_limbs (x.limbs)).0

-- `resize` with zeros as far as the limb, and the bit set there
unfoldable pub or_limb : List ℕ → ℕ → ℕ → List ℕ
or_limb [] zero mask = bit_or 0 mask ∷ []
or_limb [] (suc limb) mask = 0 ∷ or_limb [] limb mask
or_limb (l ∷ ls) zero mask = bit_or l mask ∷ ls
or_limb (l ∷ ls) (suc limb) mask = l ∷ or_limb ls limb mask

unfoldable pub set_bit : BigUint → ℕ → BigUint
unfolding or_limb
set_bit x bit = record { limbs = or_limb (x.limbs) (bit / 32) (2 ^ (bit % 32)) }

-- `unwrap` of a difference that exists
abbrev pub unwrap : Option BigUint → BigUint
unwrap none = zero_uint
unwrap (some x) = x

-- One round of the long division at the bit `s`, on the quotient and the remainder.
unfoldable pub divide_bit : ℕ → BigUint → BigUint × BigUint → BigUint × BigUint
unfolding sub set_bit
divide_bit s d state =
    if is_less (cmp (state.1) d) then state else (set_bit (state.0) s, unwrap (sub (state.1) d))

-- the rounds from the bit under `rounds` down to the bit 0
unfoldable pub divide_bits : ℕ → BigUint → BigUint × BigUint → BigUint × BigUint
unfolding divide_bit shr1
divide_bits zero d state = state
divide_bits (suc s) d state = divide_bits s (shr1 d) (divide_bit s d state)

-- the limbs of the quotient, and the remainder
unfoldable pub div_limbs : List ℕ → ℕ → List ℕ × ℕ
div_limbs [] d = ([], 0)
div_limbs (l ∷ ls) d =
    let above = div_limbs ls d in
    let cur = bit_or (above.1 * 2 ^ 32 % 2 ^ 64) l in (cur / d % 2 ^ 32 ∷ above.0, cur % d)

unfoldable pub div_rem_u32 : BigUint → ℕ → BigUint × BigUint
unfolding normalize div_limbs
div_rem_u32 x d = let r = div_limbs (x.limbs) d in (normalize (r.0), from_u32 (r.1 % 2 ^ 32))

abbrev pub renormalize : BigUint → BigUint
renormalize x = normalize (x.limbs)

abbrev pub both_normal : BigUint × BigUint → BigUint × BigUint
both_normal r = (renormalize (r.0), renormalize (r.1))

abbrev pub long_division : BigUint → BigUint → BigUint × BigUint
long_division x divisor =
    let shift = bit_len x - bit_len divisor in
    both_normal (divide_bits (suc shift) (shl divisor shift) (zero_uint, x))

-- By zero the source panics.
unfoldable pub div_rem : BigUint → BigUint → Option (BigUint × BigUint)
unfolding div_rem_u32 divide_bits shl bit_len
div_rem x divisor =
    if is_zero divisor
    then none
    else some (
        if is_less (cmp x divisor)
        then (zero_uint, x)
        else if length (divisor.limbs) == 1
        then div_rem_u32 x (top_limb (divisor.limbs))
        else long_division x divisor)

abbrev pub second : Option (BigUint × BigUint) → Option BigUint
second none = none
second (some r) = some (r.1)

abbrev pub rem : BigUint → BigUint → Option BigUint
rem x modulus = second (div_rem x modulus)

infixl 5 ◌>>=◌
abbrev pub ◌>>=◌ {ℓ κ} : {A : Type ℓ} {B : Type κ} → Option A → (A → Option B) → Option B
none >>= f = none
some a >>= f = f a

-- one round of the square-and-multiply loop: the base is squared, the result may take it up
abbrev pub power_round : BigUint → Bool → BigUint × BigUint → Option (BigUint × BigUint)
power_round modulus bit state = do
  result ← if bit then rem (mul (state.0) (state.1)) modulus else some (state.0)
  base ← rem (mul (state.1) (state.1)) modulus
  some (result, base)

-- the rounds from the bit `i` on, `rounds` of them
unfoldable pub power_rounds :
    BigUint → BigUint → ℕ → ℕ → BigUint × BigUint → Option (BigUint × BigUint)
unfolding div_rem mul
power_rounds modulus exp zero i state = some state
power_rounds modulus exp (suc rounds) i state = do
  next ← power_round modulus (get_bit exp i) state
  power_rounds modulus exp rounds (suc i) next

abbrev pub is_one : BigUint → Bool
is_one x = length (x.limbs) == 1 && top_limb (x.limbs) == 1

unfoldable pub modpow : BigUint → BigUint → BigUint → Option BigUint
unfolding power_rounds bit_len
modpow x exp modulus = if is_zero modulus || is_one modulus then some zero_uint else do
  base ← rem x modulus
  done ← power_rounds modulus exp (bit_len exp) 0 (from_u32 1, base)
  some (done.0)
