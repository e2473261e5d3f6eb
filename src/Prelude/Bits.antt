-- ===== src/Prelude/Bits.antt =====
-- `|` of values whose bits are apart is their sum.
use Prim.Native.Nat.{
  ℕ, zero, suc, ◌+◌, ◌*◌, ◌/◌, ◌%◌, ◌^◌, ◌≤◌, ◌<◌, max, digits, bit_or, bit_or-bitwise,
}
use mathlib.Core.Path.{◌≡◌, refl}
use native.Mathlib.Nat.{pow-suc}
use native.Mathlib.Omega.{arith}

-- The primitive stands for a recursion on the digits with the first number as its fuel.
abbrev or_digits : ℕ → ℕ → ℕ → ℕ
or_digits = digits (λ y. y) max

-- two fuels that are enough give the same
or_digits_fuel :
    (fuel other a b : ℕ) → a ≤ fuel → a ≤ other → or_digits fuel a b ≡ or_digits other a b
or_digits_fuel (suc fuel) (suc other) (suc a) b h k =
    omega (arith, or_digits_fuel fuel other (suc a / 2) (b / 2) (omega arith) (omega arith))
or_digits_fuel zero other (suc a) b h k = absurd (omega arith)
or_digits_fuel (suc fuel) zero (suc a) b h k = absurd (omega arith)
or_digits_fuel zero zero zero b h k = refl
or_digits_fuel zero (suc other) zero b h k = refl
or_digits_fuel (suc fuel) zero zero b h k = refl
or_digits_fuel (suc fuel) (suc other) zero b h k = refl

pub zero-or : (b : ℕ) → bit_or 0 b ≡ b
zero-or b = bit_or-bitwise 0 b

-- the lowest digit
or_lowest : (a b : ℕ) → bit_or a b ≡ bit_or (a / 2) (b / 2) * 2 + max (a % 2) (b % 2)
or_lowest zero b = omega (arith, zero-or b, zero-or (b / 2))
or_lowest (suc a) b = omega (
  arith,
  bit_or-bitwise (suc a) b,
  bit_or-bitwise (suc a / 2) (b / 2),
  or_digits_fuel a (suc a / 2) (suc a / 2) (b / 2) (omega arith) (omega arith),
)

or_zero : (a : ℕ) → bit_or a 0 ≡ a
or_zero a = within a a (omega arith)
  where
    within : (fuel a : ℕ) → a ≤ fuel → bit_or a 0 ≡ a
    within zero zero h = refl
    within zero (suc a) h = absurd (omega arith)
    within (suc fuel) zero h = refl
    within (suc fuel) (suc a) h =
        omega (arith, or_lowest (suc a) 0, within fuel (suc a / 2) (omega arith))

double_scaled : (q k : ℕ) → q * 2 ^ suc k ≡ q * 2 ^ k * 2
double_scaled q k = grind (arith, pow-suc 2 k)

pub high-or-low : (k q r : ℕ) → r < 2 ^ k → bit_or (q * 2 ^ k) r ≡ q * 2 ^ k + r
high-or-low zero q r h = ground (arith, or_zero q)
high-or-low (suc k) q r h =
    ground
      (arith, double_scaled q k, or_lowest (q * 2 ^ suc k) r, high-or-low k q (r / 2) (omega arith))

pub low-or-high : (k q r : ℕ) → r < 2 ^ k → bit_or r (q * 2 ^ k) ≡ r + q * 2 ^ k
low-or-high zero q r h = ground (arith, zero-or q)
low-or-high (suc k) q r h =
    ground
      (arith, double_scaled q k, or_lowest r (q * 2 ^ suc k), low-or-high k q (r / 2) (omega arith))
