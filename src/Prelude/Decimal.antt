-- ===== src/Prelude/Decimal.antt =====
-- Decimal numerals: what `{}` prints for an unsigned integer.
use Prim.Native.Nat.{ℕ, zero, suc, ◌+◌, ◌-◌, ◌*◌, ◌/◌, ◌%◌, ◌≤◌, ◌<◌}
use mathlib.Core.Bool.{true, false}
use mathlib.Core.List.{[], ◌∷◌, ◌++◌}
use mathlib.Core.Logic.{◌≢◌, inl, inr}
use mathlib.Core.Option.{Option, none, some}
use mathlib.Core.Path.{◌≡◌, refl, ap, ◌∙◌}
use native.Mathlib.Omega.{arith}
use desertemail.Prelude.Lists.{All, All-append, All-map}
use desertemail.Prelude.Tests.{ltb, ltb→lt, if◌then◌else◌, Bool-cases}
use desertemail.Prelude.Text.{
  Bytes, is_digit, is_whitespace, digits_from, parse_unsigned, split_whitespace,
  split_whitespace-word,
}

-- The fuel is the number and one, and a division by ten makes it smaller.
unfoldable pub decimal_from : ℕ → ℕ → Bytes
decimal_from zero n = []
decimal_from (suc fuel) n =
    let before = decimal_from fuel (n / 10) in
    if ltb n 10 then (b'0' + n) ∷ [] else before ++ (b'0' + n % 10) ∷ []

unfoldable pub decimal : ℕ → Bytes
unfolding decimal_from
decimal n = decimal_from (suc n) n

abbrev times_ten : Option ℕ → ℕ → Option ℕ
times_ten none d = none
times_ten (some m) d = some (m * 10 + d)

digits_from-append :
    (m d : ℕ) (xs : Bytes)
    → d < 10
    → digits_from m (xs ++ (b'0' + d) ∷ []) ≡ times_ten (digits_from m xs) d
unfolding digits_from
digits_from-append m d [] h = ground arith
digits_from-append m d (x ∷ xs) h = ground (arith, digits_from-append (m * 10 + (x - b'0')) d xs)

digits_from-decimal_from : (fuel n : ℕ) → n < fuel → digits_from 0 (decimal_from fuel n) ≡ some n
unfolding decimal_from
digits_from-decimal_from zero n h = absurd (omega arith)
digits_from-decimal_from (suc fuel) n h = elim (Bool-cases (ltb n 10)) [
  | inl small ↦ rw small (one_digit n (ltb→lt n 10 small))
  | inr large ↦ rw large (
      digits_from-append 0 (n % 10) (decimal_from fuel (n / 10)) (omega arith)
      ∙ ap (λ o. times_ten o (n % 10)) (digits_from-decimal_from fuel (n / 10) (ground arith))
      ∙ ap some (omega arith))
]
  where
    one_digit : (n : ℕ) → n < 10 → digits_from 0 ((b'0' + n) ∷ []) ≡ some n
    one_digit n h = unfold digits_from in ground arith

decimal_from-digits : (fuel n : ℕ) → All (λ c. is_digit c ≡ true) (decimal_from fuel n)
unfolding decimal_from
decimal_from-digits zero n = tt
decimal_from-digits (suc fuel) n = elim (Bool-cases (ltb n 10)) [
  | inl small ↦ rw small (ground arith, tt)
  | inr large ↦ rw large (
      All-append (λ c. is_digit c ≡ true) (decimal_from fuel (n / 10)) ((b'0' + n % 10) ∷ [])
        (decimal_from-digits fuel (n / 10)) (ground arith, tt))
]

-- a numeral has digits alone
pub decimal_digits : (n : ℕ) → All (λ c. is_digit c ≡ true) (decimal n)
unfolding decimal
decimal_digits n = decimal_from-digits (suc n) n

parse_digits :
    (limit n : ℕ) (s : Bytes)
    → n ≤ limit
    → All (λ c. is_digit c ≡ true) s
    → digits_from 0 s ≡ some n
    → s ≢ []
    → parse_unsigned limit s ≡ some n
unfolding parse_unsigned
parse_digits limit n [] h digits e ne = absurd (ne refl)
parse_digits limit n (c ∷ cs) h digits e ne = ground arith

append-ne-nil : (xs : Bytes) (x : ℕ) → (xs ++ x ∷ []) ≢ []
append-ne-nil [] x = cc
append-ne-nil (y ∷ ys) x = cc

decimal_from-ne-nil : (fuel n : ℕ) → decimal_from (suc fuel) n ≢ []
unfolding decimal_from
decimal_from-ne-nil fuel n = elim (Bool-cases (ltb n 10)) [
  | inl small ↦ rw small (cc)
  | inr large ↦ rw large (append-ne-nil _ _)
]

-- A numeral is read back, if the type has room for it.
pub parse_unsigned-decimal : (limit n : ℕ) → n ≤ limit → parse_unsigned limit (decimal n) ≡ some n
unfolding decimal
parse_unsigned-decimal limit n h =
    parse_digits limit n (decimal_from (suc n) n) h (decimal_from-digits (suc n) n)
      (digits_from-decimal_from (suc n) n (omega arith)) (decimal_from-ne-nil n n)

pub digit_visible : (c : ℕ) → is_digit c ≡ true → is_whitespace c ≡ false
digit_visible c h = ground arith

-- a numeral is a word of a text
pub split_whitespace-decimal :
    (n : ℕ) (rest : Bytes)
    → split_whitespace (decimal n ++ b' ' ∷ rest) ≡ decimal n ∷ split_whitespace rest
split_whitespace-decimal n rest =
    split_whitespace-word (decimal n) rest (unfold decimal in decimal_from-ne-nil n n)
      (All-map (decimal n) digit_visible (decimal_digits n))
