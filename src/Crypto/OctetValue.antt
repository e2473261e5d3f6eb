-- ===== src/Crypto/OctetValue.antt =====
-- src/crypto.rs: bytes and `BigUint`, by the number that both stand for.
use desertemail.Prelude.{
  ℕ, zero, suc, ◌+◌, ◌-◌, ◌*◌, ◌/◌, ◌%◌, ◌^◌, ◌≤◌, ◌<◌, ◌≡◌, refl, sym, ap, ◌∙◌, inl, inr, [], ◌∷◌,
  ◌++◌, arith, leb, ◌==◌, Bool-cases, leb→le, if-all, All, length, take, drop, length-take,
  length-drop, Bytes,
}
use mathlib.Core.Path.{subst, ap₂}
use native.Mathlib.Nat.{
  mul-add-div_right, div-eq_of_lt, pow-le-pow_right, pow-suc, pow-zero, mul-le-mul_right,
}
use desertemail.Prelude.Bits.{high-or-low}
use desertemail.Crypto.Octets.{word_from, limbs_from, from_be_bytes}
use desertemail.Crypto.Value.{
  limbs_value, value, AreWords, IsNormal, value-normalize, normalize-IsNormal,
}

-- the number of bytes that come after `v`
unfoldable pub be_from : ℕ → Bytes → ℕ
be_from v [] = v
be_from v (b ∷ bs) = be_from (v * 256 + b) bs

-- the number that bytes stand for, the highest first
unfoldable pub be_value : Bytes → ℕ
unfolding be_from
be_value = be_from 0

abbrev pub AreBytes : Bytes → Type 0
AreBytes = All (λ b. b < 256)

pub be_from-append : (v : ℕ) (xs ys : Bytes) → be_from v (xs ++ ys) ≡ be_from (be_from v xs) ys
unfolding be_from
be_from-append v [] ys = refl
be_from-append v (x ∷ xs) ys = be_from-append (v * 256 + x) xs ys

be_from-split : (v : ℕ) (xs : Bytes) → be_from v xs ≡ v * 256 ^ length xs + be_from 0 xs
unfolding be_from
be_from-split v [] = grind (arith, pow-zero 256)
be_from-split v (x ∷ xs) = grind (
  arith,
  be_from-split (v * 256 + x) xs,
  be_from-split x xs,
  ap (λ (w : ℕ). v * w) (pow-suc 256 (length xs)),
)

pub be_value-cons : (x : ℕ) (xs : Bytes) → be_value (x ∷ xs) ≡ x * 256 ^ length xs + be_value xs
unfolding be_value be_from
be_value-cons x xs = be_from-split (0 * 256 + x) xs ∙ omega arith

pub be_value_lt : (xs : Bytes) → AreBytes xs → be_value xs < 256 ^ length xs
be_value_lt [] h = unfold be_value be_from in ground arith
be_value_lt (x ∷ xs) h =
    let most : suc x * 256 ^ length xs ≤ 256 * 256 ^ length xs =
      mul-le-mul_right (256 ^ length xs) h.0 in
    grind (arith, be_value-cons x xs, be_value_lt xs h.1, most, pow-suc 256 (length xs))

heads : (p x y u w : ℕ) → u < p → w < p → x * p + u ≡ y * p + w → x ≡ y
heads p x y u w hu hw e = digit x u hu ∙ (ap (λ (n : ℕ). n / p) e ∙ sym (digit y w hw))
  where
    digit : (z v : ℕ) → v < p → z ≡ (z * p + v) / p
    digit z v h = sym (mul-add-div_right {m = p} (omega arith) z v ∙ omega (arith, div-eq_of_lt h))

-- A number has one writing of a given length.
pub be_value_inj :
    (xs ys : Bytes)
    → length xs ≡ length ys
    → AreBytes xs
    → AreBytes ys
    → be_value xs ≡ be_value ys
    → xs ≡ ys
be_value_inj [] [] e h k v = refl
be_value_inj [] (y ∷ ys) e h k v = absurd (omega arith)
be_value_inj (x ∷ xs) [] e h k v = absurd (omega arith)
be_value_inj (x ∷ xs) (y ∷ ys) e h k v =
    let same : length xs ≡ length ys = omega (arith, e) in
    let both : x * 256 ^ length ys + be_value xs ≡ y * 256 ^ length ys + be_value ys =
      ap (λ (n : ℕ). x * 256 ^ n + be_value xs) (sym same)
      ∙ (sym (be_value-cons x xs) ∙ (v ∙ be_value-cons y ys)) in
    let less : be_value xs < 256 ^ length ys =
      subst (λ n. be_value xs < 256 ^ n) same (be_value_lt xs h.1) in
    let head : x ≡ y = heads (256 ^ length ys) x y _ _ less (be_value_lt ys k.1) both in
    let tail : be_value xs ≡ be_value ys =
      omega (arith, both, ap (λ (n : ℕ). n * 256 ^ length ys) head) in
    ap₂ ◌∷◌ head (be_value_inj xs ys same h.1 k.1 tail)

word_from-value :
    (val : ℕ) (bs : Bytes) (room : ℕ)
    → val < 256 ^ room
    → room + length bs ≤ 4
    → AreBytes bs
    → (word_from val bs ≡ be_from val bs) × (be_from val bs < 2 ^ 32)
unfolding word_from be_from
word_from-value val [] room v r h =
    let small : 256 ^ room ≤ 256 ^ 4 = pow-le-pow_right (omega arith) {j = 4} (omega arith) in
    (refl, omega (arith, v, small))
word_from-value val (b ∷ bs) room v r h =
    let small : 256 ^ room ≤ 256 ^ 3 = pow-le-pow_right (omega arith) {j = 3} (omega arith) in
    let fits : val * 2 ^ 8 % 2 ^ 32 ≡ val * 2 ^ 8 = omega (arith, v, small) in
    rw (fits, high-or-low 8 val b h.0)
      (word_from-value (val * 256 + b) bs (suc room) (omega (arith, v, h.0, pow-suc 256 room))
        (omega arith) h.1)

take-All : (n : ℕ) (xs : Bytes) → AreBytes xs → AreBytes (take n xs)
take-All zero xs h = tt
take-All (suc n) [] h = tt
take-All (suc n) (x ∷ xs) h = (h.0, take-All n xs h.1)

pub drop-All : (n : ℕ) (xs : Bytes) → AreBytes xs → AreBytes (drop n xs)
drop-All zero xs h = h
drop-All (suc n) [] h = tt
drop-All (suc n) (x ∷ xs) h = drop-All n xs h.1

take-split : (i m n : ℕ) (xs : Bytes) → i ≡ m + n → take i xs ≡ take m xs ++ take n (drop m xs)
take-split i zero n xs e = ap (λ (k : ℕ). take k xs) (omega (arith, e))
take-split zero (suc m) n xs e = absurd (omega arith)
take-split (suc i) (suc m) zero [] e = refl
take-split (suc i) (suc m) (suc n) [] e = refl
take-split (suc i) (suc m) n (x ∷ xs) e = ap (◌∷◌ x) (take-split i m n xs (omega (arith, e)))

-- one slice: the number before it, times the place of the slice, and the slice
slice :
    (bytes : Bytes) (i : ℕ)
    → 0 < i
    → i ≤ length bytes
    → AreBytes bytes
    → (word_from 0 (take (i - (i - 4)) (drop (i - 4) bytes))
          + 2 ^ 32 * be_value (take (i - 4) bytes)
        ≡ be_value (take i bytes))
      × (word_from 0 (take (i - (i - 4)) (drop (i - 4) bytes)) < 2 ^ 32)
unfolding be_value
slice bytes i pos l b =
    (rw (word.0, parts) (omega (arith, be_from-split before piece, place)), rw (word.0) word.1)
  where
    piece : Bytes
    piece = take (i - (i - 4)) (drop (i - 4) bytes)

    before : ℕ
    before = be_from 0 (take (i - 4) bytes)

    size : length piece ≡ i - (i - 4)
    size = length-take (i - (i - 4)) (drop (i - 4) bytes) (omega (arith, length-drop (i - 4) bytes))

    word : (word_from 0 piece ≡ be_from 0 piece) × (be_from 0 piece < 2 ^ 32)
    word =
        word_from-value 0 piece 0 (omega arith) (omega (arith, size))
          (take-All (i - (i - 4)) (drop (i - 4) bytes) (drop-All (i - 4) bytes b))

    parts : be_from 0 (take i bytes) ≡ be_from before piece
    parts =
        ap (be_from 0) (take-split i (i - 4) (i - (i - 4)) bytes (omega arith))
        ∙ be_from-append 0 (take (i - 4) bytes) piece

    place : before * 256 ^ length piece ≡ 2 ^ 32 * before
    place = elim (Bool-cases (leb 4 i)) [
      | inl full ↦
          let four : length piece ≡ 4 = omega (arith, size, leb→le 4 i full) in
          rw four (omega arith)
      | inr first ↦
          let none_before : i - 4 ≡ 0 = ground arith in
          let nothing : before ≡ 0 =
            ap (λ (n : ℕ). be_from 0 (take n bytes)) none_before ∙ unfold be_from in refl in
          rw nothing (omega arith)
    ]

nothing : (bytes : Bytes) (i : ℕ) → i ≡ 0 → 0 ≡ be_value (take i bytes)
unfolding be_value be_from
nothing bytes zero e = refl
nothing bytes (suc i) e = absurd (omega arith)

-- The slices hold the number, each in a limb.
limbs_from-value :
    (fuel : ℕ) (bytes : Bytes) (i : ℕ)
    → i ≤ fuel
    → i ≤ length bytes
    → AreBytes bytes
    → (limbs_value (limbs_from fuel bytes i) ≡ be_value (take i bytes))
      × AreWords (limbs_from fuel bytes i)
unfolding limbs_from limbs_value
limbs_from-value zero bytes i h l b = (nothing bytes i (omega arith), tt)
limbs_from-value (suc fuel) bytes i h l b =
    let rest = limbs_from-value fuel bytes (i - 4) (omega arith) (omega arith) b in
    if-all (λ r. (limbs_value r ≡ be_value (take i bytes)) × AreWords r) (i == 0) _ _
      (λ z. (nothing bytes i (ground arith), tt))
      (λ z.
        let one = slice bytes i (ground arith) l b in
        (omega (arith, one.0, rest.0), (one.1, rest.1)))

take_all : (xs : Bytes) → take (length xs) xs ≡ xs
take_all [] = refl
take_all (x ∷ xs) = ap (◌∷◌ x) (take_all xs)

-- `from_be_bytes` reads the number that the bytes stand for, in the normal form.
pub from_be_bytes-value :
    (bytes : Bytes)
    → AreBytes bytes
    → (value (from_be_bytes bytes) ≡ be_value bytes) × IsNormal (from_be_bytes bytes)
unfolding from_be_bytes limbs_value be_value be_from
from_be_bytes-value [] h = (omega arith, ((omega arith, tt), omega arith, inl refl))
from_be_bytes-value (x ∷ xs) h =
    let r =
      limbs_from-value (length (x ∷ xs)) (x ∷ xs) (length (x ∷ xs)) (omega arith) (omega arith) h in
    (value-normalize _ ∙ (r.0 ∙ ap be_value (take_all (x ∷ xs))), normalize-IsNormal _ r.1)
