-- ===== src/Crypto/Congruence.antt =====
-- Remainders of products and powers.
use desertemail.Prelude.{ℕ, zero, suc, ◌+◌, ◌*◌, ◌/◌, ◌%◌, ◌^◌, ◌<◌, ◌≡◌, sym, ap, ◌∙◌, arith}
use native.Mathlib.Nat.{
  pow-suc, pow-zero, mod-eq_of_lt, div-div-eq-div-mul, mod-lt, div-add-mod, add-mul-mod_self_left,
  one-le-pow,
}

-- equal modulo m
abbrev pub Same : ℕ → ℕ → ℕ → Type 0
Same m a b = a % m ≡ b % m

reduced : (m a b : ℕ) → Same m (a % m * b) (a * b)
reduced m a b =
    sym (add-mul-mod_self_left (a % m * b) m (a / m * b))
    ∙ ap (λ (n : ℕ). n % m) (grind (arith, ap (λ (n : ℕ). n * b) (div-add-mod a m)))

pub mul-Same : (m a b c d : ℕ) → Same m a b → Same m c d → Same m (a * c) (b * d)
mul-Same m a b c d p q =
    sym (reduced m a c)
    ∙ (ap (λ (n : ℕ). n * c % m) p
        ∙ (reduced m b c
            ∙ (ap (λ (n : ℕ). n % m) (grind arith)
                ∙ (sym (reduced m c b)
                    ∙ (ap (λ (n : ℕ). n * b % m) q
                        ∙ (reduced m d b ∙ ap (λ (n : ℕ). n % m) (grind arith)))))))

pub pow-Same : (m a b t : ℕ) → Same m a b → Same m (a ^ t) (b ^ t)
pow-Same m a b zero p = ap (λ (n : ℕ). n % m) (pow-zero a ∙ sym (pow-zero b))
pow-Same m a b (suc t) p =
    rw (pow-suc a t, pow-suc b t) (mul-Same m (a ^ t) (b ^ t) a b (pow-Same m a b t p) p)

pub pow_one : (n : ℕ) → n ^ 1 ≡ n
pow_one n = pow-suc n 0 ∙ (ap (λ (w : ℕ). w * n) (pow-zero n) ∙ omega arith)

pub pow_sum : (n a b : ℕ) → n ^ (a + b) ≡ n ^ a * n ^ b
pow_sum n a zero =
    let none_more : a + 0 ≡ a = omega arith in rw (none_more, pow-zero n) (omega arith)
pow_sum n a (suc b) =
    let moved : a + suc b ≡ suc (a + b) = omega arith in
    rw (moved, pow-suc n (a + b), pow-suc n b, pow_sum n a b) (grind arith)

pub pow_square : (n t : ℕ) → (n * n) ^ t ≡ n ^ (t * 2)
pow_square n zero = pow-zero (n * n) ∙ sym (pow-zero n)
pow_square n (suc t) =
    grind (arith, pow_square n t, pow-suc (n * n) t, pow-suc n (suc (t * 2)), pow-suc n (t * 2))

-- The lowest digit of a number in base two, and the others.
pub low_digit :
    (n i rounds : ℕ) → n / 2 ^ i % 2 ^ suc rounds ≡ n / 2 ^ i % 2 + n / 2 ^ suc i % 2 ^ rounds * 2
low_digit n i rounds = rw halved (digits (n / 2 ^ i))
  where
    halved : n / 2 ^ suc i ≡ n / 2 ^ i / 2
    halved = ap (λ (m : ℕ). n / m) (pow-suc 2 i) ∙ sym (div-div-eq-div-mul n (2 ^ i) 2)

    digits : (m : ℕ) → m % 2 ^ suc rounds ≡ m % 2 + m / 2 % 2 ^ rounds * 2
    digits m =
        let p : 0 < 2 ^ rounds = one-le-pow rounds 2 (omega arith) in
        let twice = pow-suc 2 rounds in
        let small : m % 2 + m / 2 % 2 ^ rounds * 2 < 2 ^ suc rounds =
          omega (arith, mod-lt (m / 2) p, twice) in
        let whole : m ≡ m % 2 + m / 2 % 2 ^ rounds * 2 + 2 ^ suc rounds * (m / 2 / 2 ^ rounds) =
          grind (
            arith,
            div-add-mod (m / 2) (2 ^ rounds),
            ap (λ (w : ℕ). w * (m / 2 / 2 ^ rounds)) twice,
          ) in
        ap (λ (w : ℕ). w % 2 ^ suc rounds) whole
        ∙ (add-mul-mod_self_left _ (2 ^ suc rounds) _ ∙ mod-eq_of_lt small)
