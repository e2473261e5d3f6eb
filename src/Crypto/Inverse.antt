-- ===== src/Crypto/Inverse.antt =====
-- src/crypto.rs: `signed_sub` and `mod_inverse` of `BigUint`. The coefficients have their sign
-- beside them. A difference that does not exist would be 0, as `unwrap_or` has it.
use desertemail.Prelude.{ℕ, zero, suc, Bool, true, false, Option, none, some, if◌then◌else◌}
use desertemail.Crypto.BigUint.{BigUint, from_u32, zero_uint, is_zero, cmp, is_less, sub, add, mul}
use desertemail.Crypto.Division.{unwrap, div_rem, rem, ◌>>=◌, is_one}

abbrev pub Signed : Type 0
Signed = BigUint × Bool

unfoldable pub signed_sub : Signed → Signed → Signed
unfolding sub add
signed_sub (a, false) (b, false) =
    if is_less (cmp a b) then (unwrap (sub b a), true) else (unwrap (sub a b), false)
signed_sub (a, true) (b, true) =
    if is_less (cmp b a) then (unwrap (sub a b), true) else (unwrap (sub b a), false)
signed_sub (a, false) (b, true) = (add a b, false)
signed_sub (a, true) (b, false) = (add a b, true)

pub record Euclid : Type 0 where
  pub old_r : BigUint
  pub r : BigUint
  pub old_s : Signed
  pub s : Signed

-- one round of the loop, with the quotient of its division
abbrev pub euclid_round : Euclid → BigUint → Euclid
euclid_round e q = record {
  old_r = e.r;
  r = unwrap (sub (e.old_r) (mul q (e.r)));
  old_s = e.s;
  s = signed_sub (e.old_s) (mul q ((e.s).0), (e.s).1);
}

abbrev pub quotient_of : BigUint × BigUint → BigUint
quotient_of (q, r) = q

-- The remainders fall, so the fuel is the first of them and one. `none` is the division by zero
-- that panics, or a loop that is not done.
unfoldable pub euclid : ℕ → Euclid → Option Euclid
unfolding mul sub signed_sub div_rem
euclid zero e = none
euclid (suc fuel) e =
    if is_zero (e.r)
    then some e
    else (div_rem (e.old_r) (e.r) >>= λ d. euclid fuel (euclid_round e (quotient_of d)))

-- the coefficient in the range of the modulus
abbrev pub in_range : BigUint → Signed → Option (Option BigUint)
in_range modulus (s, true) = rem s modulus >>= λ x. some (sub modulus x)
in_range modulus (s, false) = rem s modulus >>= λ x. some (some x)

abbrev pub euclid_start : BigUint → BigUint → Euclid
euclid_start a modulus = record {
  old_r = modulus;
  r = a;
  old_s = (zero_uint, false);
  s = (from_u32 1, false);
}

abbrev pub finish_inverse : BigUint → Euclid → Option (Option BigUint)
finish_inverse modulus e = if is_one (e.old_r) then in_range modulus (e.old_s) else some none

-- The inner option is the result; the outer one is `none` for a panic or too little fuel.
unfoldable pub mod_inverse : ℕ → BigUint → BigUint → Option (Option BigUint)
unfolding euclid div_rem
mod_inverse fuel x modulus =
    if is_zero modulus
    then some none
    else (rem x modulus >>= λ a.
        if is_zero a
        then some none
        else (euclid fuel (euclid_start a modulus) >>= λ e. finish_inverse modulus e))
