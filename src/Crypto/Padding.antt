-- ===== src/Crypto/Padding.antt =====
-- src/crypto.rs: the checks that `verify_sha256_modpow` makes on EM accept the encoding that
-- signing writes, and nothing else.
use desertemail.Prelude.{
  ℕ, zero, suc, ◌+◌, ◌-◌, ◌≤◌, ◌≡◌, refl, sym, ap, ◌∙◌, ◌↔◌, Bool, true, [], ◌∷◌, ◌++◌, arith, leb,
  ◌==◌, le→leb, if-all, length, get_elem?, take, drop, length-append, Bytes, bytes_eq_iff,
  bytes_eq_refl,
}
use mathlib.Core.Path.{subst, ap₂}
use desertemail.Crypto.Rsa.{
  sha256_digestinfo_prefix, ffs, encoded, ff_count, is_byte, digest_matches, check_em,
}

pub length-ffs : (n : ℕ) → length (ffs n) ≡ n
unfolding ffs
length-ffs zero = refl
length-ffs (suc n) = omega (arith, length-ffs n)

ff_count-encoded : (n : ℕ) (t : Bytes) → ff_count (ffs n ++ 0 ∷ t) ≡ n
unfolding ffs ff_count
ff_count-encoded zero t = refl
ff_count-encoded (suc n) t = ap suc (ff_count-encoded n t)

ff_split : (bs : Bytes) → bs ≡ ffs (ff_count bs) ++ drop (ff_count bs) bs
unfolding ffs ff_count
ff_split [] = refl
ff_split (b ∷ bs) =
    if-all (λ c. b ∷ bs ≡ ffs c ++ drop c (b ∷ bs)) (b == 0xff) (suc (ff_count bs)) 0
      (λ e. ap₂ ◌∷◌ (ground arith) (ff_split bs)) (λ e. refl)

get-ffs : (n : ℕ) (t : Bytes) → get_elem? (ffs n ++ t) n ≡ get_elem? t 0
unfolding ffs
get-ffs zero t = refl
get-ffs (suc n) t = get-ffs n t

drop-ffs : (n : ℕ) (t : Bytes) → drop (suc n) (ffs n ++ 0 ∷ t) ≡ t
unfolding ffs
drop-ffs zero t = refl
drop-ffs (suc n) t = drop-ffs n t

drop-get :
    (bs : Bytes) (i : ℕ) → is_byte (get_elem? bs i) 0 ≡ true → drop i bs ≡ 0 ∷ drop (suc i) bs
drop-get [] i e = absurd (cc)
drop-get (b ∷ bs) zero e = ap (λ x. x ∷ bs) (ground arith)
drop-get (b ∷ bs) (suc i) e = drop-get bs i e

take-drop : (n : ℕ) (bs : Bytes) → take n bs ++ drop n bs ≡ bs
take-drop zero bs = refl
take-drop (suc n) [] = refl
take-drop (suc n) (b ∷ bs) = ap (◌∷◌ b) (take-drop n bs)

module _ (ct_eq : Bytes → Bytes → Bool)
    (ct_eq_iff : (a b : Bytes) → (ct_eq a b ≡ true) ↔ (a ≡ b)) where
  digest_matches_iff :
      (t hash : Bytes)
      → length hash ≡ 32
      → (digest_matches ct_eq t hash ≡ true) ↔ (t ≡ sha256_digestinfo_prefix ++ hash)
  digest_matches_iff t hash h = (accepted, accepts)
    where
      accepted : digest_matches ct_eq t hash ≡ true → t ≡ sha256_digestinfo_prefix ++ hash
      accepted e =
          sym (take-drop 19 t)
          ∙ ap₂ ◌++◌ ((bytes_eq_iff (take 19 t) sha256_digestinfo_prefix).0 (ground arith))
              ((ct_eq_iff (drop 19 t) hash).0 (ground arith))

      accepts : t ≡ sha256_digestinfo_prefix ++ hash → digest_matches ct_eq t hash ≡ true
      accepts e =
          subst (λ s. digest_matches ct_eq s hash ≡ true) (sym e)
            (rw (h, bytes_eq_refl sha256_digestinfo_prefix, (ct_eq_iff hash hash).1 refl) refl)

  -- every encoding with enough padding is accepted
  padding_accepts :
      (j : ℕ) (hash : Bytes)
      → 8 ≤ j
      → length hash ≡ 32
      → check_em ct_eq (0 ∷ 1 ∷ (ffs j ++ 0 ∷ (sha256_digestinfo_prefix ++ hash))) hash ≡ true
  unfolding check_em
  padding_accepts j hash enough h =
      let t = sha256_digestinfo_prefix ++ hash in
      let room : leb 10 (j + 2) ≡ true = le→leb 10 (j + 2) (omega arith) in
      let found : is_byte (get_elem? (ffs j ++ 0 ∷ t) j) 0 ≡ true =
        ap (λ o. is_byte o 0) (get-ffs j (0 ∷ t)) in
      rw (ff_count-encoded j t, room, found, drop-ffs j t) ((digest_matches_iff t hash h).1 refl)

  -- The checks hold of the encodings with eight bytes 0xff or more, and of nothing else.
  pub check_em_iff :
      (em hash : Bytes)
      → length hash ≡ 32
      → (check_em ct_eq em hash ≡ true)
        ↔ ((62 ≤ length em) × (em ≡ encoded (length em) (sha256_digestinfo_prefix ++ hash)))
  unfolding check_em encoded
  check_em_iff em hash h = (accepted em, λ e. accepts em e.0 e.1)
    where
      t : Bytes
      t = sha256_digestinfo_prefix ++ hash

      size : length t ≡ 51
      size = omega (arith, h)

      accepts :
          (em : Bytes) → 62 ≤ length em → em ≡ encoded (length em) t → check_em ct_eq em hash ≡ true
      accepts em long e =
          subst (λ s. check_em ct_eq s hash ≡ true) (sym e)
            (padding_accepts (length em - length t - 3) hash (omega (arith, size, long)) h)

      accepted :
          (em : Bytes)
          → check_em ct_eq em hash ≡ true
          → (62 ≤ length em) × (em ≡ encoded (length em) t)
      accepted [] e = absurd (cc)
      accepted (x ∷ []) e = absurd (cc)
      accepted (x ∷ y ∷ rest) e =
          let c = ff_count rest in
          let padding : rest ≡ ffs c ++ 0 ∷ t =
            ff_split rest
            ∙ ap (λ s. ffs c ++ s)
                (drop-get rest c (ground arith)
                  ∙ ap (◌∷◌ 0)
                      ((digest_matches_iff (drop (suc c) rest) hash h).0 (ground arith))) in
          let total : length rest ≡ c + 52 =
            ap length padding
            ∙ (length-append (ffs c) (0 ∷ t) ∙ omega (arith, length-ffs c, size)) in
          let count : c ≡ length (x ∷ y ∷ rest) - length t - 3 = omega (arith, total, size) in
          (
            ground (arith, total),
            ap₂ ◌∷◌ (ground arith)
                (ap₂ ◌∷◌ (ground arith) (padding ∙ ap (λ n. ffs n ++ 0 ∷ t) count)),
          )
