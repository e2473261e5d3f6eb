-- ===== src/Crypto/DerRoundTrip.antt =====
-- src/crypto.rs: what `der_tlv` and `encode_der_integer` write is read back, with whatever follows.
use desertemail.Prelude.{
  ℕ, suc, ◌+◌, ◌*◌, ◌/◌, ◌%◌, ◌^◌, ◌≤◌, ◌<◌, ◌≡◌, refl, sym, ap, ◌∙◌, ◌⊎◌, inl, inr, Bool, false,
  not, none, some, List, [], ◌∷◌, ◌++◌, arith, ltb, leb, ◌==◌, if◌then◌else◌, ==_refl, if-all,
  ltb_of_le, length, take, drop, length-append, take-length_append, drop-length_append, Bytes,
}
use mathlib.Core.Path.{ap₂}
use native.Mathlib.Nat.{pow-suc, pow-le-pow_right}
use desertemail.Prelude.Bits.{high-or-low}
use desertemail.Crypto.BigUint.{BigUint}
use desertemail.Crypto.Der.{
  encode_der_length, der_tlv, positive, encode_der_integer, length_from, with_length, read_tag_len,
  cut_value, expect_tag, integer_of, read_integer,
}
use desertemail.Crypto.Division.{◌>>=◌}
use desertemail.Crypto.OctetRoundTrip.{Writes, to_be_bytes-Writes, strip_zeros-keeps}
use desertemail.Crypto.OctetValue.{be_from, be_value, AreBytes, from_be_bytes-value}
use desertemail.Crypto.Octets.{to_be_bytes, strip_zeros}
use desertemail.Crypto.Powers.{top_of_zero}
use desertemail.Crypto.Value.{limbs_value, value, AreWords, IsNormal, top_limb}

-- the bytes of a length, at most four of them
length_from-value :
    (l : ℕ) (bs : Bytes) (room : ℕ)
    → l < 256 ^ room
    → room + length bs ≤ 4
    → AreBytes bs
    → length_from l bs ≡ be_from l bs
unfolding length_from be_from
length_from-value l [] room v r h = refl
length_from-value l (b ∷ bs) room v r h =
    let small : 256 ^ room ≤ 256 ^ 3 = pow-le-pow_right (omega arith) {j = 3} (omega arith) in
    let fits : l * 2 ^ 8 % 2 ^ 64 ≡ l * 2 ^ 8 = omega (arith, v, small) in
    rw (fits, high-or-low 8 l b h.0)
      (length_from-value (l * 256 + b) bs (suc room) (omega (arith, v, h.0, pow-suc 256 room))
        (omega arith) h.1)

Reads : ℕ → Bytes → Bytes → Bytes → Type 0
Reads tag content rest enc =
    read_tag_len (tag ∷ ((enc ++ content) ++ rest)) ≡ some (tag, length content, content ++ rest)

fitting :
    (tag len : ℕ) (content rest : Bytes)
    → len ≡ length content
    → with_length tag len (content ++ rest) ≡ some (tag, length content, content ++ rest)
fitting tag len content rest e =
    let enough : ltb (length (content ++ rest)) len ≡ false =
      ltb_of_le (length (content ++ rest)) len (omega (arith, length-append content rest, e)) in
    rw enough (ap (λ n. some (tag, n, content ++ rest)) e)

long_form :
    (few : Bool) (tag len : ℕ) (content rest : Bytes)
    → few ≡ false
    → len ≡ length content
    → (if few then none else with_length tag len (content ++ rest))
      ≡ some (tag, length content, content ++ rest)
long_form few tag len content rest p e =
    ap (λ b. if b then none else with_length tag len (content ++ rest)) p
    ∙ fitting tag len content rest e

encode_der_length-Reads :
    (tag : ℕ) (content rest : Bytes)
    → length content < 2 ^ 24
    → Reads tag content rest (encode_der_length (length content))
unfolding Reads encode_der_length read_tag_len length_from be_from
encode_der_length-Reads tag content rest h =
    let len = length content in
    if-all (Reads tag content rest) (ltb len 0x80) _ _
      (λ a.
        let same : len % 256 ≡ len = ground arith in
        rw (same, a) (fitting tag len content rest refl))
      (λ a.
        if-all (Reads tag content rest) (leb len 0xff) _ _
          (λ b. long_form _ tag _ content rest (ltb_of_le _ _ (omega arith)) (
            length_from-value 0 (len % 256 ∷ []) 0 (omega arith) (omega arith) (omega arith, tt)
            ∙ ground arith))
          (λ b.
            if-all (Reads tag content rest) (leb len 0xffff) _ _
              (λ c. long_form _ tag _ content rest (ltb_of_le _ _ (omega arith)) (
                length_from-value 0 (len / 2 ^ 8 % 256 ∷ len % 256 ∷ []) 0 (omega arith)
                  (omega arith) (omega arith, (omega arith, tt))
                ∙ ground arith))
              (λ c. long_form _ tag _ content rest (ltb_of_le _ _ (omega arith)) (
                length_from-value 0 (len / 2 ^ 16 % 256 ∷ len / 2 ^ 8 % 256 ∷ len % 256 ∷ []) 0
                  (omega arith) (omega arith) (omega arith, (omega arith, (omega arith, tt)))
                ∙ ground arith))))

-- a written value is longer than the value
pub length-der_tlv : (tag : ℕ) (content : Bytes) → length content < length (der_tlv tag content)
unfolding der_tlv
length-der_tlv tag content =
    omega (arith, length-append (encode_der_length (length content)) content)

-- A value of less than 2 ^ 24 bytes is read back under its tag, and what follows is left.
pub expect_tag-der_tlv :
    (tag : ℕ) (content rest : Bytes)
    → length content < 2 ^ 24
    → expect_tag tag (der_tlv tag content ++ rest) ≡ some (content, rest)
unfolding expect_tag der_tlv Reads
expect_tag-der_tlv tag content rest h =
    ap (λ o. o >>= cut_value tag) (encode_der_length-Reads tag content rest h)
    ∙ (ap
          (λ b.
            if not b
            then none
            else some
                (take (length content) (content ++ rest), drop (length content) (content ++ rest)))
          (==_refl tag)
        ∙ ap₂ (λ t d. some (t, d)) (take-length_append content rest)
            (drop-length_append content rest))

-- Another tag is refused.
pub expect_tag-other :
    (want tag : ℕ) (content rest : Bytes)
    → length content < 2 ^ 24
    → tag == want ≡ false
    → expect_tag want (der_tlv tag content ++ rest) ≡ none
unfolding expect_tag der_tlv Reads
expect_tag-other want tag content rest h other =
    ap (λ o. o >>= cut_value want) (encode_der_length-Reads tag content rest h)
    ∙ ap
        (λ b.
          if not b
          then none
          else some
              (take (length content) (content ++ rest), drop (length content) (content ++ rest)))
        other

-- a top limb that is not 0, or no limbs
abbrev IsTrimmed : List ℕ → Type 0
IsTrimmed ls = AreWords ls × ((length ls ≡ 0) ⊎ (0 < top_limb ls))

-- behind the first limb of a normal number
tail-IsTrimmed :
    (l : ℕ) (ls : List ℕ)
    → AreWords (l ∷ ls)
    → (length (l ∷ ls) ≡ 1) ⊎ (0 < top_limb (l ∷ ls))
    → IsTrimmed ls
unfolding top_limb
tail-IsTrimmed l [] w shape = (tt, inl refl)
tail-IsTrimmed l (x ∷ r) w (inl one) = absurd (omega arith)
tail-IsTrimmed l (x ∷ r) w (inr top) = (w.1, inr top)

trimmed_positive : (l : ℕ) (ls : List ℕ) → IsTrimmed (l ∷ ls) → 0 < top_limb (l ∷ ls)
trimmed_positive l ls (w, inl none_left) = absurd (omega arith)
trimmed_positive l ls (w, inr top) = top

trimmed_inj : (a b : List ℕ) → IsTrimmed a → IsTrimmed b → limbs_value a ≡ limbs_value b → a ≡ b
unfolding limbs_value
trimmed_inj [] [] h k e = refl
trimmed_inj [] (m ∷ ms) h k e =
    absurd (omega (arith, trimmed_positive m ms k, top_of_zero (m ∷ ms) (sym e)))
trimmed_inj (l ∷ ls) [] h k e =
    absurd (omega (arith, trimmed_positive l ls h, top_of_zero (l ∷ ls) e))
trimmed_inj (l ∷ ls) (m ∷ ms) h k e = ap₂ ◌∷◌ (omega (arith, e, (h.0).0, (k.0).0)) (
    trimmed_inj ls ms (tail-IsTrimmed l ls h.0 (inr (trimmed_positive l ls h)))
      (tail-IsTrimmed m ms k.0 (inr (trimmed_positive m ms k)))
      (omega (arith, e, (h.0).0, (k.0).0)))

-- A number has one normal form.
pub normal_inj : (a b : BigUint) → IsNormal a → IsNormal b → value a ≡ value b → a ≡ b
unfolding limbs_value
normal_inj a b h k e = ap (λ ls. record { limbs = ls }) (by_limbs (a.limbs) (b.limbs) h k e)
  where
    by_limbs :
        (x y : List ℕ)
        → IsNormal (record { limbs = x })
        → IsNormal (record { limbs = y })
        → limbs_value x ≡ limbs_value y
        → x ≡ y
    by_limbs [] y (w, filled, shape) k e = absurd (omega arith)
    by_limbs (l ∷ ls) [] h (w, filled, shape) e = absurd (omega arith)
    by_limbs (l ∷ ls) (m ∷ ms) (w, filled, shape) (w', filled', shape') e =
        ap₂ ◌∷◌ (omega (arith, e, w.0, w'.0)) (
          trimmed_inj ls ms (tail-IsTrimmed l ls w shape) (tail-IsTrimmed m ms w' shape')
            (omega (arith, e, w.0, w'.0)))

positive-Writes : (bs : Bytes) → AreBytes bs → Writes (be_value bs) (positive bs)
unfolding be_value be_from
positive-Writes [] h = (refl, tt)
positive-Writes (b ∷ bs) h =
    if-all (Writes (be_value (b ∷ bs))) (b / 2 ^ 7 % 2 == 1) _ _ (λ z. (refl, (omega arith, h)))
      (λ z. (refl, h))

-- A number in the normal form is read back, if its bytes are fewer than 2 ^ 24.
pub read_integer-encode_der_integer :
    (n : BigUint) (rest : Bytes)
    → IsNormal n
    → length (encode_der_integer n) < 2 ^ 24
    → read_integer (encode_der_integer n ++ rest) ≡ some (n, rest)
unfolding read_integer encode_der_integer
read_integer-encode_der_integer n rest h small =
    let bytes = to_be_bytes-Writes n h.0 in
    let signed = positive-Writes (to_be_bytes n) bytes.1 in
    let bare = strip_zeros-keeps 1 (positive (to_be_bytes n)) signed.1 in
    let back = from_be_bytes-value (strip_zeros 1 (positive (to_be_bytes n))) bare.1 in
    ap (λ o. o >>= integer_of)
      (expect_tag-der_tlv 0x02 (positive (to_be_bytes n)) rest
        (omega (arith, small, length-der_tlv 0x02 (positive (to_be_bytes n)))))
    ∙ ap (λ m. some (m, rest)) (normal_inj _ n back.1 h (back.0 ∙ (bare.0 ∙ (signed.0 ∙ bytes.0))))
