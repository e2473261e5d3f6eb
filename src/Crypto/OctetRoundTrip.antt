-- ===== src/Crypto/OctetRoundTrip.antt =====
-- src/crypto.rs: `to_be_bytes` and `to_be_bytes_padded` write the number that `from_be_bytes`
-- reads.
use desertemail.Prelude.{
  ℕ, zero, suc, ◌+◌, ◌-◌, ◌*◌, ◌^◌, ◌≤◌, ◌<◌, ◌≡◌, refl, sym, ap, ◌∙◌, inl, inr, false, ◌&&◌, List,
  [], ◌∷◌, ◌++◌, arith, ltb, ◌==◌, Bool-cases, ltb→lt, if-all, ltb_of_le, le_of_ltb, All-append,
  length, length-append, Bytes,
}
use native.Mathlib.Nat.{mul-le-mul_right, pow-le-pow_right}
use desertemail.Crypto.BigUint.{BigUint, is_zero, zeros}
use desertemail.Crypto.OctetValue.{
  be_from, be_value, AreBytes, be_from-append, be_value-cons, from_be_bytes-value,
}
use desertemail.Crypto.Octets.{
  from_be_bytes, limb_bytes, top_bytes, bytes_of, to_be_bytes, strip_zeros, pad_to,
  to_be_bytes_padded,
}
use desertemail.Crypto.Value.{limbs_value, value, AreWords, IsBounded, all_zero_iff, length-zeros}

-- the bytes of a number, each a byte
abbrev pub Writes : ℕ → Bytes → Type 0
Writes n bs = (be_value bs ≡ n) × AreBytes bs

limb_bytes-from : (v l : ℕ) → l < 2 ^ 32 → be_from v (limb_bytes l) ≡ v * 2 ^ 32 + l
unfolding be_from
limb_bytes-from v l h = omega arith

limb_bytes-AreBytes : (l : ℕ) → AreBytes (limb_bytes l)
limb_bytes-AreBytes l = (omega arith, (omega arith, (omega arith, (omega arith, tt))))

top_bytes-Writes : (l : ℕ) → l < 2 ^ 32 → Writes l (top_bytes l)
unfolding be_value be_from
top_bytes-Writes l h =
    if-all (Writes l) (ltb 0xffffff l) _ _ (λ a. (omega arith, limb_bytes-AreBytes l))
      (λ a.
        if-all (Writes l) (ltb 0xffff l) _ _
          (λ b. (ground arith, (omega arith, (omega arith, (omega arith, tt)))))
          (λ b.
            if-all (Writes l) (ltb 0xff l) _ _
              (λ c. (ground arith, (omega arith, (omega arith, tt))))
              (λ c. (ground arith, (omega arith, tt)))))

bytes_of-Writes : (ls : List ℕ) → AreWords ls → Writes (limbs_value ls) (bytes_of ls)
unfolding bytes_of limbs_value be_value
bytes_of-Writes [] h = (unfold be_from in refl, tt)
bytes_of-Writes (l ∷ []) h = let top = top_bytes-Writes l h.0 in (top.0 ∙ omega arith, top.1)
bytes_of-Writes (l ∷ x ∷ r) h =
    let above = bytes_of-Writes (x ∷ r) h.1 in
    (
      be_from-append 0 (bytes_of (x ∷ r)) (limb_bytes l)
          ∙ (limb_bytes-from (be_from 0 (bytes_of (x ∷ r))) l h.0 ∙ omega (arith, above.0)),
      All-append (λ b. b < 256) (bytes_of (x ∷ r)) (limb_bytes l) above.1 (limb_bytes-AreBytes l),
    )

pub to_be_bytes-Writes : (x : BigUint) → IsBounded x → Writes (value x) (to_be_bytes x)
unfolding to_be_bytes
to_be_bytes-Writes x h =
    if-all (Writes (value x)) (is_zero x) (0 ∷ []) (bytes_of (x.limbs))
      (λ z.
        (sym ((all_zero_iff (x.limbs)).0 z ∙ unfold be_value be_from in refl), (omega arith, tt)))
      (λ z. bytes_of-Writes (x.limbs) h)

-- What is left is not too long, or it begins with a byte that is not 0.
strip_zeros-Writes :
    (width n : ℕ) (bs : Bytes)
    → n < 256 ^ width
    → Writes n bs
    → Writes n (strip_zeros width bs) × (length (strip_zeros width bs) ≤ width)
unfolding strip_zeros
strip_zeros-Writes width n [] small w = (w, omega arith)
strip_zeros-Writes width n (b ∷ bs) small (v, h) =
    if-all (λ r. Writes n r × (length r ≤ width)) (ltb width (length (b ∷ bs)) && b == 0)
      (strip_zeros width bs) (b ∷ bs)
      (λ z. strip_zeros-Writes width n bs small (without (ground arith), h.1))
      (λ z. (
        (v, h),
        elim (Bool-cases (ltb width (length (b ∷ bs)))) [
          | inl long ↦
              absurd
                (omega (arith, wide (ltb→lt width (length (b ∷ bs)) long) (ground arith), small, v))
          | inr short ↦ le_of_ltb width (length (b ∷ bs)) short
        ],
      ))
  where
    without : b ≡ 0 → be_value bs ≡ n
    without z = omega (arith, be_value-cons b bs, v, ap (λ (k : ℕ). k * 256 ^ length bs) z)

    wide : width < length (b ∷ bs) → 0 < b → 256 ^ width ≤ be_value (b ∷ bs)
    wide long pos =
        let power : 256 ^ width ≤ 256 ^ length bs =
          pow-le-pow_right (omega arith) {j = length bs} (omega arith) in
        let most : 1 * 256 ^ length bs ≤ b * 256 ^ length bs =
          mul-le-mul_right (256 ^ length bs) pos in
        omega (arith, power, most, be_value-cons b bs)

pub strip_zeros-keeps :
    (width : ℕ) (bs : Bytes) → AreBytes bs → Writes (be_value bs) (strip_zeros width bs)
unfolding strip_zeros
strip_zeros-keeps width [] h = (refl, tt)
strip_zeros-keeps width (b ∷ bs) h =
    if-all (Writes (be_value (b ∷ bs))) (ltb width (length (b ∷ bs)) && b == 0)
      (strip_zeros width bs) (b ∷ bs)
      (λ z. let rest = strip_zeros-keeps width bs h.1 in (rest.0 ∙ without (ground arith), rest.1))
      (λ z. (refl, h))
  where
    without : b ≡ 0 → be_value bs ≡ be_value (b ∷ bs)
    without z = omega (arith, be_value-cons b bs, ap (λ (k : ℕ). k * 256 ^ length bs) z)

zeros-Writes : (k : ℕ) (bs : Bytes) → AreBytes bs → Writes (be_value bs) (zeros k ++ bs)
unfolding zeros be_value be_from
zeros-Writes zero bs h = (refl, h)
zeros-Writes (suc k) bs h = let rest = zeros-Writes k bs h in (rest.0, (omega arith, rest.1))

-- A number below 256 to the power of the width is written in as many bytes.
pub padded-Writes :
    (x : BigUint) (width : ℕ)
    → IsBounded x
    → value x < 256 ^ width
    → (be_value (to_be_bytes_padded x width) ≡ value x)
      × AreBytes (to_be_bytes_padded x width)
      × (length (to_be_bytes_padded x width) ≡ width)
unfolding to_be_bytes_padded
padded-Writes x width h small =
    let (w, short) =
      strip_zeros-Writes width (value x) (to_be_bytes x) small (to_be_bytes-Writes x h) in
    padded (strip_zeros width (to_be_bytes x)) w short
  where
    padded :
        (raw : Bytes)
        → Writes (value x) raw
        → length raw ≤ width
        → (be_value (pad_to width raw) ≡ value x)
          × AreBytes (pad_to width raw)
          × (length (pad_to width raw) ≡ width)
    padded raw w short =
        let fits : ltb width (length raw) ≡ false = ltb_of_le width (length raw) short in
        let out = zeros-Writes (width - length raw) raw w.1 in
        rw fits (
          out.0 ∙ w.0,
          out.1,
          length-append (zeros (width - length raw)) raw
              ∙ omega (arith, length-zeros (width - length raw)),
        )

-- The bytes of a number are read back as the number, from a fixed width too.
pub from_be_bytes-padded :
    (x : BigUint) (width : ℕ)
    → IsBounded x
    → value x < 256 ^ width
    → value (from_be_bytes (to_be_bytes_padded x width)) ≡ value x
from_be_bytes-padded x width h small =
    let out = padded-Writes x width h small in
    (from_be_bytes-value (to_be_bytes_padded x width) out.1).0 ∙ out.0
