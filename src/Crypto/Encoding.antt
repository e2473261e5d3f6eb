-- ===== src/Crypto/Encoding.antt =====
-- src/crypto.rs: the encodings that signing writes, as bytes of a number.
use desertemail.Prelude.{
  ℕ, zero, suc, ◌-◌, ◌^◌, ◌≤◌, ◌<◌, ◌≡◌, refl, Bool, true, ◌&&◌, [], ◌∷◌, ◌++◌, arith, ltb,
  All-append, length, length-append, Bytes,
}
use mathlib.Core.Path.{subst}
use desertemail.Crypto.OctetValue.{be_value, AreBytes, be_value-cons, be_value_lt}
use desertemail.Crypto.Padding.{length-ffs}
use desertemail.Crypto.Rsa.{sha256_digestinfo_prefix, ffs, encoded}

-- the encoding of a digest in `k` bytes
abbrev pub encoding : ℕ → Bytes → Bytes
encoding k hash = encoded k (sha256_digestinfo_prefix ++ hash)

ffs-AreBytes : (n : ℕ) (t : Bytes) → AreBytes t → AreBytes (ffs n ++ 0 ∷ t)
unfolding ffs
ffs-AreBytes zero t h = (omega arith, h)
ffs-AreBytes (suc n) t h = (omega arith, ffs-AreBytes n t h)

abbrev all_bytes : Bytes → Bool
all_bytes [] = true
all_bytes (b ∷ bs) = ltb b 256 && all_bytes bs

all_bytes-AreBytes : (bs : Bytes) → all_bytes bs ≡ true → AreBytes bs
all_bytes-AreBytes [] e = tt
all_bytes-AreBytes (b ∷ bs) e = (ground arith, all_bytes-AreBytes bs (ground arith))

prefix-AreBytes : (hash : Bytes) → AreBytes hash → AreBytes (sha256_digestinfo_prefix ++ hash)
prefix-AreBytes hash h =
    All-append (λ b. b < 256) sha256_digestinfo_prefix hash
      (all_bytes-AreBytes sha256_digestinfo_prefix refl) h

pub encoding-AreBytes : (k : ℕ) (hash : Bytes) → AreBytes hash → AreBytes (encoding k hash)
unfolding encoded
encoding-AreBytes k hash h = (omega arith, (omega arith, ffs-AreBytes _ _ (prefix-AreBytes hash h)))

pub length-encoding :
    (k : ℕ) (hash : Bytes) → 62 ≤ k → length hash ≡ 32 → length (encoding k hash) ≡ k
unfolding encoded
length-encoding k hash enough h =
    let n = k - length (sha256_digestinfo_prefix ++ hash) - 3 in
    omega (arith, length-append (ffs n) (0 ∷ (sha256_digestinfo_prefix ++ hash)), length-ffs n, h)

-- The zero in front keeps the encoding below a modulus of the size.
pub encoding-small :
    (k : ℕ) (hash : Bytes)
    → 62 ≤ k
    → length hash ≡ 32
    → AreBytes hash
    → be_value (encoding k hash) < 256 ^ (k - 1)
unfolding encoded
encoding-small k hash enough h hb =
    let bytes = encoding-AreBytes k hash hb in
    let size : length (encoding k hash) ≡ k = length-encoding k hash enough h in
    behind_zero k _ size bytes.1
  where
    behind_zero :
        (k : ℕ) (t : Bytes) → length (0 ∷ t) ≡ k → AreBytes t → be_value (0 ∷ t) < 256 ^ (k - 1)
    behind_zero k t e b =
        let shorter : length t ≡ k - 1 = omega (arith, e) in
        subst (λ n. be_value (0 ∷ t) < 256 ^ n) shorter
          (omega (arith, be_value-cons 0 t, be_value_lt t b))
