-- ===== src/Crypto/Signature.antt =====
-- src/crypto.rs: what `verify_sha256_modpow` accepts, and that it accepts what
-- `sign_sha256_modpow` writes.
use desertemail.Prelude.{
  ℕ, ◌+◌, ◌-◌, ◌%◌, ◌^◌, ◌≤◌, ◌<◌, ◌≡◌, sym, ap, ◌∙◌, ◌↔◌, Bool, true, false, not, ◌||◌, some, ◌++◌,
  arith, ltb, ◌==◌, if◌then◌else◌, ltb_of_le, length, Bytes,
}
use mathlib.Core.Path.{subst}
use native.Mathlib.Nat.{one-le-pow, mod-lt}
use desertemail.Crypto.BigUint.{BigUint}
use desertemail.Crypto.Division.{modpow}
use desertemail.Crypto.Octets.{from_be_bytes, to_be_bytes_padded}
use desertemail.Crypto.OctetRoundTrip.{padded-Writes}
use desertemail.Crypto.OctetValue.{be_value, AreBytes, be_value_inj, from_be_bytes-value}
use desertemail.Crypto.Padding.{check_em_iff}
use desertemail.Crypto.Powers.{modpow-power}
use desertemail.Crypto.Rsa.{
  RsaKey, RsaPublicKey, sha256_digestinfo_prefix, SignResult, signature, digest_length,
  modulus_too_small, padded_to, sign_digest_sha256_modpow, check_em, verify_sha256_modpow,
  sign_sha256_modpow,
}
use desertemail.Crypto.Sums.{less_iff}
use desertemail.Crypto.Value.{value, IsBounded, IsNormal}
use desertemail.Crypto.Encoding.{encoding, encoding-AreBytes, length-encoding, encoding-small}

-- RFC 8017, 8.2.2: the length, the range, and the power against the encoding
abbrev pub Accepts : RsaPublicKey → Bytes → Bytes → Type 0
Accepts pk hash sig =
    (length sig ≡ pk.size)
    × (62 ≤ pk.size)
    × (be_value sig < value (pk.modulus))
    × (be_value sig ^ value (pk.exponent) % value (pk.modulus) ≡ be_value (encoding (pk.size) hash))

-- a key whose modulus takes its size in bytes
abbrev pub IsKey : RsaPublicKey → Type 0
IsKey pk =
    IsNormal (pk.modulus)
    × IsBounded (pk.exponent)
    × (0 < value (pk.modulus))
    × (value (pk.modulus) < 256 ^ pk.size)

guards_iff :
    (a b c : Bool)
    → ((if a then false else if not b then false else c) ≡ true)
      ↔ ((a ≡ false) × (b ≡ true) × (c ≡ true))
guards_iff a b c = ground arith

-- what is signed when the digest and the modulus have their sizes
signs :
    (key : RsaKey) (hash : Bytes) (s : BigUint)
    → 62 ≤ key.k
    → length hash ≡ 32
    → modpow (from_be_bytes (encoding (key.k) hash)) (key.d) (key.n) ≡ some s
    → sign_digest_sha256_modpow key hash ≡ signature (to_be_bytes_padded s (key.k))
unfolding sign_digest_sha256_modpow
signs key hash s enough h found =
    ap (λ b. if b then digest_length else rest) {y = false} (ground arith)
    ∙ (ap (λ b. if b then modulus_too_small else powered)
          (ltb_of_le (key.k) (length (sha256_digestinfo_prefix ++ hash) + 11)
            (omega (arith, enough, h)))
        ∙ ap (padded_to (key.k)) found)
  where
    powered : SignResult
    powered = padded_to (key.k) (modpow (from_be_bytes (encoding (key.k) hash)) (key.d) (key.n))

    rest : SignResult
    rest =
        if ltb (key.k) (length (sha256_digestinfo_prefix ++ hash) + 11)
        then modulus_too_small
        else powered

size_iff : (a b : ℕ) → (not (a == b) || ltb b 11 ≡ false) ↔ ((a ≡ b) × (11 ≤ b))
size_iff a b = ground arith

module _ (sha256 : Bytes → Bytes) (sha256_length : (m : Bytes) → length (sha256 m) ≡ 32)
    (sha256_bytes : (m : Bytes) → AreBytes (sha256 m)) (ct_eq : Bytes → Bytes → Bool)
    (ct_eq_iff : (a b : Bytes) → (ct_eq a b ≡ true) ↔ (a ≡ b)) where
  -- the checks behind the power
  powered_iff :
      (pk : RsaPublicKey) (hash sig : Bytes) (m : BigUint)
      → IsKey pk
      → length hash ≡ 32
      → AreBytes hash
      → IsBounded m
      → value m ≡ be_value sig ^ value (pk.exponent) % value (pk.modulus)
      → (check_em ct_eq (to_be_bytes_padded m (pk.size)) hash ≡ true) ↔ (
          (62 ≤ pk.size)
          × (be_value sig ^ value (pk.exponent) % value (pk.modulus)
              ≡ be_value (encoding (pk.size) hash)))
  powered_iff pk hash sig m (normal, he, pos, room) h hb hm e =
      let below : value m < 256 ^ pk.size =
        omega (arith, e, mod-lt (be_value sig ^ value (pk.exponent)) pos, room) in
      let (written, bytes, size) = padded-Writes m (pk.size) hm below in
      let (sound, complete) =
        check_em_iff ct_eq ct_eq_iff (to_be_bytes_padded m (pk.size)) hash h in
      (
        (λ ok.
            let (enough, same) = sound ok in
            (
              omega (arith, enough, size),
              sym e ∙ (sym written ∙ ap be_value (same ∙ ap (λ n. encoding n hash) size)),
            )),
        λ (enough, same). complete (
          omega (arith, enough, size),
          be_value_inj _ _ (size ∙ sym (length-encoding (pk.size) hash enough h)) bytes
                (encoding-AreBytes (pk.size) hash hb) (written ∙ (e ∙ same))
              ∙ ap (λ n. encoding n hash) (sym size),
        ),
      )

  -- Where SHA-256 gives 32 bytes and the comparison is equality, for a key whose modulus is in the
  -- normal form, not 0 and within its size, and whose exponent has limbs below 2^32: a signature
  -- of bytes is accepted exactly when it has the size of the modulus, which is 62 at least, is
  -- below the modulus, and its power is the encoding of the digest.
  pub verify_sha256_modpow_iff :
      (pk : RsaPublicKey) (message sig : Bytes)
      → IsKey pk
      → AreBytes sig
      → (verify_sha256_modpow sha256 ct_eq pk message sig ≡ true) ↔ Accepts pk (sha256 message) sig
  unfolding verify_sha256_modpow
  verify_sha256_modpow_iff pk message sig key h =
      let (e, normal) = from_be_bytes-value sig h in
      let (m, found, power, hm) =
        modpow-power (from_be_bytes sig) (pk.exponent) (pk.modulus) normal.0 (key.1) (key.0)
          (key.2) in
      let (sound, complete) =
        powered_iff pk (sha256 message) sig m key (sha256_length message) (sha256_bytes message) hm
          (power ∙ ap (λ (n : ℕ). n ^ value (pk.exponent) % value (pk.modulus)) e) in
      let (small, is_small) = less_iff (from_be_bytes sig) (pk.modulus) normal.0 ((key.0).0) in
      rw (sha256_length message, found)
        (
          (λ ok.
              let (sized, less, checked) = (guards_iff _ _ _).0 ok in
              let (enough, same) = sound checked in
              let below : be_value sig < value (pk.modulus) =
                subst (λ n. n < value (pk.modulus)) e (small less) in
              (((size_iff (length sig) (pk.size)).0 sized).0, enough, below, same)),
          λ (size, enough, below, same). (guards_iff _ _ _).1 (
            (size_iff (length sig) (pk.size)).1 (size, omega (arith, enough)),
            is_small (omega (arith, below, e)),
            complete (enough, same),
          ),
        )

  -- Where SHA-256 gives 32 bytes and the comparison is equality, for a key with exponents that undo
  -- each other below the modulus, in the normal form with exactly its size k in bytes, 62 at least:
  -- a message is signed, and the signature is accepted.
  pub verify_sha256_modpow-sign :
      (key : RsaKey) (message : Bytes)
      → IsNormal (key.n)
      → IsBounded (key.e)
      → IsBounded (key.d)
      → 62 ≤ key.k
      → 256 ^ (key.k - 1) ≤ value (key.n)
      → value (key.n) < 256 ^ key.k
      → ((x : ℕ)
          → x < value (key.n)
          → (x ^ value (key.d) % value (key.n)) ^ value (key.e) % value (key.n) ≡ x)
      → (sig : Bytes) × (sign_sha256_modpow sha256 key message ≡ signature sig)
        × (verify_sha256_modpow sha256 ct_eq
              (record { modulus = key.n; exponent = key.e; size = key.k })
              message
              sig
            ≡ true)
  unfolding sign_sha256_modpow
  verify_sha256_modpow-sign key message hn he hd enough low high inverse =
      let em = encoding (key.k) (sha256 message) in
      let bytes = encoding-AreBytes (key.k) (sha256 message) (sha256_bytes message) in
      let size = length-encoding (key.k) (sha256 message) enough (sha256_length message) in
      let (e, normal) = from_be_bytes-value em bytes in
      let small_em =
        encoding-small (key.k) (sha256 message) enough (sha256_length message)
          (sha256_bytes message) in
      let pos : 0 < value (key.n) = omega (arith, low, one-le-pow (key.k - 1) 256 (omega arith)) in
      let (s, found, power, hs) =
        modpow-power (from_be_bytes em) (key.d) (key.n) normal.0 hd hn pos in
      let below : value s < value (key.n) =
        omega (arith, power, mod-lt (value (from_be_bytes em) ^ value (key.d)) pos) in
      let (written, sig_bytes, sized) = padded-Writes s (key.k) hs (omega (arith, below, high)) in
      (
        to_be_bytes_padded s (key.k),
        signs key (sha256 message) s enough (sha256_length message) found,
        (verify_sha256_modpow_iff _ message (to_be_bytes_padded s (key.k)) (hn, he, pos, high)
              sig_bytes).1
            (
              sized,
              enough,
              omega (arith, written, below),
              ap (λ (n : ℕ). n ^ value (key.e) % value (key.n)) (written ∙ power)
                  ∙ (inverse (value (from_be_bytes em)) (omega (arith, e, small_em, low)) ∙ e),
            ),
      )
