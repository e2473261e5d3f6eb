-- ===== src/Crypto/Rsa.antt =====
-- src/crypto.rs: the signatures RSASSA-PKCS1-v1_5 that the file computes by itself, for keys that
-- ring refuses. SHA-256 and the comparison in constant time are ring's, hence parameters.
use desertemail.Prelude.{
  ℕ, zero, suc, ◌+◌, ◌-◌, Bool, false, not, ◌&&◌, ◌||◌, Option, none, some, [], ◌∷◌, ◌++◌, ltb, leb,
  ◌==◌, if◌then◌else◌, length, get_elem?, take, drop, Bytes, bytes_eq,
}
use desertemail.Crypto.BigUint.{BigUint, cmp, is_less}
use desertemail.Crypto.Division.{modpow}
use desertemail.Crypto.Octets.{from_be_bytes, to_be_bytes_padded}

pub record RsaKey : Type 0 where
  pub n : BigUint
  pub e : BigUint
  pub d : BigUint
  pub k : ℕ

pub record RsaPublicKey : Type 0 where
  pub modulus : BigUint
  pub exponent : BigUint
  pub size : ℕ

abbrev pub sha256_digestinfo_prefix : Bytes
sha256_digestinfo_prefix =
    0x30 ∷ 0x31 ∷ 0x30 ∷ 0x0d ∷ 0x06 ∷ 0x09 ∷ 0x60 ∷ 0x86 ∷ 0x48 ∷ 0x01 ∷ 0x65 ∷ 0x03 ∷ 0x04 ∷ 0x02
    ∷ 0x01 ∷ 0x05 ∷ 0x00 ∷ 0x04 ∷ 0x20 ∷ []

-- the bytes 0xff of the padding
unfoldable pub ffs : ℕ → Bytes
ffs zero = []
ffs (suc n) = 0xff ∷ ffs n

-- EM = 0x00 || 0x01 || PS || 0x00 || T
unfoldable pub encoded : ℕ → Bytes → Bytes
unfolding ffs
encoded k t = 0x00 ∷ 0x01 ∷ (ffs (k - length t - 3) ++ 0x00 ∷ t)

-- `panics` stands for a division by zero in `modpow`, which has a test for it.
pub data SignResult : Type 0 where
  signature : Bytes → SignResult
  digest_length modulus_too_small panics : SignResult

abbrev pub padded_to : ℕ → Option BigUint → SignResult
padded_to k none = panics
padded_to k (some s) = signature (to_be_bytes_padded s k)

unfoldable pub sign_digest_sha256_modpow : RsaKey → Bytes → SignResult
unfolding encoded modpow from_be_bytes to_be_bytes_padded
sign_digest_sha256_modpow key hash =
    let t = sha256_digestinfo_prefix ++ hash in
    if not (length hash == 32)
    then digest_length
    else if ltb (key.k) (length t + 11)
    then modulus_too_small
    else padded_to (key.k) (modpow (from_be_bytes (encoded (key.k) t)) (key.d) (key.n))

-- how many bytes the loop over 0xff passes
unfoldable pub ff_count : Bytes → ℕ
ff_count [] = 0
ff_count (b ∷ bs) = let rest = ff_count bs in if b == 0xff then suc rest else 0

abbrev pub is_byte : Option ℕ → ℕ → Bool
is_byte none b = false
is_byte (some x) b = x == b

module _ (ct_eq : Bytes → Bytes → Bool) where
  -- the prefix and the digest at the end
  abbrev pub digest_matches : Bytes → Bytes → Bool
  digest_matches t hash =
      length t == length sha256_digestinfo_prefix + 32
      && bytes_eq (take (length sha256_digestinfo_prefix) t) sha256_digestinfo_prefix
      && (length (drop (length sha256_digestinfo_prefix) t) == 32
          && ct_eq (drop (length sha256_digestinfo_prefix) t) hash)

  -- The checks on EM; the index `i` is 2 more than the count of 0xff.
  unfoldable pub check_em : Bytes → Bytes → Bool
  unfolding ff_count
  check_em (x ∷ y ∷ rest) hash =
      x == 0x00
      && y == 0x01
      && leb 10 (ff_count rest + 2)
      && is_byte (get_elem? rest (ff_count rest)) 0x00
      && digest_matches (drop (suc (ff_count rest)) rest) hash
  check_em _ hash = false

  abbrev pub check_power : ℕ → Option BigUint → Bytes → Bool
  check_power k none hash = false
  check_power k (some m) hash = check_em (to_be_bytes_padded m k) hash

module _ (sha256 : Bytes → Bytes) (ct_eq : Bytes → Bytes → Bool) where
  unfoldable pub verify_sha256_modpow : RsaPublicKey → Bytes → Bytes → Bool
  unfolding check_em modpow from_be_bytes to_be_bytes_padded
  verify_sha256_modpow pk message sig =
      let hash = sha256 message in
      let s = from_be_bytes sig in
      if not (length hash == 32)
      then false
      else if not (length sig == pk.size) || ltb (pk.size) 11
      then false
      else if not (is_less (cmp s (pk.modulus)))
      then false
      else check_power ct_eq (pk.size) (modpow s (pk.exponent) (pk.modulus)) hash

unfoldable pub sign_sha256_modpow : (Bytes → Bytes) → RsaKey → Bytes → SignResult
unfolding sign_digest_sha256_modpow
sign_sha256_modpow sha256 key message = sign_digest_sha256_modpow key (sha256 message)
