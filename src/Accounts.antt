-- ===== src/Accounts.antt =====
-- src/config.rs, src/auth.rs, src/passwd.rs and src/util.rs: addresses, the mailboxes that they lead
-- to, and passwords. PBKDF2 is the parameter `pbkdf2_verify`, and `from_utf8_lossy` is `lossy`. The
-- locks that guard the maps recover from a poisoned state, so a read is a plain read.
pub mod Mailboxes
mod Examples
use desertemail.Prelude.{
  ℕ, zero, suc, ◌+◌, ◌-◌, ◌*◌, ◌/◌, ◌%◌, ◌^◌, ◌≤◌, ◌<◌, min, max, ◌≡◌, refl, sym, ap, ◌∙◌, ◌≢◌, ◌↔◌,
  ◌⊎◌, inl, inr, Bool, true, false, not, ◌&&◌, ◌||◌, Option, none, some, List, [], ◌∷◌, ◌++◌, map,
  arith, ltb, leb, ◌==◌, if◌then◌else◌, Bool-cases, Option-cases, ltb→lt, lt→ltb, le→leb, leb→le,
  ==_refl, u64_max, saturating_add, All, length, get_elem?, take, drop, retain, any, is_empty,
  length-append, retain-append, retain-All, take-length_append, drop-length_append,
  get_elem?-length_append, get_elem?-some, get_elem?-none, length-take, length-drop,
  take-drop_append, Bytes, codes, bytes_eq, bytes_eq_iff, bytes_eq_refl, lower_byte, to_lowercase,
  is_whitespace, trim_start, trim_end, trim_matches, strip_prefix, starts_with, split_once,
  push_piece, split, join, split_whitespace, is_digit, parse_unsigned, upper_byte, to_uppercase,
  Map, empty, insert, remove, get_or, filter_value, retain_values, push_piece-ne-nil, split-ne-nil,
  join-split,
}
use desertemail.Prelude.Int.{ℤ}
use desertemail.Base64.{base64_decode}

-- the fields that the modelled parts read
pub record Config : Type 0 where
  pub domains : List Bytes
  pub users : Map Bytes
  pub quotas : Map ℕ
  pub catch_all : Bool
  pub default_password : Bytes
  pub allow_default_password_auth : Bool
  pub default_quota_mb : ℕ
  pub max_message_bytes : ℕ
  pub max_received_hops : ℕ
  pub require_tls_for_auth : Bool
  pub greylist : Bool
  pub spam_folder_threshold : ℤ
  pub spam_score_reject : ℤ

abbrev is_angle : ℕ → Bool
is_angle c = c == b'<' || c == b'>'

abbrev lower_both : Option (Bytes × Bytes) → Bytes → Bytes × Bytes
lower_both none s = (to_lowercase s, [])
lower_both (some (local, domain)) s = (to_lowercase local, to_lowercase domain)

-- the local part and the domain, in lower case
unfoldable pub parse_email_addr : Bytes → Bytes × Bytes
parse_email_addr s =
    let plain = trim_matches is_angle (trim_matches is_whitespace s) in
    lower_both (split_once b'@' plain) plain

abbrev pub contains_key {ℓ} : {V : Type ℓ} → Bytes → Map V → Bool
contains_key k m = elim (m k) [ none ↦ false | some _ ↦ true ]

unfoldable pub is_our_domain : Config → Bytes → Bool
is_our_domain cfg domain = any (λ d. bytes_eq d (to_lowercase domain)) cfg.domains

abbrev pub full_address : Bytes → Bytes → Bytes
full_address local domain = local ++ b'@' ∷ domain

-- `resolve_mailbox` behind the parsing
unfoldable pub resolve_parts : Config → Bytes → Bytes → Option Bytes
resolve_parts cfg local domain =
    if is_empty domain
    then (if contains_key local cfg.users || cfg.catch_all then some local else none)
    else if not (is_our_domain cfg domain)
    then none
    else if contains_key (full_address local domain) cfg.users
    then some (full_address local domain)
    else if contains_key local cfg.users || cfg.catch_all
    then some local
    else none

unfoldable pub resolve_mailbox : Config → Bytes → Option Bytes
unfolding resolve_parts
resolve_mailbox cfg addr =
    let (local, domain) = parse_email_addr addr in resolve_parts cfg local domain

unfoldable pub quota_bytes_for : Config → Bytes → ℕ
quota_bytes_for cfg user =
    min (get_or (cfg.quotas (to_lowercase user)) cfg.default_quota_mb * (1024 * 1024)) u64_max

-- storage.rs: a quota of 0 is no limit
unfoldable pub would_exceed_quota : ℕ → ℕ → ℕ → Bool
would_exceed_quota current extra quota_bytes =
    if quota_bytes == 0 then false else ltb quota_bytes (saturating_add current extra)

abbrev pub u32_max : ℕ
u32_max = 2 ^ 32 - 1

abbrev pub hash_prefix : Bytes
hash_prefix = codes "pbkdf2_sha256$"

module _ (pbkdf2_verify : ℕ → Bytes → Bytes → Bytes → Bool) where
  abbrev verify_hash : Option ℕ → Bytes → Bytes → Bytes → Bool
  verify_hash none salt expected pass = false
  verify_hash (some zero) salt expected pass = false
  verify_hash (some (suc n)) salt expected pass =
      if is_empty expected then false else pbkdf2_verify (suc n) salt pass expected

  -- `splitn(3, '$')`: the third piece keeps the rest
  abbrev verify_fields : Option (Bytes × Bytes) → Bytes → Bool
  verify_fields none pass = false
  verify_fields (some (iterations, rest)) pass = elim (split_once b'$' rest) [
    | none ↦ false
    | some (salt, hash) ↦
        verify_hash (parse_unsigned u32_max iterations) (base64_decode salt) (base64_decode hash)
          pass
  ]

  -- A text without the prefix is a plain password.
  unfoldable pub verify_password : Bytes → Bytes → Bool
  verify_password stored pass = elim (strip_prefix hash_prefix stored) [
    | none ↦ bytes_eq stored pass
    | some rest ↦ verify_fields (split_once b'$' rest) pass
  ]

  unfoldable pub check_password : Config → Bytes → Bytes → Bool
  check_password cfg user pass = elim (cfg.users (to_lowercase user)) [
    | some stored ↦ verify_password stored pass
    | none ↦
        if cfg.allow_default_password_auth then verify_password cfg.default_password pass else false
  ]

module _ (lossy : Bytes → Bytes) where
  abbrev plain_parts : List Bytes → Option (Bytes × Bytes)
  plain_parts (_ ∷ user ∷ pass ∷ _) = some (lossy user, lossy pass)
  plain_parts (user ∷ pass ∷ []) = some (lossy user, lossy pass)
  plain_parts _ = none

  -- src/auth.rs: the name and the password of AUTH PLAIN
  unfoldable pub decode_plain : Bytes → Option (Bytes × Bytes)
  decode_plain b64 =
      let raw = base64_decode (trim_matches is_whitespace b64) in
      if is_empty raw then none else plain_parts (split 0 raw)
