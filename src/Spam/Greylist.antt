-- ===== src/Spam/Greylist.antt =====
-- src/spamscore.rs: the greylist. Its directory is the map from the names of the files to their
-- contents; a write is taken to succeed. SHA-256 and the parser of addresses are parameters.
use desertemail.Prelude.{
  ℕ, ◌+◌, ◌-◌, ◌*◌, ◌/◌, ◌%◌, ◌^◌, max, ◌&&◌, Option, none, some, List, [], ◌∷◌, ◌++◌, map, ltb,
  leb, ◌==◌, if◌then◌else◌, u64_max, get_elem?, take, Bytes, codes, to_lowercase, is_whitespace,
  trim_start, trim_end, trim_matches, split_whitespace, parse_unsigned, Map, insert, get_or,
  retain_values, decimal,
}
use mathlib.Core.Option
use desertemail.Base64.{base64_encode}
use desertemail.Spf.{IpAddr, v4, v6}

pub data GreylistDecision : Type 0 where
  defer accept : GreylistDecision

abbrev octet_of : ℕ → ℕ → ℕ
octet_of n k = n / 2 ^ (8 * (3 - k)) % 256

abbrev hex_digit : ℕ → ℕ
hex_digit n = if ltb n 10 then b'0' + n else b'a' + (n - 10)

-- `{:02x}`
abbrev hex_byte : Option ℕ → Bytes
hex_byte none = codes "00"
hex_byte (some n) = hex_digit (n / 16) ∷ hex_digit (n % 16) ∷ []

abbrev hex_group : List ℕ → ℕ → Bytes
hex_group octets i = hex_byte (get_elem? octets i) ++ hex_byte (get_elem? octets (i + 1))

abbrev net_text : IpAddr → Bytes
net_text (v4 n) =
    decimal (octet_of n 0)
    ++ (b'.' ∷ (decimal (octet_of n 1) ++ (b'.' ∷ (decimal (octet_of n 2) ++ codes ".0/24"))))
net_text (v6 octets) =
    hex_group octets 0
    ++ (b':' ∷ (hex_group octets 2 ++ (b':' ∷ (hex_group octets 4 ++ codes "::/48"))))

abbrev file_char : ℕ → ℕ
file_char c = if c == b'+' then b'-' else if c == b'/' then b'_' else if c == b'=' then b'A' else c

unfoldable pub write_greylist_entry : ℕ → ℕ → Bytes → Bytes
write_greylist_entry first last_ok key =
    decimal first ++ b' ' ∷ (decimal last_ok ++ b' ' ∷ (key ++ b'\n' ∷ []))

-- the first two words of a file, if the first is a number: the first sight, and the last acceptance
abbrev entry_of_words : List Bytes → Option (ℕ × ℕ)
entry_of_words [] = none
entry_of_words (first_s ∷ []) = Option.map (λ first. (first, 0)) (parse_unsigned u64_max first_s)
entry_of_words (first_s ∷ ok_s ∷ rest) =
    Option.map (λ first. (first, get_or (parse_unsigned u64_max ok_s) 0))
      (parse_unsigned u64_max first_s)

-- (The white space that the source trims before is passed over by the split.)
unfoldable pub read_greylist_entry : Option Bytes → Option (ℕ × ℕ)
read_greylist_entry none = none
read_greylist_entry (some content) = entry_of_words (split_whitespace content)

-- one for a triplet: who sends, and to whom
pub record Triplet : Type 0 where
  pub client_ip : Bytes
  pub mail_from : Bytes
  pub rcpt : Bytes

-- the decision on an entry, with what is written for it: the two times, or nothing
unfoldable pub judge_entry : ℕ → ℕ → ℕ → Option (ℕ × ℕ) → GreylistDecision × Option (ℕ × ℕ)
judge_entry delay_secs ttl_secs now none = (defer, some (now, 0))
judge_entry delay_secs ttl_secs now (some (first, last_ok)) =
    if ltb 0 last_ok && leb (now - last_ok) ttl_secs
    then (accept, some (first, now))
    else if ltb (now - first) delay_secs
    then (defer, none)
    else if leb (now - first) ((max ttl_secs delay_secs + 86400) % 2 ^ 64)
    then (accept, some (first, now))
    else (defer, some (now, 0))

abbrev pub written : Bytes → Bytes → Option (ℕ × ℕ) → Map Bytes → Map Bytes
written path key none files = files
written path key (some (first, last_ok)) files =
    insert path (write_greylist_entry first last_ok key) files

-- what is left of a file; the entry's first number is read in any case
abbrev prune_file : ℕ → ℕ → Bytes → Option Bytes
prune_file max_age_secs now content = elim (read_greylist_entry (some content)) [
  | none ↦ some content
  | some (first, last_ok) ↦ if ltb max_age_secs (now - first) then none else some content
]

unfoldable pub greylist_prune : ℕ → ℕ → Map Bytes → Map Bytes
greylist_prune max_age_secs now files = retain_values (prune_file max_age_secs now) files

module _ (parse_ip : Bytes → Option IpAddr) (sha256 : Bytes → Bytes) where
  unfoldable pub ip_to_slash24 : Bytes → Option Bytes
  ip_to_slash24 ip = Option.map net_text (
      parse_ip
        (trim_end (λ c. c == b']') (trim_start (λ c. c == b'[') (trim_matches is_whitespace ip))))

  unfoldable pub greylist_key : Bytes → Bytes → Bytes → Bytes
  unfolding ip_to_slash24
  greylist_key client_ip mail_from rcpt =
      get_or (ip_to_slash24 client_ip) client_ip
      ++ (b'|'
          ∷ (to_lowercase (trim_matches is_whitespace mail_from)
              ++ (b'|' ∷ to_lowercase (trim_matches is_whitespace rcpt))))

  -- the name of the file, in the directory "greylist"
  unfoldable pub greylist_path : Bytes → Bytes
  greylist_path key = take 40 (map file_char (base64_encode (sha256 key)))

  abbrev pub key_of : Triplet → Bytes
  key_of t = greylist_key t.client_ip t.mail_from t.rcpt

  abbrev pub path_of : Triplet → Bytes
  path_of t = greylist_path (key_of t)

  unfoldable pub greylist_check : Triplet → ℕ → ℕ → ℕ → Map Bytes → GreylistDecision × Map Bytes
  unfolding judge_entry
  greylist_check t delay_secs ttl_secs now files =
      let (decision, entry) =
        judge_entry delay_secs ttl_secs now (read_greylist_entry (files (path_of t))) in
      (decision, written (path_of t) (key_of t) entry files)

  -- the attempts that reach the greylist, each at its time, and what it answers
  unfoldable pub greylist_run :
      ℕ → ℕ → List (Triplet × ℕ) → Map Bytes → List GreylistDecision × Map Bytes
  unfolding greylist_check
  greylist_run delay_secs ttl_secs [] files = ([], files)
  greylist_run delay_secs ttl_secs ((t, now) ∷ tries) files =
      let (decision, files1) = greylist_check t delay_secs ttl_secs now files in
      let (decisions, files2) = greylist_run delay_secs ttl_secs tries files1 in
      (decision ∷ decisions, files2)
