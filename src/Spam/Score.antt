-- ===== src/Spam/Score.antt =====
-- src/spamscore.rs: the additive score of a message, and the domain of its From header. The
-- lookups of names and addresses and `from_utf8_lossy` are parameters; a reason has its weight
-- beside it instead of a text.
use desertemail.Prelude.{
  ℕ, ◌+◌, ◌-◌, ◌*◌, ◌^◌, min, Bool, true, false, not, ◌&&◌, ◌||◌, Option, none, some, List, [], ◌∷◌,
  ◌++◌, map, ltb, ◌==◌, if◌then◌else◌, any, is_empty, Bytes, codes, bytes_eq, to_lowercase,
  is_whitespace, trim_start, trim_end, trim_matches, starts_with, split_once, split,
  split_whitespace,
}
use desertemail.Accounts.{parse_email_addr}
use desertemail.Dmarc.{DkimStatus, dkim_pass, dkim_fail, DkimResult}
use desertemail.Maildir.{rsplit_at}
use desertemail.Queue.{before_pattern, header_of, ends_with}
use desertemail.Spf.{SpfResult, fail, soft_fail}

-- what adds to the score
pub data Reason : Type 0 where
  dnsbl_hits : ℕ → Reason
  spf_failed spf_soft dkim_failed dmarc_failed no_ptr fcrdns_mismatch : Reason
  missing_date missing_message_id : Reason

-- `saturating_mul` in an i32; the hits are as many as the zones configured at most
abbrev pub weight : Reason → ℕ
weight (dnsbl_hits n) = min (5 * n) (2 ^ 31 - 1)
weight spf_failed = 3
weight spf_soft = 1
weight dkim_failed = 2
weight dmarc_failed = 3
weight no_ptr = 1
weight fcrdns_mismatch = 2
weight missing_date = 1
weight missing_message_id = 1

pub record SpamScore : Type 0 where
  pub score : ℕ
  pub reasons : List Reason

abbrev pub no_reason : SpamScore
no_reason = record { score = 0; reasons = [] }

abbrev pub add_reason : Bool → Reason → SpamScore → SpamScore
add_reason false r s = s
add_reason true r s = record { score = s.score + weight r; reasons = s.reasons ++ r ∷ [] }

pub data Fcrdns : Type 0 where
  confirmed nameless mismatch skipped : Fcrdns

pub record SpamScoreInput : Type 0 where
  pub client_ip : Bytes
  pub helo : Bytes
  pub spf : SpfResult
  pub dkim : List DkimResult
  pub dmarc_pass : Option Bool
  pub dmarc_record_found : Bool
  pub raw_message : Bytes
  pub hits : ℕ
  pub check_ptr : Bool

abbrev is_dot : ℕ → Bool
is_dot c = c == b'.'

abbrev pub trimmed_name : Bytes → Bytes
trimmed_name s = to_lowercase (trim_end is_dot s)

abbrev pub without_brackets : Bytes → Bytes
without_brackets s = trim_end (λ c. c == b']') (trim_start (λ c. c == b'[') s)

abbrev pub header_end : Bytes → Bytes
header_end raw =
    header_of (before_pattern (codes "\r\n\r\n") raw) (before_pattern (codes "\n\n") raw) raw

-- a line without the CR at its end
unfoldable pub without_cr : Bytes → Bytes
without_cr [] = []
without_cr (c ∷ []) = if c == 13 then [] else c ∷ []
without_cr (c ∷ d ∷ cs) = c ∷ without_cr (d ∷ cs)

abbrev pub is_folded : Bytes → Bool
is_folded [] = false
is_folded (c ∷ cs) = c == b' ' || c == 9

abbrev pub has_name : Bytes → Option (Bytes × Bytes) → Bool
has_name name none = false
has_name name (some (n, v)) = bytes_eq (to_lowercase n) (to_lowercase name)

unfoldable pub header_present : Bytes → Bytes → Bool
unfolding without_cr
header_present raw name =
    any
      (λ piece.
        not (is_folded (without_cr piece)) && has_name name (split_once b':' (without_cr piece)))
      (split 10 (header_end raw))

module _ (resolve_ptr resolve_a : Bytes → Option (List Bytes)) where
  abbrev pub resolves_to : Bytes → Option (List Bytes) → Bool
  resolves_to client none = false
  resolves_to client (some ips) =
      any
        (λ ip.
          bytes_eq (without_brackets ip) (without_brackets (trim_matches is_whitespace client)))
        ips

  unfoldable pub confirms : Bytes → Bytes → Bytes → Bool
  confirms client helo p =
      (not (is_empty (trimmed_name helo))
        && (bytes_eq (trimmed_name p) (trimmed_name helo)
            || ends_with (b'.' ∷ trimmed_name p) (trimmed_name helo)))
      || resolves_to client (resolve_a p)

  -- An error of the lookup is not scored.
  unfoldable pub check_fcrdns : Bytes → Bytes → Fcrdns
  unfolding confirms
  check_fcrdns client helo = elim (resolve_ptr client) [
    | none ↦ skipped
    | some [] ↦ nameless
    | some (p ∷ ps) ↦ if any (confirms client helo) (p ∷ ps) then confirmed else mismatch
  ]

  abbrev is_status : DkimStatus → DkimStatus → Bool
  is_status dkim_pass dkim_pass = true
  is_status dkim_fail dkim_fail = true
  is_status _ _ = false

  abbrev pub spf_reason : SpfResult → SpamScore → SpamScore
  spf_reason fail s = add_reason true spf_failed s
  spf_reason soft_fail s = add_reason true spf_soft s
  spf_reason _ s = s

  abbrev pub ptr_reason : Bool → Fcrdns → SpamScore → SpamScore
  ptr_reason true nameless s = add_reason true no_ptr s
  ptr_reason true mismatch s = add_reason true fcrdns_mismatch s
  ptr_reason _ _ s = s

  abbrev pub is_failed : Option Bool → Bool
  is_failed (some false) = true
  is_failed _ = false

  unfoldable pub compute : SpamScoreInput → SpamScore
  unfolding check_fcrdns header_present
  compute input =
      let s1 = add_reason (ltb 0 (input.hits)) (dnsbl_hits (input.hits)) no_reason in
      let s2 = spf_reason (input.spf) s1 in
      let s3 =
        add_reason
          (any (λ d. is_status (d.status) dkim_fail) (input.dkim)
            && not (any (λ d. is_status (d.status) dkim_pass) (input.dkim)))
          dkim_failed s2 in
      let s4 =
        add_reason (input.dmarc_record_found && is_failed (input.dmarc_pass)) dmarc_failed s3 in
      let s5 = ptr_reason (input.check_ptr) (check_fcrdns (input.client_ip) (input.helo)) s4 in
      let s6 =
        add_reason (not (header_present (input.raw_message) (codes "date"))) missing_date s5 in
      add_reason (not (header_present (input.raw_message) (codes "message-id"))) missing_message_id
        s6

-- The From header: `cur` is the header that is being read, folded lines joined to it.
abbrev pub is_from : Bytes → Bool
is_from cur = starts_with (codes "from:") (to_lowercase cur)

abbrev pub flushed : Bytes → Option Bytes → Option Bytes
flushed cur from_val = if not (is_empty cur) && is_from cur then some cur else from_val

unfoldable pub scan_from : List Bytes → Bytes → Option Bytes → Bytes × Option Bytes
scan_from [] cur from_val = (cur, from_val)
scan_from (line ∷ ls) cur from_val =
    let joined = scan_from ls (cur ++ b' ' ∷ trim_matches is_whitespace line) from_val in
    let next = scan_from ls line (flushed cur from_val) in
    if is_folded line && not (is_empty cur) then joined else next

-- the header read last counts only when there is no other
abbrev pub last_or : Bytes × Option Bytes → Option Bytes
last_or (cur, some v) = some v
last_or (cur, none) = if is_from cur then some cur else none

abbrev pub first_word : Bytes → List Bytes → Bytes
first_word after [] = after
first_word after (w ∷ ws) = w

abbrev pub angle_address : Bytes → Option (Bytes × Bytes) → Bytes
angle_address after none = first_word after (split_whitespace after)
angle_address after (some (before, behind)) = elim (split_once b'>' behind) [
  | none ↦ after
  | some (addr, rest) ↦ trim_matches is_whitespace addr
]

abbrev pub from_domain : Option Bytes → Bytes
from_domain none = []
from_domain (some v) =
    let after =
      trim_matches is_whitespace (elim (split_once b':' v) [ none ↦ [] | some (n, a) ↦ a ]) in
    (parse_email_addr (angle_address after (rsplit_at (b'<' ∷ []) after))).1

unfoldable pub from_header_domain : (Bytes → Bytes) → Bytes → Bytes
unfolding scan_from without_cr
from_header_domain from_utf8_lossy raw =
    let lines = map without_cr (split 10 (from_utf8_lossy (header_end raw))) in
    from_domain (last_or (scan_from lines [] none))
