-- ===== src/Accounts/Examples.antt =====
-- A server for example.com with one user.
use desertemail.Prelude.{
  ℕ, ◌≡◌, refl, Bool, true, false, some, [], ◌∷◌, Bytes, codes, bytes_eq, to_lowercase, trim_start,
  trim_end, trim_matches, strip_prefix, split_once, empty, insert,
}
use desertemail.Prelude.Int.{pos}
use desertemail.Accounts.{
  Config, parse_email_addr, resolve_parts, resolve_mailbox, is_our_domain, check_password,
  verify_password,
}
use desertemail.Accounts.Mailboxes.{Resolves, resolve_mailbox-Resolves}

abbrev config : Config
config = record {
  domains = codes "example.com" ∷ [];
  users = insert (codes "alice") (codes "secret") empty;
  quotas = empty;
  catch_all = false;
  default_password = codes "changeme";
  allow_default_password_auth = false;
  default_quota_mb = 0;
  max_message_bytes = 100;
  max_received_hops = 25;
  require_tls_for_auth = false;
  greylist = false;
  spam_folder_threshold = pos 0;
  spam_score_reject = pos 0;
}

found : resolve_mailbox config (codes "<Alice@Example.com>") ≡ some (codes "alice")
unfolding resolve_mailbox resolve_parts parse_email_addr is_our_domain bytes_eq to_lowercase
    trim_matches trim_start trim_end split_once
found = refl

resolve_mailbox-Resolves_example : Resolves config (codes "<Alice@Example.com>") (codes "alice")
resolve_mailbox-Resolves_example =
    resolve_mailbox-Resolves config (codes "<Alice@Example.com>") (codes "alice") found

abbrev never : ℕ → Bytes → Bytes → Bytes → Bool
never iterations salt pass hash = false

accepted : check_password never config (codes "Alice") (codes "secret") ≡ true
unfolding check_password verify_password strip_prefix to_lowercase bytes_eq
accepted = refl
