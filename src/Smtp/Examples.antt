-- ===== src/Smtp/Examples.antt =====
-- Short dialogues with a server that keeps the mailboxes in which it has stored something.
use desertemail.Prelude.{
  retain, split_once, Bool, ◌+◌, ◌≤◌, ◌<◌, ◌≡◌, refl, true, false, not, none, List, [], ◌∷◌, ◌++◌,
  arith, All, length, Bytes, codes, bytes_eq, to_lowercase, trim_start, trim_end, trim_matches,
  split_whitespace, to_uppercase, empty, insert,
}
use desertemail.Prelude.Int.{pos}
use desertemail.RateLimit.{default_limits}
use desertemail.Accounts.{Config}
use desertemail.Accounts.{
  resolve_mailbox, resolve_parts, parse_email_addr, is_our_domain, quota_bytes_for,
}
use desertemail.Smtp.{
  serve, say, greeted, handle_data, mail_from, handle_rcpt, is_local, extract_angle, store,
  check_quota, deliver_mail, deliver_each, init, Session, Input, accept, World, Services, Server,
  command, read_data, perform, verb_of,
}
use desertemail.Smtp.Relay.{connect, step, IsSafe, Reach-IsSafe}
use desertemail.Smtp.Size.{stuffed, lines_of, read_data-stuffed}
use desertemail.Smtp.Oversized.{handle_data-too_long}
use desertemail.Smtp.Inbound.{resolves, copies, deliver_mail-queue, deliver_each-shares}
use desertemail.Smtp.Loop.{serve-ends}

abbrev Stored : Type 0
Stored = List Bytes

abbrev services : Services Stored
services = record {
  deliver = λ dest raw from d. (true, dest ∷ d);
  mailbox_size = λ mailbox d. 0;
  enqueue = λ from rcpts raw d. (true, d);
  greylist_check = λ ip from to now d. (false, d);
  inbound_trust_check = λ ip name from raw d. (accept raw (pos 0), d);
  pbkdf2_verify = λ n salt pass hash. false;
  lossy = λ b. b;
}

abbrev config : Config
config = record {
  domains = codes "example.com" ∷ [];
  users = insert (codes "alice") (codes "secret") empty;
  quotas = empty;
  catch_all = false;
  default_password = [];
  allow_default_password_auth = false;
  default_quota_mb = 0;
  max_message_bytes = 100;
  max_received_hops = 25;
  require_tls_for_auth = false;
  greylist = false;
  spam_folder_threshold = pos 0;
  spam_score_reject = pos 0;
}

abbrev inbound : Server
inbound = record {
  cfg = config;
  is_submission = false;
  starttls_available = false;
  peer_ip = codes "192.0.2.1";
}

abbrev submission : Server
submission = record inbound { is_submission = true }

abbrev world : World Stored
world = record {
  auth = record { entries = empty; limits = default_limits };
  outbound = record { senders = empty; max_rcpts = 200 };
  disk = [];
}

abbrev start : Session
start = record {
  state = init;
  authenticated_user = none;
  helo_domain = codes "unknown";
  is_tls = false;
}

abbrev quiet : Input
quiet = record { lines = []; upgrade = none }

abbrev step_line : Server → Bytes → Session → Session
step_line srv line s = (command services srv 1000 line s world quiet).session

abbrev dialogue : Session
dialogue = step_line inbound (codes "RCPT TO:<alice@example.com>") (
    step_line inbound (codes "MAIL FROM:<bob@example.org>")
      (step_line inbound (codes "EHLO example.org") start))

Reach-IsSafe_example : IsSafe inbound dialogue
Reach-IsSafe_example = Reach-IsSafe services inbound dialogue (
    step 1000 (codes "RCPT TO:<alice@example.com>") world quiet (
      step 1000 (codes "MAIL FROM:<bob@example.org>") world quiet
        (step 1000 (codes "EHLO example.org") world quiet (connect (codes "unknown") false))))

-- the base64 of NUL alice NUL secret
abbrev login : Bytes
login = codes "AUTH PLAIN AGFsaWNlAHNlY3JldA=="

abbrev text_lines : List Bytes
text_lines = codes "Hello" ∷ codes ".dotted" ∷ []

abbrev nothing : Bytes
nothing = []

small : length nothing + length (lines_of text_lines) ≤ 100
unfolding lines_of
small = omega arith

-- ten bytes at most
abbrev tight : Server
tight = record inbound { cfg = record config { max_message_bytes = 10 } }

large : 10 < length (lines_of text_lines)
unfolding lines_of
large = omega arith

read_data-stuffed_example :
    read_data 100
      (stuffed text_lines ++ codes "." ∷ codes "QUIT" ∷ [])
      (record { data_buf = []; oversized = false })
    ≡ (record { data_buf = [] ++ lines_of text_lines; oversized = false }, codes "QUIT" ∷ [])
read_data-stuffed_example = read_data-stuffed 100 text_lines (codes "QUIT" ∷ []) [] small

handle_data-too_long_example :
    handle_data services tight
      (codes "bob@example.org")
      (codes "alice@example.com" ∷ [])
      start
      world
      (record { lines = stuffed text_lines ++ codes "." ∷ codes "QUIT" ∷ []; upgrade = none })
    ≡ record {
      replies =
          say "354 End data with <CR><LF>.<CR><LF>"
          ∷ say "552 5.3.4 Message size exceeds fixed maximum message size"
          ∷ [];
      session = record start { state = greeted };
      world = world;
      input = record { lines = codes "QUIT" ∷ []; upgrade = none };
      goes_on = true;
    }
handle_data-too_long_example =
    handle_data-too_long services tight (codes "bob@example.org") (codes "alice@example.com" ∷ [])
      text_lines (codes "QUIT" ∷ []) start world none large

not_dots : All (λ l. bytes_eq l (codes ".") ≡ false) text_lines
unfolding bytes_eq
not_dots = (refl, (refl, tt))

abbrev other_queue : Bytes → List Bytes → Bytes → Stored → Bool × Stored
other_queue from rcpts raw d = (false, d)

abbrev two : List Bytes
two = codes "alice@example.com" ∷ codes "bob@example.org" ∷ []

deliver_mail-queue_example :
    deliver_mail
      (record services { enqueue = other_queue })
      config
      (codes "bob@example.org")
      two
      (codes "Hi")
      false
      none
      (pos 0)
      []
    ≡ deliver_mail services config (codes "bob@example.org") two (codes "Hi") false none (pos 0) []
deliver_mail-queue_example =
    deliver_mail-queue services other_queue config (codes "bob@example.org") two (codes "Hi") none
      (pos 0) []

delivered_fine :
    (deliver_each services config false (codes "Hi") (codes "bob@example.org") two 0 [] []).0.0
    ≡ none
unfolding deliver_each store check_quota resolve_mailbox resolve_parts parse_email_addr
    is_our_domain quota_bytes_for bytes_eq to_lowercase trim_matches trim_start trim_end split_once
delivered_fine = refl

deliver_each-shares_example :
    ((deliver_each services config false (codes "Hi") (codes "bob@example.org") two 0 [] []).0.1
      ≡ 0 + length (retain (resolves config) two))
    × ((deliver_each services config false (codes "Hi") (codes "bob@example.org") two 0 [] []).0.2
        ≡ [] ++ retain (λ r. not (resolves config r)) two)
    × (copies services config false (codes "Hi") (codes "bob@example.org") two [] ≡ (
      true,
      (deliver_each services config false (codes "Hi") (codes "bob@example.org") two 0 [] []).1,
    ))
deliver_each-shares_example =
    deliver_each-shares services config false (codes "Hi") (codes "bob@example.org") two 0 [] []
      delivered_fine

abbrev script : List Bytes
script = codes "EHLO example.org" ∷ codes "MAIL FROM:<bob@example.org>" ∷ codes "NOOP" ∷ []

abbrev sent : Input
sent = record { lines = script; upgrade = none }

serve-ends_example : (serve services inbound (1000 ∷ 1001 ∷ 1002 ∷ []) start world sent).3 ≡ true
serve-ends_example =
    serve-ends services inbound (1000 ∷ 1001 ∷ 1002 ∷ []) start world sent (omega arith)

-- a recipient of another domain is turned away
relayed :
    (command services inbound 1000
      (codes "RCPT TO:<x@example.net>")
      (record start { state = mail_from (codes "b@example.org") })
      world
      quiet).replies
    ≡ say "550 No such user here" ∷ []
unfolding command perform verb_of split_whitespace to_uppercase bytes_eq handle_rcpt is_local
    extract_angle resolve_mailbox resolve_parts parse_email_addr is_our_domain to_lowercase
    trim_matches trim_start trim_end split_once
relayed = refl
