-- ===== src/Queue/Examples.antt =====
-- A message of two recipients in the queue, and servers that take it.
use desertemail.Prelude.{
  ℕ, ◌+◌, ◌≤◌, ◌≡◌, refl, inl, inr, Bool, true, false, none, some, List, [], ◌∷◌, arith, ◌==◌,
  if◌then◌else◌, All, length, Bytes, codes, bytes_eq, is_whitespace, trim_start, trim_end,
  starts_with, digits_from, parse_unsigned, to_uppercase, empty,
}
use desertemail.Prelude.Int.{pos}
use desertemail.Accounts.{Config, parse_email_addr}
use desertemail.LineReader.Lines.{IsSendable}
use desertemail.Smtp.Size.{stuff, lines_of}
use desertemail.Queue.File.{QueueMessage, write_message, load_message}
use desertemail.Queue.Send.{
  Channel, ok, Connection, smtp_send, body_of, read_smtp_reply, ask, expect, and_then, dot_stuff,
  stuff_from, ends_with, send_rcpts, transact, contains, offers_starttls, greet, start_tls,
  log_in_with,
}
use desertemail.Queue.Deliver.{Outbound, Network}
use desertemail.Queue.Attempt.{}
use desertemail.Queue.Worker.{process_message, worker}
use desertemail.Queue.Values.{IsValue, IsRecipient}
use desertemail.Queue.RoundTrip.{IsStorable, load_message-write_message}
use desertemail.Queue.Accepted.{IsAccepted, smtp_send-IsAccepted}
use desertemail.Queue.Relay.{receive, receive-body_of}
use desertemail.Queue.Account.{weigh, weigh_bounces, recipients_of, process_message-accounts}
use desertemail.Queue.Age.{worker-none}

abbrev message : QueueMessage
message = record {
  id = codes "17";
  sender = codes "bob@example.org";
  recipients = codes "ann@example.com" ∷ codes "cat@example.net" ∷ [];
  retry_count = 1;
  next_attempt = 160;
  created = 100;
  raw = codes "Subject: Hi\r\n\r\n.\r\n";
}

value :
    (s : Bytes)
    → trim_start is_whitespace s ≡ s
    → trim_end is_whitespace s ≡ s
    → All (λ c. c == b'\n' ≡ false) s
    → IsValue s
value s start end line = record {
  trimmed = record { at_start = start; at_end = end };
  one_line = line;
}

ann : IsRecipient (codes "ann@example.com")
unfolding trim_start trim_end
ann = record { value = value _ refl refl (ground arith); no_comma = ground arith; named = λ e. cc }

cat : IsRecipient (codes "cat@example.net")
unfolding trim_start trim_end
cat = record { value = value _ refl refl (ground arith); no_comma = ground arith; named = λ e. cc }

storable : IsStorable message
unfolding trim_start trim_end
storable = record {
  id_value = value _ refl refl (ground arith);
  id_named = λ e. cc;
  sender_value = value _ refl refl (ground arith);
  recipients_valid = (ann, (cat, tt));
  retry_fits = omega arith;
  next_fits = omega arith;
  created_fits = omega arith;
}

load_message-write_message_example :
    load_message (λ s. s) (codes "17") (write_message message) ≡ some message
load_message-write_message_example =
    load_message-write_message (λ s. s) (codes "17") message storable refl

abbrev willing : List Bytes
willing =
    codes "220 mx"
    ∷ codes "250-mx"
    ∷ codes "250 SIZE 1000"
    ∷ codes "250 Ok"
    ∷ codes "250 Ok"
    ∷ codes "354 Go on"
    ∷ codes "250 Taken"
    ∷ codes "221 Bye"
    ∷ []

abbrev once : List Connection
once = record { plain = willing; tls = none } ∷ []

abbrev one : List Bytes
one = codes "ann@example.com" ∷ []

abbrev hi : Bytes
hi = codes "Hi\r\n"

abbrev closing : Channel
closing = record {
  incoming = codes "221 Bye" ∷ [];
  log =
      ([], 220)
      ∷ (codes "EHLO example.org", 250)
      ∷ (codes "MAIL FROM:<bob@example.org>", 250)
      ∷ (codes "RCPT TO:<ann@example.com>", 250)
      ∷ (codes "DATA", 354)
      ∷ (codes "Hi\r\n.\r\n", 250)
      ∷ [];
}

sent :
    smtp_send once (codes "example.org") (codes "bob@example.org") one hi none none true
    ≡ ok tt closing
unfolding smtp_send greet read_smtp_reply ask expect and_then offers_starttls contains start_tls
    log_in_with transact send_rcpts dot_stuff stuff_from ends_with bytes_eq parse_unsigned
    digits_from to_uppercase starts_with
sent = refl

smtp_send-IsAccepted_example : IsAccepted (codes "bob@example.org") one hi closing.log
smtp_send-IsAccepted_example =
    smtp_send-IsAccepted once (codes "example.org") (codes "bob@example.org") one hi none none true
      closing sent

abbrev any_text : Bytes → Bool
any_text s = true

dotted : IsSendable any_text (stuff (codes ".hidden"))
unfolding stuff
dotted = record { one_line = ground arith; text = refl; short = omega arith }

dot : IsSendable any_text (codes ".")
dot = record { one_line = ground arith; text = refl; short = omega arith }

fits : length (lines_of (codes ".hidden" ∷ [])) ≤ 100
unfolding lines_of
fits = omega arith

receive-body_of_example :
    receive any_text 100 (body_of (lines_of (codes ".hidden" ∷ [])))
    ≡ some (record { data_buf = lines_of (codes ".hidden" ∷ []); oversized = false }, [])
receive-body_of_example = receive-body_of any_text 100 (codes ".hidden") [] (dotted, tt) dot fits

abbrev config : Config
config = record {
  domains = codes "example.org" ∷ [];
  users = empty;
  quotas = empty;
  catch_all = false;
  default_password = codes "changeme";
  allow_default_password_auth = false;
  default_quota_mb = 0;
  max_message_bytes = 100;
  max_received_hops = 25;
  require_tls_for_auth = false;
  greylist = false;
  spam_folder_threshold = pos 0;
  spam_score_reject = pos 0;
}

abbrev out : Outbound
out = record { smarthost = none; smarthost_user = none; smarthost_pass = none; sign = none }

-- Each domain is its own host; the first connection is answered, and no later one. The state counts them.
abbrev answer_first : Bytes → ℕ → List Connection × ℕ
answer_first addr n = ((if n == 0 then once else []), n + 1)

abbrev net : Network ℕ Bytes
net = record {
  smtp_hosts_for_domain = λ d n. (inr (d ∷ []), n);
  resolve_a = λ h n. (inr (codes "192.0.2.1" ∷ []), n);
  resolve_host = λ h n. (inl h, n);
  to_socket_addrs = λ s n. (inr (s ∷ []), n);
  connect = answer_first;
}

-- the recipients of one domain
abbrev in_com : Bytes → Bool
in_com r = bytes_eq (parse_email_addr r).1 (codes "example.com")

process_message-accounts_example :
    let h = (process_message net config out message 200 0).0 in
    weigh in_com message.recipients
    ≡ weigh in_com h.delivered
      + weigh_bounces in_com h.bounces
      + weigh in_com (recipients_of h.kept)
process_message-accounts_example = process_message-accounts in_com net config out message 200 0

worker-none_example : (worker net config out (200 ∷ 400 ∷ 90000 ∷ []) message 0).0 ≡ none
worker-none_example =
    worker-none net config out (200 ∷ 400 ∷ 90000 ∷ []) message 0 (omega arith) refl
