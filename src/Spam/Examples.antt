-- ===== src/Spam/Examples.antt =====
-- A delay of five minutes, and a lifetime of a day; a message with two From headers.
use desertemail.Prelude.{
  ◌≡◌, refl, true, false, Option, none, some, [], ◌∷◌, arith, take, Bytes, codes, bytes_eq,
  to_lowercase, trim_start, trim_end, trim_matches, strip_prefix, starts_with, split_once, split,
  empty, decimal_from, decimal,
}
use desertemail.Spf.{IpAddr, v4, soft_fail}
use desertemail.Spam.Greylist.{
  Triplet, defer, greylist_key, ip_to_slash24, greylist_check, greylist_run,
}
use desertemail.Accounts.{parse_email_addr}
use desertemail.Maildir.{rsplit_at}
use desertemail.Queue.{before_pattern}
use desertemail.Spam.From.{from_header_domain-last}
use desertemail.Spam.Score.{
  from_domain, scan_from, without_cr, header_present, check_fcrdns, compute, from_header_domain,
}
use desertemail.Spam.Delay.{greylist_check-defers}

abbrev parse_ip : Bytes → Option IpAddr
parse_ip s = some (v4 3221225985)

abbrev sha256 : Bytes → Bytes
sha256 s = take 3 s

abbrev triplet : Triplet
triplet = record {
  client_ip = codes "192.0.2.1";
  mail_from = codes "Ann@example.com";
  rcpt = codes "bob@example.org";
}

keyed :
    greylist_key parse_ip sha256
      (codes "192.0.2.1")
      (codes " Ann@example.com")
      (codes "bob@example.org")
    ≡ codes "192.0.2.0/24|ann@example.com|bob@example.org"
unfolding greylist_key ip_to_slash24 decimal decimal_from to_lowercase trim_matches trim_start
    trim_end
keyed = refl

abbrev other : Triplet
other = record triplet { rcpt = codes "cat@example.org" }

greylist_check-defers_example :
    (greylist_check parse_ip sha256 triplet 300 86400 1299
      (greylist_run parse_ip sha256 300 86400
        ((triplet, 1000) ∷ (other, 1100) ∷ (triplet, 1200) ∷ [])
        empty).1).0
    ≡ defer
greylist_check-defers_example =
    greylist_check-defers parse_ip sha256 300 86400 1000 1299 triplet
      ((triplet, 1000) ∷ (other, 1100) ∷ (triplet, 1200) ∷ []) empty refl (omega arith)
      ((omega arith, omega arith), ((omega arith, omega arith), ((omega arith, omega arith), tt)))
      (omega arith) (omega arith)

abbrev two_from : Bytes
two_from =
    codes
      "From: <ann@bank.example>\r\nFrom: Eve <eve@elsewhere.example>\r\nSubject: hello\r\n\r\nhi"

takes_second : from_header_domain (λ b. b) two_from ≡ codes "elsewhere.example"
unfolding from_header_domain scan_from without_cr before_pattern starts_with strip_prefix split
    to_lowercase trim_matches trim_start trim_end split_once rsplit_at parse_email_addr
takes_second = refl

from_header_domain-last_example :
    from_header_domain (λ b. b) two_from
    ≡ from_domain (some (codes "From: Eve <eve@elsewhere.example>"))
unfolding scan_from without_cr before_pattern starts_with strip_prefix split to_lowercase
from_header_domain-last_example =
    from_header_domain-last (λ b. b) two_from (codes "From: <ann@bank.example>" ∷ []) []
      (codes "From: Eve <eve@elsewhere.example>") (codes "Subject: hello") refl refl refl
      ((refl, refl), tt)

-- no Date and no Message-ID, and a sender without a name
scored :
    (compute
      (λ a. some [])
      (λ a. none)
      (record {
        client_ip = codes "192.0.2.1";
        helo = codes "mail.example";
        spf = soft_fail;
        dkim = [];
        dmarc_pass = none;
        dmarc_record_found = false;
        raw_message = two_from;
        hits = 1;
        check_ptr = true;
      })).score
    ≡ 9
unfolding compute header_present check_fcrdns without_cr before_pattern starts_with strip_prefix
    split to_lowercase split_once bytes_eq
scored = refl
