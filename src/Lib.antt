-- ===== src/Lib.antt =====
-- The server desertemail (Rust, `src/`): its connection limits, rate limits, SPF, DMARC, DNS
-- client, accounts, SMTP server, outgoing queue, greylist, mailboxes, a part of IMAP, and the
-- numbers, signatures and public keys of its RSA.
--
-- A connection is admitted by the limiter (`src/limits.rs`) and served by `handle_client` of
-- `src/smtp.rs`. A login is throttled for its address, and a sender for its recipients, by
-- `src/ratelimit.rs`; it is verified by `check_password` of `src/config.rs` and `verify_password`
-- of `src/passwd.rs`, over the base64 of `src/util.rs`. Recipients are looked up by
-- `resolve_mailbox` of `src/config.rs`. Inbound mail is checked by SPF (`src/spf.rs`), which asks
-- the DNS client (`src/dns.rs`), by DMARC (`src/dmarc.rs`) and the greylist (`src/spamscore.rs`),
-- and is stored in the mailboxes (`src/storage.rs`), which IMAP (`src/imap.rs`) shows and changes.
-- What is for elsewhere goes to the queue (`src/queue.rs`), whose worker speaks SMTP as a client.
-- DKIM and ACME sign and verify with the RSA of `src/crypto.rs`, which leaves to ring the keys that
-- ring takes and computes with integers of its own for the others.
--
-- Which file models which part:
--   Prelude    bytes, Boolean tests, lists, maps and the texts' functions of Rust's `str`
--   RateLimit  `src/ratelimit.rs`: `AuthTracker` and `OutboundTracker`, each operation a function from
--              a state and the time to the next state
--   Limits     `src/limits.rs`: `ConnLimiter`, with the steps of `release` interleaved between threads
--   Spf        `src/spf.rs`: the parsing and the evaluation of policies over any resolver
--   Dns        `src/dns.rs`: names and messages on the wire, and what is made of the answers
--   Base64     `src/util.rs`: `base64_decode` and `base64_encode`
--   Accounts   `src/config.rs`, `src/auth.rs`, `src/passwd.rs`, `src/util.rs`: addresses, mailboxes,
--              quotas and passwords
--   Smtp       `src/smtp.rs`: the commands of `handle_client`, the DATA phase and `deliver_mail`
--   LineReader `src/util.rs`: `read_line` and `write_line`, from the bytes still to come to lines
--   Queue      `src/queue.rs`: `File` the files of messages, `Send` the client (`smtp_send`), where a
--              conversation is a chain of replies with the log of what was written, `Deliver` an
--              attempt for a domain, `Attempt` one for a message, `Worker` the rounds of the worker
--   Spam       `src/spamscore.rs`: the greylist over its files, and `Score` the additive score with
--              the domain of the From header
--   Dmarc      `src/dmarc.rs`: `Domains` which domains belong together, and the evaluation
--   Maildir    `src/storage.rs`: `Names` the names and flags of messages, `Paths` the mailboxes' directories
--   Imap       `src/imap.rs`: `Sets` the sets of numbers, `Folders` the mailboxes, STORE and EXPUNGE
--   Crypto     `src/crypto.rs`: `BigUint`, `Division`, `Inverse` and `Octets` the integers, `Rsa` the
--              signatures, `Der` the writing of keys; `Value` has the number of a `BigUint`, to which
--              the operations are compared in `Sums`, `Products`, `Quotients`, `Powers`, `Invert`
-- In each, the files below the component hold its proofs, and `Examples` its tests.
--
-- Texts are lists of bytes. The letters that `to_lowercase` and `to_uppercase` change are those of
-- ASCII, and so is white space. Numbers are natural; where the source's arithmetic saturates or
-- wraps, that is written out, and where its values cannot reach the bound of their type, it is
-- not. A hash map is a function to an optional value, so its order is forgotten. The clock is an
-- argument. A mutex makes an operation one step; a poisoned one does not arise, since no holder
-- panics. A command of a connection is one step too, in which the throttle of a sender checks and
-- records; what sessions do between these two is described in `RateLimit.Outbound`.
--
-- What stands outside is a parameter: the parsers of addresses of std::net, the answers of
-- resolvers, PBKDF2, `from_utf8_lossy`, SHA-256 and the comparison of ring, the checks of
-- inbound mail, whether a file can be removed, and for the queue the resolvers, the connections
-- and `sign_and_prepend` of `src/dkim.rs`. The SMTP server takes the mailboxes, the queue and
-- the greylist as parameters, whatever they do. The metrics and the log are left out, as are
-- the sockets: a reply is a value, and the lines to come are an argument. A failed write ends a
-- connection and is not modelled.
--
-- Loops that are not structural run on fuel: the evaluation of a policy on eleven, since each
-- evaluation behind the first costs one of its ten lookups, the reading of a DNS name on 21
-- times the message's length, since twenty pointers are followed at most and between two of
-- them the position grows, and a TXT record on its length, the lines of a connection on the
-- number of its bytes, the end of a mode of STORE on its length, and the digits of a number on
-- the number. The results below say that the first two are enough; in the others each round
-- takes a byte, or a digit, at least. `mod_inverse` runs on the value of its modulus, which a
-- result below says is enough, and reading a number from bytes on their count. The SMTP loop
-- runs on the list of the times of its commands.
--
-- Not modelled: the lookups in block lists, DKIM, the rest of IMAP, the contents of the
-- mailboxes' files, the parsing of the configuration, the web server, invitations, of the
-- cryptography the private keys, their generation and the requests for certificates, ACME, port
-- mapping and the rest of the tools: they are input and output for the greater part, or not
-- reached yet. `inbound_trust_check` is a parameter.
pub mod Prelude
pub mod RateLimit
pub mod Limits
pub mod Spf
pub mod Dns
pub mod Base64
pub mod Accounts
pub mod LineReader
pub mod Smtp
pub mod Queue
pub mod Spam
pub mod Dmarc
pub mod Maildir
pub mod Imap
pub mod Crypto
