-- ===== src/Queue/Send.antt =====
-- src/queue.rs: `smtp_send`, the client's side of SMTP. What the server will send on a connection is a
-- list of lines, up to a failure of `read_line`. A write always succeeds, since a lost connection shows
-- at the next reply. The QUIT at the end, whose outcome is dropped, is left out, and so is a multi-byte
-- character across the third or the fourth byte of a reply: the source panics there.
use Prim.Native.String.{String}
use desertemail.Prelude.{
  ℕ, ◌-◌, ◌^◌, Bool, true, false, ◌&&◌, ◌||◌, Option, none, some, List, [], ◌∷◌, ◌++◌, ltb, leb,
  ◌==◌, if◌then◌else◌, length, get_elem?, take, drop, any, Bytes, codes, bytes_eq, starts_with,
  parse_unsigned, to_uppercase, get_or, decimal,
}
use desertemail.Base64.{base64_encode}

-- The text of `Io` goes to the log alone and is dropped.
pub data SmtpError : Type 0 where
  temp perm : Bytes → SmtpError
  io : SmtpError

unfoldable pub classify_code : ℕ → Bytes → SmtpError
classify_code code text =
    let reply = decimal code ++ b' ' ∷ text in
    if leb 500 code then perm reply else if leb 400 code then temp reply else io

-- the code of a reply, its last text, and all of them
abbrev pub Answer : Type 0
Answer = ℕ × Bytes × List Bytes

abbrev u16_max : ℕ
u16_max = 2 ^ 16 - 1

abbrev is_dash : Option ℕ → Bool
is_dash none = false
is_dash (some c) = c == b'-'

-- `none` is the end of the connection, or a line that is too short
unfoldable pub read_smtp_reply : List Bytes → List Bytes → Option (Answer × List Bytes)
read_smtp_reply texts [] = none
read_smtp_reply texts (line ∷ rest) =
    let code = get_or (parse_unsigned u16_max (take 3 line)) 0 in
    let text = if ltb 4 (length line) then drop 4 line else [] in
    let later = read_smtp_reply (texts ++ text ∷ []) rest in
    if ltb (length line) 3
    then none
    else if is_dash (get_elem? line 3)
    then later
    else some ((code, text, texts ++ text ∷ []), rest)

-- a connection: the lines to come, and what was written with the code that answered it
pub record Channel : Type 0 where
  pub incoming : List Bytes
  pub log : List (Bytes × ℕ)

pub data Result {ℓ} (A : Type ℓ) : Type ℓ where
  ok : A → Channel → Result A
  err : SmtpError → Result A

abbrev pub Talk {ℓ} : Type ℓ → Type ℓ
Talk A = Channel → Result A

unfoldable pub and_then {ℓ κ} : {A : Type ℓ} {B : Type κ} → Result A → (A → Talk B) → Result B
and_then (ok a c) f = f a c
and_then (err e) f = err e

infixl 5 ◌>>=◌ ◌>>◌
abbrev pub ◌>>=◌ {ℓ κ} : {A : Type ℓ} {B : Type κ} → Talk A → (A → Talk B) → Talk B
◌>>=◌ m f c = and_then (m c) f

abbrev pub ◌>>◌ {ℓ} : {B : Type ℓ} → Talk (Unit {0}) → Talk B → Talk B
m >> k = m >>= λ _. k

abbrev pub ret {ℓ} : {A : Type ℓ} → A → Talk A
ret a c = ok a c

abbrev pub answered : Bytes → Channel → Option (Answer × List Bytes) → Result Answer
answered words c none = err io
answered words c (some ((code, text, texts), rest)) =
    ok (code, text, texts) (record { incoming = rest; log = c.log ++ (words, code) ∷ [] })

-- something is written and the reply to it read; the greeting answers no words
unfoldable pub ask : Bytes → Talk Answer
ask words c = answered words c (read_smtp_reply [] c.incoming)

abbrev pub accept : Bool → Answer → Talk (Unit {0})
accept true a c = ok tt c
accept false a c = err (classify_code a.0 a.1)

-- a command that only one code may answer
unfoldable pub expect : Bytes → ℕ → Talk (Unit {0})
unfolding ask
expect words code = ask words >>= λ a. accept (a.0 == code) a

abbrev pub angled : String → Bytes → Bytes
angled verb address = codes verb ++ (b'<' ∷ (address ++ b'>' ∷ []))

unfoldable pub ends_with : Bytes → Bytes → Bool
ends_with suffix [] = bytes_eq [] suffix
ends_with suffix (c ∷ cs) = bytes_eq (c ∷ cs) suffix || ends_with suffix cs

-- the loop of `dot_stuff`; the flag is `line_start`
unfoldable pub stuff_from : Bool → Bytes → Bytes
stuff_from line_start [] = []
stuff_from line_start (b ∷ bs) =
    let rest = stuff_from (b == b'\n') bs in
    if line_start && b == b'.' then b'.' ∷ b ∷ rest else b ∷ rest

abbrev pub crlf : Bytes
crlf = b'\r' ∷ b'\n' ∷ []

abbrev pub end_line : Bytes → Bytes
end_line out =
    if ends_with crlf out then out else if ends_with (b'\n' ∷ []) out then out else out ++ crlf

unfoldable pub dot_stuff : Bytes → Bytes
unfolding stuff_from
dot_stuff raw = end_line (stuff_from true raw)

unfoldable pub send_rcpts : List Bytes → Talk (Unit {0})
send_rcpts [] = ret tt
send_rcpts (rcpt ∷ rcpts) = do
  a ← ask (angled "RCPT TO:" rcpt)
  accept (a.0 == 250 || a.0 == 251) a
  send_rcpts rcpts

-- the body with its last line, as they are written
abbrev pub body_of : Bytes → Bytes
body_of raw = dot_stuff raw ++ codes ".\r\n"

-- from MAIL to the end of the body
unfoldable pub transact : Bytes → List Bytes → Bytes → Talk (Unit {0})
transact sender rcpts raw = do
  expect (angled "MAIL FROM:" sender) 250
  send_rcpts rcpts
  expect (codes "DATA") 354
  expect (body_of raw) 250

abbrev pub named : String → Bytes → Bytes
named verb name = codes verb ++ name

unfoldable pub contains : Bytes → Bytes → Bool
contains pattern [] = false
contains pattern (c ∷ cs) = starts_with pattern (c ∷ cs) || contains pattern cs

-- whether the texts of a reply to EHLO offer STARTTLS
unfoldable pub offers_starttls : List Bytes → Bool
unfolding contains
offers_starttls lines = any (λ l. contains (codes "STARTTLS") (to_uppercase l)) lines

-- the greeting and EHLO, or HELO: whether STARTTLS is offered
unfoldable pub greet : Bytes → Talk Bool
unfolding expect
greet helo_name = do
  expect [] 220
  a ← ask (named "EHLO " helo_name)
  if a.0 == 250
      then ret (offers_starttls a.2)
      else (expect (named "HELO " helo_name) 250 >> ret false)

-- A connection that can be opened: its lines, and those behind TLS if the handshake succeeds.
pub record Connection : Type 0 where
  pub plain : List Bytes
  pub tls : Option (List Bytes)

-- What was buffered before the handshake is dropped. False for a failed handshake.
unfoldable pub connect_tls : Option (List Bytes) → Bytes → Talk Bool
unfolding expect
connect_tls none helo_name c = ok false c
connect_tls (some lines) helo_name c =
    (expect (named "EHLO " helo_name) 250 >> ret true) (record c { incoming = lines })

-- whether to go on with this connection
unfoldable pub start_tls : Connection → Bytes → Bool → Talk Bool
unfolding ask
start_tls conn helo_name false = ret true
start_tls conn helo_name true = do
  a ← ask (codes "STARTTLS")
  if a.0 == 220 then connect_tls conn.tls helo_name else ret true

unfoldable pub log_in_with : Option Bytes → Option Bytes → Talk (Unit {0})
unfolding expect
log_in_with (some user) (some pass) =
    expect (named "AUTH PLAIN " (base64_encode (0 ∷ (user ++ 0 ∷ pass)))) 235
log_in_with (some user) none = ret tt
log_in_with none auth_pass = ret tt

-- Each connection opened in turn; no more of them is an error of `connect_timeout`. Only a failed
-- handshake leads to the next, where STARTTLS is not tried.
unfoldable pub smtp_send :
    List Connection
    → Bytes
    → Bytes
    → List Bytes
    → Bytes
    → Option Bytes
    → Option Bytes
    → Bool
    → Result (Unit {0})
unfolding greet
smtp_send [] helo_name sender recipients raw auth_user auth_pass try_starttls = err io
smtp_send (conn ∷ conns) helo_name sender recipients raw auth_user auth_pass try_starttls =
    let again = smtp_send conns helo_name sender recipients raw auth_user auth_pass false in
    and_then
      ((greet helo_name >>= λ offered. start_tls conn helo_name (try_starttls && offered))
        (record { incoming = conn.plain; log = [] }))
      (λ going c.
        if going
        then (log_in_with auth_user auth_pass >> transact sender recipients raw) c
        else again)
