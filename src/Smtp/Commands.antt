-- ===== src/Smtp/Commands.antt =====
-- src/smtp.rs: `handle_client` behind the TLS handshake of the connection. Each arm of its `match` is
-- a function; `command` chooses among them, and `serve` is the loop. A reply that cannot be written
-- ends the connection, as does the end of its lines. The clock reads `now` during a command.
use desertemail.Prelude.{
  ℕ, Bool, true, false, not, ◌&&◌, ◌||◌, Option, none, some, List, [], ◌∷◌, ◌++◌, ltb,
  if◌then◌else◌, is_empty, Bytes, codes, bytes_eq, split_whitespace, to_uppercase,
}
use desertemail.Prelude.Int.{pos}
use desertemail.RateLimit.{
  check_allowed, record_success, record_failure, check_outbound, record_outbound,
}
use desertemail.Accounts.{
  Config, parse_email_addr, is_our_domain, resolve_mailbox, check_password, decode_plain,
}
use desertemail.Smtp.Headers.{extract_angle, count_received_headers}
use desertemail.Smtp.Connection.{
  State, init, greeted, mail_from, rcpt_to, data_phase, Reply, text, hello, size, queued, say,
  Session, Input, InboundAction, accept, reject, World, Services, Server, Outcome, answer, close,
}
use desertemail.Smtp.Message.{
  Received, read_data, Delivery, delivered, overquota, failed, no_recipients, deliver_mail,
}

-- the words that the `match` knows
pub data Verb : Type 0 where
  helo starttls auth mail rcpt data_verb rset noop quit vrfy other : Verb

abbrev word_of : List Bytes → Bytes
word_of [] = []
word_of (w ∷ _) = to_uppercase w

unfoldable pub verb_of : List Bytes → Verb
verb_of parts =
    let w = word_of parts in
    if bytes_eq w (codes "EHLO") || bytes_eq w (codes "HELO")
    then helo
    else if bytes_eq w (codes "STARTTLS")
    then starttls
    else if bytes_eq w (codes "AUTH")
    then auth
    else if bytes_eq w (codes "MAIL")
    then mail
    else if bytes_eq w (codes "RCPT")
    then rcpt
    else if bytes_eq w (codes "DATA")
    then data_verb
    else if bytes_eq w (codes "RSET")
    then rset
    else if bytes_eq w (codes "NOOP") || bytes_eq w (codes "HELP")
    then noop
    else if bytes_eq w (codes "QUIT")
    then quit
    else if bytes_eq w (codes "VRFY") || bytes_eq w (codes "EXPN")
    then vrfy
    else other

abbrev pub is_plain : Bytes → Bool
is_plain w = bytes_eq (to_uppercase w) (codes "PLAIN")

abbrev domain_of : List Bytes → Bytes
domain_of (_ ∷ d ∷ _) = d
domain_of _ = codes "localhost"

abbrev pub state_of : State → Session → Session
state_of state s = record s { state = state }

abbrev pub has_user : Option Bytes → Bool
has_user none = false
has_user (some _) = true

-- May inbound mail for the address be taken?
unfoldable pub is_local : Config → Bytes → Bool
is_local cfg to =
    is_our_domain cfg (parse_email_addr to).1
    && elim (resolve_mailbox cfg to) [ none ↦ false | some _ ↦ true ]

module _ {D : Type 0} (sv : Services D) (srv : Server) where
  abbrev pub syntax_error : Session → World D → Input → Outcome D
  syntax_error = answer (say "500 Syntax error or bad sequence")

  unfoldable pub handle_helo : List Bytes → Session → World D → Input → Outcome D
  handle_helo parts s w i = record {
    replies =
        hello (domain_of parts)
        ∷ ((if srv.starttls_available && not s.is_tls then say "250-STARTTLS" ∷ [] else [])
            ++ say "250-AUTH PLAIN LOGIN"
              ∷ size srv.cfg.max_message_bytes
              ∷ say "250-8BITMIME"
              ∷ say "250 OK"
              ∷ []);
    session = record s { state = greeted; helo_domain = domain_of parts };
    world = w;
    input = i;
    goes_on = true;
  }

  -- A handshake that fails ends the connection.
  abbrev pub upgrade_to : Option (List Bytes) → Session → World D → Input → Outcome D
  upgrade_to none s w i = close (say "220 Ready to start TLS" ∷ []) s w i
  upgrade_to (some lines) s w i =
      answer (say "220 Ready to start TLS")
        (record s { state = init; authenticated_user = none; is_tls = true }) w
        (record { lines = lines; upgrade = none })

  unfoldable pub handle_starttls : Session → World D → Input → Outcome D
  handle_starttls s w i = upgrade_to i.upgrade s w i

  -- what follows the credentials, whichever way they came
  unfoldable pub log_in : ℕ → Option (Bytes × Bytes) → Session → World D → Input → Outcome D
  log_in now none s w i = answer (say "501 Bad AUTH") s w i
  log_in now (some (user, pass)) s w i =
      if check_password sv.pbkdf2_verify srv.cfg user pass
      then answer (say "235 Authentication successful")
          (record s { authenticated_user = some user })
          (record w { auth = record_success srv.peer_ip now w.auth }) i
      else answer (say "535 Authentication failed") s
          (record w { auth = record_failure srv.peer_ip now w.auth }) i

  -- the credentials on a line of their own, after the empty challenge
  unfoldable pub challenge : ℕ → List Bytes → Session → World D → Option (List Bytes) → Outcome D
  challenge now [] s w up = answer (say "334 ") s w (record { lines = []; upgrade = up })
  challenge now (line ∷ rest) s w up =
      let o = log_in now (decode_plain sv.lossy line) s w (record { lines = rest; upgrade = up }) in
      record o { replies = say "334 " ∷ o.replies }

  unfoldable pub auth_plain : ℕ → List Bytes → Session → World D → Input → Outcome D
  auth_plain now (_ ∷ mechanism ∷ []) s w i =
      if is_plain mechanism
      then challenge now i.lines s w i.upgrade
      else answer (say "504 AUTH mechanism not available") s w i
  auth_plain now (_ ∷ mechanism ∷ b64 ∷ _) s w i =
      if is_plain mechanism
      then log_in now (decode_plain sv.lossy b64) s w i
      else answer (say "504 AUTH mechanism not available") s w i
  auth_plain now _ s w i = answer (say "504 AUTH mechanism not available") s w i

  unfoldable pub handle_auth : ℕ → List Bytes → Session → World D → Input → Outcome D
  handle_auth now parts s w i =
      let (allowed, tracker) = check_allowed srv.peer_ip now w.auth in
      let w' = record w { auth = tracker } in
      if not allowed
      then close (say "421 Too many failed attempts, try later" ∷ []) s w' i
      else if srv.cfg.require_tls_for_auth && not s.is_tls
      then answer (say "538 Encryption required for requested authentication mechanism") s w' i
      else auth_plain now parts s w' i

  unfoldable pub handle_mail : Bytes → Session → World D → Input → Outcome D
  handle_mail line s w i =
      if srv.is_submission && not (has_user s.authenticated_user)
      then answer (say "530 Authentication required") s w i
      else if is_empty (extract_angle line)
      then answer (say "501 Bad address") s w i
      else answer (say "250 OK") (state_of (mail_from (extract_angle line)) s) w i

  -- the throttle of a sender: whether the recipient is refused, and the counts behind it
  unfoldable pub throttle : ℕ → Option Bytes → World D → Bool × World D
  throttle now none w = (false, w)
  throttle now (some user) w =
      if not srv.is_submission
      then (false, w)
      else if not (check_outbound user 1 now w.outbound)
      then (true, w)
      else (false, record w { outbound = record_outbound user 1 now w.outbound })

  -- whether the greylist defers the first recipient of a message
  unfoldable pub greylisted : ℕ → Bytes → List Bytes → Bytes → World D → Bool × World D
  greylisted now from (_ ∷ _) to w = (false, w)
  greylisted now from [] to w =
      if not srv.is_submission && srv.cfg.greylist
      then (let (defer, d) = sv.greylist_check srv.peer_ip from to now w.disk in
          (defer, record w { disk = d }))
      else (false, w)

  -- the recipients so far are none just behind MAIL
  unfoldable pub handle_rcpt :
      ℕ → Bytes → Bytes → List Bytes → Session → World D → Input → Outcome D
  handle_rcpt now line from rcpts s w i =
      let to = extract_angle line in
      let (refused, w1) = throttle now s.authenticated_user w in
      let (defer, w2) = greylisted now from rcpts to w1 in
      if is_empty to
      then answer (say "501 Bad address") s w i
      else if not (srv.is_submission || is_local srv.cfg to)
      then answer (say "550 No such user here") s w i
      else if refused
      then answer (say "452 Too many recipients; try later") s w1 i
      else if defer
      then answer (say "451 Greylisted, try again shortly") s w2 i
      else answer (say "250 OK") (state_of (rcpt_to from (rcpts ++ to ∷ [])) s) w2 i

  abbrev delivery_reply : Delivery → Reply
  delivery_reply (delivered n) = queued n
  delivery_reply overquota = say "452 4.2.2 Mailbox full"
  delivery_reply failed = say "451 Temporary failure"
  delivery_reply no_recipients = say "451 Temporary failure"

  -- the checks of inbound mail; mail of users skips them
  unfoldable pub trust : Bytes → Bytes → Session → D → InboundAction × D
  trust from raw s d =
      if srv.is_submission
      then (accept raw (pos 0), d)
      else sv.inbound_trust_check srv.peer_ip s.helo_domain from raw d

  unfoldable pub hand_over : Bytes → List Bytes → InboundAction × D → Session → D × Reply
  hand_over from rcpts (reject message, d) s = (d, text message)
  hand_over from rcpts (accept raw score, d) s =
      let (result, d') =
        deliver_mail sv srv.cfg from rcpts raw srv.is_submission s.authenticated_user score d in
      (d', delivery_reply result)

  unfoldable pub judge : Bytes → List Bytes → Received → Session → D → D × Reply
  judge from rcpts r s d =
      let checked = hand_over from rcpts (trust from r.data_buf s d) s in
      if r.oversized
      then (d, say "552 5.3.4 Message size exceeds fixed maximum message size")
      else if ltb srv.cfg.max_received_hops (count_received_headers r.data_buf)
      then (d, say "554 Too many Received headers (mail loop)")
      else checked

  unfoldable pub handle_data : Bytes → List Bytes → Session → World D → Input → Outcome D
  handle_data from rcpts s w i =
      let (r, rest) =
        read_data srv.cfg.max_message_bytes i.lines (record { data_buf = []; oversized = false }) in
      let (d, reply) = judge from rcpts r s w.disk in
      record {
        replies = say "354 End data with <CR><LF>.<CR><LF>" ∷ reply ∷ [];
        session = state_of greeted s;
        world = record w { disk = d };
        input = record i { lines = rest };
        goes_on = true;
      }

  abbrev pub on_helo : State → List Bytes → Session → World D → Input → Outcome D
  on_helo init parts s w i = handle_helo parts s w i
  on_helo greeted parts s w i = handle_helo parts s w i
  on_helo _ parts s w i = syntax_error s w i

  abbrev pub on_auth : ℕ → Option Bytes → List Bytes → Session → World D → Input → Outcome D
  on_auth now none parts s w i = handle_auth now parts s w i
  on_auth now (some _) parts s w i = syntax_error s w i

  abbrev pub on_mail : State → Bytes → Session → World D → Input → Outcome D
  on_mail init line s w i = syntax_error s w i
  on_mail (data_phase _ _) line s w i = syntax_error s w i
  on_mail _ line s w i = handle_mail line s w i

  abbrev pub on_rcpt : ℕ → State → Bytes → Session → World D → Input → Outcome D
  on_rcpt now (mail_from from) line s w i = handle_rcpt now line from [] s w i
  on_rcpt now (rcpt_to from rcpts) line s w i = handle_rcpt now line from rcpts s w i
  on_rcpt now _ line s w i = syntax_error s w i

  abbrev pub on_data : State → Session → World D → Input → Outcome D
  on_data (rcpt_to from rcpts) s w i = handle_data from rcpts s w i
  on_data _ s w i = syntax_error s w i

  unfoldable pub perform : ℕ → Verb → List Bytes → Bytes → Session → World D → Input → Outcome D
  perform now helo parts line s w i = on_helo s.state parts s w i
  perform now starttls parts line s w i =
      if srv.starttls_available && not s.is_tls then handle_starttls s w i else syntax_error s w i
  perform now auth parts line s w i = on_auth now s.authenticated_user parts s w i
  perform now mail parts line s w i = on_mail s.state line s w i
  perform now rcpt parts line s w i = on_rcpt now s.state line s w i
  perform now data_verb parts line s w i = on_data s.state s w i
  perform now rset parts line s w i = answer (say "250 OK") (state_of greeted s) w i
  perform now noop parts line s w i = answer (say "250 OK") s w i
  perform now quit parts line s w i = close (say "221 Bye" ∷ []) s w i
  perform now vrfy parts line s w i = answer (say "252 Cannot VRFY") s w i
  perform now other parts line s w i = syntax_error s w i

  -- one round of the loop, for the line read
  unfoldable pub command : ℕ → Bytes → Session → World D → Input → Outcome D
  unfolding verb_of perform
  command now line s w i =
      let parts = split_whitespace line in perform now (verb_of parts) parts line s w i

  -- the run of the loop from a command on: it stops there, or the rest follows
  abbrev pub then_go_on :
      Bool
      → Outcome D
      → List Reply × Session × World D × Bool
      → List Reply × Session × World D × Bool
  then_go_on false o later = (o.replies, o.session, o.world, true)
  then_go_on true o (replies, s, w, ended) = (o.replies ++ replies, s, w, ended)

  -- The loop, with the time of each command. It is done once the lines end or a command ends it;
  -- with too few times it is not.
  unfoldable pub serve : List ℕ → Session → World D → Input → List Reply × Session × World D × Bool
  unfolding command
  serve [] s w i = ([], s, w, is_empty i.lines)
  serve (now ∷ times) s w i = elim i.lines [
    | [] ↦ ([], s, w, true)
    | line ∷ rest ↦
        let o = command now line s w (record i { lines = rest }) in
        then_go_on o.goes_on o (serve times o.session o.world o.input)
  ]
