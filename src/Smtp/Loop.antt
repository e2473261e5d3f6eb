-- ===== src/Smtp/Loop.antt =====
-- The loop of the SMTP server ends: each round takes a line at least.
use desertemail.Prelude.{
  ℕ, suc, ◌+◌, ◌≤◌, ◌≡◌, refl, ap, inl, inr, Bool, true, false, not, ◌&&◌, ◌||◌, Option, none, some,
  List, [], ◌∷◌, arith, Bool-cases, if-all, length, is_empty, Bytes, codes, bytes_eq,
  split_whitespace,
}
use desertemail.RateLimit.{check_allowed}
use desertemail.Accounts.{check_password, decode_plain}
use desertemail.Smtp.Headers.{extract_angle}
use desertemail.Smtp.Connection.{
  State, init, greeted, mail_from, rcpt_to, data_phase, Reply, Session, Input, World, Services,
  Server, Outcome,
}
use desertemail.Smtp.Message.{Received, read_data, take_line}
use desertemail.Smtp.Commands.{
  Verb, helo, starttls, auth, mail, rcpt, data_verb, rset, noop, quit, vrfy, other, on_rcpt,
  on_helo, on_mail, on_data, on_auth, is_plain, verb_of, has_user, is_local, handle_helo,
  handle_starttls, upgrade_to, log_in, challenge, auth_plain, handle_auth, handle_mail, throttle,
  greylisted, handle_rcpt, handle_data, perform, command, then_go_on, serve,
}

abbrev to_come : Option (List Bytes) → ℕ
to_come none = 0
to_come (some lines) = 1 + length lines

-- how many lines a client may still send, and the change to TLS
abbrev pub left : Input → ℕ
left i = length i.lines + to_come i.upgrade

read_data-rest :
    (max_msg : ℕ) (lines : List Bytes) (r : Received)
    → length (read_data max_msg lines r).1 ≤ length lines
unfolding read_data
read_data-rest max_msg [] r = omega arith
read_data-rest max_msg (l ∷ ls) r =
    let later = read_data-rest max_msg ls (take_line max_msg l r) in
    elim (Bool-cases (bytes_eq l (codes "."))) [
      | inl e ↦ rw (e, read_data) (omega arith)
      | inr e ↦ rw (e, read_data) (omega arith)
    ]

Within : {D : Type 0} → ℕ → Outcome D → Type 0
Within n o = left o.input ≤ n

module _ {D : Type 0} (sv : Services D) (srv : Server) where
  log_in-Within :
      (now : ℕ) (c : Option (Bytes × Bytes)) (s : Session) (w : World D) (i : Input)
      → Within (left i) (log_in sv srv now c s w i)
  unfolding log_in Within
  log_in-Within now none s w i = omega arith
  log_in-Within now (some (user, pass)) s w i =
      if-all (Within {D = D} (left i)) (check_password sv.pbkdf2_verify srv.cfg user pass) _ _
        (λ _. omega arith) (λ _. omega arith)

  challenge-Within :
      (now : ℕ) (lines : List Bytes) (s : Session) (w : World D) (up : Option (List Bytes))
      → Within (length lines + to_come up) (challenge sv srv now lines s w up)
  unfolding challenge Within
  challenge-Within now [] s w up = omega arith
  challenge-Within now (line ∷ rest) s w up =
      let later =
        log_in-Within now (decode_plain sv.lossy line) s w
          (record { lines = rest; upgrade = up }) in
      omega arith

  auth_plain-Within :
      (now : ℕ) (parts : List Bytes) (s : Session) (w : World D) (i : Input)
      → Within (left i) (auth_plain sv srv now parts s w i)
  unfolding auth_plain Within
  auth_plain-Within now [] s w i = omega arith
  auth_plain-Within now (_ ∷ []) s w i = omega arith
  auth_plain-Within now (_ ∷ m ∷ []) s w i =
      if-all (Within {D = D} (left i)) (is_plain m) _ _
        (λ _. challenge-Within now i.lines s w i.upgrade) (λ _. omega arith)
  auth_plain-Within now (_ ∷ m ∷ b64 ∷ _) s w i =
      if-all (Within {D = D} (left i)) (is_plain m) _ _
        (λ _. log_in-Within now (decode_plain sv.lossy b64) s w i) (λ _. omega arith)

  handle_auth-Within :
      (now : ℕ) (parts : List Bytes) (s : Session) (w : World D) (i : Input)
      → Within (left i) (handle_auth sv srv now parts s w i)
  unfolding handle_auth Within
  handle_auth-Within now parts s w i =
      if-all (Within {D = D} (left i)) (not (check_allowed srv.peer_ip now w.auth).0) _ _
        (λ _. omega arith)
        (λ _.
          if-all (Within {D = D} (left i)) (srv.cfg.require_tls_for_auth && not s.is_tls) _ _
            (λ _. omega arith)
            (λ _.
              auth_plain-Within now parts s
                (record w { auth = (check_allowed srv.peer_ip now w.auth).1 }) i))

  handle_rcpt-Within :
      (now : ℕ) (line from : Bytes) (rcpts : List Bytes) (s : Session) (w : World D) (i : Input)
      → Within (left i) (handle_rcpt sv srv now line from rcpts s w i)
  unfolding handle_rcpt Within
  handle_rcpt-Within now line from rcpts s w i =
      let (refused, w1) = throttle sv srv now s.authenticated_user w in
      if-all (Within {D = D} (left i)) (is_empty (extract_angle line)) _ _ (λ _. omega arith)
        (λ _.
          if-all (Within {D = D} (left i))
            (not (srv.is_submission || is_local srv.cfg (extract_angle line))) _ _
            (λ _. omega arith)
            (λ _.
              if-all (Within {D = D} (left i)) refused _ _ (λ _. omega arith)
                (λ _.
                  if-all (Within {D = D} (left i))
                    (greylisted sv srv now from rcpts (extract_angle line) w1).0 _ _
                    (λ _. omega arith) (λ _. omega arith))))

  handle_mail-Within :
      (line : Bytes) (s : Session) (w : World D) (i : Input)
      → Within (left i) (handle_mail sv srv line s w i)
  unfolding handle_mail Within
  handle_mail-Within line s w i =
      if-all (Within {D = D} (left i)) (srv.is_submission && not (has_user s.authenticated_user)) _
        _ (λ _. omega arith)
        (λ _.
          if-all (Within {D = D} (left i)) (is_empty (extract_angle line)) _ _ (λ _. omega arith)
            (λ _. omega arith))

  handle_data-Within :
      (from : Bytes) (rcpts : List Bytes) (s : Session) (w : World D) (i : Input)
      → Within (left i) (handle_data sv srv from rcpts s w i)
  unfolding handle_data Within
  handle_data-Within from rcpts s w i =
      let rest =
        read_data-rest srv.cfg.max_message_bytes i.lines
          (record { data_buf = []; oversized = false }) in
      omega arith

  on_state-Within :
      (now : ℕ) (state : State) (parts : List Bytes) (line : Bytes) (s : Session) (w : World D)
      (i : Input)
      → Within (left i) (on_helo sv srv state parts s w i)
        × Within (left i) (on_mail sv srv state line s w i)
        × Within (left i) (on_rcpt sv srv now state line s w i)
        × Within (left i) (on_data sv srv state s w i)
  unfolding Within handle_helo
  on_state-Within now init parts line s w i = (omega arith, omega arith, omega arith, omega arith)
  on_state-Within now greeted parts line s w i =
      (omega arith, handle_mail-Within line s w i, omega arith, omega arith)
  on_state-Within now (mail_from from) parts line s w i = (
    omega arith,
    handle_mail-Within line s w i,
    handle_rcpt-Within now line from [] s w i,
    omega arith,
  )
  on_state-Within now (rcpt_to from rcpts) parts line s w i = (
    omega arith,
    handle_mail-Within line s w i,
    handle_rcpt-Within now line from rcpts s w i,
    handle_data-Within from rcpts s w i,
  )
  on_state-Within now (data_phase from rcpts) parts line s w i =
      (omega arith, omega arith, omega arith, omega arith)

  on_auth-Within :
      (now : ℕ) (user : Option Bytes) (parts : List Bytes) (s : Session) (w : World D) (i : Input)
      → Within (left i) (on_auth sv srv now user parts s w i)
  unfolding Within
  on_auth-Within now none parts s w i = handle_auth-Within now parts s w i
  on_auth-Within now (some _) parts s w i = omega arith

  upgrade_to-Within :
      (up : Option (List Bytes)) (s : Session) (w : World D) (i : Input)
      → i.upgrade ≡ up
      → Within (left i) (upgrade_to sv srv up s w i)
  unfolding Within
  upgrade_to-Within none s w i e = omega arith
  upgrade_to-Within (some lines) s w i e = rw e (omega arith)

  perform-Within :
      (now : ℕ) (v : Verb) (parts : List Bytes) (line : Bytes) (s : Session) (w : World D)
      (i : Input)
      → Within (left i) (perform sv srv now v parts line s w i)
  unfolding perform handle_starttls Within
  perform-Within now helo parts line s w i = (on_state-Within now s.state parts line s w i).0
  perform-Within now starttls parts line s w i =
      if-all (Within {D = D} (left i)) (srv.starttls_available && not s.is_tls) _ _
        (λ _. upgrade_to-Within i.upgrade s w i refl) (λ _. omega arith)
  perform-Within now auth parts line s w i = on_auth-Within now s.authenticated_user parts s w i
  perform-Within now mail parts line s w i = (on_state-Within now s.state parts line s w i).1
  perform-Within now rcpt parts line s w i = (on_state-Within now s.state parts line s w i).2
  perform-Within now data_verb parts line s w i = (on_state-Within now s.state parts line s w i).3
  perform-Within now rset parts line s w i = omega arith
  perform-Within now noop parts line s w i = omega arith
  perform-Within now quit parts line s w i = omega arith
  perform-Within now vrfy parts line s w i = omega arith
  perform-Within now other parts line s w i = omega arith

nothing_left : (lines : List Bytes) → length lines ≤ 0 → is_empty lines ≡ true
nothing_left [] h = refl
nothing_left (l ∷ ls) h = absurd (omega arith)

then_go_on-ends :
    {D : Type 0} (sv : Services D) (srv : Server) (goes_on : Bool) (o : Outcome D)
    (later : List Reply × Session × World D × Bool)
    → later.3 ≡ true
    → (then_go_on sv srv goes_on o later).3 ≡ true
then_go_on-ends sv srv false o later h = refl
then_go_on-ends sv srv true o later h = h

one_round :
    {D : Type 0} (sv : Services D) (srv : Server) (now : ℕ) (times : List ℕ) (s : Session)
    (w : World D) (i : Input) (lines : List Bytes)
    → i.lines ≡ lines
    → ((s : Session) (w : World D) (i : Input)
        → left i ≤ length times
        → (serve sv srv times s w i).3 ≡ true)
    → left i ≤ suc (length times)
    → (serve sv srv (now ∷ times) s w i).3 ≡ true
unfolding serve command Within
one_round sv srv now times s w i [] e later h = rw (e, serve) refl
one_round sv srv now times s w i (line ∷ rest) e later h =
    let after = command sv srv now line s w (record i { lines = rest }) in
    let parts = split_whitespace line in
    let within =
      perform-Within sv srv now (verb_of parts) parts line s w (record i { lines = rest }) in
    let before : length i.lines ≡ suc (length rest) = ap length e in
    rw (e, serve)
      (then_go_on-ends sv srv after.goes_on after _
        (later after.session after.world after.input (omega arith)))

-- With as many times as the client has lines to send, on the plain channel and on the TLS channel, and
-- one more for the change between them, the loop runs to its end, whatever the lines are.
pub serve-ends :
    {D : Type 0} (sv : Services D) (srv : Server) (times : List ℕ) (s : Session) (w : World D)
    (i : Input)
    → left i ≤ length times
    → (serve sv srv times s w i).3 ≡ true
unfolding serve command
serve-ends sv srv [] s w i h = nothing_left i.lines (omega arith)
serve-ends sv srv (now ∷ times) s w i h =
    one_round sv srv now times s w i i.lines refl (λ s w i. serve-ends sv srv times s w i) h
