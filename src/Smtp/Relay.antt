-- ===== src/Smtp/Relay.antt =====
-- The server is no open relay.
use desertemail.Prelude.{
  All-append, ℕ, ◌≡◌, refl, ◌⊎◌, inl, inr, Bool, true, false, not, ◌&&◌, ◌||◌, Option, none, some,
  List, [], ◌∷◌, ◌++◌, arith, if-all, Bool-cases, Option-cases, All, is_empty, Bytes,
  split_whitespace,
}
use desertemail.Accounts.{
  Config, is_our_domain, parse_email_addr, resolve_mailbox, check_password, decode_plain,
}
use desertemail.Smtp.Headers.{extract_angle}
use desertemail.Smtp.Connection.{
  State, init, greeted, mail_from, rcpt_to, data_phase, Session, Input, World, Services, Server,
  Outcome,
}
use mathlib.Core.Path.{subst}
use desertemail.RateLimit.{check_allowed}
use desertemail.Smtp.Commands.{
  helo, starttls, auth, mail, rcpt, data_verb, rset, noop, quit, vrfy, other, on_rcpt, on_helo,
  on_mail, on_data, on_auth, is_plain, Verb, verb_of, has_user, is_local, handle_helo,
  handle_starttls, upgrade_to, log_in, challenge, auth_plain, handle_auth, handle_mail, throttle,
  greylisted, handle_rcpt, handle_data, perform, command,
}

-- The session before the first line, and behind each command: whatever line comes, and whatever the
-- other connections make of the shared state and the client of its lines.
pub data Reach {D : Type 0} (sv : Services D) (srv : Server) : Session → Type 0 where
  connect :
      (name : Bytes) (tls : Bool)
      → Reach sv srv
          (record { state = init; authenticated_user = none; helo_domain = name; is_tls = tls })
  step :
      {s : Session} (now : ℕ) (line : Bytes) (w : World D) (i : Input)
      → Reach sv srv s
      → Reach sv srv (command sv srv now line s w i).session

-- The address has one of the server's domains, and leads to a mailbox.
pub IsOwn : Config → Bytes → Type 0
IsOwn cfg to =
    (is_our_domain cfg (parse_email_addr to).1 ≡ true)
    × (mailbox : Bytes) × (resolve_mailbox cfg to ≡ some mailbox)

is_local-IsOwn : (cfg : Config) (to : Bytes) → is_local cfg to ≡ true → IsOwn cfg to
unfolding is_local IsOwn
is_local-IsOwn cfg to h = elim (Option-cases (resolve_mailbox cfg to)) [
  | inl (mailbox, e) ↦ (ground arith, mailbox, e)
  | inr absent ↦ absurd (ground arith)
]

-- With a user of a server for submission, the recipients are free; any other server takes only its
-- own.
pub IsPermitted : Server → Option Bytes → List Bytes → Type 0
IsPermitted srv user rcpts =
    ((srv.is_submission ≡ true) × (has_user user ≡ true))
    ⊎ ((srv.is_submission ≡ false) × All (IsOwn srv.cfg) rcpts)

abbrev pub IsFair : Server → Option Bytes → State → Type 0
IsFair srv user init = Unit
IsFair srv user greeted = Unit
IsFair srv user (mail_from from) = IsPermitted srv user []
IsFair srv user (rcpt_to from rcpts) = IsPermitted srv user rcpts
IsFair srv user (data_phase from rcpts) = IsPermitted srv user rcpts

pub IsSafe : Server → Session → Type 0
IsSafe srv s = IsFair srv s.authenticated_user s.state

-- the session behind an outcome is safe
SafeAfter : {D : Type 0} → Server → Outcome D → Type 0
SafeAfter srv o = IsSafe srv o.session

permit :
    (srv : Server) (old : Option Bytes) (user : Bytes) (rcpts : List Bytes)
    → IsPermitted srv old rcpts
    → IsPermitted srv (some user) rcpts
unfolding IsPermitted
permit srv old user rcpts (inl (e, _)) = inl (e, refl)
permit srv old user rcpts (inr p) = inr p

-- A user who logs in keeps what was permitted.
has_user-IsFair :
    (srv : Server) (old : Option Bytes) (user : Bytes) (state : State)
    → IsFair srv old state
    → IsFair srv (some user) state
unfolding IsPermitted
has_user-IsFair srv old user init h = tt
has_user-IsFair srv old user greeted h = tt
has_user-IsFair srv old user (mail_from from) h = permit srv old user [] h
has_user-IsFair srv old user (rcpt_to from rcpts) h = permit srv old user rcpts h
has_user-IsFair srv old user (data_phase from rcpts) h = permit srv old user rcpts h

add_rcpt :
    (srv : Server) (user : Option Bytes) (rcpts : List Bytes) (to : Bytes)
    → srv.is_submission || is_local srv.cfg to ≡ true
    → IsPermitted srv user rcpts
    → IsPermitted srv user (rcpts ++ to ∷ [])
unfolding IsPermitted
add_rcpt srv user rcpts to h (inl p) = inl p
add_rcpt srv user rcpts to h (inr (e, all)) = inr (
  e,
  All-append (IsOwn srv.cfg) rcpts (to ∷ []) all (is_local-IsOwn srv.cfg to (ground arith), tt),
)

module _ {D : Type 0} (sv : Services D) (srv : Server) where
  log_in-IsSafe :
      (now : ℕ) (c : Option (Bytes × Bytes)) (s : Session) (w : World D) (i : Input)
      → IsSafe srv s
      → SafeAfter srv (log_in sv srv now c s w i)
  unfolding log_in IsSafe SafeAfter
  log_in-IsSafe now none s w i h = h
  log_in-IsSafe now (some (user, pass)) s w i h =
      if-all (SafeAfter srv) (check_password sv.pbkdf2_verify srv.cfg user pass) _ _
        (λ _. has_user-IsFair srv s.authenticated_user user s.state h) (λ _. h)

  handle_mail-IsSafe :
      (line : Bytes) (s : Session) (w : World D) (i : Input)
      → IsSafe srv s
      → SafeAfter srv (handle_mail sv srv line s w i)
  unfolding handle_mail IsSafe IsPermitted SafeAfter
  handle_mail-IsSafe line s w i h =
      if-all (SafeAfter srv) (srv.is_submission && not (has_user s.authenticated_user)) _ _ (λ _. h)
        (λ allowed.
          if-all (SafeAfter srv) (is_empty (extract_angle line)) _ _ (λ _. h)
            (λ _. elim (Bool-cases srv.is_submission) [
              | inl e ↦ inl (e, ground arith)
              | inr e ↦ inr (e, tt)
            ]))

  handle_rcpt-IsSafe :
      (now : ℕ) (line from : Bytes) (rcpts : List Bytes) (s : Session) (w : World D) (i : Input)
      → IsSafe srv s
      → IsPermitted srv s.authenticated_user rcpts
      → SafeAfter srv (handle_rcpt sv srv now line from rcpts s w i)
  unfolding handle_rcpt IsSafe SafeAfter
  handle_rcpt-IsSafe now line from rcpts s w i safe h =
      if-all (SafeAfter srv) (is_empty (extract_angle line)) _ _ (λ _. safe)
        (λ _.
          if-all (SafeAfter srv) (not (srv.is_submission || is_local srv.cfg (extract_angle line)))
            _ _ (λ _. safe)
            (λ ours.
              if-all (SafeAfter srv) (throttle sv srv now s.authenticated_user w).0 _ _ (λ _. safe)
                (λ _.
                  if-all (SafeAfter srv)
                    (greylisted sv srv now from rcpts (extract_angle line)
                      (throttle sv srv now s.authenticated_user w).1).0
                    _ _ (λ _. safe)
                    (λ _.
                      add_rcpt srv s.authenticated_user rcpts (extract_angle line) (ground arith)
                        h))))

  challenge-IsSafe :
      (now : ℕ) (lines : List Bytes) (s : Session) (w : World D) (up : Option (List Bytes))
      → IsSafe srv s
      → SafeAfter srv (challenge sv srv now lines s w up)
  unfolding challenge SafeAfter
  challenge-IsSafe now [] s w up h = h
  challenge-IsSafe now (line ∷ rest) s w up h =
      log_in-IsSafe now (decode_plain sv.lossy line) s w (record { lines = rest; upgrade = up }) h

  auth_plain-IsSafe :
      (now : ℕ) (parts : List Bytes) (s : Session) (w : World D) (i : Input)
      → IsSafe srv s
      → SafeAfter srv (auth_plain sv srv now parts s w i)
  unfolding auth_plain SafeAfter
  auth_plain-IsSafe now [] s w i h = h
  auth_plain-IsSafe now (_ ∷ []) s w i h = h
  auth_plain-IsSafe now (_ ∷ m ∷ []) s w i h =
      if-all (SafeAfter srv) (is_plain m) _ _ (λ _. challenge-IsSafe now i.lines s w i.upgrade h)
        (λ _. h)
  auth_plain-IsSafe now (_ ∷ m ∷ b64 ∷ _) s w i h =
      if-all (SafeAfter srv) (is_plain m) _ _
        (λ _. log_in-IsSafe now (decode_plain sv.lossy b64) s w i h) (λ _. h)

  handle_auth-IsSafe :
      (now : ℕ) (parts : List Bytes) (s : Session) (w : World D) (i : Input)
      → IsSafe srv s
      → SafeAfter srv (handle_auth sv srv now parts s w i)
  unfolding handle_auth SafeAfter
  handle_auth-IsSafe now parts s w i h =
      if-all (SafeAfter {D = D} srv) (not (check_allowed srv.peer_ip now w.auth).0) _ _ (λ _. h)
        (λ _.
          if-all (SafeAfter {D = D} srv) (srv.cfg.require_tls_for_auth && not s.is_tls) _ _ (λ _. h)
            (λ _.
              auth_plain-IsSafe now parts s
                (record w { auth = (check_allowed srv.peer_ip now w.auth).1 }) i h))

  on_rcpt-IsSafe :
      (now : ℕ) (state : State) (line : Bytes) (s : Session) (w : World D) (i : Input)
      → s.state ≡ state
      → IsSafe srv s
      → SafeAfter srv (on_rcpt sv srv now state line s w i)
  unfolding SafeAfter IsSafe
  on_rcpt-IsSafe now init line s w i e h = h
  on_rcpt-IsSafe now greeted line s w i e h = h
  on_rcpt-IsSafe now (mail_from from) line s w i e h =
      handle_rcpt-IsSafe now line from [] s w i h (subst (IsFair srv s.authenticated_user) e h)
  on_rcpt-IsSafe now (rcpt_to from rcpts) line s w i e h =
      handle_rcpt-IsSafe now line from rcpts s w i h (subst (IsFair srv s.authenticated_user) e h)
  on_rcpt-IsSafe now (data_phase from rcpts) line s w i e h = h

  on_helo-IsSafe :
      (state : State) (parts : List Bytes) (s : Session) (w : World D) (i : Input)
      → IsSafe srv s
      → SafeAfter srv (on_helo sv srv state parts s w i)
  unfolding SafeAfter IsSafe handle_helo
  on_helo-IsSafe init parts s w i h = tt
  on_helo-IsSafe greeted parts s w i h = tt
  on_helo-IsSafe (mail_from from) parts s w i h = h
  on_helo-IsSafe (rcpt_to from rcpts) parts s w i h = h
  on_helo-IsSafe (data_phase from rcpts) parts s w i h = h

  on_mail-IsSafe :
      (state : State) (line : Bytes) (s : Session) (w : World D) (i : Input)
      → IsSafe srv s
      → SafeAfter srv (on_mail sv srv state line s w i)
  unfolding SafeAfter
  on_mail-IsSafe init line s w i h = h
  on_mail-IsSafe greeted line s w i h = handle_mail-IsSafe line s w i h
  on_mail-IsSafe (mail_from from) line s w i h = handle_mail-IsSafe line s w i h
  on_mail-IsSafe (rcpt_to from rcpts) line s w i h = handle_mail-IsSafe line s w i h
  on_mail-IsSafe (data_phase from rcpts) line s w i h = h

  on_data-IsSafe :
      (state : State) (s : Session) (w : World D) (i : Input)
      → IsSafe srv s
      → SafeAfter srv (on_data sv srv state s w i)
  unfolding SafeAfter IsSafe handle_data
  on_data-IsSafe init s w i h = h
  on_data-IsSafe greeted s w i h = h
  on_data-IsSafe (mail_from from) s w i h = h
  on_data-IsSafe (rcpt_to from rcpts) s w i h = tt
  on_data-IsSafe (data_phase from rcpts) s w i h = h

  on_auth-IsSafe :
      (now : ℕ) (user : Option Bytes) (parts : List Bytes) (s : Session) (w : World D) (i : Input)
      → IsSafe srv s
      → SafeAfter srv (on_auth sv srv now user parts s w i)
  unfolding SafeAfter
  on_auth-IsSafe now none parts s w i h = handle_auth-IsSafe now parts s w i h
  on_auth-IsSafe now (some _) parts s w i h = h

  upgrade_to-IsSafe :
      (up : Option (List Bytes)) (s : Session) (w : World D) (i : Input)
      → IsSafe srv s
      → SafeAfter srv (upgrade_to sv srv up s w i)
  unfolding SafeAfter IsSafe
  upgrade_to-IsSafe none s w i h = h
  upgrade_to-IsSafe (some lines) s w i h = tt

  perform-IsSafe :
      (now : ℕ) (v : Verb) (parts : List Bytes) (line : Bytes) (s : Session) (w : World D)
      (i : Input)
      → IsSafe srv s
      → SafeAfter srv (perform sv srv now v parts line s w i)
  unfolding perform handle_starttls SafeAfter IsSafe
  perform-IsSafe now helo parts line s w i h = on_helo-IsSafe s.state parts s w i h
  perform-IsSafe now starttls parts line s w i h =
      if-all (SafeAfter {D = D} srv) (srv.starttls_available && not s.is_tls) _ _
        (λ _. upgrade_to-IsSafe i.upgrade s w i h) (λ _. h)
  perform-IsSafe now auth parts line s w i h = on_auth-IsSafe now s.authenticated_user parts s w i h
  perform-IsSafe now mail parts line s w i h = on_mail-IsSafe s.state line s w i h
  perform-IsSafe now rcpt parts line s w i h = on_rcpt-IsSafe now s.state line s w i refl h
  perform-IsSafe now data_verb parts line s w i h = on_data-IsSafe s.state s w i h
  perform-IsSafe now rset parts line s w i h = tt
  perform-IsSafe now noop parts line s w i h = h
  perform-IsSafe now quit parts line s w i h = h
  perform-IsSafe now vrfy parts line s w i h = h
  perform-IsSafe now other parts line s w i h = h

-- However a connection came about, whatever lines came, whatever other connections did, its
-- recipients are free only for a logged-in user of a server for submission: on any other server each
-- recipient accepted has a domain of the server's and leads to a mailbox, and a server for submission
-- without a login has no sender and no recipient at all.
pub Reach-IsSafe :
    {D : Type 0} (sv : Services D) (srv : Server) (s : Session) → Reach sv srv s → IsSafe srv s
unfolding command IsSafe SafeAfter
Reach-IsSafe sv srv s (connect name tls) = tt
Reach-IsSafe sv srv s (step now line w i reach) =
    perform-IsSafe sv srv now (verb_of (split_whitespace line)) (split_whitespace line) line _ w i
      (Reach-IsSafe sv srv _ reach)
