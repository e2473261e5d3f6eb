-- ===== src/Smtp/Login.antt =====
-- Who becomes the user of a connection.
use desertemail.Prelude.{
  ℕ, ◌≡◌, ◌⊎◌, true, false, not, ◌&&◌, some, List, [], ◌∷◌, if-all, if-all, Bytes, split_whitespace,
}
use desertemail.RateLimit.{check_allowed}
use desertemail.Accounts.{check_password, decode_plain}
use desertemail.Smtp.Connection.{Session, Input, World, Services, Server, Outcome}
use desertemail.Smtp.Commands.{auth}
use desertemail.Smtp.Relay.{Reach}

-- The client sent this name and password: behind the mechanism, or on the line that answers the
-- empty challenge.
pub data Sent (lossy : Bytes → Bytes) : List Bytes → List Bytes → Bytes → Bytes → Type 0 where
  at_once :
      {word m b64 user pass : Bytes} {more lines : List Bytes}
      → decode_plain lossy b64 ≡ some (user, pass)
      → Sent lossy (word ∷ m ∷ b64 ∷ more) lines user pass
  challenged :
      {word m line user pass : Bytes} {lines : List Bytes}
      → decode_plain lossy line ≡ some (user, pass)
      → Sent lossy (word ∷ m ∷ []) (line ∷ lines) user pass

-- what is behind a login as `user` at the time `now`, by a command of the words `parts` with the
-- lines `lines` to come
pub record Earned {D : Type 0} (sv : Services D) (srv : Server) (now : ℕ) (parts lines : List Bytes)
    (s : Session) (w : World D) (user : Bytes) : Type 0 where
  pub not_locked_out : (check_allowed srv.peer_ip now w.auth).0 ≡ true
  pub channel : srv.cfg.require_tls_for_auth && not s.is_tls ≡ false
  pub pass : Bytes
  pub sent : Sent sv.lossy parts lines user pass
  pub accepted : check_password sv.pbkdf2_verify srv.cfg user pass ≡ true

-- Some line before this came to a session of the same connection, and made its client the user by a
-- password that it sent.
pub LoggedIn : {D : Type 0} → Services D → Server → Bytes → Type 0
LoggedIn {D} sv srv user =
    (now : ℕ) × (line : Bytes) × (s : Session) × (w : World D) × (i : Input) × Reach sv srv s
    × Earned sv srv now (split_whitespace line) i.lines s w user

module _ {D : Type 0} (sv : Services D) (srv : Server) where
  pub Entitled : ℕ → List Bytes → List Bytes → Session → World D → Outcome D → Type 0
  Entitled now parts lines s w o =
      (user : Bytes)
      → o.session.authenticated_user ≡ some user
      → (o.session.is_tls ≡ s.is_tls)
        × ((s.authenticated_user ≡ some user) ⊎ Earned sv srv now parts lines s w user)

  -- a command that leaves the user and the channel as they are, or drops the user
  pub Keeps : Session → Outcome D → Type 0
  Keeps s o = (o.session.authenticated_user ≡ s.authenticated_user) × (o.session.is_tls ≡ s.is_tls)
