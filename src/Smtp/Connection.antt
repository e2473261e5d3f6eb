-- ===== src/Smtp/Connection.antt =====
-- src/smtp.rs: the state of a connection, its replies, and what the server stands on.
use Prim.Native.String.{String}
use desertemail.Prelude.{ℕ, Bool, true, false, Option, List, [], ◌∷◌, Bytes, codes}
use desertemail.Prelude.Int.{ℤ}
use desertemail.RateLimit.{AuthTracker, OutboundTracker}
use desertemail.Accounts.{Config}

-- `State::Quit` is never entered, so it is left out.
pub data State : Type 0 where
  init greeted : State
  mail_from : Bytes → State
  rcpt_to : Bytes → List Bytes → State
  data_phase : Bytes → List Bytes → State

-- A reply line; those that the source formats are kept as their parts.
pub data Reply : Type 0 where
  text : Bytes → Reply
  hello : Bytes → Reply
  size : ℕ → Reply
  queued : ℕ → Reply

abbrev pub say : String → Reply
say s = text (codes s)

-- what the loop of `handle_client` changes; `data_buf` lives in `Message` alone
pub record Session : Type 0 where
  pub state : State
  pub authenticated_user : Option Bytes
  pub helo_domain : Bytes
  pub is_tls : Bool

-- The lines that the client will still send on this channel, and those that it will send on the TLS
-- channel if the handshake succeeds.
pub record Input : Type 0 where
  pub lines : List Bytes
  pub upgrade : Option (List Bytes)

-- the result of `inbound_trust_check`: the annotated message with its score, or a reply
pub data InboundAction : Type 0 where
  accept : Bytes → ℤ → InboundAction
  reject : Bytes → InboundAction

-- What is shared by all connections: the rate limits, and all else (files, caches, the network) in
-- `D`.
pub record World (D : Type 0) : Type 0 where
  pub auth : AuthTracker
  pub outbound : OutboundTracker
  pub disk : D

-- The parts of the server that a connection calls: the mailboxes and the queue on disk (an operation
-- may fail), the greylist (true is to defer) and the checks of inbound mail.
pub record Services (D : Type 0) : Type 0 where
  pub deliver : Bytes → Bytes → Bytes → D → Bool × D
  pub mailbox_size : Bytes → D → ℕ
  pub enqueue : Bytes → List Bytes → Bytes → D → Bool × D
  pub greylist_check : Bytes → Bytes → Bytes → ℕ → D → Bool × D
  pub inbound_trust_check : Bytes → Bytes → Bytes → Bytes → D → InboundAction × D
  pub pbkdf2_verify : ℕ → Bytes → Bytes → Bytes → Bool
  pub lossy : Bytes → Bytes

-- what is fixed for a connection
pub record Server : Type 0 where
  pub cfg : Config
  pub is_submission : Bool
  pub starttls_available : Bool
  pub peer_ip : Bytes

-- What a command leaves behind. The loop ends unless it goes on.
pub record Outcome (D : Type 0) : Type 0 where
  pub replies : List Reply
  pub session : Session
  pub world : World D
  pub input : Input
  pub goes_on : Bool

abbrev pub answer : {D : Type 0} → Reply → Session → World D → Input → Outcome D
answer r s w i = record { replies = r ∷ []; session = s; world = w; input = i; goes_on = true }

abbrev pub close : {D : Type 0} → List Reply → Session → World D → Input → Outcome D
close rs s w i = record { replies = rs; session = s; world = w; input = i; goes_on = false }
