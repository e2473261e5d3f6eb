-- ===== src/Smtp/Message.antt =====
-- src/smtp.rs: reading a message, and delivering it.
use desertemail.Prelude.{
  ℕ, zero, suc, ◌+◌, Bool, true, false, not, ◌&&◌, Option, none, some, List, [], ◌∷◌, ◌++◌, ltb,
  ◌==◌, if◌then◌else◌, length, Bytes, codes, bytes_eq,
}
use desertemail.Prelude.Int.{ℤ, pos, leb_ℤ}
use desertemail.Accounts.{Config, resolve_mailbox, quota_bytes_for, would_exceed_quota}
use desertemail.Smtp.Connection.{Services}

-- the loop variables of the DATA phase
pub record Received : Type 0 where
  pub data_buf : Bytes
  pub oversized : Bool

abbrev pub unstuff : Bytes → Bytes
unstuff [] = []
unstuff (c ∷ cs) = if c == b'.' then cs else c ∷ cs

unfoldable pub take_line : ℕ → Bytes → Received → Received
take_line max_msg dline r =
    let content = unstuff dline in
    if r.oversized
    then r
    else if ltb max_msg (length r.data_buf + (length content + 2))
    then record { data_buf = []; oversized = true }
    else record r { data_buf = r.data_buf ++ (content ++ b'\r' ∷ b'\n' ∷ []) }

-- The lines up to the one that is a dot, or to the end of the connection, and the lines behind it.
unfoldable pub read_data : ℕ → List Bytes → Received → Received × List Bytes
read_data max_msg [] r = (r, [])
read_data max_msg (dline ∷ rest) r = elim (bytes_eq dline (codes ".")) [
  | true ↦ (r, rest)
  | false ↦ read_data max_msg rest (take_line max_msg dline r)
]

-- spamscore.rs
unfoldable pub should_file_to_junk : ℤ → ℤ → ℤ → Bool
should_file_to_junk score folder_threshold reject_threshold =
    if leb_ℤ folder_threshold (pos 0)
    then false
    else if not (leb_ℤ reject_threshold (pos 0)) && leb_ℤ reject_threshold score
    then false
    else leb_ℤ folder_threshold score

-- The errors of `deliver_mail`. An `io::Error` of the storage is `failed`.
pub data Delivery : Type 0 where
  delivered : ℕ → Delivery
  overquota failed no_recipients : Delivery

abbrev pub total_of : ℕ → Delivery
total_of zero = no_recipients
total_of (suc n) = delivered (suc n)

module _ {D : Type 0} (sv : Services D) (cfg : Config) where
  -- `check_quota`: may the mailbox take so many bytes more
  unfoldable pub check_quota : Bytes → ℕ → D → Bool
  check_quota mailbox extra d =
      if quota_bytes_for cfg mailbox == 0
      then true
      else not (would_exceed_quota (sv.mailbox_size mailbox d) extra (quota_bytes_for cfg mailbox))

  -- one copy for the user `mb`, filed in the folder `dest`
  unfoldable pub store : Bytes → Bytes → Bytes → Bytes → D → Option Delivery × D
  store mb dest raw from d =
      if not (check_quota mb (length raw) d)
      then (some overquota, d)
      else (let (written, d') = sv.deliver dest raw from d in
          (if written then none else some failed, d'))

  abbrev pub junk_or_inbox : Bool → Bytes → Bytes
  junk_or_inbox to_junk mb = if to_junk then mb ++ codes "/.Junk" else mb

  -- The loop over the recipients, as it stands for both kinds of server: those with a mailbox are
  -- stored and counted, the others are collected. An error ends it.
  unfoldable pub deliver_each :
      Bool
      → Bytes
      → Bytes
      → List Bytes
      → ℕ
      → List Bytes
      → D
      → (Option Delivery × ℕ × List Bytes) × D
  deliver_each to_junk raw from [] count remote d = ((none, count, remote), d)
  deliver_each to_junk raw from (r ∷ rs) count remote d = elim (resolve_mailbox cfg r) [
    | none ↦ deliver_each to_junk raw from rs count (remote ++ r ∷ []) d
    | some mb ↦
        let (error, d') = store mb (junk_or_inbox to_junk mb) raw from d in
        elim error [
          | some e ↦ ((some e, count, remote), d')
          | none ↦ deliver_each to_junk raw from rs (count + 1) remote d'
        ]
  ]

  -- the copy in the sender's own folder
  unfoldable pub store_sent : Option Bytes → Bytes → Bytes → D → (Option Delivery × ℕ) × D
  store_sent none raw from d = ((none, 0), d)
  store_sent (some user) raw from d = elim (resolve_mailbox cfg user) [
    | none ↦ ((none, 0), d)
    | some mb ↦
        let (error, d') = store mb (mb ++ codes "/.Sent") raw from d in
        elim error [ some e ↦ ((some e, 0), d') | none ↦ ((none, 1), d') ]
  ]

  unfoldable pub enqueue_remote : Bytes → Bytes → ℕ → List Bytes → D → Delivery × D
  enqueue_remote raw from count [] d = (total_of count, d)
  enqueue_remote raw from count (r ∷ rs) d =
      let (queued, d') = sv.enqueue from (r ∷ rs) raw d in
      (if queued then total_of (count + length (r ∷ rs)) else failed, d')

  abbrev finish : Bytes → Bytes → (Option Delivery × ℕ × List Bytes) × D → Delivery × D
  finish raw from ((some e, count, remote), d) = (e, d)
  finish raw from ((none, count, remote), d) = enqueue_remote raw from count remote d

  abbrev after_sent : Bytes → Bytes → List Bytes → (Option Delivery × ℕ) × D → Delivery × D
  after_sent raw from rcpts ((some e, _), d) = (e, d)
  after_sent raw from rcpts ((none, count), d) =
      finish raw from (deliver_each false raw from rcpts count [] d)

  -- Recipients of inbound mail without a mailbox are dropped.
  abbrev pub inbound_total : (Option Delivery × ℕ × List Bytes) × D → Delivery × D
  inbound_total ((some e, count, remote), d) = (e, d)
  inbound_total ((none, count, remote), d) = (total_of count, d)

  unfoldable pub deliver_mail :
      Bytes → List Bytes → Bytes → Bool → Option Bytes → ℤ → D → Delivery × D
  deliver_mail from rcpts raw is_submission auth_user spam_score d =
      if is_submission
      then after_sent raw from rcpts (store_sent auth_user raw from d)
      else inbound_total (
          deliver_each
            (should_file_to_junk spam_score cfg.spam_folder_threshold cfg.spam_score_reject) raw
            from rcpts 0 [] d)
