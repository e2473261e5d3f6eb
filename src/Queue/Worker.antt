-- ===== src/Queue/Worker.antt =====
-- src/queue.rs: what becomes of a message after an attempt, and the worker's rounds. Removing and
-- rewriting a file is taken to succeed. A bounce is kept as the call of `bounce_message`.
use desertemail.Prelude.{
  ℕ, ◌+◌, ◌-◌, ◌*◌, ◌%◌, ◌^◌, Bool, ◌||◌, Option, none, some, List, [], ◌∷◌, ◌++◌, ltb, leb,
  if◌then◌else◌, get_elem?, take, is_empty, Bytes, codes, join, get_or,
}
use mathlib.Core.Option
use desertemail.Accounts.{Config, resolve_mailbox}
use desertemail.Queue.File.{QueueMessage, rewrite_message, load_message}
use desertemail.Queue.Deliver.{success, temp_fail, perm_fail, Bounce, Outbound, Network}
use desertemail.Queue.Attempt.{Attempt, try_deliver}

abbrev pub max_age_secs : ℕ
max_age_secs = 24 * 3600

abbrev backoff_table : List ℕ
backoff_table = 60 ∷ 5 * 60 ∷ 15 * 60 ∷ 60 * 60 ∷ 4 * 3600 ∷ []

unfoldable pub backoff_secs : ℕ → ℕ
backoff_secs retry_count = get_or (get_elem? backoff_table retry_count) (4 * 3600)

-- What a step makes of a message: its file from then on, if it is kept, who has it, and the bounces.
pub record Handled : Type 0 where
  pub kept : Option QueueMessage
  pub delivered : List Bytes
  pub bounces : List Bounce

abbrev pub with_remaining : QueueMessage → List Bytes → QueueMessage
with_remaining msg remaining =
    if is_empty remaining then msg else record msg { recipients = remaining }

abbrev pub next_attempt_of : QueueMessage → ℕ → ℕ
next_attempt_of msg now = (now + backoff_secs msg.retry_count) % 2 ^ 64

abbrev pub given_up : QueueMessage → Bytes → List Bytes → List Bounce → Handled
given_up updated reason delivered bounces = record {
  kept = none;
  delivered = delivered;
  bounces = bounces ++ (updated, codes "Delivery failed after retries: " ++ reason) ∷ [];
}

abbrev pub put_off : QueueMessage → ℕ → ℕ → List Bytes → List Bounce → Handled
put_off updated retry_count next_attempt delivered bounces = record {
  kept = some (record updated { retry_count = retry_count; next_attempt = next_attempt });
  delivered = delivered;
  bounces = bounces;
}

abbrev pub too_old : QueueMessage → ℕ → Bool
too_old msg now =
    leb max_age_secs (next_attempt_of msg now - msg.created) || leb max_age_secs (now - msg.created)

unfoldable pub retry_later :
    QueueMessage → ℕ → Bytes → List Bytes → List Bytes → List Bounce → Handled
retry_later msg now reason remaining delivered bounces =
    let updated = with_remaining msg remaining in
    if too_old msg now
    then given_up updated reason delivered bounces
    else put_off updated ((msg.retry_count + 1) % 2 ^ 32) (next_attempt_of msg now) delivered
        bounces

unfoldable pub settle : QueueMessage → ℕ → Attempt → Handled
unfolding retry_later
settle msg now (success, delivered, bounces) = record {
  kept = none;
  delivered = delivered;
  bounces = bounces;
}
settle msg now (temp_fail reason remaining, delivered, bounces) =
    retry_later msg now reason remaining delivered bounces
settle msg now (perm_fail reason, delivered, bounces) = record {
  kept = none;
  delivered = delivered;
  bounces = bounces ++ (msg, reason) ∷ [];
}

abbrev pub untouched : QueueMessage → Handled
untouched msg = record { kept = some msg; delivered = []; bounces = [] }

abbrev pub expired : QueueMessage → Handled
expired msg = record {
  kept = none;
  delivered = [];
  bounces = (msg, codes "Message expired after 24 hours in queue") ∷ [];
}

module _ {W Addr : Type 0} (net : Network W Addr) (cfg : Config) (out : Outbound) where
  abbrev pub settled : QueueMessage → ℕ → Attempt × W → Handled × W
  settled msg now (attempt, w) = (settle msg now attempt, w)

  -- the worker's step for one message, at the time `now`
  unfoldable pub process_message : QueueMessage → ℕ → W → Handled × W
  unfolding settle
  process_message msg now w =
      let attempt = settled msg now (try_deliver net cfg out msg w) in
      if ltb now msg.next_attempt
      then (untouched msg, w)
      else if leb max_age_secs (now - msg.created)
      then (expired msg, w)
      else attempt

  abbrev file_of : Bytes → ℕ → QueueMessage → Handled → Option Bytes
  file_of content now msg handled =
      if ltb now msg.next_attempt
      then some content
      else Option.map (λ m. rewrite_message m m.retry_count m.next_attempt) handled.kept

  abbrev file_step : Bytes → ℕ → Option QueueMessage → W → (Option Bytes × List Bounce) × W
  file_step content now none w = ((some content, []), w)
  file_step content now (some msg) w =
      let (handled, w1) = process_message msg now w in
      ((file_of content now msg handled, handled.bounces), w1)

  -- One round over the files of the queue, each with the stem of its name, in the order of the names.
  unfoldable pub process_queue :
      (Bytes → Bytes) → List (Bytes × Bytes) → ℕ → W → (List (Bytes × Bytes) × List Bounce) × W
  unfolding process_message
  process_queue lossy [] now w = (([], []), w)
  process_queue lossy ((stem, content) ∷ files) now w =
      let ((file, bounces), w1) = file_step content now (load_message lossy stem content) w in
      let ((files1, bounces1), w2) = process_queue lossy files now w1 in
      elim file [
        | none ↦ ((files1, bounces ++ bounces1), w2)
        | some content1 ↦ (((stem, content1) ∷ files1, bounces ++ bounces1), w2)
      ]

-- the text of a bounce
unfoldable pub bounce_body : (Bytes → Bytes) → QueueMessage → Bytes → Bytes
bounce_body lossy msg reason =
    codes "From: mailer-daemon@localhost\r\nTo: "
    ++ (msg.sender
        ++ (codes
              "\r\nSubject: Undelivered Mail Returned to Sender\r\nMIME-Version: 1.0\r\nContent-Type: text/plain; charset=utf-8\r\n\r\nThis is the mail system at desertemail.\r\n\r\nYour message could not be delivered to: "
            ++ (join (codes ", ") msg.recipients
                ++ (codes "\r\n\r\nReason: "
                    ++ (reason
                        ++ (codes "\r\n\r\n----- Original message headers (truncated) -----\r\n"
                            ++ (lossy (take 2048 msg.raw) ++ codes "\r\n")))))))

-- the mailbox it is delivered to, if the sender is a local one, with the text
unfoldable pub bounce_message : (Bytes → Bytes) → Config → Bounce → Option (Bytes × Bytes)
unfolding bounce_body
bounce_message lossy cfg (msg, reason) =
    Option.map (λ mb. (mb, bounce_body lossy msg reason)) (resolve_mailbox cfg msg.sender)

module _ {W Addr : Type 0} (net : Network W Addr) (cfg : Config) (out : Outbound) where
  -- a message over the rounds of the worker, at these times, with what happens to it in each
  unfoldable pub worker : List ℕ → QueueMessage → W → Option QueueMessage × List Handled × W
  worker [] msg w = (some msg, [], w)
  worker (now ∷ times) msg w =
      let (handled, w1) = process_message net cfg out msg now w in
      elim handled.kept [
        | none ↦ (none, handled ∷ [], w1)
        | some msg1 ↦
            let (last, history, w2) = worker times msg1 w1 in (last, handled ∷ history, w2)
      ]
