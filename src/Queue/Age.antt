-- ===== src/Queue/Age.antt =====
-- Every message leaves the queue in the end.
use desertemail.Prelude.{
  ℕ, ◌+◌, ◌-◌, ◌%◌, ◌^◌, ◌≤◌, ◌<◌, ◌≡◌, refl, ◌⊎◌, inl, inr, Bool, true, false, ◌||◌, Option, none,
  some, List, [], ◌∷◌, arith, ltb, leb, leb→le, if-all, any, Bytes,
}
use desertemail.Accounts.{Config}
use desertemail.Queue.File.{QueueMessage}
use desertemail.Queue.Deliver.{success, temp_fail, perm_fail, Bounce, Outbound, Network}
use desertemail.Queue.Attempt.{Attempt, try_deliver}
use desertemail.Queue.Worker.{
  Handled, with_remaining, next_attempt_of, given_up, put_off, too_old, untouched, expired, settled,
  retry_later, settle, max_age_secs, process_message, worker,
}

-- the next attempt comes before the message expires
abbrev pub IsDated : QueueMessage → Type 0
IsDated m = m.next_attempt < m.created + max_age_secs

-- a message that is kept is dated, and as old as it was
KeptDated : QueueMessage → Option QueueMessage → Type 0
KeptDated m none = Unit {0}
KeptDated m (some m1) = IsDated m1 × (m1.created ≡ m.created)

same_created :
    (m : QueueMessage) (remaining : List Bytes) → (with_remaining m remaining).created ≡ m.created
same_created m [] = refl
same_created m (r ∷ rs) = refl

before_day : (n c : ℕ) (b : Bool) → leb max_age_secs (n - c) || b ≡ false → n < c + max_age_secs
before_day n c b h = ground arith

put_off_dated :
    (m : QueueMessage) (now : ℕ) (remaining : List Bytes)
    → too_old m now ≡ false
    → next_attempt_of m now < (with_remaining m remaining).created + max_age_secs
put_off_dated m now remaining young =
    rw (same_created m remaining) (before_day (next_attempt_of m now) m.created _ young)

retry_later-KeptDated :
    (m : QueueMessage) (now : ℕ) (reason : Bytes) (remaining delivered : List Bytes)
    (bounces : List Bounce)
    → KeptDated m (retry_later m now reason remaining delivered bounces).kept
unfolding retry_later
retry_later-KeptDated m now reason remaining delivered bounces =
    let updated = with_remaining m remaining in
    if-all (λ h. KeptDated m h.kept) (too_old m now) (given_up updated reason delivered bounces)
      (put_off updated ((m.retry_count + 1) % 2 ^ 32) (next_attempt_of m now) delivered bounces)
      (λ _. unfold KeptDated in tt)
      (λ young. unfold KeptDated in (put_off_dated m now remaining young, same_created m remaining))

settle-KeptDated :
    (m : QueueMessage) (now : ℕ) (attempt : Attempt) → KeptDated m (settle m now attempt).kept
unfolding settle
settle-KeptDated m now (success, delivered, bounces) = unfold KeptDated in tt
settle-KeptDated m now (temp_fail reason remaining, delivered, bounces) =
    retry_later-KeptDated m now reason remaining delivered bounces
settle-KeptDated m now (perm_fail reason, delivered, bounces) = unfold KeptDated in tt

module _ {W Addr : Type 0} (net : Network W Addr) (cfg : Config) (out : Outbound) where
  process_message-KeptDated :
      (m : QueueMessage) (now : ℕ) (w : W)
      → IsDated m
      → KeptDated m (process_message net cfg out m now w).0.kept
  unfolding process_message
  process_message-KeptDated m now w dated =
      let attempt = settled net cfg out m now (try_deliver net cfg out m w) in
      if-all (λ (x : Handled × W). KeptDated m x.0.kept) (ltb now m.next_attempt) (untouched m, w) _
        (λ _. unfold KeptDated in (dated, refl))
        (λ _.
          if-all (λ (x : Handled × W). KeptDated m x.0.kept) (leb max_age_secs (now - m.created))
            (expired m, w) attempt (λ _. unfold KeptDated in tt) (λ _. settle-KeptDated m now _))

  process_message-expired :
      (m : QueueMessage) (now : ℕ) (w : W)
      → IsDated m
      → m.created + max_age_secs ≤ now
      → process_message net cfg out m now w ≡ (expired m, w)
  unfolding process_message
  process_message-expired m now w dated old =
      let due : ltb now m.next_attempt ≡ false = ground arith in
      let late : leb max_age_secs (now - m.created) ≡ true = ground arith in rw due (rw late refl)

  or_elim : (a b : Bool) → a || b ≡ true → (a ≡ true) ⊎ ((a ≡ false) × (b ≡ true))
  or_elim true b h = inl refl
  or_elim false b h = inr (refl, h)

  -- A message whose next attempt is set before it expires, as `enqueue` sets it, has left the queue
  -- after any rounds of the worker, one of them a day or more after its arrival, however the network
  -- behaves.
  pub worker-none :
      (times : List ℕ) (m : QueueMessage) (w : W)
      → m.next_attempt < m.created + max_age_secs
      → any (λ now. leb (m.created + max_age_secs) now) times ≡ true
      → (worker net cfg out times m w).0 ≡ none
  unfolding worker KeptDated
  worker-none [] m w dated h = cc
  worker-none (now ∷ times) m w dated h = elim (or_elim (leb (m.created + max_age_secs) now) _ h) [
    | inl late ↦
        (let gone = process_message-expired m now w dated (leb→le _ _ late) in
          rw (gone, worker) refl)
    | inr (early, later) ↦
        (let w1 = (process_message net cfg out m now w).1 in
          by_kept (λ m1 dated1 later1. worker-none times m1 w1 dated1 later1)
            ((process_message net cfg out m now w).0.kept) refl
            (process_message-KeptDated m now w dated) later)
  ]
    where
      by_kept :
          ((m1 : QueueMessage)
            → IsDated m1
            → any (λ t. leb (m1.created + max_age_secs) t) times ≡ true
            → (worker net cfg out times m1 (process_message net cfg out m now w).1).0 ≡ none)
          → (k : Option QueueMessage) → (process_message net cfg out m now w).0.kept ≡ k
          → KeptDated m k
          → any (λ t. leb (m.created + max_age_secs) t) times ≡ true
          → (worker net cfg out (now ∷ times) m w).0 ≡ none
      by_kept rest none e d later = rw (e, worker) refl
      by_kept rest (some m1) e d later =
          let (dated1, same) : KeptDated m (some m1) = d in
          rw (e, worker) (rest m1 dated1 (rw same later))
