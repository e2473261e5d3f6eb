-- ===== src/Queue/Account.antt =====
-- No recipient is lost: each is delivered to, bounced or kept for the next attempt.
use desertemail.Prelude.{
  ℕ, ◌+◌, ◌-◌, ◌%◌, ◌^◌, ◌≡◌, refl, sym, ◌∙◌, ◌⊎◌, inl, inr, Bool, true, false, Option, none, some,
  List, [], ◌∷◌, ◌++◌, arith, ltb, leb, if◌then◌else◌, Bool-cases, if-all, length, retain, is_empty,
  length-append, retain-append, Bytes, codes, bytes_eq,
}
use desertemail.Accounts.{Config, parse_email_addr}
use desertemail.Queue.File.{QueueMessage}
use desertemail.Queue.Deliver.{
  DeliverResult, success, temp_fail, perm_fail, Bounce, Outbound, Network, helo_name,
  dkim_raw_for_send, deliver_to_domain, deliver_via_smarthost, sent_to_smarthost, use_smarthost,
}
use desertemail.Queue.Send.{Result, ok, err, temp, perm, io}
use desertemail.Queue.Attempt.{
  direct, route, by_smarthost, fresh, Groups, add_recipient, Tally, group_by_domain,
  refuse_recipient, count_result, Attempt, conclude, deliver_groups, try_deliver,
}
use desertemail.Queue.Worker.{
  Handled, with_remaining, next_attempt_of, given_up, put_off, too_old, untouched, expired, settled,
  retry_later, settle, max_age_secs, process_message,
}

-- whom a message that is kept is for
abbrev pub recipients_of : Option QueueMessage → List Bytes
recipients_of none = []
recipients_of (some m) = m.recipients

module _ (p : Bytes → Bool) where
  -- how many of the recipients are of a kind
  abbrev pub weigh : List Bytes → ℕ
  weigh rs = length (retain p rs)

  weigh-append : (a b : List Bytes) → weigh (a ++ b) ≡ weigh a + weigh b
  weigh-append a b = rw (retain-append p a b) (length-append (retain p a) (retain p b))

  abbrev pub weigh_bounces : List Bounce → ℕ
  weigh_bounces [] = 0
  weigh_bounces ((m, reason) ∷ bounces) = weigh m.recipients + weigh_bounces bounces

  weigh_bounces-append :
      (a b : List Bounce) → weigh_bounces (a ++ b) ≡ weigh_bounces a + weigh_bounces b
  weigh_bounces-append [] b = omega arith
  weigh_bounces-append ((m, reason) ∷ a) b = omega (arith, weigh_bounces-append a b)

  abbrev weigh_groups : Groups → ℕ
  weigh_groups [] = 0
  weigh_groups ((d, rs) ∷ groups) = weigh rs + weigh_groups groups

  abbrev total : Tally → ℕ
  total t = weigh t.remaining + weigh t.perm_failed + weigh t.delivered

  add_recipient_weight :
      (domain r : Bytes) (groups : Groups)
      → weigh_groups (add_recipient domain r groups) ≡ weigh (r ∷ []) + weigh_groups groups
  unfolding add_recipient
  add_recipient_weight domain r [] = refl
  add_recipient_weight domain r ((d, rs) ∷ groups) = elim (Bool-cases (bytes_eq d domain)) [
    | inl e ↦ rw (e, add_recipient) (omega (arith, weigh-append rs (r ∷ [])))
    | inr e ↦ rw (e, add_recipient) (omega (arith, add_recipient_weight domain r groups))
  ]

  weigh_cons : (r : Bytes) (rs : List Bytes) → weigh (r ∷ rs) ≡ weigh (r ∷ []) + weigh rs
  weigh_cons r rs = weigh-append (r ∷ []) rs

  -- a tally whose sessions all failed has delivered to nobody
  abbrev IsFair : Tally → Type 0
  IsFair t = t.any_ok ≡ false → weigh t.delivered ≡ 0

  Grouped : List Bytes → Groups → Tally → Groups × Tally → Type 0
  Grouped rs groups t (groups1, t1) =
      (weigh rs + weigh_groups groups + total t ≡ weigh_groups groups1 + total t1) × IsFair t1

  regroup :
      (rs rs1 : List Bytes) (groups groups1 : Groups) (t t1 : Tally)
      → weigh rs1 + weigh_groups groups1 + total t1 ≡ weigh rs + weigh_groups groups + total t
      → (x : Groups × Tally) → Grouped rs1 groups1 t1 x
      → Grouped rs groups t x
  unfolding Grouped
  regroup rs rs1 groups groups1 t t1 same (groups2, t2) (even, fair) = (sym same ∙ even, fair)

  group_by_domain_weight :
      (rs : List Bytes) (groups : Groups) (t : Tally)
      → IsFair t
      → Grouped rs groups t (group_by_domain rs groups t)
  unfolding group_by_domain
  group_by_domain_weight [] groups t fair = unfold Grouped in (omega arith, fair)
  group_by_domain_weight (r ∷ rs) groups t fair =
      let split = weigh_cons r rs in
      let failed = weigh-append t.perm_failed (r ∷ []) in
      let domain = (parse_email_addr r).1 in
      let added = add_recipient_weight domain r groups in
      if-all (Grouped (r ∷ rs) groups t) (is_empty domain) _ _
        (λ _.
          regroup (r ∷ rs) rs groups groups t (refuse_recipient r t) (omega arith) _
            (group_by_domain_weight rs groups (refuse_recipient r t) fair))
        (λ _.
          regroup (r ∷ rs) rs groups (add_recipient domain r groups) t t (omega arith) _
            (group_by_domain_weight rs (add_recipient domain r groups) t fair))

  count_result_weight :
      (rcpts : List Bytes) (result : DeliverResult) (t : Tally)
      → IsFair t
      → (total (count_result rcpts result t) ≡ weigh rcpts + total t)
        × IsFair (count_result rcpts result t)
  unfolding count_result
  count_result_weight rcpts success t fair =
      (omega (arith, weigh-append t.delivered rcpts), λ e. cc)
  count_result_weight rcpts (temp_fail reason left) t fair =
      (omega (arith, weigh-append t.remaining rcpts), fair)
  count_result_weight rcpts (perm_fail reason) t fair =
      (omega (arith, weigh-append t.perm_failed rcpts), fair)

  -- what an attempt leaves of a message's recipients
  abbrev left_of : QueueMessage → DeliverResult → List Bytes
  left_of msg success = []
  left_of msg (temp_fail reason remaining) =
      if is_empty remaining then msg.recipients else remaining
  left_of msg (perm_fail reason) = msg.recipients

  Accounted : QueueMessage → Attempt → Type 0
  Accounted msg (result, delivered, bounces) =
      weigh msg.recipients ≡ weigh delivered + weigh_bounces bounces + weigh (left_of msg result)

  nothing : (rs : List Bytes) → is_empty rs ≡ true → weigh rs ≡ 0
  nothing [] e = refl
  nothing (r ∷ rs) e = cc

  conclude-Accounted :
      (msg : QueueMessage) (t : Tally)
      → weigh msg.recipients ≡ total t
      → IsFair t
      → Accounted msg (conclude msg t)
  unfolding conclude Accounted
  conclude-Accounted msg t all fair = elim (Bool-cases (is_empty t.perm_failed)) [
    | inl no_failed ↦ elim (Bool-cases (is_empty t.remaining)) [
      | inl none_left ↦
          (let a = nothing t.perm_failed no_failed in
            let b = nothing t.remaining none_left in rw (no_failed) (rw (none_left) (omega arith)))
      | inr some_left ↦
          (let a = nothing t.perm_failed no_failed in
            rw (no_failed) (rw (some_left) (rw some_left (omega arith))))
    ]
    | inr failed ↦ elim (Bool-cases (is_empty t.remaining)) [
      | inl none_left ↦ elim (Bool-cases t.any_ok) [
        | inl good ↦
            (let b = nothing t.remaining none_left in
              rw (failed) (rw (none_left) (rw good (omega arith))))
        | inr bad ↦ (let b = fair bad in rw (failed) (rw (none_left) (rw bad (omega arith))))
      ]
      | inr some_left ↦ rw (failed) (rw (some_left) (rw some_left (omega arith)))
    ]
  ]

  module _ {W Addr : Type 0} (net : Network W Addr) (cfg : Config) (out : Outbound) where
    Delivered : Groups → Tally → Tally × W → Type 0
    Delivered groups t (t1, w) = (weigh_groups groups + total t ≡ total t1) × IsFair t1

    deliver_groups_weight :
        (msg : QueueMessage) (raw : Bytes) (groups : Groups) (t : Tally) (w : W)
        → IsFair t
        → Delivered groups t (deliver_groups net cfg out msg raw groups t w)
    unfolding deliver_groups Delivered
    deliver_groups_weight msg raw [] t w fair = (omega arith, fair)
    deliver_groups_weight msg raw ((domain, rcpts) ∷ groups) t w fair =
        let step = deliver_to_domain net msg.sender rcpts raw domain (helo_name cfg) w in
        let (grown, fair1) = count_result_weight rcpts step.0 t fair in
        let (even, fair2) =
          deliver_groups_weight msg raw groups (count_result rcpts step.0 t) step.1 fair1 in
        (omega arith, fair2)

    -- a smarthost that fails for now keeps every recipient
    KeepsAll : QueueMessage → DeliverResult → Type 0
    KeepsAll msg success = Unit {0}
    KeepsAll msg (temp_fail reason remaining) = remaining ≡ msg.recipients
    KeepsAll msg (perm_fail reason) = Unit {0}

    sent_to_smarthost-KeepsAll :
        (msg : QueueMessage) (r : Result (Unit {0}))
        → KeepsAll msg (sent_to_smarthost net msg.recipients r)
    unfolding KeepsAll
    sent_to_smarthost-KeepsAll msg (ok u c) = tt
    sent_to_smarthost-KeepsAll msg (err (temp s)) = refl
    sent_to_smarthost-KeepsAll msg (err (perm s)) = tt
    sent_to_smarthost-KeepsAll msg (err io) = refl

    use_smarthost-KeepsAll :
        (msg : QueueMessage) (raw : Bytes) (x : (Bytes ⊎ Addr) × W)
        → KeepsAll msg (use_smarthost net cfg out msg raw x).0
    use_smarthost-KeepsAll msg raw (inl e, w) = unfold KeepsAll in refl
    use_smarthost-KeepsAll msg raw (inr addr, w) = sent_to_smarthost-KeepsAll msg _

    by_smarthost-Accounted :
        (msg : QueueMessage) (x : DeliverResult × W)
        → KeepsAll msg x.0
        → Accounted msg (by_smarthost net cfg out msg x).0
    unfolding KeepsAll Accounted
    by_smarthost-Accounted msg (success, w) h = omega arith
    by_smarthost-Accounted msg (temp_fail reason remaining, w) h = rw h (
        if-all (λ x. weigh msg.recipients ≡ 0 + 0 + weigh x) (is_empty msg.recipients)
          msg.recipients msg.recipients (λ _. omega arith) (λ _. omega arith))
    by_smarthost-Accounted msg (perm_fail reason, w) h = omega arith

    direct_weight :
        (msg : QueueMessage) (raw : Bytes) (w : W) (x : Groups × Tally)
        → Grouped msg.recipients [] fresh x
        → Accounted msg (direct net cfg out msg raw x w).0
    unfolding Grouped Delivered
    direct_weight msg raw w (groups, t) (even, fair) =
        let (kept, fair1) = deliver_groups_weight msg raw groups t w fair in
        conclude-Accounted msg _ (omega arith) fair1

    route-Accounted :
        (host : Option Bytes) (msg : QueueMessage) (raw : Bytes) (w : W)
        → Accounted msg (route net cfg out host msg raw w).0
    route-Accounted none msg raw w =
        direct_weight msg raw w _ (group_by_domain_weight msg.recipients [] fresh (λ _. refl))
    route-Accounted (some smarthost) msg raw w =
        unfold deliver_via_smarthost in
        by_smarthost-Accounted msg _ (use_smarthost-KeepsAll msg raw _)

    try_deliver-Accounted :
        (msg : QueueMessage) (w : W) → Accounted msg (try_deliver net cfg out msg w).0
    unfolding try_deliver
    try_deliver-Accounted msg w =
        let raw = dkim_raw_for_send cfg out msg in
        if-all (λ (x : Attempt × W). Accounted msg x.0) (is_empty msg.recipients) _ _
          (λ _. unfold Accounted in omega arith) (λ _. route-Accounted out.smarthost msg raw w)

    handled_weight : Handled → ℕ
    handled_weight h = weigh h.delivered + weigh_bounces h.bounces + weigh (recipients_of h.kept)

    updated_recipients :
        (msg : QueueMessage) (remaining : List Bytes)
        → weigh (with_remaining msg remaining).recipients
          ≡ weigh (if is_empty remaining then msg.recipients else remaining)
    updated_recipients msg [] = refl
    updated_recipients msg (r ∷ rs) = refl

    retry_later_weight :
        (msg : QueueMessage) (now : ℕ) (reason : Bytes) (remaining delivered : List Bytes)
        (bounces : List Bounce)
        → handled_weight (retry_later msg now reason remaining delivered bounces)
          ≡ weigh delivered
            + weigh_bounces bounces
            + weigh (left_of msg (temp_fail reason remaining))
    unfolding retry_later
    retry_later_weight msg now reason remaining delivered bounces =
        let same = updated_recipients msg remaining in
        let bounced = weigh_bounces-append bounces in
        let updated = with_remaining msg remaining in
        if-all
          (λ h.
            handled_weight h
            ≡ weigh delivered
              + weigh_bounces bounces
              + weigh (if is_empty remaining then msg.recipients else remaining))
          (too_old msg now) (given_up updated reason delivered bounces)
          (put_off updated ((msg.retry_count + 1) % 2 ^ 32) (next_attempt_of msg now) delivered
            bounces)
          (λ _.
            unfold handled_weight in
            omega
              (arith, bounced ((updated, codes "Delivery failed after retries: " ++ reason) ∷ [])))
          (λ _. unfold handled_weight in omega arith)

    settle_weight :
        (msg : QueueMessage) (now : ℕ) (attempt : Attempt)
        → Accounted msg attempt
        → weigh msg.recipients ≡ handled_weight (settle msg now attempt)
    unfolding settle Accounted handled_weight
    settle_weight msg now (success, delivered, bounces) h = omega arith
    settle_weight msg now (temp_fail reason remaining, delivered, bounces) h =
        h ∙ sym (retry_later_weight msg now reason remaining delivered bounces)
    settle_weight msg now (perm_fail reason, delivered, bounces) h =
        omega (arith, weigh_bounces-append bounces ((msg, reason) ∷ []))

    -- In each step of the worker, however the network behaves, the recipients of a message are those
    -- delivered to, those bounced and those of the message it keeps: counted for any kind of
    -- recipient, so that none is dropped and none is counted twice.
    pub process_message-accounts :
        (msg : QueueMessage) (now : ℕ) (w : W)
        → let h = (process_message net cfg out msg now w).0 in
          weigh msg.recipients
          ≡ weigh h.delivered + weigh_bounces h.bounces + weigh (recipients_of h.kept)
    unfolding process_message handled_weight
    process_message-accounts msg now w =
        let attempt = settled net cfg out msg now (try_deliver net cfg out msg w) in
        if-all (λ (x : Handled × W). weigh msg.recipients ≡ handled_weight x.0)
          (ltb now msg.next_attempt) (untouched msg, w) _ (λ _. omega arith)
          (λ _.
            if-all (λ (x : Handled × W). weigh msg.recipients ≡ handled_weight x.0)
              (leb max_age_secs (now - msg.created)) (expired msg, w) attempt (λ _. omega arith)
              (λ _. settle_weight msg now _ (try_deliver-Accounted msg w)))
