-- ===== src/Queue/Attempt.antt =====
-- src/queue.rs: an attempt for a whole message, by a smarthost or domain by domain, with the bounces on
-- the way.
use desertemail.Prelude.{
  Bool, true, false, not, ◌&&◌, Option, none, some, List, [], ◌∷◌, ◌++◌, if◌then◌else◌, is_empty,
  Bytes, codes, bytes_eq,
}
use desertemail.Accounts.{Config, parse_email_addr}
use desertemail.Queue.File.{QueueMessage}
use desertemail.Queue.Deliver.{
  DeliverResult, success, temp_fail, perm_fail, Bounce, Outbound, Network, dkim_raw_for_send,
  helo_name, deliver_to_domain, deliver_via_smarthost,
}

-- `by_domain`, with the recipients that have no domain
abbrev pub Groups : Type 0
Groups = List (Bytes × List Bytes)

unfoldable pub add_recipient : Bytes → Bytes → Groups → Groups
add_recipient domain r [] = (domain, r ∷ []) ∷ []
add_recipient domain r ((d, rs) ∷ groups) =
    let later = add_recipient domain r groups in
    if bytes_eq d domain then (d, rs ++ r ∷ []) ∷ groups else (d, rs) ∷ later

-- The variables of `try_deliver`. `delivered` is not one of the source's: it has the recipients of the
-- sessions that succeeded.
pub record Tally : Type 0 where
  pub remaining : List Bytes
  pub last_temp : Bytes
  pub perm_failed : List Bytes
  pub perm_reason : Bytes
  pub any_ok : Bool
  pub delivered : List Bytes

-- a recipient without a domain
abbrev pub refuse_recipient : Bytes → Tally → Tally
refuse_recipient r t = record t {
  perm_failed = t.perm_failed ++ r ∷ [];
  perm_reason = codes "invalid recipient " ++ r;
}

unfoldable pub group_by_domain : List Bytes → Groups → Tally → Groups × Tally
unfolding add_recipient
group_by_domain [] groups t = (groups, t)
group_by_domain (r ∷ rs) groups t =
    let domain = (parse_email_addr r).1 in
    let skipped = group_by_domain rs groups (refuse_recipient r t) in
    let grouped = group_by_domain rs (add_recipient domain r groups) t in
    if is_empty domain then skipped else grouped

unfoldable pub count_result : List Bytes → DeliverResult → Tally → Tally
count_result rcpts success t = record t { any_ok = true; delivered = t.delivered ++ rcpts }
count_result rcpts (temp_fail reason left) t = record t {
  remaining = t.remaining ++ rcpts;
  last_temp = reason;
}
count_result rcpts (perm_fail r) t = record t {
  perm_failed = t.perm_failed ++ rcpts;
  perm_reason = r;
}

abbrev pub fresh : Tally
fresh = record {
  remaining = [];
  last_temp = [];
  perm_failed = [];
  perm_reason = [];
  any_ok = false;
  delivered = [];
}

-- the result, the recipients delivered to, and the bounces on the way
abbrev pub Attempt : Type 0
Attempt = DeliverResult × List Bytes × List Bounce

abbrev some_reason : Bytes → Bytes
some_reason reason = if is_empty reason then codes "temporary failure" else reason

unfoldable pub conclude : QueueMessage → Tally → Attempt
conclude msg t =
    let bounces =
      if is_empty t.perm_failed
      then []
      else (record msg { recipients = t.perm_failed }, t.perm_reason) ∷ [] in
    if not (is_empty t.perm_failed) && (is_empty t.remaining && not t.any_ok)
    then (perm_fail t.perm_reason, t.delivered, [])
    else if is_empty t.remaining
    then (success, t.delivered, bounces)
    else (temp_fail (some_reason t.last_temp) t.remaining, t.delivered, bounces)

module _ {W Addr : Type 0} (net : Network W Addr) (cfg : Config) (out : Outbound) where
  unfoldable pub deliver_groups : QueueMessage → Bytes → Groups → Tally → W → Tally × W
  unfolding count_result
  deliver_groups msg raw [] t w = (t, w)
  deliver_groups msg raw ((domain, rcpts) ∷ groups) t w =
      let (result, w1) = deliver_to_domain net msg.sender rcpts raw domain (helo_name cfg) w in
      deliver_groups msg raw groups (count_result rcpts result t) w1

  abbrev pub direct : QueueMessage → Bytes → Groups × Tally → W → Attempt × W
  direct msg raw (groups, t) w =
      let (t1, w1) = deliver_groups msg raw groups t w in (conclude msg t1, w1)

  abbrev pub by_smarthost : QueueMessage → DeliverResult × W → Attempt × W
  by_smarthost msg (success, w) = ((success, msg.recipients, []), w)
  by_smarthost msg (temp_fail reason left, w) = ((temp_fail reason left, [], []), w)
  by_smarthost msg (perm_fail reason, w) = ((perm_fail reason, [], []), w)

  -- one session for a smarthost, or one for each domain
  abbrev pub route : Option Bytes → QueueMessage → Bytes → W → Attempt × W
  route (some smarthost) msg raw w =
      by_smarthost msg (deliver_via_smarthost net cfg out msg raw smarthost w)
  route none msg raw w = direct msg raw (group_by_domain msg.recipients [] fresh) w

  unfoldable pub try_deliver : QueueMessage → W → Attempt × W
  unfolding group_by_domain
  try_deliver msg w =
      let raw = dkim_raw_for_send cfg out msg in
      if is_empty msg.recipients
      then ((perm_fail (codes "no recipients"), [], []), w)
      else route out.smarthost msg raw w
