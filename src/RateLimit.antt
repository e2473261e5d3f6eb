-- ===== src/RateLimit.antt =====
-- src/ratelimit.rs: the lockout of an address after failed logins, and the hourly cap on the
-- recipients of an authenticated sender. A mutex guards each map, so an operation is one step from
-- a state to the next; a poisoned mutex does not arise, since no holder of a lock panics. The
-- clock is the argument `now`, as in the source's `_at` variants.
pub mod Lockout
pub mod Window
pub mod Outbound
mod Examples
use desertemail.Prelude.{
  ℕ, zero, suc, ◌+◌, ◌-◌, ◌%◌, ◌^◌, max, Bool, true, false, ◌||◌, not, List, [], ◌∷◌, ◌++◌, Option,
  none, some, ltb, leb, if◌then◌else◌, Bytes, Map, insert, remove, retain_values, filter_value,
  get_or, retain, length, is_empty, saturating_add,
}

pub record AuthState : Type 0 where
  pub failures : List ℕ
  pub lockout_until : ℕ

pub record AuthLimits : Type 0 where
  pub max_failures : ℕ
  pub window_secs : ℕ
  pub lockout_secs : ℕ

abbrev pub default_limits : AuthLimits
default_limits = record { max_failures = 10; window_secs = 300; lockout_secs = 900 }

pub record AuthTracker : Type 0 where
  pub entries : Map AuthState
  pub limits : AuthLimits

unfoldable pub configure_auth : ℕ → ℕ → ℕ → AuthTracker → AuthTracker
configure_auth max_failures window_secs lockout_secs t = record t {
  limits = record {
    max_failures = max max_failures 1;
    window_secs = max window_secs 1;
    lockout_secs = max lockout_secs 1;
  };
}

-- the closure of `prune_auth`'s `retain`
abbrev pub prune_entry : ℕ → AuthLimits → AuthState → Option AuthState
prune_entry now limits st =
    let recent = retain (λ t. leb (now - limits.window_secs) t) st.failures in
    if ltb now st.lockout_until
    then some st
    else if not (is_empty recent) || ltb now st.lockout_until
    then some (record st { failures = recent })
    else none

abbrev pub prune_auth : Map AuthState → ℕ → AuthLimits → Map AuthState
prune_auth entries now limits = retain_values (prune_entry now limits) entries

abbrev pub is_allowed : ℕ → Option AuthState → Bool
is_allowed now none = true
is_allowed now (some st) = if ltb now st.lockout_until then false else true

-- The state comes back too, since a check prunes.
unfoldable pub check_allowed : Bytes → ℕ → AuthTracker → Bool × AuthTracker
check_allowed ip now t =
    let entries = prune_auth t.entries now t.limits in
    (is_allowed now (entries ip), record t { entries = entries })

-- what `record_failure_with` does to the entry of the address
unfoldable pub fail_entry : ℕ → AuthLimits → AuthState → AuthState
fail_entry now limits st =
    let failures = retain (λ t. leb (now - limits.window_secs) t) st.failures ++ now ∷ [] in
    if leb limits.max_failures (length failures % 2 ^ 32)
    then record { failures = []; lockout_until = saturating_add now limits.lockout_secs }
    else record st { failures = failures }

abbrev pub fresh_entry : AuthState
fresh_entry = record { failures = []; lockout_until = 0 }

unfoldable pub record_failure : Bytes → ℕ → AuthTracker → AuthTracker
record_failure ip now t =
    let entries = prune_auth t.entries now t.limits in
    record t {
      entries = insert ip (fail_entry now t.limits (get_or (entries ip) fresh_entry)) entries;
    }

unfoldable pub record_success : Bytes → ℕ → AuthTracker → AuthTracker
record_success ip now t = record t { entries = remove ip (prune_auth t.entries now t.limits) }

-- The outbound throttle. An event is a time and a number of recipients.
abbrev pub Event : Type 0
Event = ℕ × ℕ

pub record OutboundTracker : Type 0 where
  pub senders : Map (List Event)
  pub max_rcpts : ℕ

abbrev pub outbound_window : ℕ
outbound_window = 3600

unfoldable pub configure_outbound : ℕ → OutboundTracker → OutboundTracker
configure_outbound max_rcpts_per_hour t = record t { max_rcpts = max max_rcpts_per_hour 1 }

abbrev pub is_recent : ℕ → Event → Bool
is_recent now e = leb (now - outbound_window) e.0

abbrev pub total : List Event → ℕ
total [] = 0
total (e ∷ es) = e.1 + total es

-- The sum is taken in a u64 that it cannot fill: each of its terms is below 2 ^ 32.
unfoldable pub check_outbound : Bytes → ℕ → ℕ → OutboundTracker → Bool
check_outbound user n_rcpts now t =
    leb (saturating_add (total (retain (is_recent now) (get_or (t.senders user) []))) n_rcpts)
      t.max_rcpts

unfoldable pub record_outbound : Bytes → ℕ → ℕ → OutboundTracker → OutboundTracker
record_outbound user zero now t = t
record_outbound user (suc n) now t = record t {
  senders =
      insert user
        (retain (is_recent now) (get_or (t.senders user) []) ++ (now, suc n % 2 ^ 32) ∷ [])
        t.senders;
}
