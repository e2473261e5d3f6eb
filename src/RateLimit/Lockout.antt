-- ===== src/RateLimit/Lockout.antt =====
-- An address that is locked out stays so, whatever else happens, until its lockout ends.
use desertemail.Prelude.{
  ℕ, ◌+◌, ◌≤◌, ◌<◌, ◌≡◌, ◌≢◌, refl, false, inl, inr, Bool-cases, lt→ltb, List, [], ◌∷◌, some, arith,
  Bytes, bytes_eq, bytes_eq_iff, u64_max,
}
use desertemail.RateLimit.{
  AuthState, AuthTracker, AuthLimits, prune_entry, check_allowed, fail_entry, prune_auth,
  record_failure, record_success,
}

-- The operations on the tracker. A login that succeeds is `success`.
pub data Op : Type 0 where
  check failure success : Bytes → ℕ → Op

abbrev pub time_of : Op → ℕ
time_of (check ip now) = now
time_of (failure ip now) = now
time_of (success ip now) = now

unfoldable pub perform : Op → AuthTracker → AuthTracker
perform (check ip now) t = (check_allowed ip now t).1
perform (failure ip now) t = record_failure ip now t
perform (success ip now) t = record_success ip now t

unfoldable pub perform_all : List Op → AuthTracker → AuthTracker
perform_all [] t = t
perform_all (op ∷ ops) t = perform_all ops (perform op t)

-- `ip` is locked out until `u` at least
abbrev pub IsLocked : Bytes → ℕ → AuthTracker → Type 0
IsLocked ip u t = (st : AuthState) × (t.entries ip ≡ some st) × (u ≤ st.lockout_until)

-- An operation before `u` that does not clear `ip`, and that would lock it out until `u` at least.
abbrev pub Keeps : Bytes → ℕ → ℕ → Op → Type 0
Keeps ip u lockout_secs (check j now) = now < u
Keeps ip u lockout_secs (failure j now) = (now < u) × (u ≤ now + lockout_secs)
Keeps ip u lockout_secs (success j now) = (now < u) × (j ≢ ip)

abbrev pub AllKeep : Bytes → ℕ → ℕ → List Op → Type 0
AllKeep ip u lockout_secs [] = Unit
AllKeep ip u lockout_secs (op ∷ ops) = Keeps ip u lockout_secs op × AllKeep ip u lockout_secs ops

fail_entry-lockout :
    (u now : ℕ) (t : AuthTracker) (st : AuthState)
    → u ≤ u64_max
    → u ≤ now + t.limits.lockout_secs
    → u ≤ st.lockout_until
    → u ≤ (fail_entry now t.limits st).lockout_until
unfolding fail_entry
fail_entry-lockout u now t st m h k = ground arith

pub prune_entry-locked :
    (now : ℕ) (limits : AuthLimits) (st : AuthState)
    → now < st.lockout_until
    → prune_entry now limits st ≡ some st
prune_entry-locked now limits st h = rw (lt→ltb now st.lockout_until h)

prune-locked :
    (ip : Bytes) (u now : ℕ) (t : AuthTracker)
    → now < u
    → IsLocked ip u t
    → (st : AuthState) × (prune_auth t.entries now t.limits ip ≡ some st) × (u ≤ st.lockout_until)
prune-locked ip u now t h (st, e, l) =
    (st, rw e (prune_entry-locked now t.limits st (omega arith)), l)

pub perform-limits : (op : Op) (t : AuthTracker) → (perform op t).limits ≡ t.limits
unfolding perform check_allowed record_failure record_success
perform-limits (check ip now) t = refl
perform-limits (failure ip now) t = refl
perform-limits (success ip now) t = refl

failure-IsLocked :
    (ip j : Bytes) (u now : ℕ) (t : AuthTracker)
    → u ≤ u64_max
    → now < u
    → u ≤ now + t.limits.lockout_secs
    → IsLocked ip u t
    → IsLocked ip u (record_failure j now t)
unfolding record_failure
failure-IsLocked ip j u now t m h k locked =
    let (st, e, l) = prune-locked ip u now t h locked in
    elim (Bool-cases (bytes_eq j ip)) [
      | inl same ↦
          let kept : prune_auth t.entries now t.limits j ≡ some st =
            rw ((bytes_eq_iff j ip).0 same) e in
          (fail_entry now t.limits st, rw (same, kept), fail_entry-lockout u now t st m k l)
      | inr other ↦ (st, rw other e, l)
    ]

perform-IsLocked :
    (ip : Bytes) (u : ℕ) (op : Op) (t : AuthTracker)
    → u ≤ u64_max
    → Keeps ip u t.limits.lockout_secs op
    → IsLocked ip u t
    → IsLocked ip u (perform op t)
unfolding perform check_allowed record_success
perform-IsLocked ip u (check j now) t m k locked = prune-locked ip u now t k locked
perform-IsLocked ip u (failure j now) t m k locked = failure-IsLocked ip j u now t m k.0 k.1 locked
perform-IsLocked ip u (success j now) t m k locked =
    let (st, e, l) = prune-locked ip u now t k.0 locked in
    elim (Bool-cases (bytes_eq j ip)) [
      | inl same ↦ absurd (k.1 ((bytes_eq_iff j ip).0 same))
      | inr other ↦ (st, rw other e, l)
    ]

perform_all-IsLocked :
    (ip : Bytes) (u : ℕ) (ops : List Op) (t : AuthTracker)
    → u ≤ u64_max
    → AllKeep ip u t.limits.lockout_secs ops
    → IsLocked ip u t
    → IsLocked ip u (perform_all ops t)
unfolding perform_all
perform_all-IsLocked ip u [] t m k locked = locked
perform_all-IsLocked ip u (op ∷ ops) t m k locked =
    perform_all-IsLocked ip u ops (perform op t) m (rw (perform-limits op t) (k.1))
      (perform-IsLocked ip u op t m k.0 locked)

-- An address that is locked out until `u` is refused by every check before `u`, after any sequence
-- of checks, failures and successes at times before `u`, in which no success is its own and a
-- failure locks out until `u` or later (which holds of every failure that is not earlier than the
-- one that set `u`).
pub lockout-persists :
    (ip : Bytes) (u : ℕ) (ops : List Op) (t : AuthTracker) (now : ℕ)
    → u ≤ u64_max
    → AllKeep ip u t.limits.lockout_secs ops
    → IsLocked ip u t
    → now < u
    → (check_allowed ip now (perform_all ops t)).0 ≡ false
unfolding check_allowed
lockout-persists ip u ops t now m k locked h =
    let (st, e, l) =
      prune-locked ip u now (perform_all ops t) h (perform_all-IsLocked ip u ops t m k locked) in
    rw e (rw (lt→ltb now st.lockout_until (omega arith)))
