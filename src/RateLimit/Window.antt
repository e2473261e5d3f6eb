-- ===== src/RateLimit/Window.antt =====
-- Failures inside one window lock an address out, at the configured number and not before.
use desertemail.Prelude.{
  ℕ, ◌+◌, ◌-◌, ◌^◌, ◌≤◌, ◌<◌, ◌≡◌, ◌≢◌, ◌∙◌, refl, sym, ap, inl, inr, true, not, List, [], ◌∷◌,
  ◌++◌, Option, none, some, arith, lt→ltb, ltb, leb, if◌then◌else◌, Bool-cases, Bytes, bytes_eq,
  bytes_eq_iff, bytes_eq_refl, length, length-append, retain, retain-All, All, All-append,
  filter_value, saturating_add, get_or, u64_max, le→leb,
}
use mathlib.Core.List.{append_assoc, append-nil}
use desertemail.RateLimit.{
  AuthState, AuthLimits, AuthTracker, check_allowed, fail_entry, fresh_entry, is_allowed,
  prune_entry, record_failure, record_success,
}
use desertemail.RateLimit.Lockout.{
  Op, check, failure, success, perform, perform_all, perform-limits,
}

-- the times of a window that begins at `lo`
abbrev pub Within : ℕ → ℕ → ℕ → Type 0
Within lo window_secs x = (lo ≤ x) × (x ≤ lo + window_secs)

-- an operation of any address in the window, but no login of `ip` that succeeds
abbrev pub InWindow : Bytes → ℕ → ℕ → Op → Type 0
InWindow ip lo window_secs (check j now) = Within lo window_secs now
InWindow ip lo window_secs (failure j now) = Within lo window_secs now
InWindow ip lo window_secs (success j now) = Within lo window_secs now × (j ≢ ip)

-- the times of the failures of `ip`
abbrev pub failures_of : Bytes → List Op → List ℕ
failures_of ip [] = []
failures_of ip (check j now ∷ ops) = failures_of ip ops
failures_of ip (failure j now ∷ ops) =
    let rest = failures_of ip ops in if bytes_eq j ip then now ∷ rest else rest
failures_of ip (success j now ∷ ops) = failures_of ip ops

failures_of-append :
    (ip : Bytes) (xs ys : List Op)
    → failures_of ip (xs ++ ys) ≡ failures_of ip xs ++ failures_of ip ys
failures_of-append ip [] ys = refl
failures_of-append ip (check j now ∷ xs) ys = failures_of-append ip xs ys
failures_of-append ip (failure j now ∷ xs) ys = elim (Bool-cases (bytes_eq j ip)) [
  | inl same ↦ rw same (ap (◌∷◌ now) (failures_of-append ip xs ys))
  | inr other ↦ rw other (failures_of-append ip xs ys)
]
failures_of-append ip (success j now ∷ xs) ys = failures_of-append ip xs ys

failures_of-Within :
    (ip : Bytes) (lo window_secs : ℕ) (op : Op)
    → InWindow ip lo window_secs op
    → All (Within lo window_secs) (failures_of ip (op ∷ []))
failures_of-Within ip lo window_secs (check j now) w = tt
failures_of-Within ip lo window_secs (failure j now) w = elim (Bool-cases (bytes_eq j ip)) [
  | inl same ↦ rw same (w, tt)
  | inr other ↦ rw other tt
]
failures_of-Within ip lo window_secs (success j now) w = tt

All-recent :
    (lo window_secs now : ℕ) (xs : List ℕ)
    → Within lo window_secs now
    → All (Within lo window_secs) xs
    → All (λ x. leb (now - window_secs) x ≡ true) xs
All-recent lo w now [] h all = tt
All-recent lo w now (x ∷ xs) h all =
    (le→leb (now - w) x (omega arith), All-recent lo w now xs h all.1)

-- `ip` has these failures, and none of them is out of the window. No entry is no failure.
abbrev HasFailures : Bytes → List ℕ → AuthTracker → Type 0
HasFailures ip fs t =
    (get_or (t.entries ip) fresh_entry) ≡ (record { failures = fs; lockout_until = 0 })

abbrev failing : List ℕ → AuthState
failing fs = record { failures = fs; lockout_until = 0 }

prune_entry-failing :
    (now : ℕ) (limits : AuthLimits) (fs : List ℕ) (o : Option AuthState)
    → retain (λ t. leb (now - limits.window_secs) t) fs ≡ fs
    → get_or o fresh_entry ≡ failing fs
    → get_or (filter_value (prune_entry now limits) o) fresh_entry ≡ failing fs
prune_entry-failing now limits fs none r h = h
prune_entry-failing now limits [] (some st) r h = rw h (ground arith)
prune_entry-failing now limits (f ∷ fs) (some st) r h = rw h (rw r (ground arith))

is_allowed-failing :
    (now : ℕ) (fs : List ℕ) (o : Option AuthState)
    → get_or o fresh_entry ≡ failing fs
    → is_allowed now o ≡ true
is_allowed-failing now fs none h = refl
is_allowed-failing now fs (some st) h = rw h (ground arith)

is_allowed_locked :
    (later u : ℕ) (limits : AuthLimits)
    → is_allowed later (prune_entry later limits (record { failures = []; lockout_until = u }))
      ≡ not (ltb later u)
is_allowed_locked later u limits = ground arith

module _ (ip : Bytes) (lo : ℕ) where
  fail-HasFailures :
      (fs : List ℕ) (now : ℕ) (t : AuthTracker)
      → All (Within lo t.limits.window_secs) fs
      → Within lo t.limits.window_secs now
      → HasFailures ip fs t
      → (record_failure ip now t).entries ip ≡ some (fail_entry now t.limits (failing fs))
  unfolding record_failure
  fail-HasFailures fs now t all w h = rw bytes_eq_refl (
      rw
        (prune_entry-failing now t.limits fs (t.entries ip)
          (retain-All _ fs (All-recent lo t.limits.window_secs now fs w all)) h)
        refl)

  fail_entry-failing :
      (fs : List ℕ) (now : ℕ) (limits : AuthLimits)
      → All (Within lo limits.window_secs) fs
      → Within lo limits.window_secs now
      → limits.max_failures < 2 ^ 32
      → length fs + 1 ≤ limits.max_failures
      → fail_entry now limits (failing fs) ≡ (
          if ltb (length fs + 1) limits.max_failures
          then failing (fs ++ now ∷ [])
          else record { failures = []; lockout_until = saturating_add now limits.lockout_secs })
  unfolding fail_entry
  fail_entry-failing fs now limits all w m l =
      rw (retain-All _ fs (All-recent lo limits.window_secs now fs w all))
        (ground (arith, length-append fs (now ∷ [])))

  -- what an operation in the window that is no success of `ip` makes of its failures
  perform-HasFailures :
      (fs : List ℕ) (op : Op) (t : AuthTracker)
      → All (Within lo t.limits.window_secs) fs
      → InWindow ip lo t.limits.window_secs op
      → t.limits.max_failures < 2 ^ 32
      → length (fs ++ failures_of ip (op ∷ [])) < t.limits.max_failures
      → HasFailures ip fs t
      → HasFailures ip (fs ++ failures_of ip (op ∷ [])) (perform op t)
  unfolding perform check_allowed record_failure record_success
  perform-HasFailures fs (check j now) t all w m l h =
      let recent = retain-All _ fs (All-recent lo t.limits.window_secs now fs w all) in
      rw append-nil (prune_entry-failing now t.limits fs (t.entries ip) recent h)
  perform-HasFailures fs (failure j now) t all w m l h = elim (Bool-cases (bytes_eq j ip)) [
    | inl same ↦
        let own = (bytes_eq_iff j ip).0 same in
        let counted = rw same at l in
        let grown = length-append fs (now ∷ []) in
        rw (same, own)
          (rw
            (prune_entry-failing now t.limits fs (t.entries ip)
              (retain-All _ fs (All-recent lo t.limits.window_secs now fs w all)) h)
            (fail_entry-failing fs now t.limits all w m (omega arith)
              ∙ (rw (lt→ltb (length fs + 1) t.limits.max_failures (omega arith)) refl)))
    | inr other ↦
        let recent = retain-All _ fs (All-recent lo t.limits.window_secs now fs w all) in
        rw (other, append-nil) (prune_entry-failing now t.limits fs (t.entries ip) recent h)
  ]
  perform-HasFailures fs (success j now) t all w m l h = elim (Bool-cases (bytes_eq j ip)) [
    | inl same ↦ absurd (w.1 ((bytes_eq_iff j ip).0 same))
    | inr other ↦
        let recent = retain-All _ fs (All-recent lo t.limits.window_secs now fs w.0 all) in
        rw (other, append-nil) (prune_entry-failing now t.limits fs (t.entries ip) recent h)
  ]

  -- below the limit, every failure is kept and nothing is locked out
  perform_all-HasFailures :
      (fs : List ℕ) (ops : List Op) (t : AuthTracker)
      → All (Within lo t.limits.window_secs) fs
      → All (InWindow ip lo t.limits.window_secs) ops
      → t.limits.max_failures < 2 ^ 32
      → length (fs ++ failures_of ip ops) < t.limits.max_failures
      → HasFailures ip fs t
      → HasFailures ip (fs ++ failures_of ip ops) (perform_all ops t)
        × ((perform_all ops t).limits ≡ t.limits)
        × All (Within lo t.limits.window_secs) (fs ++ failures_of ip ops)
  unfolding perform_all
  perform_all-HasFailures fs [] t all w m l h = rw append-nil (h, refl, all)
  perform_all-HasFailures fs (op ∷ ops) t all w m l h =
      let one = failures_of ip (op ∷ []) in
      let split =
        append_assoc fs one (failures_of ip ops)
        ∙ ap (λ xs. fs ++ xs) (sym (failures_of-append ip (op ∷ []) ops)) in
      let long : length ((fs ++ one) ++ failures_of ip ops) < t.limits.max_failures = rw split l in
      let sized = length-append (fs ++ one) (failures_of ip ops) in
      let kept = perform-HasFailures fs op t all w.0 m (omega arith) h in
      let same = perform-limits op t in
      let grown =
        All-append (Within lo t.limits.window_secs) fs one all
          (failures_of-Within ip lo t.limits.window_secs op w.0) in
      let (a, b, c) =
        perform_all-HasFailures (fs ++ one) ops (perform op t) (rw same grown) (rw same (w.1))
          (rw same m) (rw same long) kept in
      (rw (← split) a, b ∙ same, rw (← split) (rw same at c))

  -- with these failures a check is passed
  failing-passes :
      (fs : List ℕ) (at : ℕ) (t : AuthTracker)
      → All (Within lo t.limits.window_secs) fs
      → Within lo t.limits.window_secs at
      → HasFailures ip fs t
      → (check_allowed ip at t).0 ≡ true
  unfolding check_allowed
  failing-passes fs at t all w h =
      let recent = retain-All _ fs (All-recent lo t.limits.window_secs at fs w all) in
      is_allowed-failing at fs _ (prune_entry-failing at t.limits fs (t.entries ip) recent h)

  -- and one more locks out, if they are as many as the limit then
  failing-locks_out :
      (fs : List ℕ) (now : ℕ) (t : AuthTracker) (later : ℕ)
      → All (Within lo t.limits.window_secs) fs
      → Within lo t.limits.window_secs now
      → t.limits.max_failures < 2 ^ 32
      → length fs + 1 ≡ t.limits.max_failures
      → now + t.limits.lockout_secs ≤ u64_max
      → HasFailures ip fs t
      → (check_allowed ip later (record_failure ip now t)).0
        ≡ not (ltb later (now + t.limits.lockout_secs))
  unfolding check_allowed
  failing-locks_out fs now t later all w m l u h =
      let locked : (if ltb (length fs + 1) t.limits.max_failures
            then failing (fs ++ now ∷ [])
            else record { failures = []; lockout_until = saturating_add now t.limits.lockout_secs })
          ≡ record { failures = []; lockout_until = now + t.limits.lockout_secs } =
        ground (arith, l) in
      rw (fail-HasFailures fs now t all w h) (
        rw (fail_entry-failing fs now t.limits all w m (omega arith) ∙ locked)
          (is_allowed_locked later (now + t.limits.lockout_secs) (record_failure ip now t).limits))

  -- An address without an entry, and operations `xs` and then `ys` of any addresses in one window, in
  -- which no login of its own succeeds and it fails once less than the limit: behind any first part
  -- `xs` of them a check of the address in the window is passed, so that every check before the last
  -- failure is; and after one more failure in the window it is refused exactly until the lockout has
  -- run out.
  pub window-locks_out :
      (xs ys : List Op) (at now : ℕ) (t : AuthTracker) (later : ℕ)
      → t.entries ip ≡ none
      → All (InWindow ip lo t.limits.window_secs) xs
      → All (InWindow ip lo t.limits.window_secs) ys
      → Within lo t.limits.window_secs at
      → Within lo t.limits.window_secs now
      → t.limits.max_failures < 2 ^ 32
      → length (failures_of ip (xs ++ ys)) + 1 ≡ t.limits.max_failures
      → now + t.limits.lockout_secs ≤ u64_max
      → ((check_allowed ip at (perform_all xs t)).0 ≡ true)
        × ((check_allowed ip later (record_failure ip now (perform_all (xs ++ ys) t))).0
            ≡ not (ltb later (now + t.limits.lockout_secs)))
  window-locks_out xs ys at now t later e wx wy wa wn m l u =
      let parts =
        ap length (failures_of-append ip xs ys)
        ∙ length-append (failures_of ip xs) (failures_of ip ys) in
      let fresh : HasFailures ip [] t = rw e refl in
      let (hx, same_x, in_x) = perform_all-HasFailures [] xs t tt wx m (omega arith) fresh in
      let (h, same, inside) =
        perform_all-HasFailures [] (xs ++ ys) t tt (All-append _ xs ys wx wy) m (omega arith)
          fresh in
      (
        failing-passes (failures_of ip xs) at (perform_all xs t) (rw same_x in_x) (rw same_x wa) hx,
        failing-locks_out (failures_of ip (xs ++ ys)) now (perform_all (xs ++ ys) t) later
              (rw same inside) (rw same wn) (rw same m) (rw same l) (rw same u) h
            ∙ ap (λ (limits : AuthLimits). not (ltb later (now + limits.lockout_secs))) same,
      )
