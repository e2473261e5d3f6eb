-- ===== src/RateLimit/Examples.antt =====
-- The rate limits on the inputs of the source's tests.
use desertemail.Prelude.{
  ℕ, ◌+◌, ◌≡◌, refl, ◌≢◌, true, false, not, some, List, [], ◌∷◌, ◌++◌, arith, ltb, Bytes, codes,
  bytes_eq, bytes_eq_iff, empty, insert, length,
}
use desertemail.RateLimit.{
  AuthTracker, OutboundTracker, default_limits, configure_auth, check_allowed, record_failure,
  record_success, fail_entry, record_outbound,
}
use desertemail.RateLimit.Lockout.{
  Op, check, failure, success, perform, perform_all, lockout-persists,
}
use desertemail.RateLimit.Window.{failures_of, window-locks_out}
use desertemail.RateLimit.Outbound.{used}

abbrev ip : Bytes
ip = codes "198.51.100.1"

abbrev other_ip : Bytes
other_ip = codes "198.51.100.2"

-- three failures in 60 seconds lock out for 100
abbrev tracker : AuthTracker
tracker = record {
  entries = empty;
  limits = record { max_failures = 3; window_secs = 60; lockout_secs = 100 };
}

configure : configure_auth 3 60 100 (record { entries = empty; limits = default_limits }) ≡ tracker
unfolding configure_auth
configure = refl

-- two failures of `ip` at these times
abbrev failures : ℕ → ℕ → List Op
failures a b = failure ip a ∷ failure ip b ∷ []

success_clears :
    (check_allowed ip 2005
      (perform_all (failures 2000 2001 ++ success ip 2002 ∷ failures 2003 2004) tracker)).0
    ≡ true
unfolding check_allowed perform_all perform record_failure record_success fail_entry bytes_eq
success_clears = refl

abbrev first_part : List Op
first_part = failure ip 1000 ∷ check ip 1005 ∷ success other_ip 1007 ∷ []

abbrev second_part : List Op
second_part = failure other_ip 1008 ∷ failure ip 1010 ∷ []

twice : length (failures_of ip (first_part ++ second_part)) + 1 ≡ 3
unfolding bytes_eq
twice = refl

differ : other_ip ≢ ip
unfolding bytes_eq
differ e = cc ((bytes_eq_iff other_ip ip).1 e)

window-locks_out_example :
    ((check_allowed ip 1009 (perform_all first_part tracker)).0 ≡ true)
    × ((check_allowed ip 1119
          (record_failure ip 1020 (perform_all (first_part ++ second_part) tracker))).0
        ≡ not (ltb 1119 1120))
window-locks_out_example =
    window-locks_out ip 1000 first_part second_part 1009 1020 tracker 1119 refl
      (
        (omega arith, omega arith),
        ((omega arith, omega arith), (((omega arith, omega arith), differ), tt)),
      )
      ((omega arith, omega arith), ((omega arith, omega arith), tt)) (omega arith) (omega arith)
      (omega arith) twice (omega arith)

abbrev locked : AuthTracker
locked = record tracker {
  entries = insert ip (record { failures = []; lockout_until = 1120 }) empty;
}

is_locked : (locked.entries ip) ≡ some (record { failures = []; lockout_until = 1120 })
unfolding bytes_eq
is_locked = refl

lockout-persists_example :
    (check_allowed ip 1119
      (perform_all (check ip 1050 ∷ success other_ip 1060 ∷ failure ip 1070 ∷ []) locked)).0
    ≡ false
lockout-persists_example =
    lockout-persists ip 1120 (check ip 1050 ∷ success other_ip 1060 ∷ failure ip 1070 ∷ []) locked
      1119 (omega arith) (omega arith, ((omega arith, differ), ((omega arith, omega arith), tt)))
      (record { failures = []; lockout_until = 1120 }, is_locked, omega arith) (omega arith)

abbrev alice : Bytes
alice = codes "alice"

abbrev unused : OutboundTracker
unused = record { senders = empty; max_rcpts = 1 }

abbrev once : OutboundTracker
once = record_outbound alice 1 5000 unused

over_cap : used alice 5010 (record_outbound alice 1 5010 once) ≡ 2
unfolding record_outbound bytes_eq
over_cap = refl
