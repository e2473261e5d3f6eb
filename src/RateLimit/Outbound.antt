-- ===== src/RateLimit/Outbound.antt =====
-- src/ratelimit.rs: the hourly cap on the recipients of a sender. `handle_client` of src/smtp.rs checks
-- a recipient and records it under two locks of the tracker, so sessions may interleave between
-- them.
use desertemail.Prelude.{
  ℕ, zero, suc, ◌+◌, ◌-◌, ◌^◌, ◌≤◌, ◌<◌, ◌≡◌, refl, Bool-cases, inl, inr, true, ◌&&◌, List, [], ◌∷◌,
  ◌++◌, arith, leb, if◌then◌else◌, Bytes, empty, bytes_eq, bytes_eq_iff, get_or, length, retain,
  retain-append,
}
use desertemail.RateLimit.{
  Event, OutboundTracker, check_outbound, is_recent, outbound_window, record_outbound, total,
}

-- The recipients of `user` that count at `now`.
abbrev pub used : Bytes → ℕ → OutboundTracker → ℕ
used user now t = total (retain (is_recent now) (get_or (t.senders user) []))

total-append : (xs ys : List Event) → total (xs ++ ys) ≡ total xs + total ys
total-append [] ys = omega arith
total-append (x ∷ xs) ys = omega (arith, total-append xs ys)

retain-retain :
    (now later : ℕ) (es : List Event)
    → now ≤ later
    → retain (is_recent later) (retain (is_recent now) es) ≡ retain (is_recent later) es
retain-retain now later [] h = refl
retain-retain now later (e ∷ es) h = ground (arith, retain-retain now later es h)

-- `record_outbound` adds its recipients to its user's, and to no other's.
pub used-record_outbound :
    (user other : Bytes) (n now later : ℕ) (t : OutboundTracker)
    → n < 2 ^ 32
    → now ≤ later
    → used other later (record_outbound user n now t)
      ≡ used other later t
        + (if bytes_eq user other && leb (later - outbound_window) now then n else 0)
unfolding record_outbound
used-record_outbound user other zero now later t m h = ground arith
used-record_outbound user other (suc n) now later t m h = elim (Bool-cases (bytes_eq user other)) [
  | inl same ↦ rw same (
      rw (← (bytes_eq_iff user other).0 same) (
        rw retain-append (
          rw (retain-retain now later (get_or (t.senders user) []) h)
            (rw total-append (ground arith)))))
  | inr differ ↦ rw differ (ground arith)
]

-- how many sessions of a user are between their check and their record
abbrev pub pending : Bytes → List Bytes → ℕ
pending user waiting = length (retain (λ u. bytes_eq u user) waiting)

-- What sessions do to the tracker, in any interleaving, while the clock does not go back: each takes
-- the lock once to check a recipient and, if it may pass, once more to record it. `waiting` has the
-- user of each session that is between the two. A user has at most `sessions` sessions at a time. A
-- check that refuses changes nothing.
pub data Interleaved (max_rcpts sessions : ℕ) : ℕ → OutboundTracker → List Bytes → Type 0 where
  start :
      {now : ℕ}
      → Interleaved max_rcpts sessions now (record { senders = empty; max_rcpts = max_rcpts }) []
  wait :
      {now later : ℕ} {t : OutboundTracker} {waiting : List Bytes}
      → now ≤ later
      → Interleaved max_rcpts sessions now t waiting
      → Interleaved max_rcpts sessions later t waiting
  passed :
      {now : ℕ} {t : OutboundTracker} {waiting : List Bytes} (user : Bytes)
      → pending user waiting < sessions
      → check_outbound user 1 now t ≡ true
      → Interleaved max_rcpts sessions now t waiting
      → Interleaved max_rcpts sessions now t (user ∷ waiting)
  recorded :
      {now : ℕ} {t : OutboundTracker} (front : List Bytes) (user : Bytes) (back : List Bytes)
      → Interleaved max_rcpts sessions now t (front ++ user ∷ back)
      → Interleaved max_rcpts sessions now (record_outbound user 1 now t) (front ++ back)

-- what holds of every user between the steps
abbrev Bounded : ℕ → ℕ → ℕ → OutboundTracker → List Bytes → Type 0
Bounded max_rcpts sessions now t waiting =
    (t.max_rcpts ≡ max_rcpts)
    × ((user : Bytes)
        → (pending user waiting ≤ sessions)
          × (used user now t + pending user waiting ≤ max_rcpts + (sessions - 1)))
