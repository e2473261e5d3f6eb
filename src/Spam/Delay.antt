-- ===== src/Spam/Delay.antt =====
-- The greylist lets a triplet through after the delay, and not before.
use desertemail.Prelude.{
  ℕ, ◌+◌, ◌-◌, ◌%◌, ◌^◌, ◌≤◌, ◌<◌, max, ◌≡◌, refl, sym, inl, inr, true, false, Option, none, some,
  List, [], ◌∷◌, ◌++◌, arith, ltb, leb, Bool-cases, le→leb, u64_max, All, Bytes, bytes_eq,
  bytes_eq_iff, bytes_eq_refl, Map, decimal, parse_unsigned-decimal, split_whitespace-decimal,
}
use mathlib.Core.Path.{subst}
use desertemail.Spf.{IpAddr}
use desertemail.Spam.Greylist.{
  GreylistDecision, defer, accept, write_greylist_entry, read_greylist_entry, Triplet, judge_entry,
  written, key_of, path_of, greylist_check, greylist_run,
}

read-write :
    (first last_ok : ℕ) (key : Bytes)
    → first ≤ u64_max
    → last_ok ≤ u64_max
    → read_greylist_entry (some (write_greylist_entry first last_ok key)) ≡ some (first, last_ok)
unfolding read_greylist_entry write_greylist_entry
read-write first last_ok key h g =
    rw (split_whitespace-decimal first (decimal last_ok ++ b' ' ∷ (key ++ b'\n' ∷ []))) (
      rw (split_whitespace-decimal last_ok (key ++ b'\n' ∷ [])) (
        rw (parse_unsigned-decimal u64_max first h)
          (rw (parse_unsigned-decimal u64_max last_ok g) refl)))

-- an entry of a triplet first seen at the time `since` or later, and never accepted
IsNew : ℕ → Option (ℕ × ℕ) → Type 0
IsNew since none = Unit {0}
IsNew since (some (first, last_ok)) = (since ≤ first) × (first ≤ u64_max) × (last_ok ≡ 0)

Waits : ℕ → GreylistDecision × Option (ℕ × ℕ) → Type 0
Waits since (decision, entry) = (decision ≡ defer) × IsNew since entry

judge_entry-Waits :
    (delay ttl since now : ℕ) (entry : Option (ℕ × ℕ))
    → since ≤ now
    → now < since + delay
    → now ≤ u64_max
    → IsNew since entry
    → Waits since (judge_entry delay ttl now entry)
unfolding judge_entry Waits IsNew
judge_entry-Waits delay ttl since now none h g top new = (refl, (h, top, refl))
judge_entry-Waits delay ttl since now (some (first, last_ok)) h g top (later, fits, never) =
    let young : ltb (now - first) delay ≡ true = ground arith in rw never (rw young (refl, tt))

Waits-IsNew :
    (since : ℕ) (judged : GreylistDecision × Option (ℕ × ℕ))
    → Waits since judged
    → IsNew since judged.1
unfolding Waits
Waits-IsNew since (decision, entry) w = w.1

Waits-defer :
    (since : ℕ) (judged : GreylistDecision × Option (ℕ × ℕ)) → Waits since judged → judged.0 ≡ defer
unfolding Waits
Waits-defer since (decision, entry) w = w.0

-- what a file holds after it is written
written-IsNew :
    (since : ℕ) (path key : Bytes) (entry : Option (ℕ × ℕ)) (files : Map Bytes)
    → IsNew since entry
    → IsNew since (read_greylist_entry (files path))
    → IsNew since (read_greylist_entry (written path key entry files path))
unfolding IsNew
written-IsNew since path key none files new old = old
written-IsNew since path key (some (first, last_ok)) files (later, fits, never) old =
    rw (bytes_eq_refl path) (
      let small : last_ok ≤ u64_max = omega arith in
      subst (IsNew since) (sym (read-write first last_ok key fits small)) (later, fits, never))

written_elsewhere :
    (path path1 key : Bytes) (entry : Option (ℕ × ℕ)) (files : Map Bytes)
    → bytes_eq path1 path ≡ false
    → written path1 key entry files path ≡ files path
written_elsewhere path path1 key none files e = refl
written_elsewhere path path1 key (some (first, last_ok)) files e = rw e refl

judge_entry_later :
    (delay ttl first now : ℕ)
    → max ttl delay + 86400 ≤ 2 ^ 64 - 1
    → first + delay ≤ now
    → now ≤ first + (max ttl delay + 86400)
    → (judge_entry delay ttl now (some (first, 0))).0 ≡ accept
unfolding judge_entry
judge_entry_later delay ttl first now room after before =
    let whole : (max ttl delay + 86400) % 2 ^ 64 ≡ max ttl delay + 86400 = omega arith in
    let waited : ltb (now - first) delay ≡ false = ground arith in
    let timely : leb (now - first) (max ttl delay + 86400) ≡ true = le→leb _ _ (omega arith) in
    rw waited (rw whole (rw timely refl))

module _ (parse_ip : Bytes → Option IpAddr) (sha256 : Bytes → Bytes) where
  check-IsNew :
      (delay ttl since now : ℕ) (path : Bytes) (t : Triplet) (files : Map Bytes)
      → since ≤ now
      → now < since + delay
      → since + delay ≤ u64_max
      → IsNew since (read_greylist_entry (files path))
      → IsNew since
          (read_greylist_entry ((greylist_check parse_ip sha256 t delay ttl now files).1 path))
  unfolding greylist_check
  check-IsNew delay ttl since now path t files h g top new =
      let here = path_of parse_ip sha256 t in
      let judged = judge_entry delay ttl now (read_greylist_entry (files here)) in
      let key = key_of parse_ip sha256 t in
      elim (Bool-cases (bytes_eq here path)) [
        | inl e ↦
            (let same : here ≡ path = (bytes_eq_iff here path).0 e in
              let new1 : IsNew since (read_greylist_entry (files here)) =
                subst (λ x. IsNew since (read_greylist_entry (files x))) (sym same) new in
              let waits : Waits since judged =
                judge_entry-Waits delay ttl since now _ h g (omega arith) new1 in
              subst (λ x. IsNew since (read_greylist_entry (written here key judged.1 files x)))
                same
                (written-IsNew since here key judged.1 files (Waits-IsNew since judged waits) new1))
        | inr e ↦
            subst (λ x. IsNew since (read_greylist_entry x))
              (sym (written_elsewhere path here key judged.1 files e)) new
      ]

  run-IsNew :
      (delay ttl since : ℕ) (path : Bytes) (tries : List (Triplet × ℕ)) (files : Map Bytes)
      → since + delay ≤ u64_max
      → All (λ e. (since ≤ e.1) × (e.1 < since + delay)) tries
      → IsNew since (read_greylist_entry (files path))
      → IsNew since
          (read_greylist_entry ((greylist_run parse_ip sha256 delay ttl tries files).1 path))
  unfolding greylist_run
  run-IsNew delay ttl since path [] files top h new = new
  run-IsNew delay ttl since path ((t, now) ∷ tries) files top (within, h) new =
      run-IsNew delay ttl since path tries (greylist_check parse_ip sha256 t delay ttl now files).1
        top h (check-IsNew delay ttl since now path t files within.0 within.1 top new)

  -- A triplet without a file is put off for the whole delay: whatever attempts, of it and of others,
  -- come within the delay from a time on, one more attempt of it in that time is put off too.
  pub greylist_check-defers :
      (delay ttl since now : ℕ) (t : Triplet) (tries : List (Triplet × ℕ)) (files : Map Bytes)
      → files (path_of parse_ip sha256 t) ≡ none
      → since + delay ≤ u64_max
      → All (λ e. (since ≤ e.1) × (e.1 < since + delay)) tries
      → since ≤ now
      → now < since + delay
      → (greylist_check parse_ip sha256 t delay ttl now
          (greylist_run parse_ip sha256 delay ttl tries files).1).0
        ≡ defer
  unfolding greylist_check
  greylist_check-defers delay ttl since now t tries files absent top h after before =
      let path = path_of parse_ip sha256 t in
      let start : IsNew since (read_greylist_entry (files path)) =
        rw absent (unfold read_greylist_entry IsNew in tt) in
      let new = run-IsNew delay ttl since path tries files top h start in
      Waits-defer since _ (judge_entry-Waits delay ttl since now _ after before (omega arith) new)

  -- A triplet without a file is put off at its first attempt and let through at a second one, if that
  -- comes after the delay and no later than a day after the longer of the delay and the lifetime.
  pub greylist_check-accepts :
      (delay ttl first now : ℕ) (t : Triplet) (files : Map Bytes)
      → files (path_of parse_ip sha256 t) ≡ none
      → max ttl delay + 86400 ≤ u64_max
      → first ≤ u64_max
      → first + delay ≤ now
      → now ≤ first + (max ttl delay + 86400)
      → let seen = greylist_check parse_ip sha256 t delay ttl first files in
        (seen.0 ≡ defer) × ((greylist_check parse_ip sha256 t delay ttl now seen.1).0 ≡ accept)
  unfolding greylist_check
  greylist_check-accepts delay ttl first now t files absent room fits after before =
      let path = path_of parse_ip sha256 t in
      let blank : read_greylist_entry (files path) ≡ none =
        rw absent (unfold read_greylist_entry in refl) in
      let room1 : max ttl delay + 86400 ≤ 2 ^ 64 - 1 = room in
      (
        rw blank (unfold judge_entry in refl),
        rw blank (second_sight path (judge_entry_later delay ttl first now room1 after before)),
      )
    where
      second_sight :
          (path : Bytes)
          → (judge_entry delay ttl now (some (first, 0))).0 ≡ accept
          → (judge_entry delay ttl now (
              read_greylist_entry (
                written path
                  (key_of parse_ip sha256 t)
                  (judge_entry delay ttl first none).1
                  files
                  path))).0
            ≡ accept
      second_sight path h =
          rw (bytes_eq_refl path)
            (rw (read-write first 0 (key_of parse_ip sha256 t) fits (omega arith)) h)
