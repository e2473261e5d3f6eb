-- ===== src/Limits/Slots.antt =====
-- Threads that acquire and release slots in any interleaving: the counters are those of the guards
-- in existence, and no limit is passed.
use desertemail.Prelude.{
  ℕ, ◌+◌, ◌-◌, ◌≤◌, ◌<◌, max, ◌≡◌, refl, inl, inr, true, false, ◌&&◌, Option, none, some, List, [],
  ◌∷◌, arith, ltb, ◌==◌, if◌then◌else◌, Bool-cases, length, Bytes, bytes_eq, bytes_eq_iff,
}
use desertemail.Limits.{ConnLimiter, new, try_acquire, release_global, release_entry}

abbrev pub count : Bytes → List Bytes → ℕ
count ip [] = 0
count ip (g ∷ gs) = (if bytes_eq g ip then 1 else 0) + count ip gs

-- The list without its first `ip`.
abbrev pub drop_guard : Bytes → List Bytes → List Bytes
drop_guard ip [] = []
drop_guard ip (g ∷ gs) = let rest = drop_guard ip gs in if bytes_eq g ip then gs else g ∷ rest

-- The limiter, the addresses of the guards held, and those of the guards whose release is between
-- its two steps.
pub record World : Type 0 where
  pub limiter : ConnLimiter
  pub held : List Bytes
  pub leaving : List Bytes

pub data Step : World → World → Type 0 where
  acquire :
      (ip : Bytes) (w : World)
      → (try_acquire ip w.limiter).0 ≡ true
      → Step w (record w { limiter = (try_acquire ip w.limiter).1; held = ip ∷ w.held })
  refuse :
      (ip : Bytes) (w : World)
      → (try_acquire ip w.limiter).0 ≡ false
      → Step w (record w { limiter = (try_acquire ip w.limiter).1 })
  begin_release :
      (ip : Bytes) (w : World)
      → 0 < count ip w.held
      → Step w (record {
        limiter = release_global w.limiter;
        held = drop_guard ip w.held;
        leaving = ip ∷ w.leaving;
      })
  end_release :
      (ip : Bytes) (w : World)
      → 0 < count ip w.leaving
      → Step w
          (record w { limiter = release_entry ip w.limiter; leaving = drop_guard ip w.leaving })

pub data Reach (w : World) : World → Type 0 where
  here : Reach w w
  next : {v u : World} → Reach w v → Step v u → Reach w u

-- what the map holds for so many guards: nothing for none of them
abbrev pub entry : ℕ → Option ℕ
entry n = if n == 0 then none else some n

-- The limits `g` and `p` are kept too, for the initial limiter has them.
pub record IsCounted (g p : ℕ) (w : World) : Type 0 where
  pub in_all : w.limiter.global ≡ length w.held
  pub each : (ip : Bytes) → w.limiter.per_ip ip ≡ entry (count ip w.held + count ip w.leaving)
  pub global_limit : w.limiter.max_global ≡ g
  pub ip_limit : w.limiter.max_per_ip ≡ p
  pub global_fits : length w.held ≤ g
  pub ip_fits : (ip : Bytes) → count ip w.held + count ip w.leaving ≤ p

length-drop_guard :
    (ip : Bytes) (gs : List Bytes) → 0 < count ip gs → length (drop_guard ip gs) + 1 ≡ length gs
length-drop_guard ip [] h = absurd (omega arith)
length-drop_guard ip (g ∷ gs) h = ground (arith, length-drop_guard ip gs)

count-drop_guard :
    (ip j : Bytes) (gs : List Bytes)
    → count j (drop_guard ip gs) ≡ (if bytes_eq ip j then count j gs - 1 else count j gs)
count-drop_guard ip j [] = ground arith
count-drop_guard ip j (g ∷ gs) = elim (Bool-cases (bytes_eq g ip)) [
  | inl same ↦ rw same (rw ((bytes_eq_iff g ip).0 same) (ground arith))
  | inr other ↦ rw other (rw (count-drop_guard ip j gs) (ground (arith, bytes_eq_iff ip j)))
]

module _ (g p : ℕ) (ip : Bytes) (w : World) (c : IsCounted g p w) where
  -- A slot is handed out exactly if the address, releases under way included, and the guards held in
  -- all are below their limits.
  pub try_acquire_iff :
      (try_acquire ip w.limiter).0
      ≡ (ltb (count ip w.held + count ip w.leaving) p && ltb (length w.held) g)
  unfolding try_acquire
  try_acquire_iff = ground (arith, c.each ip, c.in_all)

  acquire-IsCounted :
      (try_acquire ip w.limiter).0 ≡ true
      → IsCounted g p (record w { limiter = (try_acquire ip w.limiter).1; held = ip ∷ w.held })
  unfolding try_acquire
  acquire-IsCounted h = record {
    in_all = ground (arith, c.in_all);
    each = λ j. ground (arith, c.each j, c.each ip, bytes_eq_iff ip j);
    global_limit = ground (arith, c.global_limit);
    ip_limit = ground (arith, c.ip_limit);
    global_fits = ground (arith, c.in_all, c.global_limit);
    ip_fits = λ j. ground (arith, c.each ip, c.ip_fits j, bytes_eq_iff ip j, c.ip_limit);
  }

  refuse-IsCounted :
      (try_acquire ip w.limiter).0 ≡ false
      → IsCounted g p (record w { limiter = (try_acquire ip w.limiter).1 })
  unfolding try_acquire
  refuse-IsCounted h =
      let same : (try_acquire ip w.limiter).1 ≡ w.limiter = ground arith in rw same c

  begin_release-IsCounted :
      0 < count ip w.held
      → IsCounted g p (record {
        limiter = release_global w.limiter;
        held = drop_guard ip w.held;
        leaving = ip ∷ w.leaving;
      })
  unfolding release_global
  begin_release-IsCounted h = record {
    in_all = omega (arith, c.in_all, length-drop_guard ip w.held h);
    each = λ j. ground (arith, c.each j, count-drop_guard ip j w.held, bytes_eq_iff ip j);
    global_limit = c.global_limit;
    ip_limit = c.ip_limit;
    global_fits = omega (arith, c.global_fits, length-drop_guard ip w.held h);
    ip_fits = λ j. ground (arith, c.ip_fits j, count-drop_guard ip j w.held, bytes_eq_iff ip j);
  }

  end_release-IsCounted :
      0 < count ip w.leaving
      → IsCounted g p
          (record w { limiter = release_entry ip w.limiter; leaving = drop_guard ip w.leaving })
  unfolding release_entry
  end_release-IsCounted h = record {
    in_all = c.in_all;
    each = λ j.
        ground (arith, c.each j, c.each ip, count-drop_guard ip j w.leaving, bytes_eq_iff ip j);
    global_limit = c.global_limit;
    ip_limit = c.ip_limit;
    global_fits = c.global_fits;
    ip_fits = λ j. ground (arith, c.ip_fits j, count-drop_guard ip j w.leaving, bytes_eq_iff ip j);
  }

Step-IsCounted : {g p : ℕ} {w v : World} → Step w v → IsCounted g p w → IsCounted g p v
Step-IsCounted (acquire ip w h) c = acquire-IsCounted _ _ ip w c h
Step-IsCounted (refuse ip w h) c = refuse-IsCounted _ _ ip w c h
Step-IsCounted (begin_release ip w h) c = begin_release-IsCounted _ _ ip w c h
Step-IsCounted (end_release ip w h) c = end_release-IsCounted _ _ ip w c h

abbrev pub start : ℕ → ℕ → World
start max_global max_per_ip = record {
  limiter = new max_global max_per_ip;
  held = [];
  leaving = [];
}

start-IsCounted : (g p : ℕ) → IsCounted (max g 1) (max p 1) (start g p)
unfolding new
start-IsCounted g p = record {
  in_all = refl;
  each = λ ip. refl;
  global_limit = refl;
  ip_limit = refl;
  global_fits = omega arith;
  ip_fits = λ ip. omega arith;
}

-- However threads acquire and release from a new limiter, the counters are exact: the global one
-- counts the guards held, each address's entry counts its guards with those whose release is under
-- way (and there is no entry for none), and neither limit is passed.
pub Reach-IsCounted : (g p : ℕ) {w : World} → Reach (start g p) w → IsCounted (max g 1) (max p 1) w
Reach-IsCounted g p here = start-IsCounted g p
Reach-IsCounted g p (next r s) = Step-IsCounted s (Reach-IsCounted g p r)
