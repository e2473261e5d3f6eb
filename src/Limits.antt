-- ===== src/Limits.antt =====
-- src/limits.rs: the slots of concurrent connections, in all and for each address. `try_acquire`
-- holds the map's mutex while it reads and writes both counters, so an acquisition is one step.
-- A release lowers the global counter before it takes the mutex, and is two steps: other threads
-- may run in between.
pub mod Slots
mod Examples
use desertemail.Prelude.{
  ℕ, ◌+◌, ◌-◌, max, Bool, true, false, Option, none, some, ltb, leb, ◌==◌, if◌then◌else◌, Bytes,
  Map, insert, remove, get_or, empty, List, [], ◌∷◌,
}

pub record ConnLimiter : Type 0 where
  pub global : ℕ
  pub per_ip : Map ℕ
  pub max_global : ℕ
  pub max_per_ip : ℕ

-- `ConnLimiter::new`
unfoldable pub new : ℕ → ℕ → ConnLimiter
new max_global max_per_ip = record {
  global = 0;
  per_ip = empty;
  max_global = max max_global 1;
  max_per_ip = max max_per_ip 1;
}

unfoldable pub configure : ℕ → ℕ → ConnLimiter → ConnLimiter
configure max_global max_per_ip l = record l {
  max_global = max max_global 1;
  max_per_ip = max max_per_ip 1;
}

-- The result is whether the caller gets a guard.
unfoldable pub try_acquire : Bytes → ConnLimiter → Bool × ConnLimiter
try_acquire ip l =
    let cur_ip = get_or (l.per_ip ip) 0 in
    if leb l.max_per_ip cur_ip
    then (false, l)
    else if leb l.max_global l.global
    then (false, l)
    else (true, record l { global = l.global + 1; per_ip = insert ip (cur_ip + 1) l.per_ip })

-- the step of `release` under the mutex
abbrev pub give_back : Bytes → Option ℕ → Map ℕ → Map ℕ
give_back ip none per_ip = per_ip
give_back ip (some n) per_ip = if n - 1 == 0 then remove ip per_ip else insert ip (n - 1) per_ip

-- `release`, the first step. The counter is a usize, which `fetch_sub` would wrap at 0: a guard in
-- existence keeps it above.
unfoldable pub release_global : ConnLimiter → ConnLimiter
release_global l = record l { global = l.global - 1 }

-- `release`, the second step, under the mutex.
unfoldable pub release_entry : Bytes → ConnLimiter → ConnLimiter
release_entry ip l = record l { per_ip = give_back ip (l.per_ip ip) l.per_ip }
