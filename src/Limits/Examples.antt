-- ===== src/Limits/Examples.antt =====
-- The limiter of the source's test: two slots in all, two for each address.
use desertemail.Prelude.{◌≡◌, refl, true, false, [], ◌∷◌, Bytes, codes, bytes_eq}
use desertemail.Limits.{new, configure, try_acquire}
use desertemail.Limits.Slots.{World, Reach, acquire, here, next, start, IsCounted, Reach-IsCounted}

abbrev ip_a : Bytes
ip_a = codes "203.0.113.10"

abbrev acquired : World
acquired = record (start 2 2) { limiter = (try_acquire ip_a (new 2 2)).1; held = ip_a ∷ [] }

acquire_ok : (try_acquire ip_a (new 2 2)).0 ≡ true
unfolding try_acquire new
acquire_ok = refl

full : (try_acquire ip_a (try_acquire ip_a (configure 1 5 (new 2 2))).1).0 ≡ false
unfolding try_acquire new configure bytes_eq
full = refl

reached : Reach (start 2 2) acquired
reached = next here (acquire ip_a (start 2 2) acquire_ok)

Reach-IsCounted_example : IsCounted 2 2 acquired
Reach-IsCounted_example = Reach-IsCounted 2 2 reached
