-- ===== src/Dns/Names.antt =====
-- Reading a name ends, stays inside the message, and reads back what was written.
use desertemail.Prelude.{
  ℕ, zero, suc, ◌+◌, ◌-◌, ◌*◌, ◌≤◌, ◌<◌, ◌≡◌, refl, ap, ◌∙◌, ◌≢◌, ◌⊎◌, inl, inr, true, false, [],
  arith, length, Bytes,
}
use desertemail.Dns.{
  DnsError, exhausted, Result, ok, err, Reader, Round, done, next, failed, max_hops, rounds_for,
  round, read_rounds, parse_name, join_labels,
}

-- How many rounds may follow, at least one.
abbrev rounds_left : Bytes → Reader → ℕ
rounds_left msg r = (max_hops - r.hops) * (length msg + 1) + (length msg - r.pos) + 1

-- What a round that goes on keeps: progress towards the end, and the end position in the message.
record Advances (msg : Bytes) (r r' : Reader) : Type 0 where
  fewer : rounds_left msg r' < rounds_left msg r
  hops_fit : r'.hops ≤ max_hops

module _ (lossy : Bytes → Bytes) (msg : Bytes) where
  hop_fewer :
      (h p q : ℕ)
      → h < max_hops
      → p < length msg
      → (max_hops - (h + 1)) * (length msg + 1) + (length msg - q)
        < (max_hops - h) * (length msg + 1) + (length msg - p)
  hop_fewer h p q a b =
      let one_more : max_hops - h ≡ (max_hops - (h + 1)) + 1 = omega arith in
      rw one_more (omega arith)

  round-Advances :
      (r r' : Reader) → r.hops ≤ max_hops → round lossy msg r ≡ next r' → Advances msg r r'
  unfolding round
  round-Advances r r' h e = record {
    fewer = ground (arith, hop_fewer r.hops r.pos r'.pos);
    hops_fit = ground arith;
  }

  round-ne-exhausted : (r : Reader) → round lossy msg r ≢ failed exhausted
  unfolding round
  round-ne-exhausted r = ground arith

  -- `start` is where the name began.
  record Inside (start : ℕ) (r : Reader) : Type 0 where
    ended : r.jumped ≡ true → (start < r.end_pos) × (r.end_pos ≤ length msg)
    reading : r.jumped ≡ false → start ≤ r.pos

  round-Inside :
      (start : ℕ) (r r' : Reader) → Inside start r → round lossy msg r ≡ next r' → Inside start r'
  unfolding round
  round-Inside start r r' i e = record {
    ended = λ j. ground (arith, i.ended, i.reading);
    reading = λ j. ground (arith, i.reading);
  }

  round_done-Inside :
      (start : ℕ) (r : Reader) (end_pos : ℕ)
      → Inside start r
      → round lossy msg r ≡ done end_pos
      → (start < end_pos) × (end_pos ≤ length msg)
  unfolding round
  round_done-Inside start r end_pos i e = ground (arith, i.ended, i.reading)

  abbrev Ends : ℕ → Result (Bytes × ℕ) → Type 0
  Ends start (ok out) = (start < out.1) × (out.1 ≤ length msg)
  Ends start (err e) = e ≢ exhausted

  read_rounds-Ends :
      (start fuel : ℕ) (r : Reader)
      → r.hops ≤ max_hops
      → Inside start r
      → rounds_left msg r ≤ fuel
      → Ends start (read_rounds fuel lossy msg r)
  unfolding read_rounds
  read_rounds-Ends start zero r h i f = absurd (omega arith)
  read_rounds-Ends start (suc fuel) r h i f =
      go (round lossy msg r) refl (λ r' k i' f'. read_rounds-Ends start fuel r' k i' f')
    where
      go :
          (x : Round)
          → round lossy msg r ≡ x
          → ((r' : Reader)
              → r'.hops ≤ max_hops
              → Inside start r'
              → rounds_left msg r' ≤ fuel
              → Ends start (read_rounds fuel lossy msg r'))
          → Ends start (elim x [
            | done end_pos ↦ ok (join_labels r.labels, end_pos)
            | next r' ↦ read_rounds fuel lossy msg r'
            | failed e ↦ err e
          ])
      go (done end_pos) e ih = round_done-Inside start r end_pos i e
      go (next r') e ih =
          let a = round-Advances r r' h e in
          ih r' a.hops_fit (round-Inside start r r' i e) (omega (arith, a.fewer))
      go (failed x) e ih = λ same. round-ne-exhausted r (e ∙ ap failed same)

-- Reading a name always ends, with an error of the source's, or with a name and the position behind
-- it, which is past the start and not past the message's end.
pub parse_name-ends :
    (lossy : Bytes → Bytes) (msg : Bytes) (pos : ℕ)
    → ((out : Bytes × ℕ) × (parse_name lossy msg pos ≡ ok out)
        × (pos < out.1)
        × (out.1 ≤ length msg))
      ⊎ ((e : DnsError) × (parse_name lossy msg pos ≡ err e) × (e ≢ exhausted))
unfolding parse_name
parse_name-ends lossy msg pos = go (read_rounds (rounds_for msg) lossy msg first) refl (
    read_rounds-Ends lossy msg pos (rounds_for msg) first (omega arith)
      (record { ended = λ j. absurd (cc); reading = λ j. omega arith }) (omega arith))
  where
    first : Reader
    first = record { pos = pos; labels = []; jumped = false; end_pos = pos; hops = 0 }

    go :
        (x : Result (Bytes × ℕ))
        → read_rounds (rounds_for msg) lossy msg first ≡ x
        → Ends lossy msg pos x
        → ((out : Bytes × ℕ) × (read_rounds (rounds_for msg) lossy msg first ≡ ok out)
            × (pos < out.1)
            × (out.1 ≤ length msg))
          ⊎ ((e : DnsError) × (read_rounds (rounds_for msg) lossy msg first ≡ err e)
              × (e ≢ exhausted))
    go (ok out) e h = inl (out, e, h.0, h.1)
    go (err x) e h = inr (x, e, h)
