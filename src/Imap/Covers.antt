-- ===== src/Imap/Covers.antt =====
-- The numbers that a set stands for.
use desertemail.Prelude.{
  ℕ, zero, suc, ◌+◌, ◌-◌, ◌≤◌, min, ◌≡◌, refl, ap, ◌∙◌, inl, inr, Bool, true, false, ◌&&◌, ◌||◌,
  Option, none, some, List, [], ◌∷◌, arith, ltb, leb, ◌==◌, if◌then◌else◌, Bool-cases, leb→le,
  u64_max, any, Bytes, bytes_eq, split_once, split, parse_unsigned, get_or,
}
use desertemail.Maildir.{has}
use desertemail.Maildir.Flags.{has-append}
use desertemail.Imap.Sets.{
  star, numbers_from, range, within, single, range_start, range_end, part_range, part_numbers,
  all_parts, insert_number, sort_numbers, dedup, parse_seq_set,
}

-- Whether a range that begins so may hold a number: from its start on, or from 1 on if the start is
-- no number.
abbrev pub from_start : Bytes → ℕ → Bool
from_start a n = elim (parse_unsigned u64_max a) [ none ↦ leb 1 n | some k ↦ leb k n ]

-- Whether a range that ends so may hold a number: up to its end, or without a bound if the end is a
-- star or no number.
abbrev pub up_to_end : Bytes → ℕ → Bool
up_to_end b n =
    bytes_eq b star || elim (parse_unsigned u64_max b) [ none ↦ true | some k ↦ leb n k ]

-- Whether one part of a set stands for a number: a range has the numbers from its start to its end,
-- none above the number of messages; a number stands for itself, if there is such a message, and the
-- star for the last one.
abbrev range_covers : ℕ → ℕ → Bytes → Option (Bytes × Bytes) → Bool
range_covers max_seq n part (some (a, b)) = from_start a n && (up_to_end b n && leb n max_seq)
range_covers max_seq n part none = elim (parse_unsigned u64_max part) [
  | none ↦ false
  | some k ↦ k == n && (leb 1 n && leb n max_seq)
]

unfoldable pub covers : ℕ → ℕ → Bytes → Bool
covers max_seq n part =
    if bytes_eq part star
    then max_seq == n && leb 1 n
    else range_covers max_seq n part (split_once b':' part)

-- a list in order, each number once, none below `low`
pub data IsIncreasing : ℕ → List ℕ → Type 0 where
  nothing : {low : ℕ} → IsIncreasing low []
  next : {low n : ℕ} {ns : List ℕ} → low ≤ n → IsIncreasing (n + 1) ns → IsIncreasing low (n ∷ ns)

numbers_from-has :
    (start count n : ℕ) → has (numbers_from start count) n ≡ leb start n && ltb n (start + count)
numbers_from-has start zero n = ground arith
numbers_from-has start (suc count) n = ground (arith, numbers_from-has (start + 1) count n)

range-has : (start end n : ℕ) → has (range start end) n ≡ leb start n && leb n end
range-has start end n = elim (Bool-cases (leb start end)) [
  | inl e ↦ rw e (ground (arith, numbers_from-has start (end + 1 - start) n))
  | inr e ↦ rw e (ground arith)
]

within-has : (max_seq k n : ℕ) → has (within max_seq k) n ≡ k == n && (leb 1 n && leb n max_seq)
within-has max_seq k n = ground arith

range_start-from : (a : Bytes) (n : ℕ) → leb (range_start a) n ≡ from_start a n
range_start-from a n = read (parse_unsigned u64_max a)
  where
    read : (o : Option ℕ) → leb (get_or o 1) n ≡ (elim o [ none ↦ leb 1 n | some k ↦ leb k n ])
    read none = refl
    read (some k) = refl

range_end-up_to :
    (max_seq : ℕ) (b : Bytes) (n : ℕ)
    → leb n (min (range_end max_seq b) max_seq) ≡ up_to_end b n && leb n max_seq
range_end-up_to max_seq b n = read (bytes_eq b star) (parse_unsigned u64_max b)
  where
    read :
        (is_star : Bool) (o : Option ℕ)
        → leb n (min (if is_star then max_seq else get_or o max_seq) max_seq)
          ≡ (is_star || elim o [ none ↦ true | some k ↦ leb n k ]) && leb n max_seq
    read true o = ground arith
    read false none = ground arith
    read false (some k) = ground arith

part_numbers-has :
    (max_seq : ℕ) (part : Bytes) (n : ℕ) → has (part_numbers max_seq part) n ≡ covers max_seq n part
unfolding part_numbers covers
part_numbers-has max_seq part n = elim (Bool-cases (bytes_eq part star)) [
  | inl e ↦ rw e (ground arith)
  | inr e ↦ rw e (by_range (split_once b':' part))
]
  where
    by_range :
        (o : Option (Bytes × Bytes))
        → has (part_range max_seq part o) n ≡ range_covers max_seq n part o
    by_range (some (a, b)) =
        range-has (range_start a) (min (range_end max_seq b) max_seq) n
        ∙ (rw (range_start-from a n, range_end-up_to max_seq b n) refl)
    by_range none = by_number (parse_unsigned u64_max part)
      where
        by_number :
            (o : Option ℕ)
            → has (single max_seq o) n
              ≡ (elim o [ none ↦ false | some k ↦ k == n && (leb 1 n && leb n max_seq) ])
        by_number none = refl
        by_number (some k) = within-has max_seq k n

all_parts-has :
    (max_seq : ℕ) (parts : List Bytes) (n : ℕ)
    → has (all_parts max_seq parts) n ≡ any (covers max_seq n) parts
unfolding all_parts
all_parts-has max_seq [] n = refl
all_parts-has max_seq (part ∷ parts) n =
    has-append (part_numbers max_seq part) (all_parts max_seq parts) n
    ∙ (rw (part_numbers-has max_seq part n) (rw (all_parts-has max_seq parts n) refl))

insert_number-has : (m : ℕ) (ms : List ℕ) (n : ℕ) → has (insert_number m ms) n ≡ m == n || has ms n
unfolding insert_number
insert_number-has m [] n = refl
insert_number-has m (k ∷ ms) n = elim (Bool-cases (leb m k)) [
  | inl e ↦ rw e refl
  | inr e ↦ rw (e, insert_number-has m ms n) (swap (k == n) (m == n) (has ms n))
]
  where
    swap : (a b c : Bool) → a || (b || c) ≡ b || (a || c)
    swap true true c = refl
    swap true false c = refl
    swap false b c = refl

sort_numbers-has : (ns : List ℕ) (n : ℕ) → has (sort_numbers ns) n ≡ has ns n
unfolding sort_numbers
sort_numbers-has [] n = refl
sort_numbers-has (m ∷ ns) n =
    insert_number-has m (sort_numbers ns) n ∙ ap (λ b. m == n || b) (sort_numbers-has ns n)

dedup-has : (ns : List ℕ) (n : ℕ) → has (dedup ns) n ≡ has ns n
unfolding dedup
dedup-has [] n = refl
dedup-has (k ∷ []) n = refl
dedup-has (k ∷ m ∷ ms) n = elim (Bool-cases (k == m)) [
  | inl e ↦
      (let same : k ≡ m = ground arith in
        let twice : has (m ∷ ms) n ≡ k == n || has (m ∷ ms) n =
          rw same (or_twice (m == n) (has ms n)) in
        rw e (dedup-has (m ∷ ms) n ∙ twice))
  | inr e ↦ rw e (ap (λ b. k == n || b) (dedup-has (m ∷ ms) n))
]
  where
    or_twice : (a b : Bool) → a || b ≡ a || (a || b)
    or_twice true b = refl
    or_twice false b = refl

-- a list in order, with repetitions
data IsSorted : ℕ → List ℕ → Type 0 where
  sorted_nil : {low : ℕ} → IsSorted low []
  sorted_cons : {low n : ℕ} {ns : List ℕ} → low ≤ n → IsSorted n ns → IsSorted low (n ∷ ns)

insert_number-IsSorted :
    (low m : ℕ) (ms : List ℕ) → low ≤ m → IsSorted low ms → IsSorted low (insert_number m ms)
unfolding insert_number
insert_number-IsSorted low m [] h s = sorted_cons h sorted_nil
insert_number-IsSorted low m (k ∷ ms) h (sorted_cons g s) = elim (Bool-cases (leb m k)) [
  | inl e ↦ rw e (sorted_cons h (sorted_cons (leb→le m k e) s))
  | inr e ↦ rw e (sorted_cons g (insert_number-IsSorted k m ms (ground arith) s))
]

sort_numbers-IsSorted : (ns : List ℕ) → IsSorted 0 (sort_numbers ns)
unfolding sort_numbers
sort_numbers-IsSorted [] = sorted_nil
sort_numbers-IsSorted (n ∷ ns) =
    insert_number-IsSorted 0 n (sort_numbers ns) (omega arith) (sort_numbers-IsSorted ns)

dedup-IsIncreasing : (low : ℕ) (ns : List ℕ) → IsSorted low ns → IsIncreasing low (dedup ns)
unfolding dedup
dedup-IsIncreasing low [] s = nothing
dedup-IsIncreasing low (n ∷ []) (sorted_cons h s) = next h nothing
dedup-IsIncreasing low (n ∷ m ∷ ms) (sorted_cons h (sorted_cons g s)) = elim (Bool-cases (n == m)) [
  | inl e ↦ rw e (dedup-IsIncreasing low (m ∷ ms) (sorted_cons (omega arith) s))
  | inr e ↦ rw e (next h (dedup-IsIncreasing (n + 1) (m ∷ ms) (sorted_cons (ground arith) s)))
]

-- A set of sequence numbers is read as the numbers that one of its parts covers, and no other, each
-- once and in order: a range covers what lies between its ends, and no number above the last, where
-- the star or no number as its end is no bound, and no number as its start is 1.
pub parse_seq_set-covers :
    (s : Bytes) (max_seq n : ℕ)
    → (has (parse_seq_set s max_seq) n ≡ any (covers max_seq n) (split b',' s))
      × IsIncreasing 0 (parse_seq_set s max_seq)
unfolding parse_seq_set
parse_seq_set-covers s max_seq n =
    let numbers = all_parts max_seq (split b',' s) in
    (
      dedup-has (sort_numbers numbers) n
          ∙ sort_numbers-has numbers n
          ∙ all_parts-has max_seq (split b',' s) n,
      dedup-IsIncreasing 0 (sort_numbers numbers) (sort_numbers-IsSorted numbers),
    )
