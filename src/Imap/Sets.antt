-- ===== src/Imap/Sets.antt =====
-- src/imap.rs: the sets of sequence numbers and of UIDs. A `usize` has 64 bits.
use desertemail.Prelude.{
  ℕ, zero, suc, ◌+◌, ◌-◌, min, max, ◌&&◌, Option, none, some, List, [], ◌∷◌, ◌++◌, ltb, leb, ◌==◌,
  if◌then◌else◌, u64_max, retain, Bytes, bytes_eq, split_once, split, parse_unsigned, get_or,
}
use desertemail.Accounts.{u32_max}

abbrev pub star : Bytes
star = b'*' ∷ []

-- the numbers from `start` on, as many as `count`
abbrev pub numbers_from : ℕ → ℕ → List ℕ
numbers_from start zero = []
numbers_from start (suc count) = start ∷ numbers_from (start + 1) count

-- `start..=end`
abbrev pub range : ℕ → ℕ → List ℕ
range start end = if leb start end then numbers_from start (end + 1 - start) else []

abbrev pub within : ℕ → ℕ → List ℕ
within max_seq n = if leb 1 n && leb n max_seq then n ∷ [] else []

abbrev pub single : ℕ → Option ℕ → List ℕ
single max_seq none = []
single max_seq (some n) = within max_seq n

abbrev pub range_start : Bytes → ℕ
range_start a = get_or (parse_unsigned u64_max a) 1

abbrev pub range_end : ℕ → Bytes → ℕ
range_end top b = if bytes_eq b star then top else get_or (parse_unsigned u64_max b) top

abbrev pub part_range : ℕ → Bytes → Option (Bytes × Bytes) → List ℕ
part_range max_seq part (some (a, b)) = range (range_start a) (min (range_end max_seq b) max_seq)
part_range max_seq part none = single max_seq (parse_unsigned u64_max part)

-- the numbers that one part of a set stands for
unfoldable pub part_numbers : ℕ → Bytes → List ℕ
part_numbers max_seq part =
    if bytes_eq part star
    then (if ltb 0 max_seq then max_seq ∷ [] else [])
    else part_range max_seq part (split_once b':' part)

unfoldable pub all_parts : ℕ → List Bytes → List ℕ
unfolding part_numbers
all_parts max_seq [] = []
all_parts max_seq (part ∷ parts) = part_numbers max_seq part ++ all_parts max_seq parts

-- `sort` and `dedup`: each number once, in order
unfoldable pub insert_number : ℕ → List ℕ → List ℕ
insert_number n [] = n ∷ []
insert_number n (m ∷ ms) = let rest = insert_number n ms in if leb n m then n ∷ m ∷ ms else m ∷ rest

unfoldable pub sort_numbers : List ℕ → List ℕ
unfolding insert_number
sort_numbers [] = []
sort_numbers (n ∷ ns) = insert_number n (sort_numbers ns)

unfoldable pub dedup : List ℕ → List ℕ
dedup [] = []
dedup (n ∷ []) = n ∷ []
dedup (n ∷ m ∷ ms) = let rest = dedup (m ∷ ms) in if n == m then rest else n ∷ rest

unfoldable pub parse_seq_set : Bytes → ℕ → List ℕ
unfolding all_parts sort_numbers dedup
parse_seq_set s max_seq = dedup (sort_numbers (all_parts max_seq (split b',' s)))

abbrev max_uid : List ℕ → ℕ
max_uid [] = 0
max_uid (u ∷ us) = max u (max_uid us)

abbrev uid_end : ℕ → Bytes → ℕ
uid_end top b = if bytes_eq b star then top else get_or (parse_unsigned u32_max b) top

abbrev uids_in : List ℕ → Bytes → Option (Bytes × Bytes) → List ℕ
uids_in uids part (some (a, b)) =
    retain (λ u. leb (get_or (parse_unsigned u32_max a) 1) u && leb u (uid_end (max_uid uids) b))
      uids
uids_in uids part none = elim (parse_unsigned u32_max part) [ none ↦ [] | some n ↦ n ∷ [] ]

unfoldable pub uid_parts : List ℕ → List Bytes → List ℕ
uid_parts uids [] = []
uid_parts uids (part ∷ parts) =
    (if bytes_eq part star
      then (if ltb 0 (max_uid uids) then max_uid uids ∷ [] else [])
      else uids_in uids part (split_once b':' part))
    ++ uid_parts uids parts

-- the UIDs of a set, for messages with these
unfoldable pub parse_uid_set : Bytes → List ℕ → List ℕ
unfolding uid_parts sort_numbers dedup
parse_uid_set s uids = dedup (sort_numbers (uid_parts uids (split b',' s)))
