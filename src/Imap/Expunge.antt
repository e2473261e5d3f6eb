-- ===== src/Imap/Expunge.antt =====
-- src/imap.rs: which files EXPUNGE removes, and which numbers it reports.
use desertemail.Prelude.{
  ℕ, zero, suc, ◌+◌, ◌-◌, ◌≤◌, ◌<◌, ◌≡◌, refl, sym, ap, ◌∙◌, inl, inr, Bool, true, false, not, ◌&&◌,
  ◌||◌, Option, none, some, List, [], ◌∷◌, ◌++◌, arith, leb, ◌==◌, if◌then◌else◌, Bool-cases, any,
  length, length-append, get_elem?, get_elem?-length_append, retain,
}
use mathlib.Core.List.{append_assoc}
use desertemail.Maildir.{Entry, has}
use desertemail.Imap.Sets.{insert_number, sort_numbers}
use desertemail.Imap.Covers.{IsIncreasing, nothing, next}
use desertemail.Imap.Folders.{
  is_deleted, deleted_from, same_file, expunge, expunge_at, expunge_each, do_expunge,
}

-- a client's list of messages after one is reported gone: those behind it count one less
unfoldable pub remove_number {ℓ} : {A : Type ℓ} → ℕ → List A → List A
remove_number n [] = []
remove_number n (x ∷ xs) = let rest = remove_number (n - 1) xs in if leb n 1 then xs else x ∷ rest

-- the numbers taken in the order in which they are reported
unfoldable pub remove_in_order {ℓ} : {A : Type ℓ} → List ℕ → List A → List A
unfolding remove_number
remove_in_order [] xs = xs
remove_in_order (n ∷ ns) xs = remove_in_order ns (remove_number n xs)

-- A file goes for a message that is marked as deleted, if it is its file and can be removed.
abbrev pub goes_for : (Entry → Bool) → Entry → Entry → Bool
goes_for removable f m = is_deleted m && (removable m && same_file m f)

abbrev is_deleted_there : Option Entry → Bool
is_deleted_there none = false
is_deleted_there (some m) = is_deleted m

-- Is this the number of a message that is marked as deleted?
abbrev pub numbers_deleted : List Entry → ℕ → Bool
numbers_deleted msgs n = leb 1 n && is_deleted_there (get_elem? msgs (n - 1))

deleted_from_cons :
    (seq : ℕ) (e : Entry) (es : List Entry) (d : Bool)
    → is_deleted e ≡ d
    → deleted_from seq (e ∷ es)
      ≡ (if d then seq ∷ deleted_from (seq + 1) es else deleted_from (seq + 1) es)
unfolding deleted_from
deleted_from_cons seq e es d h = rw h refl

deleted_from-IsIncreasing :
    (low seq : ℕ) (es : List Entry) → low ≤ seq → IsIncreasing low (deleted_from seq es)
deleted_from-IsIncreasing low seq [] h = unfold deleted_from in nothing
deleted_from-IsIncreasing low seq (e ∷ es) h = elim (Bool-cases (is_deleted e)) [
  | inl d ↦
      rw (deleted_from_cons seq e es true d)
        (next h (deleted_from-IsIncreasing (seq + 1) (seq + 1) es (omega arith)))
  | inr d ↦
      rw (deleted_from_cons seq e es false d)
        (deleted_from-IsIncreasing low (seq + 1) es (omega arith))
]

-- numbers in order are sorted already
insert_number-in_front :
    (n : ℕ) (ns : List ℕ) → IsIncreasing (n + 1) ns → insert_number n ns ≡ n ∷ ns
unfolding insert_number
insert_number-in_front n [] nothing = refl
insert_number-in_front n (m ∷ ms) (next above more) =
    let smaller : leb n m ≡ true = ground arith in rw smaller refl

sort_numbers-increasing : {low : ℕ} {ns : List ℕ} → IsIncreasing low ns → sort_numbers ns ≡ ns
unfolding sort_numbers
sort_numbers-increasing nothing = refl
sort_numbers-increasing (next {n = n} {ns = ns} h rest) =
    ap (insert_number n) (sort_numbers-increasing rest) ∙ insert_number-in_front n ns rest

deleted_from-below : (seq n : ℕ) (es : List Entry) → n < seq → has (deleted_from seq es) n ≡ false
deleted_from-below seq n [] h = unfold deleted_from in refl
deleted_from-below seq n (e ∷ es) h =
    let later = deleted_from-below (seq + 1) n es (omega arith) in
    let other : seq == n ≡ false = ground arith in
    elim (Bool-cases (is_deleted e)) [
      | inl d ↦ rw (deleted_from_cons seq e es true d) (rw (other, later) refl)
      | inr d ↦ rw (deleted_from_cons seq e es false d) later
    ]

deleted_from-has :
    (seq i : ℕ) (es : List Entry)
    → has (deleted_from seq es) (seq + i) ≡ is_deleted_there (get_elem? es i)
deleted_from-has seq i [] = unfold deleted_from in refl
deleted_from-has seq zero (e ∷ es) =
    let same : seq + 0 ≡ seq = omega arith in
    let above = deleted_from-below (seq + 1) seq es (omega arith) in
    let own : seq == seq ≡ true = ground arith in
    elim (Bool-cases (is_deleted e)) [
      | inl d ↦ rw (same, deleted_from_cons seq e es true d) (rw (own, d) refl)
      | inr d ↦ rw (same, deleted_from_cons seq e es false d) (rw (above, d) refl)
    ]
deleted_from-has seq (suc i) (e ∷ es) =
    let same : seq + suc i ≡ seq + 1 + i = omega arith in
    let later = deleted_from-has (seq + 1) i es in
    let other : seq == seq + 1 + i ≡ false = ground arith in
    elim (Bool-cases (is_deleted e)) [
      | inl d ↦ rw (same, deleted_from_cons seq e es true d) (rw other later)
      | inr d ↦ rw (same, deleted_from_cons seq e es false d) later
    ]

numbers-has : (msgs : List Entry) (n : ℕ) → has (deleted_from 1 msgs) n ≡ numbers_deleted msgs n
numbers-has msgs zero = deleted_from-below 1 0 msgs (omega arith)
numbers-has msgs (suc i) =
    let same : suc i ≡ 1 + i = omega arith in
    let before : suc i - 1 ≡ i = omega arith in
    let in_range : leb 1 (suc i) ≡ true = ground arith in
    rw (in_range, before) (ap (has (deleted_from 1 msgs)) same ∙ deleted_from-has 1 i msgs)

-- two passes over the files are one
retain-retain :
    (p q r : Entry → Bool) (files : List Entry)
    → ((f : Entry) → r f ≡ q f && p f)
    → retain p (retain q files) ≡ retain r files
retain-retain p q r [] h = refl
retain-retain p q r (f ∷ files) h = ground (arith, retain-retain p q r files h, h f)

retain-same :
    (q r : Entry → Bool) (files : List Entry)
    → ((f : Entry) → q f ≡ r f)
    → retain q files ≡ retain r files
retain-same q r [] h = refl
retain-same q r (f ∷ files) h = ground (arith, retain-same q r files h, h f)

all_stay : (files : List Entry) → retain (λ f. true) files ≡ files
all_stay [] = refl
all_stay (f ∷ files) = ap (◌∷◌ f) (all_stay files)

module _ (removable : Entry → Bool) where
  -- the files that stay behind the loop over some of the messages
  abbrev staying : List Entry → Entry → Bool
  staying es f = not (any (goes_for removable f) es)

  expunge-staying :
      (e : Entry) (es files : List Entry)
      → is_deleted e ≡ true
      → expunge removable e (retain (staying es) files) ≡ retain (staying (e ∷ es)) files
  unfolding expunge
  expunge-staying e es files d = elim (Bool-cases (removable e)) [
    | inl r ↦ rw r (
        retain-retain (λ f. not (same_file e f)) (staying es) (staying (e ∷ es)) files
          (λ f. rw (d, r) (de_morgan (same_file e f) (any (goes_for removable f) es))))
    | inr r ↦ rw r (retain-same (staying es) (staying (e ∷ es)) files (λ f. rw (d, r) refl))
  ]
    where
      de_morgan : (a b : Bool) → not (a || b) ≡ not b && not a
      de_morgan true true = refl
      de_morgan true false = refl
      de_morgan false true = refl
      de_morgan false false = refl

  expunge_at-found :
      (msgs : List Entry) (seq : ℕ) (m : Entry) (files : List Entry)
      → get_elem? msgs (seq - 1) ≡ some m
      → expunge_at removable msgs seq files ≡ expunge removable m files
  unfolding expunge_at
  expunge_at-found msgs seq m files h = rw (h, expunge_at) refl

  expunge_each-staying :
      (msgs front es files : List Entry)
      → msgs ≡ front ++ es
      → expunge_each removable msgs (deleted_from (length front + 1) es) files
        ≡ retain (staying es) files
  unfolding expunge_each
  expunge_each-staying msgs front [] files h = unfold deleted_from in (sym (all_stay files))
  expunge_each-staying msgs front (e ∷ es) files h =
      let longer = length-append front (e ∷ []) in
      let seq = length front + 1 in
      let later : expunge_each removable msgs (deleted_from (seq + 1) es) files
          ≡ retain (staying es) files =
        ap (λ (n : ℕ). expunge_each removable msgs (deleted_from (n + 1) es) files) (sym longer)
        ∙ expunge_each-staying msgs (front ++ e ∷ []) es files
            (h ∙ sym (append_assoc front (e ∷ []) es)) in
      let before : seq - 1 ≡ length front = omega arith in
      let there : get_elem? msgs (seq - 1) ≡ some e =
        rw (before, h) (get_elem?-length_append front e es) in
      elim (Bool-cases (is_deleted e)) [
        | inl d ↦ rw (deleted_from_cons seq e es true d) (
            expunge_at-found msgs seq e _ there
            ∙ ap (expunge removable e) later
            ∙ expunge-staying e es files d)
        | inr d ↦
            rw (deleted_from_cons seq e es false d)
              (later ∙ retain-same (staying es) (staying (e ∷ es)) files (λ f. rw d refl))
      ]

-- EXPUNGE takes from the mailbox's files, which may be more than the session lists, exactly those that
-- can be removed and are the files of listed messages marked as deleted; it reports exactly the
-- numbers that these marked messages have in the session's list, the lowest first.
pub do_expunge-left :
    (removable : Entry → Bool) (msgs files : List Entry)
    → ((do_expunge removable msgs files).0
        ≡ retain (λ f. not (any (goes_for removable f) msgs)) files)
      × ((n : ℕ) → has (do_expunge removable msgs files).1 n ≡ numbers_deleted msgs n)
      × IsIncreasing 1 (do_expunge removable msgs files).1
unfolding do_expunge
do_expunge-left removable msgs files =
    let increasing = deleted_from-IsIncreasing 1 1 msgs (omega arith) in
    let sorted = sort_numbers-increasing increasing in
    rw sorted (expunge_each-staying removable msgs [] msgs files refl, numbers-has msgs, increasing)
