-- ===== src/Maildir/Flags.antt =====
-- What STORE does to the flags of a message, as the next listing of the mailbox shows them.
use desertemail.Prelude.{
  ℕ, ◌≡◌, refl, sym, ap, ◌∙◌, inl, inr, Bool, true, false, not, ◌&&◌, ◌||◌, none, some, List, [],
  ◌∷◌, ◌++◌, arith, ◌==◌, if◌then◌else◌, Bool-cases, if-all, All, retain, any, is_empty, Bytes,
  strip_prefix,
}
use mathlib.Core.Path.{subst}
use desertemail.Maildir.Names.{
  info_sep, rsplit_at, base_name, flags_from_name, imap_flag_to_char, has, flag_order,
  sort_maildir_flags, push_new, Entry, meta_of, hash_name, StoreMode, set_flags, add_flags,
  remove_flags, no_mode, mode_of, apply_flag, apply_flags, is_set, renamed, wanted, store_flags,
}

pub has-append : (a b : Bytes) (x : ℕ) → has (a ++ b) x ≡ has a x || has b x
has-append [] b x = refl
has-append (c ∷ a) b x = rw (has-append a b x) (or_assoc (c == x) (has a x) (has b x))
  where
    or_assoc : (p q r : Bool) → p || (q || r) ≡ (p || q) || r
    or_assoc true q r = refl
    or_assoc false q r = refl

has-retain : (q : ℕ → Bool) (s : Bytes) (x : ℕ) → has (retain q s) x ≡ has s x && q x
has-retain q [] x = refl
has-retain q (c ∷ s) x = elim (Bool-cases (c == x)) [
  | inl e ↦
      (let same : c ≡ x = ground arith in
        elim (Bool-cases (q c)) [
          | inl holds ↦
              (let here : q x ≡ true = subst (λ y. q y ≡ true) same holds in
                rw holds (rw (e, here) refl))
          | inr fails ↦
              (let gone : q x ≡ false = subst (λ y. q y ≡ false) same fails in
                rw fails (has-retain q s x ∙ (rw (e, gone) (and_false (has s x)))))
        ])
  | inr e ↦ elim (Bool-cases (q c)) [
    | inl holds ↦ rw holds (rw e (has-retain q s x))
    | inr fails ↦ rw fails (rw e (has-retain q s x))
  ]
]
  where
    and_false : (b : Bool) → b && false ≡ false
    and_false true = refl
    and_false false = refl

has-push_new : (s : Bytes) (c x : ℕ) → has (push_new s c) x ≡ has s x || c == x
has-push_new s c x = elim (Bool-cases (has s c)) [
  | inl held ↦ elim (Bool-cases (c == x)) [
    | inl e ↦
        (let same : c ≡ x = ground arith in
          let there : has s x ≡ true = subst (λ y. has s y ≡ true) same held in
          rw held (rw there refl))
    | inr e ↦ rw (held, e) (sym (or_false (has s x)))
  ]
  | inr new ↦ rw new (has-append s (c ∷ []) x ∙ ap (λ b. has s x || b) (or_false (c == x)))
]
  where
    or_false : (b : Bool) → b || false ≡ b
    or_false true = refl
    or_false false = refl

asked : List Bytes → ℕ → Bool
asked fs x = any (λ f. imap_flag_to_char f == x) fs

-- how a flag comes out of a STORE: whether it was set, and whether it is in the list
abbrev pub expected : StoreMode → Bool → Bool → Bool
expected set_flags old listed = listed
expected add_flags old listed = old || listed
expected remove_flags old listed = old && not listed
expected no_mode old listed = old

-- the effect of a part of the list, on what is there before
changed : StoreMode → Bool → Bool → Bool
changed set_flags old here = old || here
changed add_flags old here = old || here
changed remove_flags old here = old && not here
changed no_mode old here = old

==_sym : (a b : ℕ) → a == b ≡ (b == a)
==_sym a b = ground arith

apply_flag-has :
    (mode : StoreMode) (c x : ℕ) (want : Bytes)
    → has (apply_flag mode c want) x ≡ changed mode (has want x) (c == x)
unfolding changed
apply_flag-has set_flags c x want = has-push_new want c x
apply_flag-has add_flags c x want = has-push_new want c x
apply_flag-has remove_flags c x want =
    has-retain (λ y. not (y == c)) want x ∙ ap (λ b. has want x && not b) (==_sym x c)
apply_flag-has no_mode c x want = refl

changed_twice :
    (mode : StoreMode) (old here later : Bool)
    → changed mode (changed mode old here) later ≡ changed mode old (here || later)
unfolding changed
changed_twice set_flags true here later = refl
changed_twice set_flags false here later = refl
changed_twice add_flags true here later = refl
changed_twice add_flags false here later = refl
changed_twice remove_flags true true later = refl
changed_twice remove_flags true false later = refl
changed_twice remove_flags false here later = refl
changed_twice no_mode old here later = refl

apply_flags-has :
    (mode : StoreMode) (fs : List Bytes) (x : ℕ) (want : Bytes)
    → x == 0 ≡ false
    → has (apply_flags mode fs want) x ≡ changed mode (has want x) (asked fs x)
unfolding apply_flags asked
apply_flags-has mode [] x want nonzero = unasked mode (has want x)
  where
    unasked : (mode : StoreMode) (old : Bool) → old ≡ changed mode old false
    unasked set_flags true = unfold changed in refl
    unasked set_flags false = unfold changed in refl
    unasked add_flags true = unfold changed in refl
    unasked add_flags false = unfold changed in refl
    unasked remove_flags true = unfold changed in refl
    unasked remove_flags false = unfold changed in refl
    unasked no_mode old = unfold changed in refl
apply_flags-has mode (f ∷ fs) x want nonzero = elim (Bool-cases (imap_flag_to_char f == 0)) [
  | inl e ↦
      (let other : imap_flag_to_char f == x ≡ false = ground arith in
        rw (e, apply_flags) (rw other (apply_flags-has mode fs x want nonzero)))
  | inr e ↦
      (let one = apply_flag-has mode (imap_flag_to_char f) x want in
        rw (e, apply_flags)
          (apply_flags-has mode fs x (apply_flag mode (imap_flag_to_char f) want) nonzero
            ∙ ap (λ b. changed mode b (asked fs x)) one
            ∙ changed_twice mode (has want x) (imap_flag_to_char f == x) (asked fs x)))
]

old_flags : Entry → Bytes
old_flags e = if e.in_new then [] else flags_from_name e.name

wanted-has :
    (mode : StoreMode) (e : Entry) (fs : List Bytes) (x : ℕ)
    → has flag_order x ≡ true
    → has (wanted mode e fs) x ≡ expected mode (has (old_flags e) x) (asked fs x)
unfolding old_flags sort_maildir_flags
wanted-has mode e fs x known =
    let nonzero : x == 0 ≡ false = ground arith in
    let chars = old_flags e in
    has-retain (has (apply_flags mode fs (if is_set mode then [] else chars))) flag_order x
    ∙ ap (λ b. b && has (apply_flags mode fs (if is_set mode then [] else chars)) x) known
    ∙ apply_flags-has mode fs x (if is_set mode then [] else chars) nonzero
    ∙ from_start mode chars
  where
    from_start :
        (mode : StoreMode) (chars : Bytes)
        → changed mode (has (if is_set mode then [] else chars) x) (asked fs x)
          ≡ expected mode (has chars x) (asked fs x)
    from_start set_flags chars = unfold changed in refl
    from_start add_flags chars = unfold changed in refl
    from_start remove_flags chars = unfold changed in refl
    from_start no_mode chars = unfold changed in refl

-- the flags are read back from a name
no_colon : (s : Bytes) → All (λ c. b':' == c ≡ false) s → rsplit_at info_sep s ≡ none
unfolding rsplit_at strip_prefix
no_colon [] h = refl
no_colon (c ∷ s) h = rw (no_colon s h.1) (rw (h.0) refl)

All-retain : (P : ℕ → Type 0) (q : ℕ → Bool) (s : Bytes) → All P s → All P (retain q s)
All-retain P q [] h = tt
All-retain P q (c ∷ s) h =
    if-all (All P) (q c) (c ∷ retain q s) (retain q s) (λ _. (h.0, All-retain P q s h.1))
      (λ _. All-retain P q s h.1)

rsplit_at-renamed :
    (base fl : Bytes)
    → All (λ c. b':' == c ≡ false) fl
    → rsplit_at info_sep (base ++ (info_sep ++ fl)) ≡ some (base, fl)
unfolding rsplit_at strip_prefix
rsplit_at-renamed [] fl h = rw (no_colon fl h) refl
rsplit_at-renamed (c ∷ base) fl h = rw (rsplit_at-renamed base fl h) refl

renamed_flags :
    (go_cur : Bool) (base fl : Bytes)
    → All (λ c. b':' == c ≡ false) fl
    → (go_cur ≡ false → fl ≡ [])
    → (meta_of (renamed go_cur base fl)).flags ≡ fl
unfolding meta_of flags_from_name
renamed_flags true base fl h e = rw (rsplit_at-renamed base fl h) refl
renamed_flags false base fl h e = sym (e refl)

renamed_uid :
    (go_cur : Bool) (base fl : Bytes)
    → All (λ c. b':' == c ≡ false) fl
    → base_name base ≡ base
    → (meta_of (renamed go_cur base fl)).uid ≡ hash_name base
unfolding meta_of
renamed_uid true base fl h e =
    let front : base_name (base ++ (info_sep ++ fl)) ≡ base =
      unfold base_name in rw (rsplit_at-renamed base fl h) refl in
    ap hash_name front
renamed_uid false base fl h e = ap hash_name e

wanted_plain :
    (mode : StoreMode) (e : Entry) (fs : List Bytes)
    → All (λ c. b':' == c ≡ false) (wanted mode e fs)
unfolding sort_maildir_flags old_flags
wanted_plain mode e fs =
    All-retain (λ c. b':' == c ≡ false)
      (has (apply_flags mode fs (if is_set mode then [] else old_flags e))) flag_order
      (refl, (refl, (refl, (refl, (refl, (refl, tt))))))

stays_new : (fl : Bytes) (a b : Bool) → a || (not (is_empty fl) || b) ≡ false → fl ≡ []
stays_new [] a b h = refl
stays_new (c ∷ fl) true b h = cc
stays_new (c ∷ fl) false b h = cc

-- After a STORE the next listing shows a message with the flags that the mode asks for: each of the
-- flags that have a letter is held if the list has it or, by the mode, if it was held before. The
-- message keeps its UID, if its name has no second separator.
pub store_flags-listed :
    (e : Entry) (mode : Bytes) (fs : List Bytes) (x : ℕ)
    → has flag_order x ≡ true
    → base_name (base_name e.name) ≡ base_name e.name
    → (has (meta_of (store_flags e mode fs)).flags x
        ≡ expected
            (mode_of mode)
            (has (meta_of e).flags x)
            (any (λ f. imap_flag_to_char f == x) fs))
      × ((meta_of (store_flags e mode fs)).uid ≡ (meta_of e).uid)
unfolding store_flags
store_flags-listed e mode fs x known single =
    let fl = wanted (mode_of mode) e fs in
    let plain = wanted_plain (mode_of mode) e fs in
    let go_cur = has fl b'S' || (not (is_empty fl) || (not e.in_new || is_set (mode_of mode))) in
    let shown : (meta_of (renamed go_cur (base_name e.name) fl)).flags ≡ fl =
      renamed_flags go_cur (base_name e.name) fl plain
        (stays_new fl (has fl b'S') (not e.in_new || is_set (mode_of mode))) in
    (
      ap (λ s. has s x) shown
          ∙ (unfold meta_of asked old_flags in wanted-has (mode_of mode) e fs x known),
      renamed_uid go_cur (base_name e.name) fl plain single ∙ (unfold meta_of in refl),
    )
