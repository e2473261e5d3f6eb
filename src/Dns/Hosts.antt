-- ===== src/Dns/Hosts.antt =====
-- The hosts for a domain's mail: its exchanges by preference.
use desertemail.Prelude.{
  ℕ, ◌+◌, ◌*◌, ◌≤◌, ◌<◌, ◌≡◌, ◌≢◌, refl, ap, ◌∙◌, inl, inr, false, none, some, List, [], ◌∷◌, arith,
  leb, ltb, ◌==◌, if◌then◌else◌, Bool-cases, leb→le, All, is_empty, length, retain, Bytes,
}
use mathlib.Core.Path.{subst}
use mathlib.Core.List.{Perm}
use mathlib.Core.List.Perm
use desertemail.Dns.{
  Result, ok, DnsAnswer, MxRecord, mx_of, insert_mx, sort_mx, mx_records, host_name, qtype_mx,
  resolve_mx,
}

-- Each preference is at most those behind it.
abbrev pub Ascending : List MxRecord → Type 0
Ascending [] = Unit
Ascending (m ∷ ms) = All (λ (x : MxRecord). m.preference ≤ x.preference) ms × Ascending ms

All-below :
    (a b : ℕ) (ms : List MxRecord)
    → a ≤ b
    → All (λ (x : MxRecord). b ≤ x.preference) ms
    → All (λ (x : MxRecord). a ≤ x.preference) ms
All-below a b [] h all = tt
All-below a b (m ∷ ms) h all = (omega (arith, all.0), All-below a b ms h all.1)

All-insert_mx :
    (a : ℕ) (m : MxRecord) (ms : List MxRecord)
    → a ≤ m.preference
    → All (λ (x : MxRecord). a ≤ x.preference) ms
    → All (λ (x : MxRecord). a ≤ x.preference) (insert_mx m ms)
unfolding insert_mx
All-insert_mx a m [] h all = (h, tt)
All-insert_mx a m (x ∷ xs) h all = elim (Bool-cases (leb m.preference x.preference)) [
  | inl front ↦ rw front (h, all)
  | inr later ↦ rw later (all.0, All-insert_mx a m xs h all.1)
]

insert_mx-Ascending :
    (m : MxRecord) (ms : List MxRecord) → Ascending ms → Ascending (insert_mx m ms)
unfolding insert_mx
insert_mx-Ascending m [] h = (tt, tt)
insert_mx-Ascending m (x ∷ xs) h = elim (Bool-cases (leb m.preference x.preference)) [
  | inl front ↦
      rw front
        ((leb→le _ _ front, All-below m.preference x.preference xs (leb→le _ _ front) h.0), h)
  | inr later ↦
      rw later (All-insert_mx x.preference m xs (ground arith) h.0, insert_mx-Ascending m xs h.1)
]

insert_mx-perm : (m : MxRecord) (ms : List MxRecord) → Perm (insert_mx m ms) (m ∷ ms)
unfolding insert_mx
insert_mx-perm m [] = Perm.refl (m ∷ [])
insert_mx-perm m (x ∷ xs) = elim (Bool-cases (leb m.preference x.preference)) [
  | inl front ↦ rw front (Perm.refl (m ∷ x ∷ xs))
  | inr later ↦ rw later (Perm.trans (Perm.cons x (insert_mx-perm m xs)) (Perm.swap m x xs))
]

pub sort_mx-Ascending : (ms : List MxRecord) → Ascending (sort_mx ms)
unfolding sort_mx
sort_mx-Ascending [] = tt
sort_mx-Ascending (m ∷ ms) = insert_mx-Ascending m (sort_mx ms) (sort_mx-Ascending ms)

pub sort_mx-perm : (ms : List MxRecord) → Perm (sort_mx ms) ms
unfolding sort_mx
sort_mx-perm [] = Perm.refl []
sort_mx-perm (m ∷ ms) = Perm.trans (insert_mx-perm m (sort_mx ms)) (Perm.cons m (sort_mx-perm ms))

-- The exchanges that answers hold on the wire: an answer of the type MX with data of three bytes or
-- more and a name has its preference in the first two bytes, the high one first; any other answer
-- has none.
pub data Hold : List DnsAnswer → List MxRecord → Type 0 where
  no_answers : Hold [] []
  exchange :
      {high low c : ℕ} {more name : Bytes} {answers : List DnsAnswer} {mxs : List MxRecord}
      → Hold answers mxs
      → Hold
          (record { rtype = 15; rdata = high ∷ low ∷ c ∷ more; rdata_name = some name } ∷ answers)
          (record { preference = high * 256 + low; exchange = host_name name } ∷ mxs)
  other_type :
      {a : DnsAnswer} {answers : List DnsAnswer} {mxs : List MxRecord}
      → a.rtype ≢ 15
      → Hold answers mxs
      → Hold (a ∷ answers) mxs
  no_name :
      {a : DnsAnswer} {answers : List DnsAnswer} {mxs : List MxRecord}
      → a.rdata_name ≡ none
      → Hold answers mxs
      → Hold (a ∷ answers) mxs
  too_small :
      {a : DnsAnswer} {answers : List DnsAnswer} {mxs : List MxRecord}
      → length a.rdata < 3
      → Hold answers mxs
      → Hold (a ∷ answers) mxs

mx_of_unnamed : (a : DnsAnswer) → a.rdata_name ≡ none → mx_of a ≡ none
unfolding mx_of
mx_of_unnamed a e = rw e (ground arith)

mx_records-Hold :
    {answers : List DnsAnswer} {mxs : List MxRecord} → Hold answers mxs → mx_records answers ≡ mxs
unfolding mx_records mx_of
mx_records-Hold no_answers = refl
mx_records-Hold (exchange {high = high} {low = low} {c = c} {more = more} {name = name} h) =
    let long : ltb (length (high ∷ low ∷ c ∷ more)) 3 ≡ false = ground arith in
    rw long (
      ap (◌∷◌ (record { preference = high * 256 + low; exchange = host_name name }))
        (mx_records-Hold h))
mx_records-Hold (other_type {a = a} e h) =
    let differs : a.rtype == 15 ≡ false = ground arith in rw differs (mx_records-Hold h)
mx_records-Hold (no_name {a = a} e h) =
    let passed = mx_of_unnamed a e in rw passed (mx_records-Hold h)
mx_records-Hold (too_small {a = a} e h) =
    let passed : mx_of a ≡ none = ground arith in rw passed (mx_records-Hold h)

-- those of one preference
abbrev pub of_preference : ℕ → List MxRecord → List MxRecord
of_preference k mxs = retain (λ (x : MxRecord). x.preference == k) mxs

insert_mx-stable :
    (k : ℕ) (m : MxRecord) (ms : List MxRecord)
    → of_preference k (insert_mx m ms) ≡ of_preference k (m ∷ ms)
unfolding insert_mx
insert_mx-stable k m [] = refl
insert_mx-stable k m (x ∷ xs) = elim (Bool-cases (leb m.preference x.preference)) [
  | inl front ↦ rw front refl
  | inr later ↦ rw (later, insert_mx-stable k m xs) (ground arith)
]

sort_mx-stable : (k : ℕ) (ms : List MxRecord) → of_preference k (sort_mx ms) ≡ of_preference k ms
unfolding sort_mx
sort_mx-stable k [] = refl
sort_mx-stable k (m ∷ ms) =
    insert_mx-stable k m (sort_mx ms)
    ∙ ap (λ xs. if m.preference == k then m ∷ xs else xs) (sort_mx-stable k ms)

-- For a domain that is not the root, whose answers hold the exchanges `given` on the wire,
-- `resolve_mx` returns exactly those, each as often, in order of preference, and those of one
-- preference in the order of the answers.
pub resolve_mx-sorted :
    (query : Bytes → ℕ → Result (List DnsAnswer)) (domain : Bytes) (answers : List DnsAnswer)
    (given : List MxRecord)
    → is_empty (host_name domain) ≡ false
    → query (host_name domain) qtype_mx ≡ ok answers
    → Hold answers given
    → (mxs : List MxRecord) × (resolve_mx query domain ≡ ok mxs)
      × Ascending mxs
      × Perm mxs given
      × ((k : ℕ) → of_preference k mxs ≡ of_preference k given)
unfolding resolve_mx
resolve_mx-sorted query domain answers given named e h =
    let sorted = sort_mx-perm (mx_records answers) in
    (
      sort_mx (mx_records answers),
      rw named (rw e refl),
      sort_mx-Ascending _,
      subst (Perm (sort_mx (mx_records answers))) (mx_records-Hold h) sorted,
      λ k. sort_mx-stable k (mx_records answers) ∙ ap (of_preference k) (mx_records-Hold h),
    )
