-- ===== src/Smtp/Inbound.antt =====
-- Which mail reaches the outgoing queue, and how the recipients are shared out.
use desertemail.Prelude.{
  ℕ, ◌+◌, ◌≡◌, ◌≢◌, refl, sym, ap, ◌∙◌, inl, inr, Bool, true, false, not, ◌&&◌, if◌then◌else◌,
  Bool-cases, Option, none, some, List, [], ◌∷◌, ◌++◌, arith, Option-cases, length, retain, Bytes,
  codes,
}
use desertemail.Prelude.Int.{ℤ}
use desertemail.Accounts.{Config, resolve_mailbox}
use mathlib.Core.List.{append-nil, append_assoc}
use mathlib.Core.Path.{subst}
use desertemail.Smtp.Connection.{Services}
use desertemail.Smtp.Message.{
  Delivery, overquota, failed, deliver_mail, deliver_each, store, check_quota, junk_or_inbox,
  inbound_total,
}

abbrev pub resolves : Config → Bytes → Bool
resolves cfg r = elim (resolve_mailbox cfg r) [ none ↦ false | some _ ↦ true ]

module _ {D : Type 0} (sv : Services D) (cfg : Config) (to_junk : Bool) (raw from r : Bytes)
    (rs : List Bytes) (count : ℕ) (remote : List Bytes) (d : D) where
  pub Step : (Option Delivery × ℕ × List Bytes) × D → Type 0
  Step x = deliver_each sv cfg to_junk raw from (r ∷ rs) count remote d ≡ x

  abbrev pub stored_as : Bytes → Option Delivery × D
  stored_as mb = store sv cfg mb (junk_or_inbox sv cfg to_junk mb) raw from d

  Step-remote :
      resolve_mailbox cfg r ≡ none
      → Step (deliver_each sv cfg to_junk raw from rs count (remote ++ r ∷ []) d)
  unfolding deliver_each Step
  Step-remote e = rw (e, deliver_each) refl

  Step-kept :
      (mb : Bytes)
      → resolve_mailbox cfg r ≡ some mb
      → (stored_as mb).0 ≡ none
      → Step (deliver_each sv cfg to_junk raw from rs (count + 1) remote (stored_as mb).1)
  unfolding deliver_each Step
  Step-kept mb e fine = rw (e, deliver_each) (rw fine refl)

  Step-error :
      (mb : Bytes) (x : Delivery)
      → resolve_mailbox cfg r ≡ some mb
      → (stored_as mb).0 ≡ some x
      → Step ((some x, count, remote), (stored_as mb).1)
  unfolding deliver_each Step
  Step-error mb x e bad = rw (e, deliver_each) (rw bad refl)

-- one copy for each recipient with a mailbox, in their order: in its folder for junk or as it is. The
-- test says whether all were written.
pub copies : {D : Type 0} → Services D → Config → Bool → Bytes → Bytes → List Bytes → D → Bool × D
copies sv cfg to_junk raw from [] d = (true, d)
copies sv cfg to_junk raw from (r ∷ rs) d = elim (resolve_mailbox cfg r) [
  | none ↦ copies sv cfg to_junk raw from rs d
  | some mb ↦
      let (written, d') = sv.deliver (if to_junk then mb ++ codes "/.Junk" else mb) raw from d in
      let (others, d'') = copies sv cfg to_junk raw from rs d' in (written && others, d'')
]

-- a copy that is no error has been written
store-written :
    {D : Type 0} (sv : Services D) (cfg : Config) (mb dest raw from : Bytes) (d : D)
    → (store sv cfg mb dest raw from d).0 ≡ none
    → sv.deliver dest raw from d ≡ (true, (store sv cfg mb dest raw from d).1)
unfolding store
store-written {D} sv cfg mb dest raw from d h =
    elim (Bool-cases (check_quota sv cfg mb (length raw) d)) [
      | inl room ↦ let fine = rw room at h in rw room (kept (sv.deliver dest raw from d) fine)
      | inr full ↦ absurd (some_none (rw full at h))
    ]
  where
    some_none : some overquota ≢ none
    some_none = cc

    kept : (p : Bool × D) → (if p.0 then none else some failed) ≡ none → p ≡ (true, p.1)
    kept (true, d') e = refl
    kept (false, d') e = absurd (cc)

module _ {D : Type 0} (sv : Services D) (cfg : Config) (to_junk : Bool) (raw from : Bytes) where
  copies-remote :
      (r : Bytes) (rs : List Bytes) (d : D)
      → resolve_mailbox cfg r ≡ none
      → copies sv cfg to_junk raw from (r ∷ rs) d ≡ copies sv cfg to_junk raw from rs d
  unfolding copies
  copies-remote r rs d e = rw (e, copies) refl

  copies-kept :
      (r mb : Bytes) (rs : List Bytes) (d d' d'' : D)
      → resolve_mailbox cfg r ≡ some mb
      → sv.deliver (junk_or_inbox sv cfg to_junk mb) raw from d ≡ (true, d')
      → copies sv cfg to_junk raw from rs d' ≡ (true, d'')
      → copies sv cfg to_junk raw from (r ∷ rs) d ≡ (true, d'')
  unfolding copies
  copies-kept r mb rs d d' d'' e one others = rw (e, copies) (rw one (rw others refl))

retain-in :
    (p : Bytes → Bool) (x : Bytes) (xs : List Bytes)
    → p x ≡ true
    → retain p (x ∷ xs) ≡ x ∷ retain p xs
retain-in p x xs e = ground arith

retain-out :
    (p : Bytes → Bool) (x : Bytes) (xs : List Bytes) → p x ≡ false → retain p (x ∷ xs) ≡ retain p xs
retain-out p x xs e = ground arith

-- what becomes of the error, the count, the addresses left over and the mailboxes
Shares :
    {D : Type 0}
    → Services D
    → Config
    → Bool
    → Bytes
    → Bytes
    → ℕ
    → List Bytes
    → List Bytes
    → D
    → (Option Delivery × ℕ × List Bytes) × D
    → Type 0
Shares sv cfg to_junk raw from count remote rcpts d ((error, count', remote'), d') =
    error ≡ none
    → (count' ≡ count + length (retain (resolves cfg) rcpts))
      × (remote' ≡ remote ++ retain (λ r. not (resolves cfg r)) rcpts)
      × (copies sv cfg to_junk raw from rcpts d ≡ (true, d'))

module _ {D : Type 0} (sv : Services D) (cfg : Config) (to_junk : Bool) (raw from : Bytes) where
  Shares-remote :
      (count : ℕ) (remote : List Bytes) (r : Bytes) (rs : List Bytes) (d : D)
      (x : (Option Delivery × ℕ × List Bytes) × D)
      → resolve_mailbox cfg r ≡ none
      → Shares sv cfg to_junk raw from count (remote ++ r ∷ []) rs d x
      → Shares sv cfg to_junk raw from count remote (r ∷ rs) d x
  unfolding Shares
  Shares-remote count remote r rs d ((error, count', remote'), d') absent h fine =
      let (counted, left, written) = h fine in
      let unresolved : resolves cfg r ≡ false = rw (absent, resolves) refl in
      let kept = retain-out (resolves cfg) r rs unresolved in
      let out = retain-in (λ r. not (resolves cfg r)) r rs (ap not unresolved) in
      (
        rw kept counted,
        rw out (left ∙ append_assoc remote (r ∷ []) (retain (λ r. not (resolves cfg r)) rs)),
        copies-remote sv cfg to_junk raw from r rs d absent ∙ written,
      )

  Shares-kept :
      (count : ℕ) (remote : List Bytes) (r mb : Bytes) (rs : List Bytes) (d d1 : D)
      (x : (Option Delivery × ℕ × List Bytes) × D)
      → resolve_mailbox cfg r ≡ some mb
      → sv.deliver (junk_or_inbox sv cfg to_junk mb) raw from d ≡ (true, d1)
      → Shares sv cfg to_junk raw from (count + 1) remote rs d1 x
      → Shares sv cfg to_junk raw from count remote (r ∷ rs) d x
  unfolding Shares
  Shares-kept count remote r mb rs d d1 ((error, count', remote'), d') e one h fine =
      let (counted, left, written) = h fine in
      let resolved : resolves cfg r ≡ true = rw (e, resolves) refl in
      let kept = retain-in (resolves cfg) r rs resolved in
      let out = retain-out (λ r. not (resolves cfg r)) r rs (ap not resolved) in
      (
        rw kept (omega arith),
        rw out left,
        copies-kept sv cfg to_junk raw from r mb rs d d1 d' e one written,
      )

  deliver_each-Shares :
      (rcpts : List Bytes) (count : ℕ) (remote : List Bytes) (d : D)
      → Shares sv cfg to_junk raw from count remote rcpts d
          (deliver_each sv cfg to_junk raw from rcpts count remote d)
  unfolding Step Shares deliver_each copies
  deliver_each-Shares [] count remote d = λ h. (omega arith, sym (append-nil remote), refl)
  deliver_each-Shares (r ∷ rs) count remote d = elim (Option-cases (resolve_mailbox cfg r)) [
    | inr absent ↦
        let later = deliver_each-Shares rs count (remote ++ r ∷ []) d in
        subst (Shares sv cfg to_junk raw from count remote (r ∷ rs) d)
          (sym (Step-remote sv cfg to_junk raw from r rs count remote d absent))
          (Shares-remote count remote r rs d _ absent later)
    | inl (mb, e) ↦
        let kept = stored_as sv cfg to_junk raw from r rs count remote d mb in
        let later = deliver_each-Shares rs (count + 1) remote kept.1 in
        elim (Option-cases kept.0) [
          | inr fine ↦
              subst (Shares sv cfg to_junk raw from count remote (r ∷ rs) d)
                (sym (Step-kept sv cfg to_junk raw from r rs count remote d mb e fine))
                (Shares-kept count remote r mb rs d kept.1 _ e
                  (store-written sv cfg mb (junk_or_inbox sv cfg to_junk mb) raw from d fine) later)
          | inl (x, bad) ↦
              subst (Shares sv cfg to_junk raw from count remote (r ∷ rs) d)
                (sym (Step-error sv cfg to_junk raw from r rs count remote d mb x e bad))
                (λ h. absurd cc)
        ]
  ]

module _ {D : Type 0} (sv : Services D) (queue : Bytes → List Bytes → Bytes → D → Bool × D)
    (cfg : Config) (to_junk : Bool) (raw from : Bytes) where
  deliver_each-queue :
      (rcpts : List Bytes) (count : ℕ) (remote : List Bytes) (d : D)
      → deliver_each (record sv { enqueue = queue }) cfg to_junk raw from rcpts count remote d
        ≡ deliver_each sv cfg to_junk raw from rcpts count remote d
  unfolding deliver_each store check_quota Step
  deliver_each-queue [] count remote d = refl
  deliver_each-queue (r ∷ rs) count remote d = elim (Option-cases (resolve_mailbox cfg r)) [
    | inr absent ↦
        let later = deliver_each-queue rs count (remote ++ r ∷ []) d in
        Step-remote (record sv { enqueue = queue }) cfg to_junk raw from r rs count remote d absent
        ∙ later
        ∙ sym (Step-remote sv cfg to_junk raw from r rs count remote d absent)
    | inl (mb, e) ↦
        let later =
          deliver_each-queue rs (count + 1) remote
            (stored_as sv cfg to_junk raw from r rs count remote d mb).1 in
        elim (Option-cases (stored_as sv cfg to_junk raw from r rs count remote d mb).0) [
          | inr fine ↦
              Step-kept (record sv { enqueue = queue }) cfg to_junk raw from r rs count remote d mb
                e fine
              ∙ later
              ∙ sym (Step-kept sv cfg to_junk raw from r rs count remote d mb e fine)
          | inl (x, bad) ↦
              Step-error (record sv { enqueue = queue }) cfg to_junk raw from r rs count remote d mb
                x e bad
              ∙ sym (Step-error sv cfg to_junk raw from r rs count remote d mb x e bad)
        ]
  ]

-- If no error stops the delivery, the mailboxes are as one written copy for each recipient with a
-- mailbox leaves them, in that order and in the folder for junk if it is chosen; the copies counted
-- are as many as these recipients, and the other addresses are left over, in their order.
pub deliver_each-shares :
    {D : Type 0} (sv : Services D) (cfg : Config) (to_junk : Bool) (raw from : Bytes)
    (rcpts : List Bytes) (count : ℕ) (remote : List Bytes) (d : D)
    → (deliver_each sv cfg to_junk raw from rcpts count remote d).0.0 ≡ none
    → ((deliver_each sv cfg to_junk raw from rcpts count remote d).0.1
        ≡ count + length (retain (resolves cfg) rcpts))
      × ((deliver_each sv cfg to_junk raw from rcpts count remote d).0.2
          ≡ remote ++ retain (λ r. not (resolves cfg r)) rcpts)
      × (copies sv cfg to_junk raw from rcpts d
          ≡ (true, (deliver_each sv cfg to_junk raw from rcpts count remote d).1))
unfolding Shares
deliver_each-shares sv cfg to_junk raw from rcpts count remote d fine =
    deliver_each-Shares sv cfg to_junk raw from rcpts count remote d fine

-- Mail that comes in on a server for inbound mail never reaches the queue: with any other queue in its
-- place, the delivery does and says the same.
pub deliver_mail-queue :
    {D : Type 0} (sv : Services D) (queue : Bytes → List Bytes → Bytes → D → Bool × D)
    (cfg : Config) (from : Bytes) (rcpts : List Bytes) (raw : Bytes) (user : Option Bytes)
    (score : ℤ) (d : D)
    → deliver_mail (record sv { enqueue = queue }) cfg from rcpts raw false user score d
      ≡ deliver_mail sv cfg from rcpts raw false user score d
unfolding deliver_mail
deliver_mail-queue sv queue cfg from rcpts raw user score d =
    ap (inbound_total sv cfg) (deliver_each-queue sv queue cfg _ raw from rcpts 0 [] d)
