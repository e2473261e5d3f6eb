-- ===== src/Queue/Accepted.antt =====
-- What the other server has answered when `smtp_send` reports success.
use desertemail.Prelude.{
  ℕ, ◌≡◌, refl, sym, ap, ◌∙◌, ◌⊎◌, inl, inr, Bool, true, false, ◌&&◌, ◌||◌, Option, none, some,
  List, [], ◌∷◌, ◌++◌, arith, ◌==◌, if◌then◌else◌, Bytes, codes,
}
use mathlib.Core.List.{append_assoc, append-nil}
use mathlib.Core.Path.{subst}
use desertemail.Queue.Send.{
  read_smtp_reply, Answer, Channel, Result, ok, err, Talk, and_then, ◌>>=◌, answered, ask, accept,
  expect, angled, send_rcpts, body_of, transact, Connection, greet, start_tls, log_in_with,
  smtp_send,
}

-- the part of a log with the recipients, each taken with 250 or 251
pub data Taken : List Bytes → List (Bytes × ℕ) → Type 0 where
  all_taken : Taken [] []
  taken :
      {r : Bytes} {rs : List Bytes} {log : List (Bytes × ℕ)} (code : ℕ)
      → (code ≡ 250) ⊎ (code ≡ 251)
      → Taken rs log
      → Taken (r ∷ rs) ((angled "RCPT TO:" r, code) ∷ log)

-- A log that ends with a transaction: the sender, every recipient, and the whole body, all taken.
pub record IsAccepted (sender : Bytes) (rcpts : List Bytes) (raw : Bytes) (log : List (Bytes × ℕ))
    : Type 0 where
  pub before : List (Bytes × ℕ)
  pub taking : List (Bytes × ℕ)
  pub each : Taken rcpts taking
  pub whole :
      log
      ≡ before
        ++ (angled "MAIL FROM:" sender, 250)
          ∷ (taking ++ (codes "DATA", 354) ∷ (body_of raw, 250) ∷ [])

-- the inversion of a chain that succeeds
record Chained {ℓ κ} {A : Type ℓ} {B : Type κ} (r : Result A) (f : A → Talk B) (b : B) (c : Channel)
    : Type (ℓ ⊔ κ) where
  value : A
  middle : Channel
  first : r ≡ ok value middle
  second : f value middle ≡ ok b c

chained {ℓ κ} :
    {A : Type ℓ} {B : Type κ} (r : Result A) (f : A → Talk B) (b : B) (c : Channel)
    → and_then r f ≡ ok b c
    → Chained r f b c
unfolding and_then
chained (ok a m) f b c h = record { value = a; middle = m; first = refl; second = h }
chained (err e) f b c h = cc

OnOk {ℓ κ} : {A : Type ℓ} → (A → Channel → Type κ) → Result A → Type κ
OnOk P (ok a c) = P a c
OnOk P (err e) = Unit {κ}

ask_log :
    (words : Bytes) (c : Channel) (a : Answer) (c' : Channel)
    → ask words c ≡ ok a c'
    → c'.log ≡ c.log ++ (words, a.0) ∷ []
unfolding ask OnOk
ask_log words c a c' h = answered_log (read_smtp_reply [] c.incoming) h
  where
    answered_log :
        (o : Option (Answer × List Bytes))
        → answered words c o ≡ ok a c'
        → c'.log ≡ c.log ++ (words, a.0) ∷ []
    answered_log none e = cc
    answered_log (some ((code, text, texts), rest)) e =
        subst (OnOk (λ (x : Answer) y. y.log ≡ c.log ++ (words, x.0) ∷ [])) e refl

accept_inv :
    (b : Bool) (a : Answer) (c c' : Channel)
    → accept b a c ≡ ok tt c'
    → (b ≡ true) × (c'.log ≡ c.log)
unfolding OnOk
accept_inv true a c c' h = (refl, subst (OnOk (λ _ y. y.log ≡ c.log)) h refl)
accept_inv false a c c' h = cc

expect_log :
    (words : Bytes) (code : ℕ) (c c' : Channel)
    → expect words code c ≡ ok tt c'
    → c'.log ≡ c.log ++ (words, code) ∷ []
unfolding expect
expect_log words code c c' h =
    let s = chained (ask words c) (λ a. accept (a.0 == code) a) tt c' h in
    let inv = accept_inv (s.value.0 == code) s.value s.middle c' s.second in
    let same : s.value.0 ≡ code = ground arith in
    inv.1 ∙ ask_log words c s.value s.middle s.first ∙ ap (λ n. c.log ++ (words, n) ∷ []) same

or_cases : (a b : Bool) → a || b ≡ true → (a ≡ true) ⊎ (b ≡ true)
or_cases true b h = inl refl
or_cases false b h = inr h

codes_taken : (n : ℕ) → (n == 250 ≡ true) ⊎ (n == 251 ≡ true) → (n ≡ 250) ⊎ (n ≡ 251)
codes_taken n (inl e) = inl (ground arith)
codes_taken n (inr e) = inr (ground arith)

send_rcpts_log :
    (rcpts : List Bytes) (c c' : Channel)
    → send_rcpts rcpts c ≡ ok tt c'
    → (taking : List (Bytes × ℕ)) × Taken rcpts taking × (c'.log ≡ c.log ++ taking)
unfolding send_rcpts OnOk
send_rcpts_log [] c c' h =
    ([], all_taken, subst (OnOk (λ _ y. y.log ≡ c.log ++ [])) h (sym (append-nil c.log)))
send_rcpts_log (r ∷ rs) c c' h =
    let s = chained (ask (angled "RCPT TO:" r) c) _ tt c' h in
    let t =
      chained (accept (s.value.0 == 250 || s.value.0 == 251) s.value s.middle) _ tt c' s.second in
    let inv = accept_inv (s.value.0 == 250 || s.value.0 == 251) s.value s.middle t.middle t.first in
    let (taking, each, tail) = send_rcpts_log rs t.middle c' t.second in
    let code : (s.value.0 ≡ 250) ⊎ (s.value.0 ≡ 251) =
      codes_taken s.value.0 (or_cases (s.value.0 == 250) (s.value.0 == 251) inv.0) in
    let head = inv.1 ∙ ask_log (angled "RCPT TO:" r) c s.value s.middle s.first in
    (
      ((angled "RCPT TO:" r, s.value.0) ∷ taking),
      taken s.value.0 code each,
      tail ∙ ap (λ l. l ++ taking) head ∙ append_assoc c.log _ taking,
    )

-- the logs after each step, put together
four_steps {ℓ} :
    {A : Type ℓ} (a t m1 m2 m3 m4 : List A) (x y z : A)
    → m1 ≡ a ++ x ∷ []
    → m2 ≡ m1 ++ t
    → m3 ≡ m2 ++ y ∷ []
    → m4 ≡ m3 ++ z ∷ []
    → m4 ≡ a ++ x ∷ (t ++ y ∷ z ∷ [])
four_steps a t m1 m2 m3 m4 x y z h1 h2 h3 h4 =
    h4
    ∙ ap (λ l. l ++ z ∷ []) h3
    ∙ append_assoc m2 (y ∷ []) (z ∷ [])
    ∙ ap (λ l. l ++ y ∷ z ∷ []) h2
    ∙ append_assoc m1 t (y ∷ z ∷ [])
    ∙ ap (λ l. l ++ (t ++ y ∷ z ∷ [])) h1
    ∙ append_assoc a (x ∷ []) (t ++ y ∷ z ∷ [])

transact_log :
    (sender : Bytes) (rcpts : List Bytes) (raw : Bytes) (c c' : Channel)
    → transact sender rcpts raw c ≡ ok tt c'
    → IsAccepted sender rcpts raw c'.log
unfolding transact
transact_log sender rcpts raw c c' h =
    let s = chained (expect (angled "MAIL FROM:" sender) 250 c) _ tt c' h in
    let t = chained (send_rcpts rcpts s.middle) _ tt c' s.second in
    let u = chained (expect (codes "DATA") 354 t.middle) _ tt c' t.second in
    let (taking, each, rcpt_log) = send_rcpts_log rcpts s.middle t.middle t.first in
    let mail = expect_log (angled "MAIL FROM:" sender) 250 c s.middle s.first in
    let data_log = expect_log (codes "DATA") 354 t.middle u.middle u.first in
    let body = expect_log (body_of raw) 250 u.middle c' u.second in
    record {
      before = c.log;
      taking = taking;
      each = each;
      whole =
          four_steps c.log taking s.middle.log t.middle.log u.middle.log c'.log _ _ _ mail rcpt_log
            data_log body;
    }

choose_inv {ℓ} :
    {A : Type ℓ} (P : Type 0) (b : Bool) (x y : Result A) (a : A) (c : Channel)
    → (x ≡ ok a c → P)
    → (y ≡ ok a c → P)
    → (if b then x else y) ≡ ok a c
    → P
choose_inv P true x y a c f g h = f h
choose_inv P false x y a c f g h = g h

-- Whatever the servers answer on however many connections, success is reported only after the last of
-- them has taken the sender, every recipient in turn and then the whole body.
pub smtp_send-IsAccepted :
    (conns : List Connection) (helo_name sender : Bytes) (recipients : List Bytes) (raw : Bytes)
    (auth_user auth_pass : Option Bytes) (try_starttls : Bool) (c : Channel)
    → smtp_send conns helo_name sender recipients raw auth_user auth_pass try_starttls ≡ ok tt c
    → IsAccepted sender recipients raw c.log
unfolding smtp_send
smtp_send-IsAccepted [] helo_name sender recipients raw user pass try c h = cc
smtp_send-IsAccepted (conn ∷ conns) helo_name sender recipients raw user pass try c h =
    let start : Channel = record { incoming = conn.plain; log = [] } in
    let s =
      chained ((greet helo_name >>= λ offered. start_tls conn helo_name (try && offered)) start) _
        tt c h in
    choose_inv (IsAccepted sender recipients raw c.log) s.value _ _ tt c
      (λ going.
        let t = chained (log_in_with user pass s.middle) _ tt c going in
        transact_log sender recipients raw t.middle c t.second)
      (λ again. smtp_send-IsAccepted conns helo_name sender recipients raw user pass false c again)
      s.second
