-- ===== src/Prelude/Pieces.antt =====
-- Splitting a text at a byte and joining the pieces again.
use mathlib.Core.List.{List, [], ◌∷◌, ◌++◌}
use mathlib.Core.Bool.{false}
use mathlib.Core.Option.{some}
use mathlib.Core.Logic.{◌≢◌, inl, inr}
use mathlib.Core.Path.{◌≡◌, refl, ap, ◌∙◌}
use Prim.Native.Nat.{ℕ}
use native.Mathlib.Omega.{arith}
use desertemail.Prelude.Lists.{All}
use desertemail.Prelude.Tests.{◌==◌, ==_refl, Bool-cases}
use desertemail.Prelude.Text.{Bytes, split, split_once, push_piece, join}

pub push_piece-ne-nil : (x : ℕ) (ps : List Bytes) → push_piece x ps ≢ []
push_piece-ne-nil x [] = cc
push_piece-ne-nil x (p ∷ ps) = cc

pub split-ne-nil : (c : ℕ) (s : Bytes) → split c s ≢ []
unfolding split
split-ne-nil c [] = cc
split-ne-nil c (x ∷ xs) = elim (Bool-cases (x == c)) [
  | inl found ↦ rw found (cc)
  | inr other ↦ rw other (push_piece-ne-nil x (split c xs))
]

join-push_piece :
    (sep : Bytes) (x : ℕ) (ps : List Bytes) → join sep (push_piece x ps) ≡ x ∷ join sep ps
unfolding join
join-push_piece sep x [] = refl
join-push_piece sep x (p ∷ []) = refl
join-push_piece sep x (p ∷ q ∷ ps) = refl

join-nil_cons : (sep : Bytes) (ps : List Bytes) → ps ≢ [] → join sep ([] ∷ ps) ≡ sep ++ join sep ps
unfolding join
join-nil_cons sep [] h = absurd (h refl)
join-nil_cons sep (p ∷ ps) h = refl

pub join-split : (c : ℕ) (s : Bytes) → join (c ∷ []) (split c s) ≡ s
unfolding split
join-split c [] = unfold join in refl
join-split c (x ∷ xs) = elim (Bool-cases (x == c)) [
  | inl found ↦ rw found (
      rw (join-nil_cons (c ∷ []) (split c xs) (split-ne-nil c xs))
        (rw (join-split c xs) (ground (arith))))
  | inr other ↦ rw other (rw join-push_piece (ap (◌∷◌ x) (join-split c xs)))
]

-- A text without the byte.
abbrev pub Lacks : ℕ → Bytes → Type 0
Lacks c s = All (λ x. x == c ≡ false) s

pub split_once-found : (c : ℕ) (k r : Bytes) → Lacks c k → split_once c (k ++ c ∷ r) ≡ some (k, r)
unfolding split_once
split_once-found c [] r h = rw (==_refl c) refl
split_once-found c (x ∷ k) r (x_ne, h) = rw x_ne (rw (split_once-found c k r h) refl)

pub split-line : (c : ℕ) (l r : Bytes) → Lacks c l → split c (l ++ c ∷ r) ≡ l ∷ split c r
unfolding split
split-line c [] r h = rw (==_refl c) refl
split-line c (x ∷ l) r (x_ne, h) = rw x_ne (rw (split-line c l r h) refl)

pub split-last : (c : ℕ) (l : Bytes) → Lacks c l → split c l ≡ l ∷ []
unfolding split
split-last c [] h = refl
split-last c (x ∷ l) (x_ne, h) = rw x_ne (rw (split-last c l h) refl)

-- Pieces without the separator come back from the text that joins them.
pub split-join :
    (c : ℕ) (p : Bytes) (ps : List Bytes)
    → All (Lacks c) (p ∷ ps)
    → split c (join (c ∷ []) (p ∷ ps)) ≡ p ∷ ps
unfolding join
split-join c p [] h = split-last c p h.0
split-join c p (q ∷ ps) h =
    split-line c p (join (c ∷ []) (q ∷ ps)) h.0 ∙ ap (◌∷◌ p) (split-join c q ps h.1)
