-- ===== src/Dmarc/Plain.antt =====
-- `trim_end_matches('.').to_lowercase()` does no more to its own results.
use desertemail.Prelude.{
  ℕ, ◌≡◌, refl, ap, ◌∙◌, ◌≢◌, Bool, true, false, [], ◌∷◌, arith, ◌==◌, if◌then◌else◌, Bytes,
  lower_byte, to_lowercase, trim_end,
}
use desertemail.Dmarc.Domains.{plain_domain, organizational_domain}

abbrev is_dot : ℕ → Bool
is_dot c = c == b'.'

lower_idem : (c : ℕ) → lower_byte (lower_byte c) ≡ lower_byte c
lower_idem c = ground arith

lower_dot : (c : ℕ) → lower_byte c == b'.' ≡ (c == b'.')
lower_dot c = ground arith

pub to_lowercase_idem : (s : Bytes) → to_lowercase (to_lowercase s) ≡ to_lowercase s
unfolding to_lowercase
to_lowercase_idem [] = refl
to_lowercase_idem (c ∷ s) = rw (lower_idem c) (ap (◌∷◌ (lower_byte c)) (to_lowercase_idem s))

trim_end_step :
    (p : ℕ → Bool) (c : ℕ) (s t : Bytes) → trim_end p s ≡ t → t ≢ [] → trim_end p (c ∷ s) ≡ c ∷ t
unfolding trim_end
trim_end_step p c s [] e ne = absurd (ne refl)
trim_end_step p c s (x ∷ r) e ne = rw e refl

trim_end_last :
    (p : ℕ → Bool) (c : ℕ) (s : Bytes)
    → trim_end p s ≡ []
    → trim_end p (c ∷ s) ≡ (if p c then [] else c ∷ [])
unfolding trim_end
trim_end_last p c s e = rw e refl

cons-ne-nil : (x : ℕ) (r : Bytes) → (x ∷ r) ≢ []
cons-ne-nil x r = cc

trim_end_idem : (p : ℕ → Bool) (s : Bytes) → trim_end p (trim_end p s) ≡ trim_end p s
trim_end_idem p [] = unfold trim_end in refl
trim_end_idem p (c ∷ s) = by_rest (trim_end p s) refl (trim_end_idem p s)
  where
    by_rest :
        (t : Bytes)
        → trim_end p s ≡ t
        → trim_end p (trim_end p s) ≡ trim_end p s
        → trim_end p (trim_end p (c ∷ s)) ≡ trim_end p (c ∷ s)
    by_rest [] e h = rw (trim_end_last p c s e) (last_case (p c) refl)
      where
        last_case :
            (b : Bool)
            → p c ≡ b
            → trim_end p (if b then [] else c ∷ []) ≡ (if b then [] else c ∷ [])
        last_case true g = unfold trim_end in refl
        last_case false g = unfold trim_end in rw g refl
    by_rest (x ∷ r) e h =
        let kept : trim_end p (c ∷ s) ≡ c ∷ x ∷ r =
          trim_end_step p c s (x ∷ r) e (cons-ne-nil x r) in
        let same : trim_end p (x ∷ r) ≡ x ∷ r = rw e at h in
        rw kept (trim_end_step p c (x ∷ r) (x ∷ r) same (cons-ne-nil x r))

trim_end_lower : (s : Bytes) → trim_end is_dot (to_lowercase s) ≡ to_lowercase (trim_end is_dot s)
unfolding to_lowercase
trim_end_lower [] = unfold trim_end to_lowercase in refl
trim_end_lower (c ∷ s) = by_rest (trim_end is_dot s) refl (trim_end_lower s)
  where
    by_rest :
        (t : Bytes)
        → trim_end is_dot s ≡ t
        → trim_end is_dot (to_lowercase s) ≡ to_lowercase (trim_end is_dot s)
        → trim_end is_dot (lower_byte c ∷ to_lowercase s) ≡ to_lowercase (trim_end is_dot (c ∷ s))
    by_rest [] e h =
        let lowered : trim_end is_dot (to_lowercase s) ≡ [] = h ∙ ap to_lowercase e in
        rw (trim_end_last is_dot c s e) (
          rw (trim_end_last is_dot (lower_byte c) (to_lowercase s) lowered)
            (rw (lower_dot c) (last_case (is_dot c))))
      where
        last_case :
            (b : Bool)
            → (if b then [] else lower_byte c ∷ []) ≡ to_lowercase (if b then [] else c ∷ [])
        last_case true = refl
        last_case false = refl
    by_rest (x ∷ r) e h =
        let lowered : trim_end is_dot (to_lowercase s) ≡ lower_byte x ∷ to_lowercase r =
          h ∙ ap to_lowercase e in
        rw (trim_end_step is_dot c s (x ∷ r) e (cons-ne-nil x r)) (
          trim_end_step is_dot (lower_byte c) (to_lowercase s) (lower_byte x ∷ to_lowercase r)
            lowered (cons-ne-nil _ _))

pub plain_domain_idem : (d : Bytes) → plain_domain (plain_domain d) ≡ plain_domain d
unfolding plain_domain
plain_domain_idem d =
    ap to_lowercase (trim_end_lower (trim_end is_dot d))
    ∙ to_lowercase_idem _
    ∙ ap to_lowercase (trim_end_idem is_dot d)

pub organizational_domain-plain :
    (d : Bytes) → organizational_domain (plain_domain d) ≡ organizational_domain d
unfolding organizational_domain
organizational_domain-plain d = rw (plain_domain_idem d) refl
