-- ===== src/Dmarc/Alignment.antt =====
-- Who must have vouched for a message that passes.
use desertemail.Prelude.{
  ◌≡◌, refl, sym, ap, ◌∙◌, ◌≢◌, ◌⊎◌, inl, inr, Bool, true, false, ◌&&◌, ◌||◌, Option, none, some,
  List, [], ◌∷◌, Bool-cases, is_empty, Bytes, bytes_eq, bytes_eq_iff,
}
use desertemail.Spf.{SpfResult, pass, fail, soft_fail, neutral, none_found, temp_error, perm_error}
use desertemail.Dmarc.Domains.{
  AlignMode, strict, relaxed, plain_domain, organizational_domain, domains_align, align_as,
}
use desertemail.Dmarc.Plain.{plain_domain_idem, organizational_domain-plain}
use desertemail.Dmarc.{
  DkimStatus, dkim_pass, dkim_fail, dkim_none, dkim_temp_error, dkim_perm_error, DkimResult,
  Vouchers, is_spf_pass, is_dkim_pass, spf_aligned, dkim_aligned, apply_record, first_record,
  names_of, found_or, evaluate,
}

-- A domain that there is, of the organization of another.
pub record IsAligned (from auth : Bytes) : Type 0 where
  pub from_named : plain_domain from ≢ []
  pub auth_named : plain_domain auth ≢ []
  pub same : organizational_domain from ≡ organizational_domain auth

-- one of the signatures that pass is aligned
pub data IsSigned (from : Bytes) : List DkimResult → Type 0 where
  signed_here :
      {d : DkimResult} {ds : List DkimResult}
      → d.status ≡ dkim_pass
      → IsAligned from d.domain
      → IsSigned from (d ∷ ds)
  signed_later : {d : DkimResult} {ds : List DkimResult} → IsSigned from ds → IsSigned from (d ∷ ds)

IsVouched : Bytes → Vouchers → Type 0
IsVouched from v =
    ((v.spf_result ≡ pass) × IsAligned from v.spf_domain) ⊎ IsSigned from v.dkim_results

both : (a b : Bool) → a && b ≡ true → (a ≡ true) × (b ≡ true)
both true b h = (refl, h)
both false b h = cc

either : (a b : Bool) → a || b ≡ true → (a ≡ true) ⊎ (b ≡ true)
either true b h = inl refl
either false b h = inr h

spf_passed : (r : SpfResult) → is_spf_pass r ≡ true → r ≡ pass
spf_passed pass h = refl
spf_passed fail h = cc
spf_passed soft_fail h = cc
spf_passed neutral h = cc
spf_passed none_found h = cc
spf_passed temp_error h = cc
spf_passed perm_error h = cc

dkim_passed : (s : DkimStatus) → is_dkim_pass s ≡ true → s ≡ dkim_pass
dkim_passed dkim_pass h = refl
dkim_passed dkim_fail h = cc
dkim_passed dkim_none h = cc
dkim_passed dkim_temp_error h = cc
dkim_passed dkim_perm_error h = cc

named : (s : Bytes) → is_empty s ≡ false → s ≢ []
named [] h = cc
named (c ∷ s) h = λ e. cc

one_organization :
    (from auth : Bytes)
    → organizational_domain (plain_domain from) ≡ organizational_domain (plain_domain auth)
    → organizational_domain from ≡ organizational_domain auth
one_organization from auth e =
    sym (organizational_domain-plain from) ∙ e ∙ organizational_domain-plain auth

align_as_organization :
    (mode : AlignMode) (from auth : Bytes)
    → align_as mode (plain_domain from) (plain_domain auth) ≡ true
    → organizational_domain from ≡ organizational_domain auth
align_as_organization strict from auth h =
    one_organization from auth
      (ap organizational_domain ((bytes_eq_iff (plain_domain from) (plain_domain auth)).0 h))
align_as_organization relaxed from auth h =
    elim (either (bytes_eq (plain_domain from) (plain_domain auth)) _ h) [
      | inl e ↦
          one_organization from auth
            (ap organizational_domain ((bytes_eq_iff (plain_domain from) (plain_domain auth)).0 e))
      | inr e ↦ one_organization from auth ((bytes_eq_iff _ _).0 e)
    ]

-- alignment in either mode is one organization
same_organization :
    (from auth : Bytes) (mode : AlignMode)
    → domains_align from auth mode ≡ true
    → IsAligned from auth
unfolding domains_align
same_organization from auth mode h = elim (Bool-cases (is_empty (plain_domain from))) [
  | inl e ↦ (let no : false ≡ true = rw e at h in cc)
  | inr f ↦ elim (Bool-cases (is_empty (plain_domain auth))) [
    | inl e ↦ (let no : false ≡ true = rw (f, e) at h in cc)
    | inr g ↦
        (let aligned : align_as mode (plain_domain from) (plain_domain auth) ≡ true =
            rw (f, g) at h in
          record {
            from_named = named (plain_domain from) f;
            auth_named = named (plain_domain auth) g;
            same = align_as_organization mode from auth aligned;
          })
  ]
]

-- alignment speaks of the domain without its dots and capitals
from_plain : (from auth : Bytes) → IsAligned (plain_domain from) auth → IsAligned from auth
from_plain from auth a = record {
  from_named =
      (let n : plain_domain (plain_domain from) ≢ [] = a.from_named in
        rw (plain_domain_idem from) at n);
  auth_named = a.auth_named;
  same = sym (organizational_domain-plain from) ∙ a.same;
}

dkim_aligned-IsSigned :
    (from : Bytes) (mode : AlignMode) (ds : List DkimResult)
    → dkim_aligned (plain_domain from) mode ds ≡ true
    → IsSigned from ds
unfolding dkim_aligned
dkim_aligned-IsSigned from mode [] h = cc
dkim_aligned-IsSigned from mode (d ∷ ds) h =
    elim (either (is_dkim_pass d.status && domains_align (plain_domain from) d.domain mode) _ h) [
      | inl e ↦
          (let (ok, aligned) =
              both (is_dkim_pass d.status) (domains_align (plain_domain from) d.domain mode) e in
            signed_here (dkim_passed d.status ok) (
              from_plain from d.domain
                (same_organization (plain_domain from) d.domain mode aligned)))
      | inr e ↦ signed_later (dkim_aligned-IsSigned from mode ds e)
    ]

aligned-IsVouched :
    (from : Bytes) (v : Vouchers) (spf_mode dkim_mode : AlignMode)
    → spf_aligned (plain_domain from) spf_mode v
        || dkim_aligned (plain_domain from) dkim_mode v.dkim_results
      ≡ true
    → IsVouched from v
unfolding spf_aligned IsVouched
aligned-IsVouched from v spf_mode dkim_mode h =
    elim (either (spf_aligned (plain_domain from) spf_mode v) _ h) [
      | inl e ↦
          (let (ok, aligned) =
              both (is_spf_pass v.spf_result)
                (domains_align (plain_domain from) v.spf_domain spf_mode) e in
            inl (
              spf_passed v.spf_result ok,
              from_plain from v.spf_domain
                  (same_organization (plain_domain from) v.spf_domain spf_mode aligned),
            ))
      | inr e ↦ inr (dkim_aligned-IsSigned from dkim_mode v.dkim_results e)
    ]

apply_record-IsVouched :
    (from : Bytes) (v : Vouchers) (rec : Option Bytes)
    → (apply_record (plain_domain from) v rec).passed ≡ true
    → IsVouched from v
unfolding apply_record
apply_record-IsVouched from v none h = cc
apply_record-IsVouched from v (some rec) h = aligned-IsVouched from v _ _ h

module _ {S : Type 0} (txt_lookup : Bytes → S → Option (List Bytes) × S) where
  -- Whatever the lookups answer, a message passes only if SPF passes for a domain of the organization
  -- of its author's domain, or a signature that passes is of such a domain: no record of the domain
  -- itself and no other domain can stand in for that.
  pub evaluate-IsVouched :
      (from : Bytes) (v : Vouchers) (s : S)
      → (evaluate txt_lookup from v s).0.passed ≡ true
      → ((v.spf_result ≡ pass) × IsAligned from v.spf_domain) ⊎ IsSigned from v.dkim_results
  unfolding evaluate IsVouched
  evaluate-IsVouched from v s h = elim (Bool-cases (is_empty (plain_domain from))) [
    | inl e ↦ (let no : false ≡ true = rw e at h in cc)
    | inr f ↦
        (let passed : (found_or txt_lookup (plain_domain from) v
                (first_record txt_lookup (names_of txt_lookup (plain_domain from)) s)).0.passed
              ≡ true =
            rw f at h in
          apply_record-IsVouched from v _ passed)
  ]
