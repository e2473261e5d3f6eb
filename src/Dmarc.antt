-- ===== src/Dmarc.antt =====
-- src/dmarc.rs: the evaluation of a domain's policy. The lookup of texts is a parameter, with a state of
-- its own. A result of DKIM has the fields of `DkimResult` that are read here.
mod Domains
pub mod Plain
pub mod Alignment
mod Examples
unfoldable pub use Domains.*
use Prim.Native.String.{String}
use desertemail.Prelude.{
  ℕ, zero, suc, ◌+◌, ◌-◌, ◌*◌, ◌/◌, ◌%◌, ◌^◌, ◌≤◌, ◌<◌, min, max, ◌≡◌, refl, sym, ap, ◌∙◌, ◌≢◌, ◌↔◌,
  ◌⊎◌, inl, inr, Bool, true, false, not, ◌&&◌, ◌||◌, Option, none, some, List, [], ◌∷◌, ◌++◌, map,
  arith, ltb, leb, ◌==◌, if◌then◌else◌, Bool-cases, Option-cases, ltb→lt, lt→ltb, le→leb, leb→le,
  ==_refl, u64_max, saturating_add, if-all, ltb_of_le, le_of_ltb, All, All-append, All-map, length,
  get_elem?, take, drop, retain, any, is_empty, length-append, retain-append, retain-All,
  take-length_append, drop-length_append, get_elem?-length_append, get_elem?-some, get_elem?-none,
  length-take, length-drop, take-drop_append, Bytes, codes, bytes_eq, bytes_eq_iff, bytes_eq_refl,
  lower_byte, to_lowercase, is_whitespace, trim_start, trim_end, trim_matches, strip_prefix,
  starts_with, split_once, push_piece, split, join, split_whitespace, split_whitespace-word,
  is_digit, digits_from, at_most, all_digits, parse_unsigned, upper_byte, to_uppercase, Map, empty,
  insert, remove, get_or, filter_value, retain_values, push_piece-ne-nil, split-ne-nil, join-split,
  decimal_from, decimal, decimal_digits, parse_unsigned-decimal, digit_visible,
  split_whitespace-decimal,
}
use desertemail.Spf.{SpfResult, pass, fail, soft_fail, neutral, none_found, temp_error, perm_error}

pub data DmarcPolicy : Type 0 where
  no_policy quarantine reject : DmarcPolicy

-- `DkimStatus` of src/dkim.rs
pub data DkimStatus : Type 0 where
  dkim_pass dkim_fail dkim_none dkim_temp_error dkim_perm_error : DkimStatus

pub record DkimResult : Type 0 where
  pub status : DkimStatus
  pub domain : Bytes

pub record DmarcResult : Type 0 where
  pub passed : Bool
  pub policy : DmarcPolicy
  pub disposition : DmarcPolicy
  pub pct : ℕ
  pub record_found : Bool
  pub detail : Bytes

abbrev trim : Bytes → Bytes
trim = trim_matches is_whitespace

unfoldable pub find_dmarc_record : List Bytes → Option Bytes
find_dmarc_record [] = none
find_dmarc_record (t ∷ ts) =
    let rest = find_dmarc_record ts in
    if starts_with (codes "v=dmarc1") (to_lowercase (trim t)) then some (trim t) else rest

abbrev add_tag : Option (Bytes × Bytes) → Map Bytes → Map Bytes
add_tag none tags = tags
add_tag (some (k, v)) tags = insert (to_lowercase (trim k)) (trim v) tags

-- a later tag replaces an earlier one of its name
abbrev tags_of : List Bytes → Map Bytes → Map Bytes
tags_of [] tags = tags
tags_of (part ∷ parts) tags = tags_of parts (add_tag (split_once b'=' (trim part)) tags)

unfoldable pub parse_dmarc_tags : Bytes → Map Bytes
parse_dmarc_tags text = tags_of (split b';' text) empty

unfoldable pub parse_policy : Bytes → DmarcPolicy
parse_policy s =
    if bytes_eq (to_lowercase s) (codes "quarantine")
    then quarantine
    else if bytes_eq (to_lowercase s) (codes "reject")
    then reject
    else no_policy

unfoldable pub parse_align : Bytes → AlignMode
parse_align s = if bytes_eq (to_lowercase s) (codes "s") then strict else relaxed

abbrev policy_text : DmarcPolicy → Bytes
policy_text no_policy = codes "none"
policy_text quarantine = codes "quarantine"
policy_text reject = codes "reject"

abbrev pub is_spf_pass : SpfResult → Bool
is_spf_pass pass = true
is_spf_pass fail = false
is_spf_pass soft_fail = false
is_spf_pass neutral = false
is_spf_pass none_found = false
is_spf_pass temp_error = false
is_spf_pass perm_error = false

abbrev pub is_dkim_pass : DkimStatus → Bool
is_dkim_pass dkim_pass = true
is_dkim_pass dkim_fail = false
is_dkim_pass dkim_none = false
is_dkim_pass dkim_temp_error = false
is_dkim_pass dkim_perm_error = false

-- no domain, or no record
abbrev not_found : String → DmarcResult
not_found detail = record {
  passed = false;
  policy = no_policy;
  disposition = no_policy;
  pct = 100;
  record_found = false;
  detail = codes detail;
}

-- who has vouched for a message: SPF with its domain, and the signatures
pub record Vouchers : Type 0 where
  pub spf_result : SpfResult
  pub spf_domain : Bytes
  pub dkim_results : List DkimResult

unfoldable pub spf_aligned : Bytes → AlignMode → Vouchers → Bool
spf_aligned from_dom mode v = is_spf_pass v.spf_result && domains_align from_dom v.spf_domain mode

unfoldable pub dkim_aligned : Bytes → AlignMode → List DkimResult → Bool
dkim_aligned from_dom mode results =
    any (λ d. is_dkim_pass d.status && domains_align from_dom d.domain mode) results

abbrev bool_text : Bool → Bytes
bool_text true = codes "true"
bool_text false = codes "false"

abbrev pub policy_of : Map Bytes → Bool → DmarcPolicy
policy_of tags at_organization =
    let p = parse_policy (get_or (tags (codes "p")) (codes "none")) in
    if at_organization then p else elim (tags (codes "sp")) [ none ↦ p | some s ↦ parse_policy s ]

abbrev pct_of : Option Bytes → ℕ
pct_of none = 100
pct_of (some s) = min (get_or (parse_unsigned 255 s) 100) 100

abbrev pub align_tag : Map Bytes → String → AlignMode
align_tag tags name = parse_align (get_or (tags (codes name)) (codes "r"))

abbrev judged : DmarcPolicy → ℕ → Bool → Bool → DmarcResult
judged policy pct by_spf by_dkim = record {
  passed = by_spf || by_dkim;
  policy = policy;
  disposition = if by_spf || by_dkim then no_policy else policy;
  pct = pct;
  record_found = true;
  detail =
      codes "dmarc="
      ++ (codes (if by_spf || by_dkim then "pass" else "fail")
          ++ (codes " policy="
              ++ (policy_text policy
                  ++ (codes " spf_aligned="
                      ++ (bool_text by_spf ++ (codes " dkim_aligned=" ++ bool_text by_dkim))))));
}

-- the evaluation by a record
unfoldable pub apply_record : Bytes → Vouchers → Option Bytes → DmarcResult
unfolding spf_aligned dkim_aligned
apply_record from_dom v none = not_found "no DMARC record"
apply_record from_dom v (some rec) =
    let tags = parse_dmarc_tags rec in
    judged (policy_of tags (bytes_eq from_dom (organizational_domain from_dom)))
      (pct_of (tags (codes "pct"))) (spf_aligned from_dom (align_tag tags "aspf") v)
      (dkim_aligned from_dom (align_tag tags "adkim") v.dkim_results)

abbrev record_in : Option (List Bytes) → Option Bytes
record_in none = none
record_in (some txts) = find_dmarc_record txts

module _ {S : Type 0} (txt_lookup : Bytes → S → Option (List Bytes) × S) where
  -- the record under the first of the names that has one
  unfoldable pub first_record : List Bytes → S → Option Bytes × S
  first_record [] s = (none, s)
  first_record (name ∷ names) s =
      let (txts, s1) = txt_lookup name s in
      elim (record_in txts) [ some r ↦ (some r, s1) | none ↦ first_record names s1 ]

  abbrev pub names_of : Bytes → List Bytes
  names_of from_dom =
      let org = organizational_domain from_dom in
      if bytes_eq from_dom org
      then (codes "_dmarc." ++ from_dom) ∷ []
      else (codes "_dmarc." ++ from_dom) ∷ (codes "_dmarc." ++ org) ∷ []

  abbrev pub found_or : Bytes → Vouchers → Option Bytes × S → DmarcResult × S
  found_or from_dom v (rec, s) = (apply_record from_dom v rec, s)

  -- `evaluate_with_lookup`
  unfoldable pub evaluate : Bytes → Vouchers → S → DmarcResult × S
  unfolding apply_record
  evaluate from_header_domain v s =
      let from_dom = plain_domain from_header_domain in
      if is_empty from_dom
      then (not_found "no From domain", s)
      else found_or from_dom v (first_record (names_of from_dom) s)

-- `as_ar_result`
unfoldable pub as_ar_result : DmarcResult → Bytes
as_ar_result r =
    if not r.record_found then codes "none" else if r.passed then codes "pass" else codes "fail"
