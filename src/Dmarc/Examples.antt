-- ===== src/Dmarc/Examples.antt =====
-- A message whose signature passes for another host of the author's organization.
use desertemail.Prelude.{
  ℕ, ◌+◌, ◌≡◌, refl, ◌⊎◌, true, Option, none, some, List, [], ◌∷◌, if◌then◌else◌, Bytes, codes,
  bytes_eq, to_lowercase, trim_start, trim_end, trim_matches, strip_prefix, starts_with, split_once,
  split, join,
}
use desertemail.Spf.{pass, fail}
use desertemail.Dmarc.Domains.{
  organizational_domain, plain_domain, domains_align, is_multi_level_tld,
}
use desertemail.Dmarc.{
  reject, dkim_pass, Vouchers, evaluate, apply_record, first_record, find_dmarc_record,
  parse_dmarc_tags, parse_policy, parse_align, spf_aligned, dkim_aligned,
}
use desertemail.Dmarc.Alignment.{IsAligned, IsSigned, evaluate-IsVouched}

abbrev strict_record : Bytes → ℕ → Option (List Bytes) × ℕ
strict_record name n =
    if bytes_eq name (codes "_dmarc.example.co.uk")
    then (some (codes "v=DMARC1; p=reject; aspf=s" ∷ []), n + 1)
    else (none, n + 1)

abbrev signed : Vouchers
signed = record {
  spf_result = fail;
  spf_domain = codes "elsewhere.net";
  dkim_results = record { status = dkim_pass; domain = codes "mail.Example.co.uk" } ∷ [];
}

passes : (evaluate strict_record (codes "News.example.co.uk.") signed 0).0.passed ≡ true
unfolding evaluate apply_record first_record find_dmarc_record organizational_domain plain_domain
    is_multi_level_tld parse_dmarc_tags parse_align spf_aligned dkim_aligned domains_align bytes_eq
    to_lowercase trim_matches trim_start trim_end starts_with strip_prefix split split_once join
passes = refl

evaluate-IsVouched_example :
    ((fail ≡ pass) × IsAligned (codes "News.example.co.uk.") (codes "elsewhere.net"))
    ⊎ IsSigned (codes "News.example.co.uk.") signed.dkim_results
evaluate-IsVouched_example =
    evaluate-IsVouched strict_record (codes "News.example.co.uk.") signed 0 passes

-- the same message unsigned is to be rejected
refused :
    (evaluate strict_record
      (codes "example.co.uk")
      (record signed { dkim_results = [] })
      0).0.disposition
    ≡ reject
unfolding evaluate apply_record first_record find_dmarc_record organizational_domain plain_domain
    is_multi_level_tld parse_dmarc_tags parse_align parse_policy spf_aligned dkim_aligned
    domains_align bytes_eq to_lowercase trim_matches trim_start trim_end starts_with strip_prefix
    split split_once join
refused = refl
