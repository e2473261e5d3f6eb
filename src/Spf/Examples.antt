-- ===== src/Spf/Examples.antt =====
-- Records of a small zone, answered by a resolver that counts its calls.
use Prim.Native.String.{String}
use desertemail.Prelude.{
  ℕ, ◌+◌, ◌/◌, ◌^◌, ◌≤◌, ◌≡◌, refl, Option, none, some, List, [], ◌∷◌, arith, ◌==◌, if◌then◌else◌,
  Bytes, codes, bytes_eq, to_lowercase, trim_matches, strip_prefix, starts_with, split_once,
  split_whitespace, parse_unsigned,
}
use desertemail.Spf.{
  SpfResult, pass, SpfResolver, AddrParsers, ok, err, temp, perm, Budget, max_dns_lookups,
  ipv4_in_network, ipv4_in_network-prefix, check_spf, evaluate_domain, query_policy, use_policy,
  evaluate_record, evaluate_terms, match_named, match_ip4, mechanism, verdict, follow_redirect,
  parse_ip_str, split_cidr, strip_prefix_ci, normal_domain, parse_qualifier, find_spf_record,
}
use desertemail.Spf.Lookups.{Counts, check_spf-total}

ipv4_in_network-prefix_example :
    ipv4_in_network 0xc6336401 0xc6336400 24 ≡ (0xc6336401 / 2 ^ 8 == 0xc6336400 / 2 ^ 8)
ipv4_in_network-prefix_example =
    ipv4_in_network-prefix 0xc6336401 0xc6336400 24 (omega arith) (omega arith)

-- the addresses that the records name
abbrev std : AddrParsers
std = record {
  ipv4 = λ s.
      if bytes_eq s (codes "192.0.2.1")
      then some 0xc0000201
      else if bytes_eq s (codes "192.0.2.0")
      then some 0xc0000200
      else none;
  ipv6 = λ s. none;
}

abbrev zone : Bytes → List Bytes
zone name =
    if bytes_eq name (codes "example.com")
    then codes "v=spf1 include:relay.org -all" ∷ []
    else if bytes_eq name (codes "relay.org")
    then codes "other text" ∷ codes "V=SPF1 ip4:192.0.2.0/24 ~all" ∷ []
    else if bytes_eq name (codes "loop.net")
    then codes "v=spf1 redirect=loop.net" ∷ []
    else []

abbrev counting : SpfResolver ℕ
counting = record {
  txt = λ name n. (ok (zone name), n + 1);
  a = λ name n. (err temp, n + 1);
  mx = λ name n. (err perm, n + 1);
}

counts : Counts counting (λ n. n)
counts = record {
  txt_once = λ name s. omega arith;
  a_once = λ name s. omega arith;
  mx_once = λ name s. omega arith;
}

abbrev check : String → String → Option SpfResult × ℕ
check client domain = check_spf std counting (codes client) [] (codes domain) 0

included_pass : check "192.0.2.1" "Example.com." ≡ (some pass, 2)
unfolding check_spf evaluate_domain query_policy use_policy evaluate_record evaluate_terms
    match_named match_ip4 mechanism verdict follow_redirect parse_ip_str split_cidr strip_prefix_ci
    normal_domain parse_qualifier find_spf_record ipv4_in_network bytes_eq to_lowercase trim_matches
    starts_with strip_prefix split_once split_whitespace parse_unsigned
included_pass = refl

abbrev start : Budget ℕ
start = record { lookups = 0; dns = 0 }

check_spf-total_example :
    (r : SpfResult) × ((check "192.0.2.1" "loop.net").0 ≡ some r)
    × ((check "192.0.2.1" "loop.net").1 ≤ 0 + max_dns_lookups)
check_spf-total_example =
    check_spf-total std counting (λ n. n) counts (codes "192.0.2.1") [] (codes "loop.net") 0
