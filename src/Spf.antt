-- ===== src/Spf.antt =====
-- src/spf.rs: the evaluation of a sender's policy. The resolver is the trait `SpfResolver`: its
-- methods may change a state of their own, which is passed along beside the count of lookups. The
-- parsers of the standard library's addresses are parameters. An include evaluates a domain anew,
-- so the recursion is on fuel, and `none` says that the fuel ran out: `evaluate-total` gives a bound
-- that the count of lookups guarantees.
mod Network
mod Record
pub mod Lookups
mod Examples
unfoldable pub use Network.*
unfoldable pub use Record.*
use Prim.Native.String.{String}
use desertemail.Prelude.{
  ℕ, zero, suc, ◌+◌, ◌-◌, ◌*◌, ◌/◌, ◌%◌, ◌^◌, ◌≤◌, ◌<◌, min, max, ◌≡◌, refl, sym, ap, ◌∙◌, ◌≢◌, ◌↔◌,
  ◌⊎◌, inl, inr, Bool, true, false, not, ◌&&◌, ◌||◌, Option, none, some, List, [], ◌∷◌, ◌++◌, map,
  arith, ltb, leb, ◌==◌, if◌then◌else◌, Bool-cases, Option-cases, ltb→lt, lt→ltb, le→leb, leb→le,
  ==_refl, u64_max, saturating_add, All, length, get_elem?, take, drop, retain, any, is_empty,
  length-append, retain-append, retain-All, take-length_append, drop-length_append, Bytes, codes,
  bytes_eq, bytes_eq_iff, bytes_eq_refl, lower_byte, to_lowercase, is_whitespace, trim_start,
  trim_end, trim_matches, strip_prefix, starts_with, split_once, split, join, split_whitespace,
  is_digit, parse_unsigned, Map, empty, insert, remove, get_or, filter_value, retain_values,
}

pub data SpfDnsErr : Type 0 where
  temp perm : SpfDnsErr

pub data Answer (A : Type 0) : Type 0 where
  ok : A → Answer A
  err : SpfDnsErr → Answer A

-- trait `SpfResolver`
pub record SpfResolver (S : Type 0) : Type 0 where
  pub txt : Bytes → S → Answer (List Bytes) × S
  pub a : Bytes → S → Answer (List IpAddr) × S
  pub mx : Bytes → S → Answer (List Bytes) × S

-- `Ipv4Addr::from_str` and `Ipv6Addr::from_str`
pub record AddrParsers : Type 0 where
  pub ipv4 : Bytes → Option ℕ
  pub ipv6 : Bytes → Option (List ℕ)

pub data MechMatch : Type 0 where
  matched unmatched temp_failure perm_failure : MechMatch
  included : SpfResult → MechMatch

abbrev pub max_dns_lookups : ℕ
max_dns_lookups = 10

abbrev pub max_include_depth : ℕ
max_include_depth = 10

module _ (std : AddrParsers) where
  -- `parse_ip_str`: `IpAddr::from_str` tries the two families in turn
  unfoldable pub parse_ip_str : Bytes → Option IpAddr
  parse_ip_str s =
      let plain =
        trim_end (λ c. c == b']') (trim_start (λ c. c == b'[') (trim_matches is_whitespace s)) in
      elim (std.ipv4 plain) [
        | some n ↦ some (v4 n)
        | none ↦ elim (std.ipv6 plain) [ some octets ↦ some (v6 octets) | none ↦ none ]
      ]

  unfoldable pub match_ip4 : IpAddr → Bytes → MechMatch
  match_ip4 (v6 _) spec = unmatched
  match_ip4 (v4 client) spec =
      let (addr, prefix) = split_cidr spec 32 in
      elim (std.ipv4 addr) [
        | none ↦ perm_failure
        | some network ↦
            if ipv4_in_network client network (min prefix 32) then matched else unmatched
      ]

  unfoldable pub match_ip6 : IpAddr → Bytes → MechMatch
  match_ip6 (v4 _) spec = unmatched
  match_ip6 (v6 client) spec =
      let (addr, prefix) = split_cidr spec 128 in
      elim (std.ipv6 addr) [
        | none ↦ perm_failure
        | some network ↦
            if ipv6_in_network client network (min prefix 128) then matched else unmatched
      ]

-- the count of lookups, and the resolver's state
pub record Budget (S : Type 0) : Type 0 where
  pub lookups : ℕ
  pub dns : S

module _ {S : Type 0} (resolver : SpfResolver S) where
  unfoldable pub any_address : IpAddr → ℕ → ℕ → List IpAddr → MechMatch
  any_address ip ip4_c ip6_c addrs =
      if any (addr_matches ip ip4_c ip6_c) addrs then matched else unmatched

  spend : Budget S → Budget S
  spend b = record b { lookups = b.lookups + 1 }

  unfoldable pub match_a : IpAddr → Bytes → Bytes → Budget S → MechMatch × Budget S
  unfolding spend
  match_a ip domain mech b =
      let (target, ip4_c, ip6_c) = parse_dual_cidr mech domain in
      if leb max_dns_lookups b.lookups
      then (perm_failure, b)
      else (let (answer, s) = resolver.a target b.dns in
          let b' = record (spend b) { dns = s } in
          elim answer [
            | ok addrs ↦ (any_address ip ip4_c ip6_c addrs, b')
            | err temp ↦ (temp_failure, b')
            | err perm ↦ (perm_failure, b')
          ])

  -- the loop of `match_mx` over the exchanges; an exchange that permanently has no address is
  -- passed over
  unfoldable pub match_exchanges : IpAddr → ℕ → ℕ → List Bytes → Budget S → MechMatch × Budget S
  unfolding spend
  match_exchanges ip ip4_c ip6_c [] b = (unmatched, b)
  match_exchanges ip ip4_c ip6_c (ex ∷ rest) b = elim (leb max_dns_lookups b.lookups) [
    | true ↦ (perm_failure, b)
    | false ↦
        let (answer, s) = resolver.a ex b.dns in
        let b' = record (spend b) { dns = s } in
        elim answer [
          | ok addrs ↦ elim (any (addr_matches ip ip4_c ip6_c) addrs) [
            | true ↦ (matched, b')
            | false ↦ match_exchanges ip ip4_c ip6_c rest b'
          ]
          | err temp ↦ (temp_failure, b')
          | err perm ↦ match_exchanges ip ip4_c ip6_c rest b'
        ]
  ]

  unfoldable pub use_exchanges :
      IpAddr → ℕ → ℕ → Answer (List Bytes) → Budget S → MechMatch × Budget S
  use_exchanges ip ip4_c ip6_c (ok exchanges) b = match_exchanges ip ip4_c ip6_c exchanges b
  use_exchanges ip ip4_c ip6_c (err temp) b = (temp_failure, b)
  use_exchanges ip ip4_c ip6_c (err perm) b = (perm_failure, b)

  unfoldable pub match_mx : IpAddr → Bytes → Bytes → Budget S → MechMatch × Budget S
  unfolding spend
  match_mx ip domain mech b =
      let (target, ip4_c, ip6_c) = parse_dual_cidr mech domain in
      if leb max_dns_lookups b.lookups
      then (perm_failure, b)
      else (let (answer, s) = resolver.mx target b.dns in
          use_exchanges ip ip4_c ip6_c answer (record (spend b) { dns = s }))

-- The evaluation of a domain at a depth of redirects; `none` when the fuel ran out.
abbrev pub Eval : Type 0 → Type 0
Eval S = Bytes → ℕ → Budget S → Option SpfResult × Budget S

-- The mechanism by its name, in the order of the source's tests. An include carries its domain.
pub data Mechanism : Type 0 where
  all : Mechanism
  ip4 ip6 : Bytes → Mechanism
  a_hosts mx_hosts other : Mechanism
  include : Bytes → Mechanism

abbrev is_named : String → Bytes → Bool
is_named name lower =
    bytes_eq lower (codes name)
    || starts_with (codes name ++ b':' ∷ []) lower
    || starts_with (codes name ++ b'/' ∷ []) lower

unfoldable pub mechanism : Bytes → Mechanism
mechanism mech =
    let lower = to_lowercase mech in
    if bytes_eq lower (codes "all") then all else elim (strip_prefix_ci mech (codes "ip4:")) [
      | some spec ↦ ip4 spec
      | none ↦ elim (strip_prefix_ci mech (codes "ip6:")) [
        | some spec ↦ ip6 spec
        | none ↦
            if is_named "a" lower
            then a_hosts
            else if is_named "mx" lower
            then mx_hosts
            else elim (strip_prefix_ci mech (codes "include:")) [
              | some domain ↦ include domain
              | none ↦ other
            ]
      ]
    ]

abbrev pub include_result : Option SpfResult → Option MechMatch
include_result none = none
include_result (some r) = some (included r)

abbrev pub is_spent : {S : Type 0} → Budget S → Bool
is_spent b = leb max_dns_lookups b.lookups

module _ {S : Type 0} (std : AddrParsers) (resolver : SpfResolver S) (ip : IpAddr) where
  -- `match_mechanism`; `exists`, `ptr` and unknown mechanisms never match
  unfoldable pub match_named :
      Eval S → Bytes → Bytes → Mechanism → Budget S → Option MechMatch × Budget S
  match_named rec domain mech all b = (some matched, b)
  match_named rec domain mech (ip4 spec) b = (some (match_ip4 std ip spec), b)
  match_named rec domain mech (ip6 spec) b = (some (match_ip6 std ip spec), b)
  match_named rec domain mech a_hosts b =
      let (m, b') = match_a resolver ip domain mech b in (some m, b')
  match_named rec domain mech mx_hosts b =
      let (m, b') = match_mx resolver ip domain mech b in (some m, b')
  match_named rec domain mech other b = (some unmatched, b)
  match_named rec domain mech (include rest) b =
      let inc_dom = normal_domain rest in
      if is_empty inc_dom
      then (some perm_failure, b)
      else if is_spent b
      then (some perm_failure, b)
      else (let (r, b') = rec inc_dom 0 b in (include_result r, b'))

  -- what a term says of the whole evaluation: a verdict, or go on
  unfoldable pub verdict : Qual → MechMatch → Option SpfResult
  unfolding to_result
  verdict qual matched = some (to_result qual)
  verdict qual unmatched = none
  verdict qual temp_failure = some temp_error
  verdict qual perm_failure = some perm_error
  verdict qual (included pass) = some (to_result qual)
  verdict qual (included temp_error) = some temp_error
  verdict qual (included perm_error) = some perm_error
  verdict qual (included _) = none

  -- the end of `evaluate_record`
  unfoldable pub follow_redirect :
      Eval S → ℕ → Option Bytes → Budget S → Option SpfResult × Budget S
  follow_redirect rec depth none b = (some neutral, b)
  follow_redirect rec depth (some redir) b =
      if is_spent b then (some perm_error, b) else rec redir (depth + 1) b

  -- the loop of `evaluate_record` over the terms behind the version
  unfoldable pub evaluate_terms :
      Eval S → Bytes → ℕ → Option Bytes → List Bytes → Budget S → Option SpfResult × Budget S
  evaluate_terms rec domain depth redirect [] b = follow_redirect rec depth redirect b
  evaluate_terms rec domain depth redirect (term ∷ terms) b =
      elim (strip_prefix (codes "redirect=") term) [
        | some rest ↦ evaluate_terms rec domain depth (some (normal_domain rest)) terms b
        | none ↦ elim (starts_with (codes "exp=") term) [
          | true ↦ evaluate_terms rec domain depth redirect terms b
          | false ↦
              let (qual, mech) = parse_qualifier term in
              let (found, b') = match_named rec domain mech (mechanism mech) b in
              elim found [
                | none ↦ (none, b')
                | some m ↦ elim (verdict qual m) [
                  | some r ↦ (some r, b')
                  | none ↦ evaluate_terms rec domain depth redirect terms b'
                ]
              ]
        ]
      ]

  unfoldable pub evaluate_record :
      Eval S → Bytes → ℕ → Bytes → Budget S → Option SpfResult × Budget S
  evaluate_record rec domain depth record_text =
      evaluate_terms rec domain depth none (drop 1 (split_whitespace record_text))

  unfoldable pub use_policy :
      Eval S → Bytes → ℕ → Answer (List Bytes) → Budget S → Option SpfResult × Budget S
  use_policy rec domain depth (err temp) b = (some temp_error, b)
  use_policy rec domain depth (err perm) b = (some perm_error, b)
  use_policy rec domain depth (ok txts) b = elim (find_spf_record txts) [
    | none ↦ (some none_found, b)
    | some text ↦ evaluate_record rec domain depth text b
  ]

  -- the rest of `evaluate_domain`, behind its two guards
  unfoldable pub query_policy : Eval S → Eval S
  query_policy rec domain depth b =
      let (answer, s) = resolver.txt domain b.dns in
      use_policy rec domain depth answer (record b { lookups = b.lookups + 1; dns = s })

  unfoldable pub evaluate_domain : ℕ → Eval S
  evaluate_domain zero domain depth b = (none, b)
  evaluate_domain (suc fuel) domain depth b =
      if ltb max_include_depth depth
      then (some perm_error, b)
      else if is_spent b
      then (some perm_error, b)
      else query_policy (evaluate_domain fuel) domain depth b

-- one more than the lookups that may be made
abbrev pub enough_fuel : ℕ
enough_fuel = max_dns_lookups + 1

module _ {S : Type 0} (std : AddrParsers) (resolver : SpfResolver S) where
  -- `check_spf_with`
  unfoldable pub check_spf : Bytes → Bytes → Bytes → S → Option SpfResult × S
  check_spf client_ip helo mail_from_domain s = elim (parse_ip_str std client_ip) [
    | none ↦ (some perm_error, s)
    | some ip ↦
        let domain = normal_domain (if is_empty mail_from_domain then helo else mail_from_domain) in
        if is_empty domain
        then (some none_found, s)
        else (let (r, b) =
              evaluate_domain std resolver ip enough_fuel domain 0
                (record { lookups = 0; dns = s }) in
            (r, b.dns))
  ]
