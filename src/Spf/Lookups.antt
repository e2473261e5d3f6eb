-- ===== src/Spf/Lookups.antt =====
-- The evaluation ends, and calls the resolver ten times at most. `calls` is any measure of the
-- resolver's state that a call raises by one at most, such as a count of its calls.
use desertemail.Prelude.{
  ℕ, zero, suc, ◌+◌, ◌≤◌, ◌<◌, ◌≡◌, refl, ap, inl, inr, Option, none, some, List, [], ◌∷◌, arith,
  ltb, if◌then◌else◌, Bool-cases, Option-cases, drop, is_empty, Bytes, codes, strip_prefix,
  starts_with, split_whitespace,
}
use desertemail.Spf.{
  IpAddr, SpfResult, SpfResolver, AddrParsers, Answer, ok, err, temp, perm, Mechanism, Budget, Eval,
  max_dns_lookups, max_include_depth, perm_error, none_found, parse_ip_str, find_spf_record,
  enough_fuel, include_result, all, ip4, ip6, a_hosts, mx_hosts, other, include, match_a, match_mx,
  match_exchanges, use_exchanges, use_policy, included, normal_domain, match_named, follow_redirect,
  evaluate_terms, evaluate_record, query_policy, evaluate_domain, check_spf, parse_dual_cidr,
  is_spent, verdict, mechanism, parse_qualifier,
}

-- Each call of the resolver counts once at most.
pub record Counts {S : Type 0} (resolver : SpfResolver S) (calls : S → ℕ) : Type 0 where
  pub txt_once : (name : Bytes) (s : S) → calls (resolver.txt name s).1 ≤ calls s + 1
  pub a_once : (name : Bytes) (s : S) → calls (resolver.a name s).1 ≤ calls s + 1
  pub mx_once : (name : Bytes) (s : S) → calls (resolver.mx name s).1 ≤ calls s + 1

module _ {S : Type 0} (calls : S → ℕ) where
  -- From `b` to `b'` the count of lookups grew by as many as the resolver was called, or more, and
  -- it is within its limit.
  record Spends (b b' : Budget S) : Type 0 where
    grows : b.lookups ≤ b'.lookups
    within : b'.lookups ≤ max_dns_lookups
    paid : calls b'.dns + b.lookups ≤ calls b.dns + b'.lookups

  Spends-refl : (b : Budget S) → b.lookups ≤ max_dns_lookups → Spends b b
  Spends-refl b h = omega arith

  Spends-trans : (a b c : Budget S) → Spends a b → Spends b c → Spends a c
  Spends-trans a b c p q = omega arith

  Spends-once :
      (b : Budget S) (s : S)
      → b.lookups < max_dns_lookups
      → calls s ≤ calls b.dns + 1
      → Spends b (record { lookups = b.lookups + 1; dns = s })
  Spends-once b s h k = omega arith

module _ {S : Type 0} (resolver : SpfResolver S) (calls : S → ℕ)
    (counts : Counts resolver calls) where
  match_a-Spends :
      (ip : IpAddr) (domain mech : Bytes) (b : Budget S)
      → b.lookups ≤ max_dns_lookups
      → Spends calls b (match_a resolver ip domain mech b).1
  unfolding match_a
  match_a-Spends ip domain mech b h =
      ground (arith, counts.a_once (parse_dual_cidr mech domain).0 b.dns)

  match_exchanges-Spends :
      (ip : IpAddr) (c4 c6 : ℕ) (exs : List Bytes) (b : Budget S)
      → b.lookups ≤ max_dns_lookups
      → Spends calls b (match_exchanges resolver ip c4 c6 exs b).1
  unfolding match_exchanges
  match_exchanges-Spends ip c4 c6 [] b h = omega arith
  match_exchanges-Spends ip c4 c6 (ex ∷ rest) b h = ground (
    arith,
    counts.a_once ex b.dns,
    match_exchanges-Spends ip c4 c6 rest
        (record { lookups = b.lookups + 1; dns = (resolver.a ex b.dns).1 }),
  )

  use_exchanges-Spends :
      (ip : IpAddr) (c4 c6 : ℕ) (answer : Answer (List Bytes)) (b : Budget S)
      → b.lookups ≤ max_dns_lookups
      → Spends calls b (use_exchanges resolver ip c4 c6 answer b).1
  unfolding use_exchanges
  use_exchanges-Spends ip c4 c6 (ok exs) b h = match_exchanges-Spends ip c4 c6 exs b h
  use_exchanges-Spends ip c4 c6 (err temp) b h = Spends-refl calls b h
  use_exchanges-Spends ip c4 c6 (err perm) b h = Spends-refl calls b h

  match_mx-Spends :
      (ip : IpAddr) (domain mech : Bytes) (b : Budget S)
      → b.lookups ≤ max_dns_lookups
      → Spends calls b (match_mx resolver ip domain mech b).1
  unfolding match_mx
  match_mx-Spends ip domain mech b h =
      let (target, c4, c6) = parse_dual_cidr mech domain in
      let (answer, s) = resolver.mx target b.dns in
      ground (
        arith,
        counts.mx_once target b.dns,
        use_exchanges-Spends ip c4 c6 answer (record { lookups = b.lookups + 1; dns = s }),
      )

-- What is shown of an evaluation from `b`: it has a result, and spends as it should.
record Ends {S : Type 0} (calls : S → ℕ) {A : Type 0} (b : Budget S) (out : Option A × Budget S)
    : Type 0 where
  result : A
  returned : out.0 ≡ some result
  spends : Spends calls b out.1

-- A recursive call ends from every budget that leaves it `fuel` lookups at most.
record Recurses {S : Type 0} (calls : S → ℕ) (fuel : ℕ) (rec : Eval S) : Type 0 where
  ends :
      (domain : Bytes) (depth : ℕ) (b : Budget S)
      → b.lookups ≤ max_dns_lookups
      → max_dns_lookups < b.lookups + fuel
      → Ends calls b (rec domain depth b)

module _ {S : Type 0} (std : AddrParsers) (resolver : SpfResolver S) (ip : IpAddr) (calls : S → ℕ)
    (counts : Counts resolver calls) (fuel : ℕ) (rec : Eval S)
    (recurses : Recurses calls fuel rec) where
  included-Ends :
      (domain : Bytes) (b : Budget S)
      → b.lookups ≤ max_dns_lookups
      → max_dns_lookups < b.lookups + fuel
      → Ends calls b (include_result (rec domain 0 b).0, (rec domain 0 b).1)
  included-Ends domain b h f =
      let e = recurses.ends domain 0 b h f in
      record {
        result = included e.result;
        returned = ap include_result e.returned;
        spends = e.spends;
      }

  match_named-Ends :
      (domain mech : Bytes) (m : Mechanism) (b : Budget S)
      → b.lookups ≤ max_dns_lookups
      → max_dns_lookups < b.lookups + fuel
      → Ends calls b (match_named std resolver ip rec domain mech m b)
  unfolding match_named
  match_named-Ends domain mech all b h f = record {
    result = _;
    returned = refl;
    spends = Spends-refl calls b h;
  }
  match_named-Ends domain mech (ip4 spec) b h f = record {
    result = _;
    returned = refl;
    spends = Spends-refl calls b h;
  }
  match_named-Ends domain mech (ip6 spec) b h f = record {
    result = _;
    returned = refl;
    spends = Spends-refl calls b h;
  }
  match_named-Ends domain mech other b h f = record {
    result = _;
    returned = refl;
    spends = Spends-refl calls b h;
  }
  match_named-Ends domain mech a_hosts b h f = record {
    result = _;
    returned = refl;
    spends = match_a-Spends resolver calls counts ip domain mech b h;
  }
  match_named-Ends domain mech mx_hosts b h f = record {
    result = _;
    returned = refl;
    spends = match_mx-Spends resolver calls counts ip domain mech b h;
  }
  match_named-Ends domain mech (include rest) b h f =
      elim (Bool-cases (is_empty (normal_domain rest))) [
        | inl bare ↦
            rw bare (record { result = _; returned = refl; spends = Spends-refl calls b h })
        | inr named ↦ rw named (elim (Bool-cases (is_spent b)) [
          | inl spent ↦
              rw spent (record { result = _; returned = refl; spends = Spends-refl calls b h })
          | inr left ↦ rw left (included-Ends (normal_domain rest) b h f)
        ])
      ]

  follow_redirect-Ends :
      (depth : ℕ) (redirect : Option Bytes) (b : Budget S)
      → b.lookups ≤ max_dns_lookups
      → max_dns_lookups < b.lookups + fuel
      → Ends calls b (follow_redirect std resolver ip rec depth redirect b)
  unfolding follow_redirect
  follow_redirect-Ends depth none b h f = record {
    result = _;
    returned = refl;
    spends = Spends-refl calls b h;
  }
  follow_redirect-Ends depth (some redir) b h f = elim (Bool-cases (is_spent b)) [
    | inl spent ↦ rw spent (record { result = _; returned = refl; spends = Spends-refl calls b h })
    | inr left ↦ rw left (recurses.ends redir (depth + 1) b h f)
  ]

  Ends-later :
      {A : Type 0} (b c : Budget S) (out : Option A × Budget S)
      → Spends calls b c
      → Ends calls c out
      → Ends calls b out
  Ends-later b c out p e = record {
    result = e.result;
    returned = e.returned;
    spends = Spends-trans calls b c out.1 p e.spends;
  }

  evaluate_terms-Ends :
      (domain : Bytes) (depth : ℕ) (redirect : Option Bytes) (terms : List Bytes) (b : Budget S)
      → b.lookups ≤ max_dns_lookups
      → max_dns_lookups < b.lookups + fuel
      → Ends calls b (evaluate_terms std resolver ip rec domain depth redirect terms b)
  unfolding evaluate_terms strip_prefix
  evaluate_terms-Ends domain depth redirect [] b h f = follow_redirect-Ends depth redirect b h f
  evaluate_terms-Ends domain depth redirect (term ∷ terms) b h f =
      elim (Option-cases (strip_prefix (codes "redirect=") term)) [
        | inl (rest, e) ↦
            rw e (evaluate_terms-Ends domain depth (some (normal_domain rest)) terms b h f)
        | inr plain ↦ rw plain (elim (Bool-cases (starts_with (codes "exp=") term)) [
          | inl explain ↦ rw explain (evaluate_terms-Ends domain depth redirect terms b h f)
          | inr mechanism_term ↦ rw mechanism_term (
              let (qual, mech) = parse_qualifier term in
              let m = match_named-Ends domain mech (mechanism mech) b h f in
              let b' = (match_named std resolver ip rec domain mech (mechanism mech) b).1 in
              rw m.returned (elim (Option-cases (verdict std resolver ip qual m.result)) [
                | inl (r, decided) ↦
                    rw decided (record { result = r; returned = refl; spends = m.spends })
                | inr open_still ↦ rw open_still (
                    Ends-later b b' _ m.spends (
                      evaluate_terms-Ends domain depth redirect terms b' m.spends.within
                        (omega (arith, m.spends))))
              ]))
        ])
      ]

  use_policy-Ends :
      (domain : Bytes) (depth : ℕ) (answer : Answer (List Bytes)) (b : Budget S)
      → b.lookups ≤ max_dns_lookups
      → max_dns_lookups < b.lookups + fuel
      → Ends calls b (use_policy std resolver ip rec domain depth answer b)
  unfolding use_policy evaluate_record
  use_policy-Ends domain depth (err temp) b h f = record {
    result = _;
    returned = refl;
    spends = Spends-refl calls b h;
  }
  use_policy-Ends domain depth (err perm) b h f = record {
    result = _;
    returned = refl;
    spends = Spends-refl calls b h;
  }
  use_policy-Ends domain depth (ok txts) b h f = elim (Option-cases (find_spf_record txts)) [
    | inr absent ↦
        rw (absent, use_policy)
          (record { result = _; returned = refl; spends = Spends-refl calls b h })
    | inl (text, e) ↦
        rw (e, use_policy)
          (evaluate_terms-Ends domain depth none (drop 1 (split_whitespace text)) b h f)
  ]

module _ {S : Type 0} (std : AddrParsers) (resolver : SpfResolver S) (calls : S → ℕ)
    (counts : Counts resolver calls) where
  evaluate_domain-Recurses :
      (ip : IpAddr) (fuel : ℕ) → Recurses calls fuel (evaluate_domain std resolver ip fuel)
  unfolding evaluate_domain query_policy
  evaluate_domain-Recurses ip zero = record { ends = λ domain depth b h f. absurd (omega arith) }
  evaluate_domain-Recurses ip (suc fuel) = record {
    ends = λ domain depth b h f. elim (Bool-cases (ltb max_include_depth depth)) [
      | inl deep ↦ rw deep (record { result = _; returned = refl; spends = Spends-refl calls b h })
      | inr shallow ↦ rw shallow (elim (Bool-cases (is_spent b)) [
        | inl spent ↦
            rw spent (record { result = _; returned = refl; spends = Spends-refl calls b h })
        | inr left ↦ rw left (
            let (answer, s) = resolver.txt domain b.dns in
            let b' : Budget S = record { lookups = b.lookups + 1; dns = s } in
            let once = Spends-once calls b s (ground arith) (counts.txt_once domain b.dns) in
            Ends-later std resolver ip calls counts fuel _ (evaluate_domain-Recurses ip fuel) b b' _
              once
              (use_policy-Ends std resolver ip calls counts fuel _
                (evaluate_domain-Recurses ip fuel) domain depth answer b' (ground arith)
                (ground arith)))
      ])
    ];
  }

  -- From a count of lookups within the limit, an evaluation whose fuel covers the lookups left
  -- returns a result: it never runs out of fuel, whatever the records and the answers.
  pub evaluate-total :
      (ip : IpAddr) (fuel : ℕ) (domain : Bytes) (depth : ℕ) (b : Budget S)
      → b.lookups ≤ max_dns_lookups
      → max_dns_lookups < b.lookups + fuel
      → (r : SpfResult) × ((evaluate_domain std resolver ip fuel domain depth b).0 ≡ some r)
        × ((evaluate_domain std resolver ip fuel domain depth b).1.lookups ≤ max_dns_lookups)
  evaluate-total ip fuel domain depth b h f =
      let e = (evaluate_domain-Recurses ip fuel).ends domain depth b h f in
      (e.result, e.returned, e.spends.within)

  -- A check always returns a result, and it has called the resolver ten times at most.
  pub check_spf-total :
      (client_ip helo mail_from_domain : Bytes) (s : S)
      → (r : SpfResult) × ((check_spf std resolver client_ip helo mail_from_domain s).0 ≡ some r)
        × (calls (check_spf std resolver client_ip helo mail_from_domain s).1
            ≤ calls s + max_dns_lookups)
  unfolding check_spf
  check_spf-total client_ip helo mail_from_domain s =
      let domain = normal_domain (if is_empty mail_from_domain then helo else mail_from_domain) in
      elim (Option-cases (parse_ip_str std client_ip)) [
        | inr bad ↦ rw (bad, check_spf) (perm_error, refl, omega arith)
        | inl (ip, good) ↦
            rw (good, check_spf)
              (elim (Bool-cases (is_empty domain)) [
                | inl bare ↦ rw bare (none_found, refl, omega arith)
                | inr named ↦
                    let e =
                      (evaluate_domain-Recurses ip enough_fuel).ends domain 0
                        (record { lookups = 0; dns = s }) (omega arith) (omega arith) in
                    rw named (e.result, e.returned, omega (arith, e.spends))
              ])
      ]
