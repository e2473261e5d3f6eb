-- ===== src/Dns/Examples.antt =====
-- A query for one name, as it goes over the wire, and answers of a resolver.
use mathlib.Core.List.{Perm}
use desertemail.Prelude.{
  ℕ, ◌≤◌, ◌≡◌, refl, ◌≢◌, ◌⊎◌, Bool, false, some, List, [], ◌∷◌, ◌++◌, All, length, is_empty, Bytes,
  codes, to_lowercase, trim_end, split,
}
use desertemail.Dns.{
  ok, err, encode_name, encode_labels, parse_name, build_query, parse_response, DnsAnswer,
  resolve_mx, MxRecord, host_name, qtype_mx, is_dot,
}
use desertemail.Dns.{DnsError, exhausted, u16_at}
use desertemail.Dns.Answers.{LieIn, parse_response-ends}
use desertemail.Dns.RoundTrip.{read_as, parse_name-encode_name}
use desertemail.Dns.Hosts.{Ascending, exchange, no_answers, of_preference, resolve_mx-sorted}

abbrev name : Bytes
name = codes "ab.c."

abbrev wire : Bytes
wire = 2 ∷ b'a' ∷ b'b' ∷ 1 ∷ b'c' ∷ 0 ∷ []

abbrev keep : Bytes → Bytes
keep b = b

encodes_name : encode_name name ≡ some wire
unfolding encode_name encode_labels trim_end split
encodes_name = refl

labels_kept : All (λ l. keep l ≡ l) (split b'.' (trim_end is_dot name))
unfolding trim_end split
labels_kept = (refl, (refl, tt))

parse_name-encode_name_example :
    parse_name keep ((7 ∷ 7 ∷ []) ++ (wire ++ 9 ∷ [])) 2 ≡ ok (read_as name, 8)
parse_name-encode_name_example =
    parse_name-encode_name keep name (7 ∷ 7 ∷ []) wire (9 ∷ []) encodes_name labels_kept

abbrev packet : Bytes
packet = 1 ∷ 2 ∷ 1 ∷ 0 ∷ 0 ∷ 1 ∷ 0 ∷ 0 ∷ 0 ∷ 0 ∷ 0 ∷ 0 ∷ (wire ++ 0 ∷ 15 ∷ 0 ∷ 1 ∷ [])

built : build_query 258 name 15 ≡ some packet
unfolding build_query encode_name encode_labels trim_end split
built = refl

abbrev mx : ℕ → Bytes → DnsAnswer
mx preference host = record {
  rtype = qtype_mx;
  rdata = 0 ∷ preference ∷ 0 ∷ [];
  rdata_name = some host;
}

abbrev answers : List DnsAnswer
answers = mx 20 (codes "b.org.") ∷ mx 10 (codes "a.org") ∷ []

named : is_empty (host_name (codes "Example.org.")) ≡ false
unfolding host_name trim_end to_lowercase
named = refl

abbrev exchanges : List MxRecord
exchanges =
    record { preference = 20; exchange = host_name (codes "b.org.") }
    ∷ record { preference = 10; exchange = host_name (codes "a.org") }
    ∷ []

resolve_mx-sorted_example :
    (mxs : List MxRecord) × (resolve_mx (λ n t. ok answers) (codes "Example.org.") ≡ ok mxs)
    × Ascending mxs
    × Perm mxs exchanges
    × ((k : ℕ) → of_preference k mxs ≡ of_preference k exchanges)
resolve_mx-sorted_example =
    resolve_mx-sorted (λ n t. ok answers) (codes "Example.org.") answers exchanges named refl
      (exchange (exchange no_answers))

-- a pointer to itself
abbrev looping : Bytes
looping = 192 ∷ 0 ∷ []

parse_response-ends_example :
    ((out : List DnsAnswer × Bool) × (parse_response keep 258 packet ≡ ok out)
      × (length out.0 ≤ u16_at packet 6)
      × (start : ℕ) × (12 ≤ start)
      × LieIn keep packet start out.0)
    ⊎ ((e : DnsError) × (parse_response keep 258 packet ≡ err e) × (e ≢ exhausted))
parse_response-ends_example = parse_response-ends keep 258 packet
