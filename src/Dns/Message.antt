-- ===== src/Dns/Message.antt =====
-- src/dns.rs: whole messages, and what a resolver makes of the answers. The exchange of packets with
-- a resolver is the parameter `query_once`.
use desertemail.Prelude.{
  ℕ, zero, suc, ◌+◌, ◌/◌, ◌%◌, Bool, true, false, not, ◌&&◌, ◌||◌, Option, none, some, List, [],
  ◌∷◌, ◌++◌, map, ltb, leb, ◌==◌, if◌then◌else◌, length, take, drop, is_empty, Bytes, to_lowercase,
  trim_end,
}
use mathlib.Core.Option
use desertemail.Dns.Wire.{
  DnsError, too_short, id_mismatch, rcode, Result, ok, err, ◌>>=◌, u16_bytes, u16_at, slice,
  encode_name, parse_name, skip_name, is_dot,
}

abbrev pub qtype_ns : ℕ
qtype_ns = 2

abbrev pub qtype_cname : ℕ
qtype_cname = 5

abbrev pub qtype_ptr : ℕ
qtype_ptr = 12

abbrev pub qtype_mx : ℕ
qtype_mx = 15

abbrev pub qtype_txt : ℕ
qtype_txt = 16

pub record DnsAnswer : Type 0 where
  pub rtype : ℕ
  pub rdata : Bytes
  pub rdata_name : Option Bytes

-- identifier, RD set, one question, and three counts of zero
abbrev pub query_header : ℕ → Bytes
query_header id = u16_bytes id ++ 1 ∷ 0 ∷ 0 ∷ 1 ∷ 0 ∷ 0 ∷ 0 ∷ 0 ∷ 0 ∷ 0 ∷ []

-- `none` is the error "bad DNS label"
unfoldable pub build_query : ℕ → Bytes → ℕ → Option Bytes
build_query id name qtype =
    Option.map (λ enc. query_header id ++ (enc ++ (u16_bytes qtype ++ u16_bytes 1)))
      (encode_name name)

unfoldable pub skip_questions : (Bytes → Bytes) → Bytes → ℕ → ℕ → Result ℕ
skip_questions lossy resp zero pos = ok pos
skip_questions lossy resp (suc n) pos =
    skip_name lossy resp pos >>= λ p. skip_questions lossy resp n (p + 4)

abbrev name_of : Result (Bytes × ℕ) → Option Bytes
name_of (ok p) = some p.0
name_of (err e) = none

-- the record whose fixed part is at `pos`
abbrev pub answer_at : (Bytes → Bytes) → Bytes → ℕ → DnsAnswer
answer_at lossy resp pos =
    let rtype = u16_at resp pos in
    let rdlength = u16_at resp (pos + 8) in
    record {
      rtype = rtype;
      rdata = slice resp (pos + 10) rdlength;
      rdata_name =
          if rtype == qtype_mx && leb 3 rdlength
          then name_of (parse_name lossy resp (pos + 12))
          else if rtype == qtype_ptr || rtype == qtype_cname || rtype == qtype_ns
          then name_of (parse_name lossy resp (pos + 10))
          else none;
    }

-- The loop over the answers ends early, without an error, where a record is cut off.
unfoldable pub read_answers : (Bytes → Bytes) → Bytes → ℕ → ℕ → Result (List DnsAnswer)
read_answers lossy resp zero pos = ok []
read_answers lossy resp (suc n) start = skip_name lossy resp start >>= λ pos.
    elim (ltb (length resp) (pos + 10)) [
      | true ↦ ok []
      | false ↦ elim (ltb (length resp) (pos + 10 + u16_at resp (pos + 8))) [
        | true ↦ ok []
        | false ↦ read_answers lossy resp n (pos + 10 + u16_at resp (pos + 8)) >>= λ rest.
            ok (answer_at lossy resp pos ∷ rest)
      ]
    ]

-- `query_once` behind the reception. The flag is the TC bit.
unfoldable pub parse_response : (Bytes → Bytes) → ℕ → Bytes → Result (List DnsAnswer × Bool)
parse_response lossy id resp =
    let flags = u16_at resp 2 in
    let truncated = not (flags / 512 % 2 == 0) in
    let body = skip_questions lossy resp (u16_at resp 4) 12 >>= λ pos.
    read_answers lossy resp (u16_at resp 6) pos >>= λ answers. ok (answers, truncated) in
    if ltb (length resp) 12
    then err too_short
    else if not (u16_at resp 0 == id)
    then err id_mismatch
    else if flags % 16 == 0
    then body
    else if flags % 16 == 3
    then ok ([], truncated)
    else err (rcode (flags % 16))

-- The length-prefixed strings of a TXT record, one after another. Each round takes a byte at least.
unfoldable pub decode_strings : ℕ → (Bytes → Bytes) → Bytes → Option Bytes
decode_strings fuel lossy [] = some []
decode_strings zero lossy (len ∷ rest) = none
decode_strings (suc fuel) lossy (len ∷ rest) = elim (ltb (length rest) len) [
  | true ↦ none
  | false ↦
      Option.map (λ text. lossy (take len rest) ++ text) (decode_strings fuel lossy (drop len rest))
]

unfoldable pub decode_txt_rdata : (Bytes → Bytes) → Bytes → Option Bytes
unfolding decode_strings
decode_txt_rdata lossy rdata = decode_strings (length rdata) lossy rdata

module _ {R : Type 0} (query_once : R → Bytes → ℕ → Bool → Result (List DnsAnswer × Bool))
    (no_resolvers : DnsError) where
  -- a truncated answer is asked for once more, and kept if that fails
  abbrev pub again : List DnsAnswer → Result (List DnsAnswer × Bool) → Result (List DnsAnswer)
  again answers (ok p) = ok p.0
  again answers (err _) = ok answers

  query_from : DnsError → List R → Bytes → ℕ → Result (List DnsAnswer)
  query_from last_err [] name qtype = err last_err
  query_from last_err (r ∷ rs) name qtype = elim (query_once r name qtype false) [
    | ok (answers, truncated) ↦
        if truncated then again answers (query_once r name qtype true) else ok answers
    | err e ↦ query_from e rs name qtype
  ]

  unfoldable pub query : List R → Bytes → ℕ → Result (List DnsAnswer)
  unfolding query_from
  query = query_from no_resolvers

pub record MxRecord : Type 0 where
  pub preference : ℕ
  pub exchange : Bytes

unfoldable pub host_name : Bytes → Bytes
host_name s = to_lowercase (trim_end is_dot s)

abbrev mx_named : DnsAnswer → Option Bytes → Option MxRecord
mx_named ans none = none
mx_named ans (some name) =
    some (record { preference = u16_at ans.rdata 0; exchange = host_name name })

unfoldable pub mx_of : DnsAnswer → Option MxRecord
mx_of ans =
    if not (ans.rtype == qtype_mx)
    then none
    else if ltb (length ans.rdata) 3
    then none
    else mx_named ans ans.rdata_name

abbrev pub keep_some {ℓ} : {A : Type ℓ} → Option A → List A → List A
keep_some none xs = xs
keep_some (some x) xs = x ∷ xs

unfoldable pub mx_records : List DnsAnswer → List MxRecord
mx_records [] = []
mx_records (ans ∷ answers) = keep_some (mx_of ans) (mx_records answers)

-- `sort_by_key` on the preference, which is stable
unfoldable pub insert_mx : MxRecord → List MxRecord → List MxRecord
insert_mx m [] = m ∷ []
insert_mx m (x ∷ xs) =
    let rest = insert_mx m xs in if leb m.preference x.preference then m ∷ x ∷ xs else x ∷ rest

unfoldable pub sort_mx : List MxRecord → List MxRecord
sort_mx [] = []
sort_mx (m ∷ ms) = insert_mx m (sort_mx ms)

-- `resolve_mx`, over the query for the domain
unfoldable pub resolve_mx : (Bytes → ℕ → Result (List DnsAnswer)) → Bytes → Result (List MxRecord)
resolve_mx query domain =
    let name = host_name domain in
    if is_empty name
    then ok []
    else query name qtype_mx >>= λ answers. ok (sort_mx (mx_records answers))

abbrev hosts_of : Bytes → List MxRecord → List Bytes
hosts_of domain [] = host_name domain ∷ []
hosts_of domain (m ∷ ms) = map (λ (x : MxRecord). x.exchange) (m ∷ ms)

unfoldable pub smtp_hosts_for_domain :
    (Bytes → ℕ → Result (List DnsAnswer)) → Bytes → Result (List Bytes)
smtp_hosts_for_domain query domain = resolve_mx query domain >>= λ mxs. ok (hosts_of domain mxs)
