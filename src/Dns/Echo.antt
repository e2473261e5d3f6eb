-- ===== src/Dns/Echo.antt =====
-- A query, read as a response.
use desertemail.Prelude.{
  ℕ, ◌+◌, ◌*◌, ◌/◌, ◌%◌, ◌≡◌, refl, inl, inr, true, false, some, [], ◌++◌, arith, ltb, ◌==◌,
  Option-cases, All, length, Bytes, trim_end, split,
}
use mathlib.Core.Path.{subst}
use desertemail.Dns.{
  ok, u16_bytes, encode_name, build_query, query_header, skip_name, skip_questions, read_answers,
  parse_response, is_dot,
}
use desertemail.Dns.RoundTrip.{parse_name-encode_name}

abbrev packet : ℕ → Bytes → ℕ → Bytes
packet id enc qtype = query_header id ++ (enc ++ (u16_bytes qtype ++ u16_bytes 1))

question_skipped :
    (lossy : Bytes → Bytes) (id qtype : ℕ) (name enc : Bytes)
    → encode_name name ≡ some enc
    → All (λ l. lossy l ≡ l) (split b'.' (trim_end is_dot name))
    → skip_questions lossy (packet id enc qtype) 1 12 ≡ ok (12 + length enc + 4)
unfolding skip_questions skip_name
question_skipped lossy id qtype name enc h plain =
    let read =
      parse_name-encode_name lossy name (query_header id) enc (u16_bytes qtype ++ u16_bytes 1) h
        plain in
    rw read refl

packet-parsed :
    (lossy : Bytes → Bytes) (id qtype : ℕ) (enc : Bytes) (pos : ℕ)
    → skip_questions lossy (packet id enc qtype) 1 12 ≡ ok pos
    → parse_response lossy id (packet id enc qtype) ≡ ok ([], false)
unfolding parse_response read_answers
packet-parsed lossy id qtype enc pos h =
    let same : (id / 256 * 256 + id % 256 == id) ≡ true = ground arith in
    let long : ltb (length (packet id enc qtype)) 12 ≡ false = ground arith in
    rw long (rw same (rw h refl))

-- The packet that `build_query` makes for a name whose labels are valid UTF-8 carries its identifier,
-- one question that is skipped whole, no error, no truncation and no answer: read as a response it
-- gives the empty list of answers.
pub parse_response-build_query :
    (lossy : Bytes → Bytes) (id qtype : ℕ) (name pkt : Bytes)
    → All (λ l. lossy l ≡ l) (split b'.' (trim_end is_dot name))
    → build_query id name qtype ≡ some pkt
    → parse_response lossy id pkt ≡ ok ([], false)
unfolding parse_response build_query
parse_response-build_query lossy id qtype name pkt plain h =
    elim (Option-cases (encode_name name)) [
      | inr bad ↦ absurd (cc (rw bad at h))
      | inl (enc, e) ↦
          let made : packet id enc qtype ≡ pkt = cc (rw e at h) in
          subst (λ p. parse_response lossy id p ≡ ok ([], false)) made
            (packet-parsed lossy id qtype enc _ (question_skipped lossy id qtype name enc e plain))
    ]
