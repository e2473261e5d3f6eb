-- ===== src/Dns/Answers.antt =====
-- What is read of a response lies in it, one piece behind another.
use desertemail.Prelude.{
  ℕ, zero, suc, ◌+◌, ◌/◌, ◌%◌, ◌≤◌, ◌<◌, ◌≡◌, refl, ◌≢◌, ◌⊎◌, inl, inr, Bool, not, List, [], ◌∷◌,
  arith, ltb, ◌==◌, Bool-cases, length, Bytes,
}
use desertemail.Dns.{
  DnsError, exhausted, Result, ok, err, ◌>>=◌, DnsAnswer, u16_at, slice, skip_name, skip_questions,
  read_answers, answer_at, parse_response,
}
use desertemail.Dns.Names.{parse_name-ends}

-- Records from `start` on, one behind another: a name up to `p`, the type, eight bytes of which the
-- last two are the length of the data, and the data, all inside the response.
pub data LieIn (lossy : Bytes → Bytes) (resp : Bytes) : ℕ → List DnsAnswer → Type 0 where
  no_more : {start : ℕ} → LieIn lossy resp start []
  one_more :
      {start p : ℕ} {a : DnsAnswer} {rest : List DnsAnswer}
      → skip_name lossy resp start ≡ ok p
      → start < p
      → p + 10 + u16_at resp (p + 8) ≤ length resp
      → a.rtype ≡ u16_at resp p
      → a.rdata ≡ slice resp (p + 10) (u16_at resp (p + 8))
      → LieIn lossy resp (p + 10 + u16_at resp (p + 8)) rest
      → LieIn lossy resp start (a ∷ rest)

-- the records lie from `pos` on, and there are no more of them than announced
abbrev Fits : (Bytes → Bytes) → Bytes → ℕ → ℕ → Result (List DnsAnswer) → Type 0
Fits lossy resp n pos (ok answers) = (length answers ≤ n) × LieIn lossy resp pos answers
Fits lossy resp n pos (err e) = e ≢ exhausted

skip_name-moves :
    (lossy : Bytes → Bytes) (resp : Bytes) (pos : ℕ)
    → ((p : ℕ) × (skip_name lossy resp pos ≡ ok p) × (pos < p) × (p ≤ length resp))
      ⊎ ((e : DnsError) × (skip_name lossy resp pos ≡ err e) × (e ≢ exhausted))
unfolding skip_name
skip_name-moves lossy resp pos = elim (parse_name-ends lossy resp pos) [
  | inl (out, e, a, b) ↦ inl (out.1, rw e refl, a, b)
  | inr (x, e, a) ↦ inr (x, rw e refl, a)
]

-- one more record in front
cons-Fits :
    (lossy : Bytes → Bytes) (resp : Bytes) (n start p : ℕ) (r : Result (List DnsAnswer))
    → skip_name lossy resp start ≡ ok p
    → start < p
    → p + 10 + u16_at resp (p + 8) ≤ length resp
    → Fits lossy resp n (p + 10 + u16_at resp (p + 8)) r
    → Fits lossy resp (suc n) start (r >>= λ rest. ok (answer_at lossy resp p ∷ rest))
cons-Fits lossy resp n start p (ok xs) e h k f = (omega (arith, f.0), one_more e h k refl refl f.1)
cons-Fits lossy resp n start p (err x) e h k f = f

module _ (lossy : Bytes → Bytes) (resp : Bytes) where
  read_answers-Fits : (n pos : ℕ) → Fits lossy resp n pos (read_answers lossy resp n pos)
  unfolding read_answers
  read_answers-Fits zero pos = (omega arith, no_more)
  read_answers-Fits (suc n) start = elim (skip_name-moves lossy resp start) [
    | inr (x, e, a) ↦ rw (e, read_answers) a
    | inl (p, e, a, b) ↦
        rw (e, read_answers)
          (elim (Bool-cases (ltb (length resp) (p + 10))) [
            | inl cut ↦ rw (cut, Fits) (omega arith, no_more)
            | inr fixed ↦
                rw (fixed, Fits)
                  (elim (Bool-cases (ltb (length resp) (p + 10 + u16_at resp (p + 8)))) [
                    | inl cut ↦ rw (cut, Fits) (omega arith, no_more)
                    | inr whole ↦
                        rw (whole, Fits)
                          (cons-Fits lossy resp n start p
                            (read_answers lossy resp n (p + 10 + u16_at resp (p + 8))) e a
                            (ground arith) (read_answers-Fits n (p + 10 + u16_at resp (p + 8))))
                  ])
          ])
  ]

  -- the questions end behind their start, or in an error
  skip_questions-ends :
      (n pos : ℕ)
      → ((p : ℕ) × (skip_questions lossy resp n pos ≡ ok p) × (pos ≤ p))
        ⊎ ((e : DnsError) × (skip_questions lossy resp n pos ≡ err e) × (e ≢ exhausted))
  unfolding skip_questions
  skip_questions-ends zero pos = inl (pos, refl, omega arith)
  skip_questions-ends (suc n) pos = elim (skip_name-moves lossy resp pos) [
    | inr (x, e, a) ↦ inr (x, rw (e, skip_questions) refl, a)
    | inl (p, e, a, b) ↦ elim (skip_questions-ends n (p + 4)) [
      | inr (x, f, c) ↦ inr (x, rw (e, skip_questions) f, c)
      | inl (q, f, c) ↦ inl (q, rw (e, skip_questions) f, omega arith)
    ]
  ]

  -- what is said of a response that is read to its end, or of the error
  abbrev Sound : Result (List DnsAnswer × Bool) → Type 0
  Sound (ok out) =
      (length out.0 ≤ u16_at resp 6) × (start : ℕ) × (12 ≤ start) × LieIn lossy resp start out.0
  Sound (err e) = e ≢ exhausted

  answers-Sound :
      (pos : ℕ) (truncated : Bool) (r : Result (List DnsAnswer))
      → 12 ≤ pos
      → Fits lossy resp (u16_at resp 6) pos r
      → Sound (r >>= λ answers. ok (answers, truncated))
  answers-Sound pos truncated (ok answers) h f = (f.0, pos, h, f.1)
  answers-Sound pos truncated (err e) h f = f

  body-Sound :
      (truncated : Bool)
      → Sound (
          skip_questions lossy resp (u16_at resp 4) 12 >>= λ pos.
          read_answers lossy resp (u16_at resp 6) pos >>= λ answers. ok (answers, truncated))
  body-Sound truncated = elim (skip_questions-ends (u16_at resp 4) 12) [
    | inl (pos, e, h) ↦
        rw (e, Sound) (answers-Sound pos truncated _ h (read_answers-Fits (u16_at resp 6) pos))
    | inr (x, e, h) ↦ rw (e, Sound) h
  ]

  parse_response-Sound : (id : ℕ) → Sound (parse_response lossy id resp)
  unfolding parse_response
  parse_response-Sound id =
      let body = body-Sound (not (u16_at resp 2 / 512 % 2 == 0)) in
      elim (Bool-cases (ltb (length resp) 12)) [
        | inl short ↦ rw (short, Sound) (cc)
        | inr long ↦
            rw (long, Sound)
              (elim (Bool-cases (u16_at resp 0 == id)) [
                | inr other ↦ rw (other, Sound) (cc)
                | inl own ↦
                    rw (own, Sound)
                      (elim (Bool-cases (u16_at resp 2 % 16 == 0)) [
                        | inl fine ↦ rw (fine, Sound) body
                        | inr bad ↦
                            rw (bad, Sound)
                              (elim (Bool-cases (u16_at resp 2 % 16 == 3)) [
                                | inl no_name ↦
                                    rw (no_name, Sound) (omega arith, 12, omega arith, no_more)
                                | inr failed_code ↦ rw (failed_code, Sound) (cc)
                              ])
                      ])
              ])
      ]

-- Whatever bytes a resolver sends, reading them ends with an error of the source's or with answers:
-- at most as many as announced, with their types and data taken from records that lie in the
-- response, behind its header, one behind another.
pub parse_response-ends :
    (lossy : Bytes → Bytes) (id : ℕ) (resp : Bytes)
    → ((out : List DnsAnswer × Bool) × (parse_response lossy id resp ≡ ok out)
        × (length out.0 ≤ u16_at resp 6)
        × (start : ℕ) × (12 ≤ start)
        × LieIn lossy resp start out.0)
      ⊎ ((e : DnsError) × (parse_response lossy id resp ≡ err e) × (e ≢ exhausted))
parse_response-ends lossy id resp =
    split_result (parse_response lossy id resp) (parse_response-Sound lossy resp id)
  where
    split_result :
        (r : Result (List DnsAnswer × Bool))
        → Sound lossy resp r
        → ((out : List DnsAnswer × Bool) × (r ≡ ok out)
            × (length out.0 ≤ u16_at resp 6)
            × (start : ℕ) × (12 ≤ start)
            × LieIn lossy resp start out.0)
          ⊎ ((e : DnsError) × (r ≡ err e) × (e ≢ exhausted))
    split_result (ok out) h = inl (out, refl, h.0, h.1, h.2, h.3)
    split_result (err e) h = inr (e, refl, h)
