-- ===== src/Base64/RoundTrip.antt =====
-- Decoding what was encoded.
use desertemail.Prelude.{
  ℕ, zero, suc, ◌+◌, ◌-◌, ◌*◌, ◌/◌, ◌%◌, ◌^◌, ◌≤◌, ◌<◌, ◌≡◌, refl, ap, ◌∙◌, Bool, true, false, ◌&&◌,
  [], ◌∷◌, arith, ◌==◌, le→leb, All, Bytes,
}
use mathlib.Core.Path.{ap₂}
use desertemail.Base64.{
  Symbol, pad, foreign, value, classify, decode_from, base64_decode, char_at, base64_encode,
}

abbrev IsByte : ℕ → Type 0
IsByte b = b < 256

-- Each of the 64 characters stands for its place: by evaluation.
abbrev stands_for : Symbol → ℕ → Bool
stands_for (value i) v = i == v
stands_for _ v = false

-- whether the decoder reads each of the first characters of the table as its place
table_agrees : ℕ → Bool
table_agrees zero = true
table_agrees (suc v) = table_agrees v && stands_for (classify (char_at v)) v

table_check : table_agrees 64 ≡ true
unfolding table_agrees classify char_at
table_check = refl

stands_for-char_at :
    (count v : ℕ)
    → v < count
    → table_agrees count ≡ true
    → stands_for (classify (char_at v)) v ≡ true
unfolding table_agrees
stands_for-char_at (suc last) v below agrees = ground (arith, stands_for-char_at last v)
stands_for-char_at zero v below agrees = absurd (omega arith)

stands_for-eq : (s : Symbol) (v : ℕ) → stands_for s v ≡ true → s ≡ value v
stands_for-eq (value i) v h = ground arith
stands_for-eq pad v h = absurd (cc)
stands_for-eq foreign v h = absurd (cc)

classify-char_at : (v : ℕ) → v < 64 → classify (char_at v) ≡ value v
classify-char_at v h =
    stands_for-eq (classify (char_at v)) v (stands_for-char_at 64 v h table_check)

classify_pad : classify b'=' ≡ pad
unfolding classify
classify_pad = refl

-- one character of an encoding, with a byte pushed or not
decode-push :
    (v : ℕ) (cs : Bytes) (buf bits : ℕ)
    → v < 64
    → 2 ≤ bits
    → decode_from (char_at v ∷ cs) buf bits
      ≡ (buf * 64 + v) / 2 ^ (bits + 6 - 8) % 256
        ∷ decode_from cs ((buf * 64 + v) % 2 ^ (bits + 6 - 8)) (bits + 6 - 8)
unfolding decode_from
decode-push v cs buf bits h k =
    rw (classify-char_at v h, decode_from) (rw (le→leb 8 (bits + 6) (omega arith)) refl)

decode-keep :
    (v : ℕ) (cs : Bytes) (buf : ℕ)
    → v < 64
    → decode_from (char_at v ∷ cs) buf 0 ≡ decode_from cs (buf * 64 + v) 6
unfolding decode_from
decode-keep v cs buf h = rw (classify-char_at v h, decode_from) refl

decode_pad : (cs : Bytes) (buf bits : ℕ) → decode_from (b'=' ∷ cs) buf bits ≡ []
unfolding decode_from
decode_pad cs buf bits = rw (classify_pad, decode_from) refl

-- two characters that carry a first byte, and what is left of the second
first_byte :
    (a v : ℕ) (rest : Bytes)
    → a < 256
    → v < 16
    → decode_from (char_at (a / 4) ∷ char_at (a % 4 * 16 + v) ∷ rest) 0 0 ≡ a ∷ decode_from rest v 4
first_byte a v rest p q =
    decode-keep (a / 4) (char_at (a % 4 * 16 + v) ∷ rest) 0 (omega arith)
    ∙ decode-push (a % 4 * 16 + v) rest (0 * 64 + a / 4) 6 (omega arith) (omega arith)
    ∙ ap₂ (λ (x : ℕ) (y : ℕ). x ∷ decode_from rest y 4) (omega arith) (omega arith)

second_byte :
    (b v : ℕ) (rest : Bytes)
    → b < 256
    → v < 4
    → decode_from (char_at (b % 16 * 4 + v) ∷ rest) (b / 16) 4 ≡ b ∷ decode_from rest v 2
second_byte b v rest p q =
    decode-push (b % 16 * 4 + v) rest (b / 16) 4 (omega arith) (omega arith)
    ∙ ap₂ (λ (x : ℕ) (y : ℕ). x ∷ decode_from rest y 2) (omega arith) (omega arith)

third_byte :
    (c : ℕ) (rest : Bytes)
    → c < 256
    → decode_from (char_at (c % 64) ∷ rest) (c / 64) 2 ≡ c ∷ decode_from rest 0 0
third_byte c rest p =
    decode-push (c % 64) rest (c / 64) 2 (omega arith) (omega arith)
    ∙ ap₂ (λ (x : ℕ) (y : ℕ). x ∷ decode_from rest y 0) (omega arith) (omega arith)

short : (n : ℕ) → n ≡ n + 0
short n = omega arith

-- Decoding gives back the bytes that were encoded, whatever they are.
pub decode-encode : (input : Bytes) → All IsByte input → base64_decode (base64_encode input) ≡ input
unfolding base64_decode base64_encode
decode-encode [] h = unfold decode_from in refl
decode-encode (a ∷ []) h =
    ap (λ (v : ℕ). decode_from (char_at (a / 4) ∷ char_at v ∷ b'=' ∷ b'=' ∷ []) 0 0)
      (short (a % 4 * 16))
    ∙ first_byte a 0 (b'=' ∷ b'=' ∷ []) h.0 (omega arith)
    ∙ ap (◌∷◌ a) (decode_pad (b'=' ∷ []) 0 4)
decode-encode (a ∷ b ∷ []) h =
    first_byte a (b / 16) (char_at (b % 16 * 4) ∷ b'=' ∷ []) h.0 (omega arith)
    ∙ ap (λ (v : ℕ). a ∷ decode_from (char_at v ∷ b'=' ∷ []) (b / 16) 4) (short (b % 16 * 4))
    ∙ ap (◌∷◌ a) (second_byte b 0 (b'=' ∷ []) h.1.0 (omega arith) ∙ ap (◌∷◌ b) (decode_pad [] 0 2))
decode-encode (a ∷ b ∷ c ∷ rest) h =
    first_byte a (b / 16) _ h.0 (omega arith)
    ∙ ap (◌∷◌ a) (
        second_byte b (c / 64) _ h.1.0 (omega arith)
        ∙ ap (◌∷◌ b)
            (third_byte c (base64_encode rest) h.1.1.0 ∙ ap (◌∷◌ c) (decode-encode rest h.1.1.1)))
