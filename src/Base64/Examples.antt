-- ===== src/Base64/Examples.antt =====
-- Five bytes, among them the least and the greatest.
use desertemail.Prelude.{◌≡◌, [], ◌∷◌, arith, Bytes}
use desertemail.Base64.{base64_decode, base64_encode}
use desertemail.Base64.RoundTrip.{decode-encode}

abbrev bytes : Bytes
bytes = 0 ∷ 255 ∷ 128 ∷ 7 ∷ 65 ∷ []

decode-encode_example : base64_decode (base64_encode bytes) ≡ bytes
decode-encode_example =
    decode-encode bytes
      (omega arith, (omega arith, (omega arith, (omega arith, (omega arith, tt)))))
