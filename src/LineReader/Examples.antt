-- ===== src/LineReader/Examples.antt =====
-- Two lines over a connection.
use desertemail.Prelude.{◌≡◌, refl, Bool, true, some, [], ◌∷◌, arith, Bytes, codes}
use desertemail.LineReader.{read_lines}
use desertemail.LineReader.Lines.{IsSendable, write_all_lines, read_lines-write}

abbrev any_text : Bytes → Bool
any_text s = true

sendable : IsSendable any_text (codes "QUIT")
sendable = record { one_line = ground arith; text = refl; short = omega arith }

-- an empty line, as between a header and its body
empty_sendable : IsSendable any_text []
empty_sendable = record { one_line = tt; text = refl; short = omega arith }

two_lines :
    read_lines any_text (write_all_lines (codes "QUIT" ∷ [] ∷ [])) ≡ some (codes "QUIT" ∷ [] ∷ [])
two_lines = read_lines-write any_text (codes "QUIT" ∷ [] ∷ []) (sendable, (empty_sendable, tt))
