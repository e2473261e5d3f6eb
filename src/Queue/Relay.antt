-- ===== src/Queue/Relay.antt =====
-- The two ends of a relay: what `smtp_send` writes after DATA, read by the server of src/smtp.rs.
use desertemail.Prelude.{
  ℕ, ◌≤◌, ◌≡◌, refl, sym, ap, ◌∙◌, inl, inr, Bool, true, false, ◌||◌, Option, some, List, [], ◌∷◌,
  ◌++◌, arith, ◌==◌, Bool-cases, All, length, Bytes, codes, bytes_eq,
}
use mathlib.Core.Option
use mathlib.Core.List.{append_assoc}
use desertemail.Smtp.{Received, read_data}
use desertemail.Smtp.Size.{stuff, stuffed, lines_of, read_data-stuffed}
use desertemail.LineReader.{read_lines, write_line}
use desertemail.LineReader.Lines.{IsSendable, write_all_lines, read_lines-write}
use desertemail.Queue.Send.{crlf, stuff_from, ends_with, end_line, dot_stuff, body_of}

Plain : Bytes → Type 0
Plain l = All (λ c. c == b'\n' ≡ false) l

stuff_from-line :
    (l rest : Bytes)
    → Plain l
    → stuff_from false (l ++ (crlf ++ rest)) ≡ l ++ (crlf ++ stuff_from true rest)
unfolding stuff_from Plain
stuff_from-line [] rest h = refl
stuff_from-line (c ∷ l) rest h = rw (h.0) (ap (◌∷◌ c) (stuff_from-line l rest h.1))

stuff_from-start :
    (l rest : Bytes)
    → Plain l
    → stuff_from true (l ++ (crlf ++ rest)) ≡ stuff l ++ (crlf ++ stuff_from true rest)
unfolding stuff_from stuff Plain
stuff_from-start [] rest h = refl
stuff_from-start (c ∷ l) rest h = elim (Bool-cases (c == b'.')) [
  | inl e ↦ rw e (rw (h.0) (ap (λ t. b'.' ∷ c ∷ t) (stuff_from-line l rest h.1)))
  | inr e ↦ rw e (rw (h.0) (ap (◌∷◌ c) (stuff_from-line l rest h.1)))
]

stuff-Plain : (l : Bytes) → Plain (stuff l) → Plain l
unfolding stuff Plain
stuff-Plain [] h = tt
stuff-Plain (c ∷ l) h = elim (Bool-cases (c == b'.')) [
  | inl e ↦ (let k : Plain (b'.' ∷ c ∷ l) = rw e at h in k.1)
  | inr e ↦ (let k : Plain (c ∷ l) = rw e at h in k)
]

stuff_from-lines_of :
    (ls : List Bytes)
    → All (λ l. Plain (stuff l)) ls
    → stuff_from true (lines_of ls) ≡ lines_of (stuffed ls)
unfolding stuff_from lines_of stuffed
stuff_from-lines_of [] h = refl
stuff_from-lines_of (l ∷ ls) h =
    ap (stuff_from true) (append_assoc l crlf (lines_of ls))
    ∙ stuff_from-start l (lines_of ls) (stuff-Plain l h.0)
    ∙ sym (append_assoc (stuff l) crlf (stuff_from true (lines_of ls)))
    ∙ ap (λ t. (stuff l ++ crlf) ++ t) (stuff_from-lines_of ls h.1)

or_true : (a b : Bool) → b ≡ true → a || b ≡ true
or_true true b h = refl
or_true false b h = h

ends_with-append : (a b : Bytes) → ends_with crlf b ≡ true → ends_with crlf (a ++ b) ≡ true
unfolding ends_with
ends_with-append [] b h = h
ends_with-append (c ∷ a) b h = or_true (bytes_eq (c ∷ (a ++ b)) crlf) _ (ends_with-append a b h)

ends_with-lines_of : (l : Bytes) (ls : List Bytes) → ends_with crlf (lines_of (l ∷ ls)) ≡ true
unfolding lines_of ends_with bytes_eq
ends_with-lines_of l [] = rw (append_assoc l crlf []) (ends_with-append l crlf refl)
ends_with-lines_of l (k ∷ ls) =
    ends_with-append (l ++ crlf) (lines_of (k ∷ ls)) (ends_with-lines_of k ls)

lines_of-write :
    (ls : List Bytes)
    → lines_of ls ++ write_line (codes ".") ≡ write_all_lines (ls ++ codes "." ∷ [])
unfolding lines_of write_all_lines
lines_of-write [] = refl
lines_of-write (l ∷ ls) =
    append_assoc (l ++ crlf) (lines_of ls) _ ∙ ap (λ t. (l ++ crlf) ++ t) (lines_of-write ls)

-- what goes over the connection for a text of lines
body_of_lem :
    (l : Bytes) (ls : List Bytes)
    → All (λ x. Plain (stuff x)) (l ∷ ls)
    → body_of (lines_of (l ∷ ls)) ≡ write_all_lines (stuffed (l ∷ ls) ++ codes "." ∷ [])
unfolding dot_stuff stuffed
body_of_lem l ls h =
    ap (λ t. end_line t ++ write_line (codes ".")) (stuff_from-lines_of (l ∷ ls) h)
    ∙ (rw (ends_with-lines_of (stuff l) (stuffed ls)) refl)
    ∙ lines_of-write (stuffed (l ∷ ls))

stuffed-Plain :
    (valid : Bytes → Bool) (ls : List Bytes)
    → All (λ x. IsSendable valid (stuff x)) ls
    → All (λ x. Plain (stuff x)) ls
unfolding Plain
stuffed-Plain valid [] h = tt
stuffed-Plain valid (l ∷ ls) h = (h.0.one_line, stuffed-Plain valid ls h.1)

stuffed-IsSendable :
    (valid : Bytes → Bool) (ls : List Bytes)
    → All (λ x. IsSendable valid (stuff x)) ls
    → IsSendable valid (codes ".")
    → All (IsSendable valid) (stuffed ls ++ codes "." ∷ [])
unfolding stuffed
stuffed-IsSendable valid [] h dot = (dot, tt)
stuffed-IsSendable valid (l ∷ ls) h dot = (h.0, stuffed-IsSendable valid ls h.1 dot)

abbrev pub receive : (Bytes → Bool) → ℕ → Bytes → Option (Received × List Bytes)
receive valid max_msg input =
    Option.map (λ lines. read_data max_msg lines (record { data_buf = []; oversized = false }))
      (read_lines valid input)

-- A message of lines that a server's reader accepts arrives byte for byte: the lines of what the
-- sender writes, its dots doubled and a line with a dot behind, are collected to the same message,
-- if it is within the limit, and nothing is left over.
pub receive-body_of :
    (valid : Bytes → Bool) (max_msg : ℕ) (l : Bytes) (ls : List Bytes)
    → All (λ x. IsSendable valid (stuff x)) (l ∷ ls)
    → IsSendable valid (codes ".")
    → length (lines_of (l ∷ ls)) ≤ max_msg
    → receive valid max_msg (body_of (lines_of (l ∷ ls)))
      ≡ some (record { data_buf = lines_of (l ∷ ls); oversized = false }, [])
receive-body_of valid max_msg l ls h dot fits =
    ap (receive valid max_msg) (body_of_lem l ls (stuffed-Plain valid (l ∷ ls) h))
    ∙ ap (Option.map _) (read_lines-write valid _ (stuffed-IsSendable valid (l ∷ ls) h dot))
    ∙ ap some (read_data-stuffed max_msg (l ∷ ls) [] [] (omega arith))
