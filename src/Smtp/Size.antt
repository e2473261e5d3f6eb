-- ===== src/Smtp/Size.antt =====
-- The DATA phase: the size of a message, its end, and the dots.
use desertemail.Prelude.{
  ℕ, ◌+◌, ◌≤◌, ◌<◌, ◌≡◌, refl, sym, ap, ◌∙◌, inl, inr, true, false, List, [], ◌∷◌, ◌++◌, arith, ltb,
  ◌==◌, if◌then◌else◌, if-all, Bool-cases, ltb→lt, lt→ltb, if-all, length, length-append, Bytes,
  codes, bytes_eq,
}
use mathlib.Core.Path.{subst}
use mathlib.Core.List.{append_assoc, append-nil}
use desertemail.Smtp.Message.{Received, take_line, read_data, unstuff}

abbrev start : Received
start = record { data_buf = []; oversized = false }

length-grown :
    (r : Received) (content : Bytes)
    → length (r.data_buf ++ (content ++ b'\r' ∷ b'\n' ∷ []))
      ≡ length r.data_buf + (length content + 2)
length-grown r content =
    rw
      (
        length-append r.data_buf (content ++ b'\r' ∷ b'\n' ∷ []),
        length-append content (b'\r' ∷ b'\n' ∷ []),
      )
      refl

le-not_lt : (m n : ℕ) → n ≤ m → ltb m n ≡ false
le-not_lt m n h = ground arith

leb_false : (m n : ℕ) → ltb m n ≡ false → n ≤ m
leb_false m n h = ground arith

le_of :
    (max_msg : ℕ) (r : Received) (dline : Bytes)
    → ltb max_msg (length r.data_buf + (length (unstuff dline) + 2)) ≡ false
    → length (r.data_buf ++ (unstuff dline ++ b'\r' ∷ b'\n' ∷ [])) ≤ max_msg
le_of max_msg r dline fits = rw (length-grown r (unstuff dline)) (leb_false max_msg _ fits)

take_line-le :
    (max_msg : ℕ) (dline : Bytes) (r : Received)
    → length r.data_buf ≤ max_msg
    → length (take_line max_msg dline r).data_buf ≤ max_msg
unfolding take_line
take_line-le max_msg dline r h =
    if-all (λ (x : Received). length x.data_buf ≤ max_msg) r.oversized _ _ (λ _. h)
      (λ _.
        if-all (λ (x : Received). length x.data_buf ≤ max_msg)
          (ltb max_msg (length r.data_buf + (length (unstuff dline) + 2))) _ _ (λ _. omega arith)
          (λ fits. le_of max_msg r dline fits))

read_data-dot :
    (max_msg : ℕ) (dline : Bytes) (rest : List Bytes) (r : Received)
    → bytes_eq dline (codes ".") ≡ true
    → read_data max_msg (dline ∷ rest) r ≡ (r, rest)
unfolding read_data
read_data-dot max_msg dline rest r e = rw (e, read_data) refl

read_data-line :
    (max_msg : ℕ) (dline : Bytes) (rest : List Bytes) (r : Received)
    → bytes_eq dline (codes ".") ≡ false
    → read_data max_msg (dline ∷ rest) r ≡ read_data max_msg rest (take_line max_msg dline r)
unfolding read_data
read_data-line max_msg dline rest r e = rw (e, read_data) refl

Fits : ℕ → Received × List Bytes → Type 0
Fits max_msg p = length p.0.data_buf ≤ max_msg

-- However many lines come, the buffer never holds more bytes than the limit.
pub read_data-le-max :
    (max_msg : ℕ) (lines : List Bytes) (r : Received)
    → length r.data_buf ≤ max_msg
    → length (read_data max_msg lines r).0.data_buf ≤ max_msg
unfolding read_data Fits
read_data-le-max max_msg [] r h = h
read_data-le-max max_msg (dline ∷ rest) r h =
    let later =
      read_data-le-max max_msg rest (take_line max_msg dline r) (take_line-le max_msg dline r h) in
    elim (Bool-cases (bytes_eq dline (codes "."))) [
      | inl e ↦ subst (Fits max_msg) (sym (read_data-dot max_msg dline rest r e)) h
      | inr e ↦ subst (Fits max_msg) (sym (read_data-line max_msg dline rest r e)) later
    ]

unfoldable pub stuff : Bytes → Bytes
stuff [] = []
stuff (c ∷ cs) = if c == b'.' then b'.' ∷ c ∷ cs else c ∷ cs

-- what a client sends for the lines of a text: a dot before each line that starts with one
unfoldable pub stuffed : List Bytes → List Bytes
stuffed [] = []
stuffed (l ∷ ls) = stuff l ∷ stuffed ls

-- the text with those lines
unfoldable pub lines_of : List Bytes → Bytes
lines_of [] = []
lines_of (l ∷ ls) = (l ++ b'\r' ∷ b'\n' ∷ []) ++ lines_of ls

-- A stuffed line is never the end of the text, and gives the line back.
stuff-unstuff : (l : Bytes) → (bytes_eq (stuff l) (codes ".") ≡ false) × (unstuff (stuff l) ≡ l)
unfolding stuff bytes_eq
stuff-unstuff [] = (refl, refl)
stuff-unstuff (c ∷ cs) = elim (Bool-cases (c == b'.')) [
  | inl e ↦ rw e (refl, refl)
  | inr e ↦ rw e (rw e (refl, refl))
]

take_line-fits :
    (max_msg : ℕ) (l buf : Bytes)
    → length buf + (length l + 2) ≤ max_msg
    → take_line max_msg (stuff l) (record { data_buf = buf; oversized = false })
      ≡ record { data_buf = buf ++ (l ++ b'\r' ∷ b'\n' ∷ []); oversized = false }
unfolding take_line
take_line-fits max_msg l buf h = rw ((stuff-unstuff l).1) (rw (le-not_lt max_msg _ h) refl)

length-lines_of :
    (l : Bytes) (ls : List Bytes) → length (lines_of (l ∷ ls)) ≡ length l + 2 + length (lines_of ls)
unfolding lines_of
length-lines_of l ls =
    rw (length-append (l ++ b'\r' ∷ b'\n' ∷ []) (lines_of ls), length-append l (b'\r' ∷ b'\n' ∷ []))
      refl

-- A text that a client has sent with its dots doubled, and ended by a line with a dot alone, is
-- received line for line, followed by the lines behind it, if it is within the limit.
pub read_data-stuffed :
    (max_msg : ℕ) (ls rest : List Bytes) (buf : Bytes)
    → length buf + length (lines_of ls) ≤ max_msg
    → read_data max_msg
        (stuffed ls ++ codes "." ∷ rest)
        (record { data_buf = buf; oversized = false })
      ≡ (record { data_buf = buf ++ lines_of ls; oversized = false }, rest)
unfolding read_data stuffed lines_of bytes_eq
read_data-stuffed max_msg [] rest buf h =
    ap (λ b. (record { data_buf = b; oversized = false }, rest)) (sym (append-nil buf))
read_data-stuffed max_msg (l ∷ ls) rest buf h =
    let total = length-lines_of l ls in
    let grown = length-grown (record { data_buf = buf; oversized = false }) l in
    let taken = take_line-fits max_msg l buf (omega arith) in
    let later =
      read_data-stuffed max_msg ls rest (buf ++ (l ++ b'\r' ∷ b'\n' ∷ [])) (omega arith) in
    read_data-line max_msg (stuff l) (stuffed ls ++ codes "." ∷ rest) _ (stuff-unstuff l).0
    ∙ ap (read_data max_msg (stuffed ls ++ codes "." ∷ rest)) taken
    ∙ later
    ∙ ap (λ b. (record { data_buf = b; oversized = false }, rest))
        (append_assoc buf _ (lines_of ls))

take_line-over :
    (max_msg : ℕ) (l buf : Bytes)
    → max_msg < length buf + (length l + 2)
    → take_line max_msg (stuff l) (record { data_buf = buf; oversized = false })
      ≡ record { data_buf = []; oversized = true }
unfolding take_line
take_line-over max_msg l buf h = rw ((stuff-unstuff l).1) (rw (lt→ltb max_msg _ h) refl)

-- once too long, a message stays so, and its lines are passed over
read_data-oversized :
    (max_msg : ℕ) (ls rest : List Bytes)
    → read_data max_msg
        (stuffed ls ++ codes "." ∷ rest)
        (record { data_buf = []; oversized = true })
      ≡ (record { data_buf = []; oversized = true }, rest)
unfolding read_data take_line stuffed bytes_eq
read_data-oversized max_msg [] rest = refl
read_data-oversized max_msg (l ∷ ls) rest =
    read_data-line max_msg (stuff l) (stuffed ls ++ codes "." ∷ rest)
      (record { data_buf = []; oversized = true }) (stuff-unstuff l).0
    ∙ read_data-oversized max_msg ls rest

-- A text that a client has sent with its dots doubled, and ended by a line with a dot alone, but that
-- passes the limit, is marked as too long and none of it kept; it is read to its end all the same, so
-- that the lines left are those behind it.
pub read_data-too_long :
    (max_msg : ℕ) (ls rest : List Bytes) (buf : Bytes)
    → length buf ≤ max_msg
    → max_msg < length buf + length (lines_of ls)
    → read_data max_msg
        (stuffed ls ++ codes "." ∷ rest)
        (record { data_buf = buf; oversized = false })
      ≡ (record { data_buf = []; oversized = true }, rest)
unfolding lines_of stuffed
read_data-too_long max_msg [] rest buf fits h = absurd (omega arith)
read_data-too_long max_msg (l ∷ ls) rest buf fits h =
    let total = length-lines_of l ls in
    let grown = length-grown (record { data_buf = buf; oversized = false }) l in
    let line =
      read_data-line max_msg (stuff l) (stuffed ls ++ codes "." ∷ rest)
        (record { data_buf = buf; oversized = false }) (stuff-unstuff l).0 in
    elim (Bool-cases (ltb max_msg (length buf + (length l + 2)))) [
      | inl over ↦
          line
          ∙ ap (read_data max_msg (stuffed ls ++ codes "." ∷ rest))
              (take_line-over max_msg l buf (ltb→lt max_msg _ over))
          ∙ read_data-oversized max_msg ls rest
      | inr within ↦
          let room = leb_false max_msg _ within in
          let later =
            read_data-too_long max_msg ls rest (buf ++ (l ++ b'\r' ∷ b'\n' ∷ [])) (omega arith)
              (omega arith) in
          line
          ∙ ap (read_data max_msg (stuffed ls ++ codes "." ∷ rest))
              (take_line-fits max_msg l buf room)
          ∙ later
    ]
