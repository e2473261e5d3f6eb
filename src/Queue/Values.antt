-- ===== src/Queue/Values.antt =====
-- The values on the lines of a queue file: splitting, trimming and joining them.
use desertemail.Prelude.{
  Lacks, split_once-found, split-line, split-last, ℕ, ◌≡◌, refl, sym, ap, ◌∙◌, ◌≢◌, false, Option,
  none, some, List, [], ◌∷◌, ◌++◌, arith, ◌==◌, All, Bytes, codes, to_lowercase, is_whitespace,
  trim_start, trim_end, trim_matches, strip_prefix, split,
}
use mathlib.Core.Path.{ap₂}
use mathlib.Core.List.{append_assoc, append-nil}
use desertemail.Queue.File.{write_lines, prepend, split_at, trim, read_field, separator}

-- A text without white space at its ends.
pub record IsTrimmed (s : Bytes) : Type 0 where
  pub at_start : trim_start is_whitespace s ≡ s
  pub at_end : trim_end is_whitespace s ≡ s

-- A value that can stand on a line of the file.
pub record IsValue (s : Bytes) : Type 0 where
  pub trimmed : IsTrimmed s
  pub one_line : Lacks b'\n' s

-- An address that can stand in the list of recipients.
pub record IsRecipient (s : Bytes) : Type 0 where
  pub value : IsValue s
  pub no_comma : Lacks b',' s
  pub named : s ≢ []

pub ==_false_sym : (a b : ℕ) → a == b ≡ false → b == a ≡ false
==_false_sym a b h = ground arith

pub prepend-nil : (o : Option (Bytes × Bytes)) → prepend [] o ≡ o
prepend-nil none = refl
prepend-nil (some (a, b)) = refl

pub prepend_cons :
    (x : ℕ) (l : Bytes) (o : Option (Bytes × Bytes))
    → prepend (x ∷ []) (prepend l o) ≡ prepend (x ∷ l) o
prepend_cons x l none = refl
prepend_cons x l (some (a, b)) = refl

-- The search for the separator passes over a line, and over an LF that no dash follows.
pub split_at-line :
    (l r : Bytes) → Lacks b'\n' l → split_at separator (l ++ r) ≡ prepend l (split_at separator r)
unfolding split_at strip_prefix
split_at-line [] r h = sym (prepend-nil (split_at separator r))
split_at-line (x ∷ l) r (x_ne, h) =
    rw (==_false_sym x b'\n' x_ne, split_at, strip_prefix)
      (ap (prepend (x ∷ [])) (split_at-line l r h) ∙ prepend_cons x l (split_at separator r))

pub split_at-next :
    (x : ℕ) (r : Bytes)
    → x == b'-' ≡ false
    → split_at separator (b'\n' ∷ x ∷ r) ≡ prepend (b'\n' ∷ []) (split_at separator (x ∷ r))
unfolding split_at strip_prefix
split_at-next x r h = rw (==_false_sym x b'-' h, split_at, strip_prefix) refl

pub split_at-found : (r : Bytes) → split_at separator (separator ++ r) ≡ some ([], r)
unfolding split_at strip_prefix
split_at-found r = refl

-- the lines but for the end of the last
pub joined : List Bytes → Bytes
joined [] = []
joined (l ∷ []) = l
joined (l ∷ k ∷ ls) = l ++ b'\n' ∷ joined (k ∷ ls)

-- A line that does not begin with a dash.
abbrev pub Undashed : Bytes → Type 0
Undashed [] = ⊥
Undashed (c ∷ cs) = c == b'-' ≡ false

pub split_at-write_lines :
    (l : Bytes) (ls : List Bytes) (body : Bytes)
    → All (Lacks b'\n') (l ∷ ls)
    → All Undashed ls
    → split_at separator (write_lines (l ∷ ls) ++ (codes "---\n" ++ body))
      ≡ some (joined (l ∷ ls), body)
unfolding joined
split_at-write_lines l [] body (one, _) h =
    ap (split_at separator) (append_assoc l (b'\n' ∷ []) (codes "---\n" ++ body))
    ∙ split_at-line l (separator ++ body) one
    ∙ ap (prepend l) (split_at-found body)
    ∙ ap (λ a. some (a, body)) (append-nil l)
split_at-write_lines l ([] ∷ ls) body (one, more) h = absurd h.0
split_at-write_lines l ((c ∷ k) ∷ ls) body (one, more) (undashed, h) =
    ap (split_at separator)
      (append_assoc l (b'\n' ∷ write_lines ((c ∷ k) ∷ ls)) (codes "---\n" ++ body))
    ∙ split_at-line l (b'\n' ∷ (write_lines ((c ∷ k) ∷ ls) ++ (codes "---\n" ++ body))) one
    ∙ ap (prepend l) (
        split_at-next c _ undashed
        ∙ ap (prepend (b'\n' ∷ [])) (split_at-write_lines (c ∷ k) ls body more h))

pub split-joined :
    (l : Bytes) (ls : List Bytes)
    → All (Lacks b'\n') (l ∷ ls)
    → split b'\n' (joined (l ∷ ls)) ≡ l ∷ ls
unfolding joined
split-joined l [] (one, _) = split-last b'\n' l one
split-joined l (k ∷ ls) (one, more) =
    split-line b'\n' l (joined (k ∷ ls)) one ∙ ap (◌∷◌ l) (split-joined k ls more)

pub trim_start_cons :
    (c : ℕ) (s : Bytes) → is_whitespace c ≡ false → trim_start is_whitespace (c ∷ s) ≡ c ∷ s
unfolding trim_start
trim_start_cons c s h = rw h refl

pub trim_end_cons :
    (x : ℕ) (s t : Bytes)
    → trim_end is_whitespace s ≡ t
    → t ≢ []
    → trim_end is_whitespace (x ∷ s) ≡ x ∷ t
unfolding trim_end
trim_end_cons x s [] h ne = absurd (ne refl)
trim_end_cons x s (c ∷ t) h ne = rw (h, trim_end) refl

pub append_cons-ne-nil : (a : Bytes) (c : ℕ) (b : Bytes) → (a ++ c ∷ b) ≢ []
append_cons-ne-nil [] c b = cc
append_cons-ne-nil (x ∷ a) c b = cc

-- A text that ends in a trimmed one is trimmed at its end.
pub trim_end-append :
    (a : Bytes) (c : ℕ) (b : Bytes)
    → trim_end is_whitespace (c ∷ b) ≡ c ∷ b
    → trim_end is_whitespace (a ++ c ∷ b) ≡ a ++ c ∷ b
trim_end-append [] c b h = h
trim_end-append (x ∷ a) c b h =
    trim_end_cons x (a ++ c ∷ b) (a ++ c ∷ b) (trim_end-append a c b h) (append_cons-ne-nil a c b)

-- What stands behind the colon of a trimmed line.
pub tail_of : Bytes → Bytes
tail_of [] = []
tail_of (c ∷ v) = b' ' ∷ c ∷ v

pub drop_blank : (k : Bytes) → trim_end is_whitespace (k ++ b':' ∷ b' ' ∷ []) ≡ k ++ b':' ∷ []
unfolding trim_end
drop_blank [] = refl
drop_blank (x ∷ k) =
    trim_end_cons x (k ++ b':' ∷ b' ' ∷ []) (k ++ b':' ∷ []) (drop_blank k)
      (append_cons-ne-nil k b':' [])

pub trim_end-line :
    (k v : Bytes)
    → trim_end is_whitespace v ≡ v
    → trim_end is_whitespace (k ++ b':' ∷ b' ' ∷ v) ≡ k ++ b':' ∷ tail_of v
unfolding tail_of
trim_end-line k [] h = drop_blank k
trim_end-line k (c ∷ v) h =
    trim_end-append k b':' (b' ' ∷ c ∷ v) (trim_end-append (b':' ∷ b' ' ∷ []) c v h)

pub trim-tail_of : (v : Bytes) → IsTrimmed v → trim (tail_of v) ≡ v
unfolding tail_of trim_matches trim_start
trim-tail_of [] t = refl
trim-tail_of (c ∷ v) t = ap (trim_end is_whitespace) t.at_start ∙ t.at_end

-- A key that the source writes: no colon, and unchanged by the reading of it.
pub record IsKey (c : ℕ) (k : Bytes) : Type 0 where
  pub no_colon : Lacks b':' (c ∷ k)
  pub lower : to_lowercase (trim (c ∷ k)) ≡ c ∷ k
  pub visible : is_whitespace c ≡ false

pub read_field_lem :
    (c : ℕ) (k v : Bytes)
    → IsKey c k
    → IsTrimmed v
    → read_field (c ∷ (k ++ b':' ∷ b' ' ∷ v)) ≡ some (c ∷ k, v)
unfolding read_field
read_field_lem c k v key value =
    let line : trim (c ∷ (k ++ b':' ∷ b' ' ∷ v)) ≡ c ∷ (k ++ b':' ∷ tail_of v) =
      unfold trim_matches in
      (ap (trim_end is_whitespace) (trim_start_cons c (k ++ b':' ∷ b' ' ∷ v) key.visible)
        ∙ trim_end-line (c ∷ k) v value.at_end) in
    let found = split_once-found b':' (c ∷ k) (tail_of v) key.no_colon in
    rw line (rw found (ap₂ (λ (a b : Bytes). some (a, b)) key.lower (trim-tail_of v value)))
