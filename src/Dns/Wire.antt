-- ===== src/Dns/Wire.antt =====
-- src/dns.rs: names and numbers on the wire. `encode_name` writes a name, and `parse_name` reads
-- one, following compression pointers. `from_utf8_lossy` is the parameter `lossy`.
use desertemail.Prelude.{
  ℕ, zero, suc, ◌+◌, ◌*◌, ◌/◌, ◌%◌, Bool, true, false, not, ◌||◌, Option, none, some, List, [], ◌∷◌,
  ◌++◌, ltb, leb, ◌==◌, if◌then◌else◌, length, get_elem?, take, drop, is_empty, Bytes, codes,
  trim_end, split, join, get_or,
}
use mathlib.Core.Option

-- The source's error messages; `exhausted` is the model's own, for the fuel of a loop.
pub data DnsError : Type 0 where
  name_oob ptr_oob ptr_loop bad_label label_oob : DnsError
  too_short id_mismatch : DnsError
  rcode : ℕ → DnsError
  exhausted : DnsError

pub data Result {ℓ} (A : Type ℓ) : Type ℓ where
  ok : A → Result A
  err : DnsError → Result A

infixl 5 ◌>>=◌
abbrev pub ◌>>=◌ {ℓ κ} : {A : Type ℓ} {B : Type κ} → Result A → (A → Result B) → Result B
ok a >>= f = f a
err e >>= f = err e

-- `to_be_bytes` of a u16
abbrev pub u16_bytes : ℕ → Bytes
u16_bytes n = (n / 256) ∷ (n % 256) ∷ []

-- `*msg.get(i).unwrap_or(&0)`
abbrev pub byte_at : Bytes → ℕ → ℕ
byte_at msg i = get_or (get_elem? msg i) 0

-- `u16::from_be_bytes` of two bytes read so
abbrev pub u16_at : Bytes → ℕ → ℕ
u16_at msg i = byte_at msg i * 256 + byte_at msg (i + 1)

abbrev pub slice : Bytes → ℕ → ℕ → Bytes
slice msg pos len = take len (drop pos msg)

-- one label, refused if it is empty or too long
unfoldable pub encode_labels : List Bytes → Option Bytes
encode_labels [] = some (0 ∷ [])
encode_labels (label ∷ labels) =
    if is_empty label || ltb 63 (length label)
    then none
    else Option.map (λ rest. length label ∷ (label ++ rest)) (encode_labels labels)

abbrev pub is_dot : ℕ → Bool
is_dot c = c == b'.'

-- what `encode_name` appends; `none` is the error "bad DNS label"
unfoldable pub encode_name : Bytes → Option Bytes
encode_name name =
    let trimmed = trim_end is_dot name in
    if is_empty trimmed then some (0 ∷ []) else encode_labels (split b'.' trimmed)

-- the loop variables of `parse_name`
pub record Reader : Type 0 where
  pub pos : ℕ
  pub labels : List Bytes
  pub jumped : Bool
  pub end_pos : ℕ
  pub hops : ℕ

-- what one round of the loop does: it ends, or goes on
pub data Round : Type 0 where
  done : ℕ → Round
  next : Reader → Round
  failed : DnsError → Round

abbrev pub max_hops : ℕ
max_hops = 20

-- a compression pointer, whose first byte is `len`
unfoldable pub follow_pointer : Bytes → ℕ → Reader → Round
follow_pointer msg len r =
    if leb (length msg) (r.pos + 1)
    then failed ptr_oob
    else if ltb max_hops (r.hops + 1)
    then failed ptr_loop
    else next (record r {
      pos = len % 64 * 256 + byte_at msg (r.pos + 1);
      jumped = true;
      end_pos = if r.jumped then r.end_pos else r.pos + 2;
      hops = r.hops + 1;
    })

unfoldable pub read_label : (Bytes → Bytes) → Bytes → ℕ → Reader → Round
read_label lossy msg len r =
    if ltb (length msg) (r.pos + 1 + len)
    then failed label_oob
    else next (record r {
      pos = r.pos + 1 + len;
      labels = r.labels ++ lossy (slice msg (r.pos + 1) len) ∷ [];
      end_pos = if r.jumped then r.end_pos else r.pos + 1 + len;
    })

-- `len & 0xC0` is the two top bits of a byte, `len / 64`.
unfoldable pub round : (Bytes → Bytes) → Bytes → Reader → Round
unfolding follow_pointer read_label
round lossy msg r =
    let len = byte_at msg r.pos in
    if leb (length msg) r.pos
    then failed name_oob
    else if len == 0
    then done (if r.jumped then r.end_pos else r.pos + 1)
    else if len / 64 == 3
    then follow_pointer msg len r
    else if not (len / 64 == 0)
    then failed bad_label
    else read_label lossy msg len r

abbrev pub join_labels : List Bytes → Bytes
join_labels [] = codes "."
join_labels (l ∷ ls) = join (codes ".") (l ∷ ls)

unfoldable pub read_rounds : ℕ → (Bytes → Bytes) → Bytes → Reader → Result (Bytes × ℕ)
read_rounds zero lossy msg r = err exhausted
read_rounds (suc fuel) lossy msg r = elim (round lossy msg r) [
  | done end_pos ↦ ok (join_labels r.labels, end_pos)
  | next r' ↦ read_rounds fuel lossy msg r'
  | failed e ↦ err e
]

-- Between two pointers the position grows, and twenty pointers are followed at most.
abbrev pub rounds_for : Bytes → ℕ
rounds_for msg = (max_hops + 1) * (length msg + 1) + 1

unfoldable pub parse_name : (Bytes → Bytes) → Bytes → ℕ → Result (Bytes × ℕ)
unfolding read_rounds
parse_name lossy msg pos =
    read_rounds (rounds_for msg) lossy msg
      (record { pos = pos; labels = []; jumped = false; end_pos = pos; hops = 0 })

unfoldable pub skip_name : (Bytes → Bytes) → Bytes → ℕ → Result ℕ
skip_name lossy msg pos = parse_name lossy msg pos >>= λ p. ok p.1
