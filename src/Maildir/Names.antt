-- ===== src/Maildir/Names.antt =====
-- src/storage.rs: the name of a message and the flags in it. A name is its characters; a message is in
-- the directory "new" or in "cur".
use desertemail.Prelude.{
  ℕ, ◌+◌, ◌*◌, ◌%◌, ◌^◌, Bool, true, false, not, ◌||◌, Option, none, some, List, [], ◌∷◌, ◌++◌,
  ◌==◌, if◌then◌else◌, retain, any, is_empty, Bytes, codes, bytes_eq, to_lowercase, is_whitespace,
  trim_matches, strip_prefix, join, to_uppercase,
}

abbrev pub info_sep : Bytes
info_sep = codes ":2,"

abbrev pub behind : ℕ → Bytes × Bytes → Bytes × Bytes
behind c (a, b) = (c ∷ a, b)

abbrev pub split_here : Option (Bytes × Bytes) → Option Bytes → ℕ → Option (Bytes × Bytes)
split_here (some p) here c = some (behind c p)
split_here none (some rest) c = some ([], rest)
split_here none none c = none

-- `rfind` with the slices on both sides of what is found
unfoldable pub rsplit_at : Bytes → Bytes → Option (Bytes × Bytes)
rsplit_at pattern [] = none
rsplit_at pattern (c ∷ cs) = split_here (rsplit_at pattern cs) (strip_prefix pattern (c ∷ cs)) c

abbrev front_or : Option (Bytes × Bytes) → Bytes → Bytes
front_or none name = name
front_or (some (base, flags)) name = base

abbrev back_or_nil : Option (Bytes × Bytes) → Bytes
back_or_nil none = []
back_or_nil (some (base, flags)) = flags

unfoldable pub base_name : Bytes → Bytes
unfolding rsplit_at
base_name name = front_or (rsplit_at info_sep name) name

unfoldable pub flags_from_name : Bytes → Bytes
unfolding rsplit_at
flags_from_name name = back_or_nil (rsplit_at info_sep name)

-- 0 for a flag that no letter stands for
unfoldable pub imap_flag_to_char : Bytes → ℕ
imap_flag_to_char f =
    let lower = to_lowercase (trim_matches (λ c. c == b'\\') (trim_matches is_whitespace f)) in
    if bytes_eq lower (codes "seen")
    then b'S'
    else if bytes_eq lower (codes "answered")
    then b'R'
    else if bytes_eq lower (codes "flagged")
    then b'F'
    else if bytes_eq lower (codes "deleted")
    then b'T'
    else if bytes_eq lower (codes "draft")
    then b'D'
    else 0

unfoldable pub char_to_imap_flag : ℕ → Option Bytes
char_to_imap_flag c =
    if c == b'S'
    then some (codes "\\Seen")
    else if c == b'R'
    then some (codes "\\Answered")
    else if c == b'F'
    then some (codes "\\Flagged")
    else if c == b'T'
    then some (codes "\\Deleted")
    else if c == b'D'
    then some (codes "\\Draft")
    else if c == b'P'
    then some (codes "\\Passed")
    else none

-- `contains`
abbrev pub has : Bytes → ℕ → Bool
has s c = any (λ x. x == c) s

abbrev pub flag_order : Bytes
flag_order = codes "DFPRST"

unfoldable pub sort_maildir_flags : Bytes → Bytes
sort_maildir_flags s = retain (has s) flag_order

abbrev pub push_new : Bytes → ℕ → Bytes
push_new out c = if has out c then out else out ++ c ∷ []

abbrev known_flags : Bytes → Bytes → Bytes
known_flags out [] = out
known_flags out (c ∷ cs) = known_flags (if has flag_order c then push_new out c else out) cs

unfoldable pub normalize_flag_chars : Bytes → Bytes
normalize_flag_chars s = sort_maildir_flags (known_flags [] s)

abbrev push_flag : Bytes → ℕ → Bytes
push_flag s c = if c == 0 then s else push_new s c

abbrev flag_chars : Bytes → List Bytes → Bytes
flag_chars s [] = s
flag_chars s (f ∷ fs) = flag_chars (push_flag s (imap_flag_to_char f)) fs

unfoldable pub flags_to_maildir : List Bytes → Bytes
flags_to_maildir fs = sort_maildir_flags (flag_chars [] fs)

abbrev add_some : Option Bytes → List Bytes → List Bytes
add_some none fs = fs
add_some (some f) fs = f ∷ fs

unfoldable pub maildir_to_imap_flags : Bytes → List Bytes
maildir_to_imap_flags [] = []
maildir_to_imap_flags (c ∷ cs) = add_some (char_to_imap_flag c) (maildir_to_imap_flags cs)

-- A file in one of the two directories.
pub record Entry : Type 0 where
  pub in_new : Bool
  pub name : Bytes

-- The UID of a message, from its name without the flags: a u32 that wraps around.
abbrev hash_from : ℕ → Bytes → ℕ
hash_from h [] = h
hash_from h (b ∷ bs) = hash_from ((h * 33 % 2 ^ 32 + b) % 2 ^ 32) bs

unfoldable pub hash_name : Bytes → ℕ
hash_name name = if hash_from 5381 name == 0 then 1 else hash_from 5381 name

pub record MessageMeta : Type 0 where
  pub entry : Entry
  pub uid : ℕ
  pub flags : Bytes

-- what `list_messages` says of a file
unfoldable pub meta_of : Entry → MessageMeta
unfolding hash_name base_name flags_from_name
meta_of e = record {
  entry = e;
  uid = hash_name (base_name e.name);
  flags = if e.in_new then [] else flags_from_name e.name;
}

-- `has_flag`, whose branch for \Recent is not reached: no letter stands for that flag
unfoldable pub has_flag : MessageMeta → Bytes → Bool
has_flag m imap =
    if imap_flag_to_char imap == 0
    then false
    else if bytes_eq (to_lowercase imap) (codes "\\recent")
    then m.entry.in_new
    else has m.flags (imap_flag_to_char imap)

unfoldable pub imap_flags_str : MessageMeta → Bytes
unfolding maildir_to_imap_flags
imap_flags_str m =
    b'('
    ∷ (join (b' ' ∷ [])
          ((if m.entry.in_new then codes "\\Recent" ∷ [] else []) ++ maildir_to_imap_flags m.flags)
        ++ b')' ∷ [])

-- the modes of STORE; any other text changes nothing
pub data StoreMode : Type 0 where
  set_flags add_flags remove_flags no_mode : StoreMode

unfoldable pub mode_of : Bytes → StoreMode
mode_of mode =
    let upper = to_uppercase mode in
    if bytes_eq upper (codes "FLAGS")
    then set_flags
    else if bytes_eq upper (codes "+FLAGS")
    then add_flags
    else if bytes_eq upper (codes "-FLAGS")
    then remove_flags
    else no_mode

abbrev pub apply_flag : StoreMode → ℕ → Bytes → Bytes
apply_flag set_flags c want = push_new want c
apply_flag add_flags c want = push_new want c
apply_flag remove_flags c want = retain (λ x. not (x == c)) want
apply_flag no_mode c want = want

unfoldable pub apply_flags : StoreMode → List Bytes → Bytes → Bytes
apply_flags mode [] want = want
apply_flags mode (f ∷ fs) want =
    let c = imap_flag_to_char f in
    apply_flags mode fs (if c == 0 then want else apply_flag mode c want)

abbrev pub is_set : StoreMode → Bool
is_set set_flags = true
is_set add_flags = false
is_set remove_flags = false
is_set no_mode = false

abbrev pub renamed : Bool → Bytes → Bytes → Entry
renamed go_cur base flag_str =
    if go_cur
    then record { in_new = false; name = base ++ (info_sep ++ flag_str) }
    else record { in_new = true; name = base }

abbrev pub wanted : StoreMode → Entry → List Bytes → Bytes
wanted mode e imap_flags =
    let chars = if e.in_new then [] else flags_from_name e.name in
    sort_maildir_flags (apply_flags mode imap_flags (if is_set mode then [] else chars))

-- where `store_flags` moves the file
unfoldable pub store_flags : Entry → Bytes → List Bytes → Entry
unfolding mode_of
store_flags e mode imap_flags =
    let flag_str = wanted (mode_of mode) e imap_flags in
    renamed
      (has flag_str b'S' || (not (is_empty flag_str) || (not e.in_new || is_set (mode_of mode))))
      (base_name e.name) flag_str

abbrev with_seen : Bytes → Bytes
with_seen flags = sort_maildir_flags (push_new flags b'S')

abbrev seen_name : Option (Bytes × Bytes) → Bytes → Bytes
seen_name none name = name ++ codes ":2,S"
seen_name (some (base, flags)) name = base ++ (info_sep ++ with_seen flags)

unfoldable pub mark_seen : Entry → Entry
mark_seen e =
    if e.in_new
    then record { in_new = false; name = seen_name (rsplit_at info_sep e.name) e.name }
    else e

-- the file of an APPEND with the unique name `uniq`
unfoldable pub append_raw : Bytes → Bytes → Entry
append_raw uniq flags =
    let seen = has flags b'S' || has flags b's' in
    let flag_part =
      sort_maildir_flags (
        (if seen
          then push_new (normalize_flag_chars flags) b'S'
          else normalize_flag_chars flags)) in
    renamed (seen || not (is_empty flag_part)) uniq flag_part
