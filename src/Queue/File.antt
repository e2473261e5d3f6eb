-- ===== src/Queue/File.antt =====
-- src/queue.rs: a message of the queue, and the file that holds it. `enqueue` and `rewrite_message`
-- write the same format, which `load_message` reads. `from_utf8_lossy` is the parameter `lossy`.
use Prim.Native.String.{String}
use desertemail.Prelude.{
  ℕ, Bool, true, false, not, ◌||◌, Option, none, some, List, [], ◌∷◌, ◌++◌, map, ◌==◌,
  if◌then◌else◌, u64_max, retain, any, is_empty, Bytes, codes, bytes_eq, to_lowercase,
  is_whitespace, trim_matches, strip_prefix, starts_with, split_once, split, join, parse_unsigned,
  get_or, decimal,
}
use desertemail.Accounts.{u32_max}

pub record QueueMessage : Type 0 where
  pub id : Bytes
  pub sender : Bytes
  pub recipients : List Bytes
  pub retry_count : ℕ
  pub next_attempt : ℕ
  pub created : ℕ
  pub raw : Bytes

abbrev pub comma : Bytes
comma = b',' ∷ []

-- `writeln!(f, "key: value")`, but for the line's end
abbrev pub field : String → Bytes → Bytes
field key val = codes key ++ b':' ∷ b' ' ∷ val

abbrev pub header_lines : QueueMessage → List Bytes
header_lines m =
    field "id" m.id
    ∷ field "sender" m.sender
    ∷ field "recipients" (join comma m.recipients)
    ∷ field "retry_count" (decimal m.retry_count)
    ∷ field "next_attempt" (decimal m.next_attempt)
    ∷ field "created" (decimal m.created)
    ∷ []

-- each line with its end
abbrev pub write_lines : List Bytes → Bytes
write_lines [] = []
write_lines (l ∷ ls) = l ++ b'\n' ∷ write_lines ls

-- the bytes of the file
unfoldable pub write_message : QueueMessage → Bytes
write_message m = write_lines (header_lines m) ++ (codes "---\n" ++ m.raw)

-- what `enqueue` writes, at the time `now`
unfoldable pub enqueue : Bytes → Bytes → List Bytes → Bytes → ℕ → Bytes
unfolding write_message
enqueue id sender recipients raw now = write_message (record {
  id = id;
  sender = sender;
  recipients = recipients;
  retry_count = 0;
  next_attempt = now;
  created = now;
  raw = raw;
})

unfoldable pub rewrite_message : QueueMessage → ℕ → ℕ → Bytes
unfolding write_message
rewrite_message m retry_count next_attempt =
    write_message (record m { retry_count = retry_count; next_attempt = next_attempt })

abbrev pub prepend : Bytes → Option (Bytes × Bytes) → Option (Bytes × Bytes)
prepend l none = none
prepend l (some (a, b)) = some (l ++ a, b)

-- `windows(n).position(..)` with the slices on both sides of the pattern found
unfoldable pub split_at : Bytes → Bytes → Option (Bytes × Bytes)
split_at pattern [] = none
split_at pattern (c ∷ cs) =
    let later = split_at pattern cs in
    elim (strip_prefix pattern (c ∷ cs)) [
      | some rest ↦ some ([], rest)
      | none ↦ prepend (c ∷ []) later
    ]

abbrev pub trim : Bytes → Bytes
trim = trim_matches is_whitespace

abbrev key_and_value : Option (Bytes × Bytes) → Option (Bytes × Bytes)
key_and_value none = none
key_and_value (some (k, v)) = some (to_lowercase (trim k), trim v)

-- the key and the value of a line; `none` if it is passed over
unfoldable pub read_field : Bytes → Option (Bytes × Bytes)
read_field line = if is_empty (trim line) then none else key_and_value (split_once b':' (trim line))

abbrev pub read_recipients : Bytes → List Bytes
read_recipients val = retain (λ s. not (is_empty s)) (map trim (split b',' val))

unfoldable pub set_field : Option (Bytes × Bytes) → QueueMessage → QueueMessage
set_field none m = m
set_field (some (key, val)) m =
    if bytes_eq key (codes "id")
    then record m { id = val }
    else if bytes_eq key (codes "sender")
    then record m { sender = val }
    else if bytes_eq key (codes "recipients")
    then record m { recipients = read_recipients val }
    else if bytes_eq key (codes "retry_count")
    then record m { retry_count = get_or (parse_unsigned u32_max val) 0 }
    else if bytes_eq key (codes "next_attempt")
    then record m { next_attempt = get_or (parse_unsigned u64_max val) 0 }
    else if bytes_eq key (codes "created")
    then record m { created = get_or (parse_unsigned u64_max val) 0 }
    else m

unfoldable pub read_fields : List Bytes → QueueMessage → QueueMessage
unfolding read_field set_field
read_fields [] m = m
read_fields (line ∷ lines) m = read_fields lines (set_field (read_field line) m)

abbrev pub blank_message : Bytes → QueueMessage
blank_message raw = record {
  id = [];
  sender = [];
  recipients = [];
  retry_count = 0;
  next_attempt = 0;
  created = 0;
  raw = raw;
}

-- the name of the file stands in for a missing id
abbrev pub with_id : Bytes → QueueMessage → QueueMessage
with_id stem m = if is_empty m.id then record m { id = stem } else m

abbrev pub separator : Bytes
separator = codes "\n---\n"

-- `none` is the error "missing --- separator". The lines are trimmed and empty ones passed over, so
-- that `lines()` and the split at LF come to the same.
abbrev pub read_parts : (Bytes → Bytes) → Bytes → Option (Bytes × Bytes) → Option QueueMessage
read_parts lossy stem none = none
read_parts lossy stem (some (header, body)) =
    some (with_id stem (read_fields (split b'\n' (lossy header)) (blank_message body)))

unfoldable pub load_message : (Bytes → Bytes) → Bytes → Bytes → Option QueueMessage
unfolding read_fields split_at
load_message lossy stem content = read_parts lossy stem (split_at separator content)

-- the id of a new message, from the time, the counter and the process
unfoldable pub queue_id : ℕ → ℕ → ℕ → Bytes
queue_id now counter pid = decimal now ++ b'.' ∷ (decimal counter ++ decimal pid)

abbrev add_loaded : Option QueueMessage → List QueueMessage → List QueueMessage
add_loaded none messages = messages
add_loaded (some m) messages = m ∷ messages

-- The files of the queue: the stem of each name with the contents, in the order of the names.
unfoldable pub list_queue : (Bytes → Bytes) → List (Bytes × Bytes) → List QueueMessage
list_queue lossy [] = []
list_queue lossy ((stem, content) ∷ files) =
    add_loaded (load_message lossy stem content) (list_queue lossy files)

-- `contains` of two dots
abbrev has_dots : Bytes → Bool
has_dots [] = false
has_dots (c ∷ cs) = starts_with (codes "..") (c ∷ cs) || has_dots cs

abbrev is_odd_id : Bytes → Bool
is_odd_id id =
    is_empty id
    || (any (λ c. c == b'/') id
        || (any (λ c. c == b'\\') id || (has_dots id || any (λ c. c == 0) id)))

-- whether a file was deleted, and the files that are left
unfoldable pub delete_queued : Bytes → List (Bytes × Bytes) → Bool × List (Bytes × Bytes)
delete_queued id files =
    if is_odd_id id
    then (false, files)
    else if any (λ f. bytes_eq f.0 id) files
    then (true, retain (λ f. not (bytes_eq f.0 id)) files)
    else (false, files)
