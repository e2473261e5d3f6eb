-- ===== src/Queue/RoundTrip.antt =====
-- The file of a message gives the message back.
use desertemail.Prelude.{
  Lacks, ℕ, ◌≤◌, ◌≡◌, refl, ap, ◌∙◌, ◌≢◌, inl, inr, true, false, some, List, [], ◌∷◌, ◌++◌, arith,
  ◌==◌, Bool-cases, u64_max, All, All-append, drop, is_empty, Bytes, codes, bytes_eq, to_lowercase,
  trim_start, trim_end, trim_matches, split, join, parse_unsigned, get_or, decimal, decimal_digits,
  parse_unsigned-decimal,
}
use desertemail.Accounts.{u32_max}
use desertemail.Queue.File.{
  QueueMessage, comma, field, header_lines, write_message, read_recipients, set_field, read_fields,
  blank_message, with_id, read_parts, load_message,
}
use desertemail.Queue.Values.{
  IsTrimmed, IsValue, IsRecipient, joined, split_at-write_lines, split-joined, IsKey,
  read_field_lem,
}
use desertemail.Queue.Recipients.{digits-IsValue, join-IsValue, read_recipients-join}

-- What a message must be for its file to hold it: a text on each line, addresses that can stand in a
-- list, and numbers that their types hold.
pub record IsStorable (m : QueueMessage) : Type 0 where
  pub id_value : IsValue m.id
  pub id_named : m.id ≢ []
  pub sender_value : IsValue m.sender
  pub recipients_valid : All IsRecipient m.recipients
  pub retry_fits : m.retry_count ≤ u32_max
  pub next_fits : m.next_attempt ≤ u64_max
  pub created_fits : m.created ≤ u64_max

abbrev later_lines : QueueMessage → List Bytes
later_lines m =
    field "sender" m.sender
    ∷ field "recipients" (join comma m.recipients)
    ∷ field "retry_count" (decimal m.retry_count)
    ∷ field "next_attempt" (decimal m.next_attempt)
    ∷ field "created" (decimal m.created)
    ∷ []

field-Lacks : (k v : Bytes) → Lacks b'\n' k → Lacks b'\n' v → Lacks b'\n' (k ++ b':' ∷ b' ' ∷ v)
field-Lacks k v h g = All-append (λ x. x == b'\n' ≡ false) k (b':' ∷ b' ' ∷ v) h (refl, (refl, g))

decimal-IsValue : (n : ℕ) → IsValue (decimal n)
decimal-IsValue n = digits-IsValue (decimal n) (decimal_digits n)

header_lines_lack : (m : QueueMessage) → IsStorable m → All (Lacks b'\n') (header_lines m)
header_lines_lack m ok = (
  field-Lacks (codes "id") m.id (ground arith) ok.id_value.one_line,
  (
    field-Lacks (codes "sender") m.sender (ground arith) ok.sender_value.one_line,
    (
      field-Lacks (codes "recipients") (join comma m.recipients) (ground arith)
          (join-IsValue m.recipients ok.recipients_valid).one_line,
      (
        field-Lacks (codes "retry_count") (decimal m.retry_count) (ground arith)
            (decimal-IsValue m.retry_count).one_line,
        (
          field-Lacks (codes "next_attempt") (decimal m.next_attempt) (ground arith)
              (decimal-IsValue m.next_attempt).one_line,
          (
            field-Lacks (codes "created") (decimal m.created) (ground arith)
                (decimal-IsValue m.created).one_line,
            tt,
          ),
        ),
      ),
    ),
  ),
)

read_fields-cons :
    (c : ℕ) (k v : Bytes) (ls : List Bytes) (m : QueueMessage)
    → IsKey c k
    → IsTrimmed v
    → read_fields ((c ∷ (k ++ b':' ∷ b' ' ∷ v)) ∷ ls) m
      ≡ read_fields ls (set_field (some (c ∷ k, v)) m)
unfolding read_fields
read_fields-cons c k v ls m key value =
    ap (λ o. read_fields ls (set_field o m)) (read_field_lem c k v key value)

id-IsKey : IsKey b'i' (codes "d")
unfolding trim_matches trim_start trim_end to_lowercase
id-IsKey = record { no_colon = ground arith; lower = refl; visible = refl }

sender-IsKey : IsKey b's' (codes "ender")
unfolding trim_matches trim_start trim_end to_lowercase
sender-IsKey = record { no_colon = ground arith; lower = refl; visible = refl }

recipients-IsKey : IsKey b'r' (codes "ecipients")
unfolding trim_matches trim_start trim_end to_lowercase
recipients-IsKey = record { no_colon = ground arith; lower = refl; visible = refl }

retry_count-IsKey : IsKey b'r' (codes "etry_count")
unfolding trim_matches trim_start trim_end to_lowercase
retry_count-IsKey = record { no_colon = ground arith; lower = refl; visible = refl }

next_attempt-IsKey : IsKey b'n' (codes "ext_attempt")
unfolding trim_matches trim_start trim_end to_lowercase
next_attempt-IsKey = record { no_colon = ground arith; lower = refl; visible = refl }

created-IsKey : IsKey b'c' (codes "reated")
unfolding trim_matches trim_start trim_end to_lowercase
created-IsKey = record { no_colon = ground arith; lower = refl; visible = refl }

-- the message as its lines are read: each value parsed
values_of : QueueMessage → QueueMessage
values_of m = record m {
  recipients = read_recipients (join comma m.recipients);
  retry_count = get_or (parse_unsigned u32_max (decimal m.retry_count)) 0;
  next_attempt = get_or (parse_unsigned u64_max (decimal m.next_attempt)) 0;
  created = get_or (parse_unsigned u64_max (decimal m.created)) 0;
}

values_read : (m : QueueMessage) → IsStorable m → values_of m ≡ m
unfolding values_of
values_read m ok = rw (read_recipients-join m.recipients ok.recipients_valid) (
    rw (parse_unsigned-decimal u32_max m.retry_count ok.retry_fits) (
      rw (parse_unsigned-decimal u64_max m.next_attempt ok.next_fits)
        (rw (parse_unsigned-decimal u64_max m.created ok.created_fits) refl)))

read_header :
    (m : QueueMessage) → IsStorable m → read_fields (header_lines m) (blank_message m.raw) ≡ m
unfolding read_fields set_field bytes_eq values_of
read_header m ok =
    let m1 = set_field (some (codes "id", m.id)) (blank_message m.raw) in
    let m2 = set_field (some (codes "sender", m.sender)) m1 in
    let m3 = set_field (some (codes "recipients", join comma m.recipients)) m2 in
    let m4 = set_field (some (codes "retry_count", decimal m.retry_count)) m3 in
    let m5 = set_field (some (codes "next_attempt", decimal m.next_attempt)) m4 in
    let rest = later_lines m in
    read_fields-cons b'i' (codes "d") m.id rest (blank_message m.raw) id-IsKey ok.id_value.trimmed
    ∙ read_fields-cons b's' (codes "ender") m.sender (drop 1 rest) m1 sender-IsKey
        ok.sender_value.trimmed
    ∙ read_fields-cons b'r' (codes "ecipients") (join comma m.recipients) (drop 2 rest) m2
        recipients-IsKey (join-IsValue m.recipients ok.recipients_valid).trimmed
    ∙ read_fields-cons b'r' (codes "etry_count") (decimal m.retry_count) (drop 3 rest) m3
        retry_count-IsKey (decimal-IsValue m.retry_count).trimmed
    ∙ read_fields-cons b'n' (codes "ext_attempt") (decimal m.next_attempt) (drop 4 rest) m4
        next_attempt-IsKey (decimal-IsValue m.next_attempt).trimmed
    ∙ read_fields-cons b'c' (codes "reated") (decimal m.created) [] m5 created-IsKey
        (decimal-IsValue m.created).trimmed
    ∙ values_read m ok

is_empty-nil : (s : Bytes) → is_empty s ≡ true → s ≡ []
is_empty-nil [] h = refl
is_empty-nil (c ∷ s) h = cc

id_kept : (stem : Bytes) (m : QueueMessage) → m.id ≢ [] → with_id stem m ≡ m
id_kept stem m ne = elim (Bool-cases (is_empty m.id)) [
  | inr full ↦ rw full refl
  | inl nothing ↦ absurd (ne (is_empty-nil m.id nothing))
]

-- The file of a storable message, whose header is valid UTF-8, gives back the message, its body byte
-- for byte whatever it is.
pub load_message-write_message :
    (lossy : Bytes → Bytes) (stem : Bytes) (m : QueueMessage)
    → IsStorable m
    → lossy (joined (header_lines m)) ≡ joined (header_lines m)
    → load_message lossy stem (write_message m) ≡ some m
unfolding load_message write_message
load_message-write_message lossy stem m ok utf =
    ap (read_parts lossy stem) (
      split_at-write_lines (field "id" m.id) (later_lines m) m.raw (header_lines_lack m ok)
        (ground arith))
    ∙ ap (λ h. some (with_id stem (read_fields (split b'\n' h) (blank_message m.raw)))) utf
    ∙ ap (λ ls. some (with_id stem (read_fields ls (blank_message m.raw))))
        (split-joined (field "id" m.id) (later_lines m) (header_lines_lack m ok))
    ∙ ap (λ x. some (with_id stem x)) (read_header m ok)
    ∙ ap some (id_kept stem m ok.id_named)
