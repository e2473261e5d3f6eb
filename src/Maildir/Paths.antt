-- ===== src/Maildir/Paths.antt =====
-- src/storage.rs: the directory of a mailbox. A path is its characters, and which of them are letters
-- or digits is a parameter.
use desertemail.Prelude.{
  ℕ, Bool, ◌||◌, List, [], ◌∷◌, ◌++◌, map, ◌==◌, if◌then◌else◌, is_empty, Bytes, codes, bytes_eq,
  push_piece,
}

-- `split` at the characters of a kind
unfoldable pub split_where : (ℕ → Bool) → Bytes → List Bytes
split_where p [] = [] ∷ []
split_where p (x ∷ xs) = let rest = split_where p xs in if p x then [] ∷ rest else push_piece x rest

abbrev pub is_separator : ℕ → Bool
is_separator c = c == b'/' || c == b'\\'

abbrev pub is_skipped : Bytes → Bool
is_skipped part = is_empty part || (bytes_eq part (codes ".") || bytes_eq part (codes ".."))

module _ (is_alphanumeric : ℕ → Bool) where
  unfoldable pub safe_char : ℕ → ℕ
  safe_char c =
      if is_alphanumeric c || (c == b'-' || (c == b'_' || (c == b'.' || c == b'@')))
      then c
      else b'_'

  unfoldable pub add_parts : Bytes → List Bytes → Bytes
  unfolding safe_char
  add_parts out [] = out
  add_parts out (part ∷ parts) =
      let grown = if is_empty out then out else out ++ b'/' ∷ [] in
      add_parts (if is_skipped part then out else grown ++ map safe_char part) parts

  unfoldable pub sanitize : Bytes → Bytes
  unfolding add_parts
  sanitize s = add_parts [] (split_where is_separator s)
