-- ===== src/Imap/Confined.antt =====
-- A client's mailboxes lie in the directory of its user.
use desertemail.Prelude.{ℕ, ◌≡◌, Bool, false, List, ◌∷◌, ◌++◌, map, All, Bytes}
use desertemail.Maildir.{is_separator, is_skipped, safe_char}

-- A name that is a directory of its own: `sanitize` leaves it as it is, in one segment.
pub record IsUserName (is_alphanumeric : ℕ → Bool) (user : Bytes) : Type 0 where
  pub whole : All (λ c. is_separator c ≡ false) user
  pub kept : is_skipped user ≡ false
  pub safe : map (safe_char is_alphanumeric) user ≡ user

-- the directory or one below it
pub data IsInside (user : Bytes) : Bytes → Type 0 where
  itself : IsInside user user
  below : (rest : Bytes) → IsInside user (user ++ b'/' ∷ rest)
