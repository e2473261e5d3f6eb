-- ===== src/Maildir/Examples.antt =====
-- A message with two flags, and paths that try to lead out.
use desertemail.Prelude.{
  ℕ, ◌≡◌, refl, ◌⊎◌, Bool, true, false, ◌&&◌, List, [], ◌∷◌, leb, ◌==◌, All, any, Bytes, codes,
  bytes_eq, to_lowercase, trim_start, trim_end, trim_matches, strip_prefix, split, join,
  to_uppercase,
}
use desertemail.Maildir.Names.{
  rsplit_at, base_name, flags_from_name, imap_flag_to_char, has, sort_maildir_flags, Entry, meta_of,
  has_flag, mode_of, apply_flags, store_flags, imap_flags_str, maildir_to_imap_flags,
  char_to_imap_flag,
}
use desertemail.Maildir.Paths.{split_where, safe_char, add_parts, sanitize}
use desertemail.Maildir.Flags.{expected, store_flags-listed}
use desertemail.Maildir.Safe.{IsBelow, sanitize-IsBelow}

abbrev entry : Entry
entry = record { in_new = false; name = codes "17.de1:2,FS" }

abbrev seen : List Bytes
seen = codes "\\Seen" ∷ []

single : base_name (base_name entry.name) ≡ base_name entry.name
unfolding base_name rsplit_at strip_prefix
single = refl

store_flags-listed_example :
    (has (meta_of (store_flags entry (codes "-flags") seen)).flags b'S'
      ≡ expected
          (mode_of (codes "-flags"))
          (has (meta_of entry).flags b'S')
          (any (λ f. imap_flag_to_char f == b'S') seen))
    × ((meta_of (store_flags entry (codes "-flags") seen)).uid ≡ (meta_of entry).uid)
store_flags-listed_example = store_flags-listed entry (codes "-flags") seen b'S' refl single

-- the message stays flagged
unseen :
    store_flags entry (codes "-flags") seen ≡ record { in_new = false; name = codes "17.de1:2,F" }
unfolding store_flags mode_of apply_flags imap_flag_to_char sort_maildir_flags flags_from_name
    base_name rsplit_at strip_prefix to_uppercase to_lowercase trim_matches trim_start trim_end
    bytes_eq
unseen = refl

-- a message is never \Recent for `has_flag`, though it is listed so
recent : has_flag (meta_of (record entry { in_new = true })) (codes "\\Recent") ≡ false
unfolding has_flag imap_flag_to_char to_lowercase trim_matches trim_start trim_end bytes_eq
recent = refl

listed : imap_flags_str (meta_of entry) ≡ codes "(\\Flagged \\Seen)"
unfolding imap_flags_str meta_of maildir_to_imap_flags char_to_imap_flag flags_from_name rsplit_at
    strip_prefix join
listed = refl

abbrev letters : ℕ → Bool
letters c = leb b'a' c && leb c b'z'

led_back : sanitize letters (codes "ann/../..\\.junk") ≡ codes "ann/.junk"
unfolding sanitize add_parts safe_char split_where bytes_eq
led_back = refl

sanitize-IsBelow_example :
    (sanitize letters (codes "ann/../..\\.junk") ≡ [])
    ⊎ All IsBelow (split b'/' (sanitize letters (codes "ann/../..\\.junk")))
sanitize-IsBelow_example = sanitize-IsBelow letters (codes "ann/../..\\.junk")
