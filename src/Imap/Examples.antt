-- ===== src/Imap/Examples.antt =====
-- A mailbox of three messages, and sets of numbers.
use Prim.Native.String.{String}
use desertemail.Prelude.{
  ℕ, ◌≡◌, refl, ap, ◌∙◌, Bool, true, false, not, ◌&&◌, retain, List, [], ◌∷◌, ◌++◌, leb, any, codes,
  bytes_eq, to_lowercase, trim_start, trim_end, trim_matches, strip_prefix, split_once, split,
  digits_from, parse_unsigned,
}
use desertemail.Maildir.{
  Entry, meta_of, has_flag, has, imap_flag_to_char, flags_from_name, rsplit_at,
}
use desertemail.Imap.Sets.{
  part_numbers, all_parts, insert_number, sort_numbers, dedup, parse_seq_set,
}
use desertemail.Imap.Folders.{
  deleted_from, expunge, expunge_at, expunge_each, do_expunge, folder_of, mailbox_path,
}
use desertemail.Imap.Covers.{covers, IsIncreasing, parse_seq_set-covers}
use desertemail.Imap.Expunge.{
  remove_number, remove_in_order, goes_for, numbers_deleted, do_expunge-left,
}

abbrev file : String → Entry
file name = record { in_new = false; name = codes name }

abbrev three : List Entry
three = file "1:2,T" ∷ file "2:2,T" ∷ file "3:2," ∷ []

abbrev every : Entry → Bool
every f = true

-- a message that came since the session listed its messages
abbrev four : List Entry
four = three ++ file "4:2," ∷ []

do_expunge-left_example :
    ((do_expunge every three four).0 ≡ retain (λ f. not (any (goes_for every f) three)) four)
    × ((n : ℕ) → has (do_expunge every three four).1 n ≡ numbers_deleted three n)
    × IsIncreasing 1 (do_expunge every three four).1
do_expunge-left_example = do_expunge-left every three four

expunged : do_expunge every three four ≡ (file "3:2," ∷ file "4:2," ∷ [], 1 ∷ 2 ∷ [])
unfolding do_expunge deleted_from sort_numbers insert_number expunge_each expunge_at expunge meta_of
    has_flag imap_flag_to_char flags_from_name rsplit_at strip_prefix to_lowercase trim_matches
    trim_start trim_end bytes_eq
expunged = refl

-- the numbers are reported in ascending order, by which a client loses the wrong message
misled : remove_in_order (do_expunge every three four).1 three ≡ file "2:2,T" ∷ []
misled =
    ap (λ (r : List Entry × List ℕ). remove_in_order r.1 three) expunged
    ∙ (unfold remove_in_order remove_number in refl)

parse_seq_set-covers_example :
    (has (parse_seq_set (codes "4,2:3,*") 5) 3 ≡ any (covers 5 3) (split b',' (codes "4,2:3,*")))
    × IsIncreasing 0 (parse_seq_set (codes "4,2:3,*") 5)
parse_seq_set-covers_example = parse_seq_set-covers (codes "4,2:3,*") 5 3

read_in_order : parse_seq_set (codes "4,2:3,*") 5 ≡ 2 ∷ 3 ∷ 4 ∷ 5 ∷ []
unfolding parse_seq_set part_numbers all_parts insert_number sort_numbers dedup split split_once
    bytes_eq parse_unsigned digits_from
read_in_order = refl

-- RFC 3501 reads both of these as the numbers from 4 to 5
star_first : parse_seq_set (codes "*:4") 5 ≡ 1 ∷ 2 ∷ 3 ∷ 4 ∷ []
unfolding parse_seq_set part_numbers all_parts insert_number sort_numbers dedup split split_once
    bytes_eq parse_unsigned digits_from
star_first = refl

downwards : parse_seq_set (codes "5:4") 5 ≡ []
unfolding parse_seq_set part_numbers all_parts insert_number sort_numbers dedup split split_once
    bytes_eq parse_unsigned digits_from
downwards = refl

spam_folder : mailbox_path (codes "ann") (codes "Spam") ≡ codes "ann/.Junk"
unfolding mailbox_path folder_of to_lowercase bytes_eq
spam_folder = refl

abbrev letters : ℕ → Bool
letters c = leb b'a' c && leb c b'z'
