-- ===== src/Imap/Folders.antt =====
-- src/imap.rs: the path of a mailbox, and the commands that change its messages. A mailbox is the list
-- of its files in the order of their names. STORE takes the change of a file to succeed; EXPUNGE goes
-- on where a file cannot be removed.
use Prim.Native.String.{String}
use desertemail.Prelude.{
  ℕ, zero, suc, ◌+◌, ◌-◌, Bool, not, ◌&&◌, ◌||◌, Option, none, some, List, [], ◌∷◌, ◌++◌, leb,
  if◌then◌else◌, length, get_elem?, take, drop, retain, Bytes, codes, bytes_eq, to_lowercase,
}
use desertemail.Maildir.{Entry, store_flags, meta_of, has_flag, has}
use desertemail.Imap.Sets.{sort_numbers, parse_seq_set}

abbrev ignoring_case : Bytes → String → Bool
ignoring_case name folder = bytes_eq (to_lowercase name) (codes folder)

-- the folder behind the user's name; the inbox has none
unfoldable pub folder_of : Bytes → Option Bytes
folder_of mbox_name =
    if ignoring_case mbox_name "inbox"
    then none
    else if ignoring_case mbox_name "sent"
    then some (codes ".Sent")
    else if ignoring_case mbox_name "drafts"
    then some (codes ".Drafts")
    else if ignoring_case mbox_name "junk" || ignoring_case mbox_name "spam"
    then some (codes ".Junk")
    else if ignoring_case mbox_name "trash"
    then some (codes ".Trash")
    else some mbox_name

abbrev pub path_in : Bytes → Option Bytes → Bytes
path_in user none = user
path_in user (some folder) = user ++ b'/' ∷ folder

unfoldable pub mailbox_path : Bytes → Bytes → Bytes
unfolding folder_of
mailbox_path user mbox_name = path_in user (folder_of mbox_name)

-- whether EXPUNGE takes a message
abbrev pub is_deleted : Entry → Bool
is_deleted e = has_flag (meta_of e) (codes "\\Deleted") || has (meta_of e).flags b'T'

-- the sequence numbers of the messages taken, for messages numbered from `seq` on
unfoldable pub deleted_from : ℕ → List Entry → List ℕ
deleted_from seq [] = []
deleted_from seq (e ∷ es) =
    let rest = deleted_from (seq + 1) es in if is_deleted e then seq ∷ rest else rest

-- one file: the same name in the same directory
abbrev pub same_file : Entry → Entry → Bool
same_file a b = bytes_eq a.name b.name && (if a.in_new then b.in_new else not b.in_new)

-- `expunge` of storage.rs. Whether a file can be removed is the parameter `removable`; a file that is
-- gone already changes nothing either.
unfoldable pub expunge : (Entry → Bool) → Entry → List Entry → List Entry
expunge removable m files = if removable m then retain (λ f. not (same_file m f)) files else files

unfoldable pub expunge_at : (Entry → Bool) → List Entry → ℕ → List Entry → List Entry
unfolding expunge
expunge_at removable msgs seq files = elim (get_elem? msgs (seq - 1)) [
  | none ↦ files
  | some m ↦ expunge removable m files
]

-- the loop over the numbers, from the last to the first
unfoldable pub expunge_each : (Entry → Bool) → List Entry → List ℕ → List Entry → List Entry
unfolding expunge_at
expunge_each removable msgs [] files = files
expunge_each removable msgs (seq ∷ seqs) files =
    expunge_at removable msgs seq (expunge_each removable msgs seqs files)

-- EXPUNGE for the messages that the session lists, where the mailbox has these files: the files that
-- it has from then on, and the numbers of the messages taken, as they are reported.
unfoldable pub do_expunge : (Entry → Bool) → List Entry → List Entry → List Entry × List ℕ
unfolding deleted_from sort_numbers expunge_each
do_expunge removable msgs files =
    let to_expunge = sort_numbers (deleted_from 1 msgs) in
    (expunge_each removable msgs to_expunge files, to_expunge)

-- `.SILENT`, in one of two spellings, is taken off the end of a mode, as often as it stands there
abbrev strip_suffix : Bytes → Bytes → Option Bytes
strip_suffix suffix s =
    if leb (length suffix) (length s)
    then (if bytes_eq (drop (length s - length suffix) s) suffix
        then some (take (length s - length suffix) s)
        else none)
    else none

-- each round takes a byte at least, so the length is enough
unfoldable pub trim_suffix : ℕ → Bytes → Bytes → Bytes
trim_suffix zero suffix s = s
trim_suffix (suc fuel) suffix s = elim (strip_suffix suffix s) [
  | none ↦ s
  | some front ↦ trim_suffix fuel suffix front
]

abbrev mode_clean : Bytes → Bytes
mode_clean mode =
    let upper = trim_suffix (length mode) (codes ".SILENT") mode in
    trim_suffix (length upper) (codes ".silent") upper

-- the messages whose numbers, counted from `seq` on, are in the set
unfoldable pub store_from : ℕ → List ℕ → Bytes → List Bytes → List Entry → List Entry
store_from seq targets mode imap_flags [] = []
store_from seq targets mode imap_flags (e ∷ es) =
    (if has targets seq then store_flags e mode imap_flags else e)
    ∷ store_from (seq + 1) targets mode imap_flags es

-- STORE by sequence numbers, each message at its place. (The source then lists the mailbox anew.)
unfoldable pub do_store : List Entry → Bytes → Bytes → List Bytes → List Entry
unfolding trim_suffix store_from
do_store msgs seq_set mode imap_flags =
    store_from 1 (parse_seq_set seq_set (length msgs)) (mode_clean mode) imap_flags msgs
