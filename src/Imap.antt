-- ===== src/Imap.antt =====
-- src/imap.rs: what the commands of IMAP say about messages. `Sets` has the sets of numbers that a
-- client names, `Folders` the mailboxes, STORE and EXPUNGE.
mod Sets
mod Folders
pub mod Covers
pub mod Confined
pub mod Expunge
mod Examples
unfoldable pub use Sets.*
unfoldable pub use Folders.*
