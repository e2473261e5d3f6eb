-- ===== src/Maildir.antt =====
-- src/storage.rs: the mailboxes on disk. `Names` has the names of messages with their flags, `Paths` the
-- directories of mailboxes.
mod Names
mod Paths
pub mod Flags
pub mod Safe
mod Examples
unfoldable pub use Names.*
unfoldable pub use Paths.*
