-- ===== src/Spam.antt =====
-- src/spamscore.rs: what the server does about unsolicited mail. `Greylist` has the files of the
-- greylist, with proofs in `Delay`; `Score` the score of a message, with proofs in `From`.
mod Greylist
pub mod Score
pub mod From
pub mod Delay
mod Examples
unfoldable pub use Greylist.*
