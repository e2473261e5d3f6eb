-- ===== src/Queue.antt =====
-- src/queue.rs: the queue of outgoing mail. `File` has the messages and their files, `Send` the client's
-- side of SMTP, `Deliver` the delivery to a domain, `Attempt` to a whole message, `Worker` the rounds.
mod File
mod Send
mod Deliver
mod Attempt
mod Worker
pub mod Values
pub mod Recipients
pub mod RoundTrip
pub mod Accepted
pub mod Relay
pub mod Account
pub mod Age
mod Examples
unfoldable pub use File.*
unfoldable pub use Deliver.*
unfoldable pub use Attempt.*
unfoldable pub use Worker.*
unfoldable pub use Send.*
