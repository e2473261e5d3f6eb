-- ===== src/Smtp.antt =====
-- src/smtp.rs: one connection of the SMTP server. A command is a function from the connection's
-- state, the server's world and the lines still to come to the replies and the state behind it.
-- `Headers` has the scans of texts, `Connection` the state and what the server stands on, `Message` the
-- DATA phase and the delivery, `Commands` the commands and the loop.
mod Headers
mod Connection
mod Message
mod Commands
pub mod Relay
pub mod Login
pub mod Size
pub mod Oversized
pub mod Sender
pub mod Loop
pub mod Inbound
mod Examples
unfoldable pub use Headers.*
unfoldable pub use Connection.*
unfoldable pub use Message.*
unfoldable pub use Commands.*
