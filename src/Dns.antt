-- ===== src/Dns.antt =====
-- src/dns.rs: the client for the domain name system: names and messages on the wire, and the choice
-- of the hosts for a domain's mail.
mod Wire
mod Message
pub mod Names
pub mod RoundTrip
pub mod Answers
pub mod Hosts
pub mod Echo
mod Examples
unfoldable pub use Wire.*
unfoldable pub use Message.*
