-- ===== src/Base64.antt =====
-- src/util.rs: base64. The accumulator is a u32 in the source; it stays below 2 ^ 14 here, so its
-- shift is `* 64` and its mask is `%`. The decoder is exact on texts of ASCII.
mod Codec
pub mod RoundTrip
mod Examples
unfoldable pub use Codec.*
