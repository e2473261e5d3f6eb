-- ===== src/Crypto.antt =====
-- src/crypto.rs: the unsigned integers of many limbs that RSA computes with.
pub mod BigUint
pub mod Value
pub mod Sums
pub mod Products
pub mod Division
pub mod Shifts
pub mod Lengths
pub mod LongDivision
pub mod Quotients
pub mod Congruence
pub mod PowerRounds
pub mod Powers
pub mod Inverse
pub mod Bezout
pub mod Coefficients
pub mod Invert
pub mod Octets
pub mod OctetValue
pub mod OctetRoundTrip
pub mod Rsa
pub mod Padding
pub mod Encoding
pub mod Signature
pub mod Der
pub mod DerRoundTrip
pub mod PublicKey
mod Examples
