-- ===== src/Spf/Network.antt =====
-- src/spf.rs: addresses, and whether one lies in a network.
use native.Mathlib.Nat.{pow-suc}
use desertemail.Prelude.{
  ℕ, zero, suc, ◌-◌, ◌*◌, ◌/◌, ◌%◌, ◌^◌, ◌<◌, ◌≡◌, inl, inr, Bool, true, false, not, List, arith,
  ltb, leb, ◌==◌, if◌then◌else◌, Bool-cases, get_elem?, take, bytes_eq, get_or,
}

-- An IPv4 address is its u32; an IPv6 address is its sixteen octets.
pub data IpAddr : Type 0 where
  v4 : ℕ → IpAddr
  v6 : List ℕ → IpAddr

-- `x & !((1 << k) - 1)`, which clears the low `k` bits
abbrev pub clear_low : ℕ → ℕ → ℕ
clear_low x k = x - x % 2 ^ k

unfoldable pub ipv4_in_network : ℕ → ℕ → ℕ → Bool
ipv4_in_network ip network prefix =
    if prefix == 0
    then true
    else if leb 32 prefix
    then ip == network
    else clear_low ip (32 - prefix) == clear_low network (32 - prefix)

abbrev octet_at : List ℕ → ℕ → ℕ
octet_at bytes i = get_or (get_elem? bytes i) 0

-- For a byte, `0xff << (8 - rem)` keeps the high `rem` bits.
unfoldable pub ipv6_in_network : List ℕ → List ℕ → ℕ → Bool
ipv6_in_network ip network prefix =
    let full_bytes = prefix / 8 in
    let rem_bits = prefix % 8 in
    if prefix == 0
    then true
    else if ltb 16 full_bytes
    then bytes_eq ip network
    else if not (bytes_eq (take full_bytes ip) (take full_bytes network))
    then false
    else if rem_bits == 0
    then true
    else clear_low (octet_at ip full_bytes) (8 - rem_bits)
      == clear_low (octet_at network full_bytes) (8 - rem_bits)

-- one address of an answer against the client: the two families never match
unfoldable pub addr_matches : IpAddr → ℕ → ℕ → IpAddr → Bool
unfolding ipv4_in_network ipv6_in_network
addr_matches (v4 client) ip4_c ip6_c (v4 net) = ipv4_in_network client net ip4_c
addr_matches (v6 client) ip4_c ip6_c (v6 net) = ipv6_in_network client net ip6_c
addr_matches _ ip4_c ip6_c _ = false

pow-pos : (k : ℕ) → 0 < 2 ^ k
pow-pos zero = omega arith
pow-pos (suc k) = omega (arith, pow-suc 2 k, pow-pos k)

clear_low-div : (x m : ℕ) → 0 < m → x - x % m ≡ x / m * m
clear_low-div x m h = grind arith

mul_cancel : (a b m : ℕ) → 0 < m → a * m ≡ b * m → a ≡ b
mul_cancel a b m h e = grind arith

-- Two numbers have the same bits above the low `k` exactly if clearing those makes them equal.
pub clear_low_eq : (x y k : ℕ) → (clear_low x k == clear_low y k) ≡ (x / 2 ^ k == y / 2 ^ k)
clear_low_eq x y k = ground (
  arith,
  clear_low-div x (2 ^ k) (pow-pos k),
  clear_low-div y (2 ^ k) (pow-pos k),
  mul_cancel (x / 2 ^ k) (y / 2 ^ k) (2 ^ k) (pow-pos k),
)

-- An IPv4 address is in a network exactly if the two agree above the low `32 - prefix` bits: in the
-- first `prefix` bits. (A longer prefix is read as 32.)
pub ipv4_in_network-prefix :
    (ip network prefix : ℕ)
    → ip < 2 ^ 32
    → network < 2 ^ 32
    → ipv4_in_network ip network prefix ≡ (ip / 2 ^ (32 - prefix) == network / 2 ^ (32 - prefix))
unfolding ipv4_in_network
ipv4_in_network-prefix ip network zero h k = ground arith
ipv4_in_network-prefix ip network (suc p) h k = elim (Bool-cases (leb 32 (suc p))) [
  | inl long ↦
      rw long (let none_left : 32 - suc p ≡ 0 = ground arith in rw none_left (ground arith))
  | inr short ↦ ground (arith, clear_low_eq ip network (32 - suc p))
]
