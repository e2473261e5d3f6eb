-- ===== src/Spf/Record.antt =====
-- src/spf.rs: the text of a record: terms, qualifiers, and the parts of a mechanism.
use desertemail.Prelude.{
  ℕ, Bool, ◌&&◌, ◌||◌, Option, none, some, List, [], ◌∷◌, leb, ◌==◌, if◌then◌else◌, length,
  get_elem?, take, drop, is_empty, Bytes, codes, bytes_eq, to_lowercase, is_whitespace, trim_start,
  trim_end, trim_matches, starts_with, split_once, split, parse_unsigned, get_or,
}

pub data SpfResult : Type 0 where
  pass fail soft_fail neutral none_found temp_error perm_error : SpfResult

pub data Qual : Type 0 where
  plus minus tilde question : Qual

unfoldable pub to_result : Qual → SpfResult
to_result plus = pass
to_result minus = fail
to_result tilde = soft_fail
to_result question = neutral

abbrev is_spf : Bytes → Bool
is_spf lower =
    bytes_eq lower (codes "v=spf1")
    || starts_with (codes "v=spf1 ") lower
    || starts_with (codes "v=spf1\t") lower

unfoldable pub find_spf_record : List Bytes → Option Bytes
unfolding bytes_eq starts_with trim_matches to_lowercase
find_spf_record [] = none
find_spf_record (t ∷ ts) =
    let trimmed = trim_matches is_whitespace t in
    let rest = find_spf_record ts in if is_spf (to_lowercase trimmed) then some trimmed else rest

unfoldable pub parse_qualifier : Bytes → Qual × Bytes
parse_qualifier [] = (plus, [])
parse_qualifier (c ∷ cs) =
    if c == b'+'
    then (plus, cs)
    else if c == b'-'
    then (minus, cs)
    else if c == b'~'
    then (tilde, cs)
    else if c == b'?'
    then (question, cs)
    else (plus, c ∷ cs)

-- The prefixes are given in lower case.
unfoldable pub strip_prefix_ci : Bytes → Bytes → Option Bytes
unfolding bytes_eq to_lowercase
strip_prefix_ci s prefix =
    if leb (length prefix) (length s) && bytes_eq (to_lowercase (take (length prefix) s)) prefix
    then some (drop (length prefix) s)
    else none

abbrev pub u8_max : ℕ
u8_max = 255

unfoldable pub split_cidr : Bytes → ℕ → Bytes × ℕ
unfolding split_once parse_unsigned
split_cidr spec default_prefix = elim (split_once b'/' spec) [
  | none ↦ (spec, default_prefix)
  | some (addr, p) ↦ (addr, get_or (parse_unsigned u8_max p) default_prefix)
]

abbrev is_dot : ℕ → Bool
is_dot c = c == b'.'

-- a domain name as the source compares it: no dot at the end, lower case
unfoldable pub normal_domain : Bytes → Bytes
unfolding trim_end to_lowercase
normal_domain s = to_lowercase (trim_end is_dot s)

abbrev cidr_of : Option Bytes → ℕ → ℕ
cidr_of none default_prefix = default_prefix
cidr_of (some s) default_prefix = get_or (parse_unsigned u8_max s) default_prefix

-- `a:dom/24//64` splits into `dom`, `24`, an empty piece and `64`.
abbrev ip6_cidr : List Bytes → ℕ
ip6_cidr (_ ∷ _ ∷ _ ∷ s ∷ _) = cidr_of (some s) 128
ip6_cidr (_ ∷ [] ∷ s ∷ []) = cidr_of (some s) 128
ip6_cidr _ = 128

abbrev domain_part : Bytes → Bytes → Bytes
domain_part name_default [] = name_default
domain_part name_default (c ∷ cs) = normal_domain (c ∷ cs)

abbrev dual_parts : Bytes → List Bytes → Bytes × ℕ × ℕ
dual_parts name_default [] = (name_default, 32, 128)
dual_parts name_default (d ∷ parts) =
    (domain_part name_default d, cidr_of (get_elem? parts 0) 32, ip6_cidr (d ∷ parts))

abbrev after_name : Bytes → Bytes
after_name mech = elim (strip_prefix_ci mech (codes "a")) [
  | some r ↦ r
  | none ↦ get_or (strip_prefix_ci mech (codes "mx")) []
]

unfoldable pub parse_dual_cidr : Bytes → Bytes → Bytes × ℕ × ℕ
unfolding strip_prefix_ci trim_start split parse_unsigned normal_domain
parse_dual_cidr mech name_default =
    let rest = trim_start (λ c. c == b':') (after_name mech) in
    if is_empty rest then (name_default, 32, 128) else dual_parts name_default (split b'/' rest)
