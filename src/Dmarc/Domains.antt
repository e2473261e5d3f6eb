-- ===== src/Dmarc/Domains.antt =====
-- src/dmarc.rs: which domains belong together.
use Prim.Native.String.{String}
use desertemail.Prelude.{
  ℕ, ◌-◌, Bool, false, not, ◌||◌, List, [], ◌∷◌, leb, ◌==◌, if◌then◌else◌, length, drop, retain,
  any, is_empty, Bytes, codes, bytes_eq, to_lowercase, trim_end, split, join,
}

pub data AlignMode : Type 0 where
  relaxed strict : AlignMode

-- `trim_end_matches('.').to_lowercase()`
unfoldable pub plain_domain : Bytes → Bytes
plain_domain domain = to_lowercase (trim_end (λ c. c == b'.') domain)

abbrev multi_level_tlds : List String
multi_level_tlds =
    "co.uk" ∷ "org.uk" ∷ "ac.uk" ∷ "gov.uk" ∷ "me.uk" ∷ "net.uk" ∷ "com.au" ∷ "net.au" ∷ "org.au"
    ∷ "edu.au" ∷ "co.nz" ∷ "net.nz" ∷ "org.nz" ∷ "co.jp" ∷ "or.jp" ∷ "ne.jp" ∷ "com.br" ∷ "com.mx"
    ∷ "co.za" ∷ "com.sg" ∷ "com.hk" ∷ "co.in" ∷ "com.tw" ∷ "co.kr" ∷ "com.ar" ∷ "com.tr" ∷ "co.id"
    ∷ "com.my" ∷ "co.th" ∷ "com.ph" ∷ "com.vn" ∷ "co.il" ∷ "com.eg" ∷ "com.ng" ∷ "com.pk" ∷ "com.sa"
    ∷ "com.ua" ∷ "com.pl" ∷ "co.at" ∷ "or.at" ∷ "ac.at" ∷ "gv.at" ∷ "priv.at" ∷ "com.cn" ∷ "net.cn"
    ∷ "org.cn" ∷ "com.ru" ∷ "net.ru" ∷ "org.ru" ∷ "co.ve" ∷ "com.ve" ∷ "gen.tr" ∷ "org.tr"
    ∷ "blogspot.com" ∷ []

unfoldable pub is_multi_level_tld : Bytes → Bool
is_multi_level_tld s = any (λ t. bytes_eq s (codes t)) multi_level_tlds

abbrev pub dot : Bytes
dot = b'.' ∷ []

abbrev labels_of : Bytes → List Bytes
labels_of domain = retain (λ l. not (is_empty l)) (split b'.' domain)

abbrev last_labels : ℕ → List Bytes → Bytes
last_labels n labels = join dot (drop (length labels - n) labels)

-- the labels of a domain that has one at least
abbrev organization : Bytes → List Bytes → Bytes
organization domain labels =
    if leb (length labels) 2
    then domain
    else if is_multi_level_tld (last_labels 2 labels)
    then last_labels 3 labels
    else last_labels 2 labels

unfoldable pub organizational_domain : Bytes → Bytes
unfolding plain_domain is_multi_level_tld
organizational_domain domain =
    if is_empty (plain_domain domain)
    then plain_domain domain
    else organization (plain_domain domain) (labels_of (plain_domain domain))

abbrev pub align_as : AlignMode → Bytes → Bytes → Bool
align_as strict from auth = bytes_eq from auth
align_as relaxed from auth =
    bytes_eq from auth || bytes_eq (organizational_domain from) (organizational_domain auth)

unfoldable pub domains_align : Bytes → Bytes → AlignMode → Bool
domains_align from_domain auth_domain mode =
    let from = plain_domain from_domain in
    let auth = plain_domain auth_domain in
    if is_empty from || is_empty auth then false else align_as mode from auth
