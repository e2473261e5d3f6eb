-- ===== src/Spam/From.antt =====
-- src/spamscore.rs: which of several From headers `from_header_domain` takes.
use desertemail.Prelude.{
  ◌≡◌, refl, ap, ◌∙◌, true, false, not, ◌&&◌, Option, none, some, List, [], ◌∷◌, ◌++◌, map, arith,
  if◌then◌else◌, if-all, All, is_empty, Bytes, to_lowercase, is_whitespace, trim_matches,
  strip_prefix, starts_with, split,
}
use desertemail.Spam.Score.{
  is_from, is_folded, flushed, scan_from, last_or, from_domain, header_end, without_cr,
  from_header_domain,
}

-- a line that begins a header other than From
abbrev pub IsOther : Bytes → Type 0
IsOther line = (is_folded line ≡ false) × (is_from line ≡ false)

scan_from_next :
    (line : Bytes) (ls : List Bytes) (cur : Bytes) (from_val : Option Bytes)
    → is_folded line ≡ false
    → scan_from (line ∷ ls) cur from_val ≡ scan_from ls line (flushed cur from_val)
unfolding scan_from
scan_from_next line ls cur from_val h =
    ap
      (λ b.
        if b && not (is_empty cur)
        then scan_from ls (cur ++ b' ' ∷ trim_matches is_whitespace line) from_val
        else scan_from ls line (flushed cur from_val))
      h

scan_from-keeps :
    (ys : List Bytes) (cur v : Bytes)
    → is_from cur ≡ false
    → All IsOther ys
    → last_or (scan_from ys cur (some v)) ≡ some v
scan_from-keeps [] cur v h o = unfold scan_from in refl
scan_from-keeps (line ∷ ys) cur v h o =
    let kept : flushed cur (some v) ≡ some v = ground arith in
    ap last_or (scan_from_next line ys cur (some v) o.0.0)
    ∙ (ap (λ f. last_or (scan_from ys line f)) kept ∙ scan_from-keeps ys line v o.0.1 o.1)

flushed_from :
    (line : Bytes) (from_val : Option Bytes)
    → is_from line ≡ true
    → flushed line from_val ≡ some line
unfolding to_lowercase starts_with strip_prefix
flushed_from [] from_val f = absurd (cc)
flushed_from (c ∷ line) from_val f = ap (λ b. if b then some (c ∷ line) else from_val) f

scan_from-last :
    (xs ys : List Bytes) (line next cur : Bytes) (from_val : Option Bytes)
    → is_folded line ≡ false
    → is_from line ≡ true
    → All IsOther (next ∷ ys)
    → last_or (scan_from (xs ++ line ∷ next ∷ ys) cur from_val) ≡ some line
unfolding scan_from
scan_from-last [] ys line next cur from_val h f o =
    ap last_or (
      scan_from_next line (next ∷ ys) cur from_val h
      ∙ (scan_from_next next ys line (flushed cur from_val) o.0.0
          ∙ ap (scan_from ys next) (flushed_from line (flushed cur from_val) f)))
    ∙ scan_from-keeps ys next line o.0.1 o.1
scan_from-last (x ∷ xs) ys line next cur from_val h f o =
    if-all (λ r. last_or r ≡ some line) (is_folded x && not (is_empty cur)) _ _
      (λ a. scan_from-last xs ys line next _ _ h f o)
      (λ a. scan_from-last xs ys line next _ _ h f o)

-- A From header with headers other than From behind it, one at least and none of them folded, gives
-- the domain, whatever headers come before it.
pub from_header_domain-last :
    (from_utf8_lossy : Bytes → Bytes) (raw : Bytes) (xs ys : List Bytes) (line next : Bytes)
    → map without_cr (split 10 (from_utf8_lossy (header_end raw))) ≡ xs ++ line ∷ next ∷ ys
    → is_folded line ≡ false
    → is_from line ≡ true
    → All IsOther (next ∷ ys)
    → from_header_domain from_utf8_lossy raw ≡ from_domain (some line)
unfolding from_header_domain
from_header_domain-last from_utf8_lossy raw xs ys line next e h f o =
    ap (λ lines. from_domain (last_or (scan_from lines [] none))) e
    ∙ ap from_domain (scan_from-last xs ys line next [] none h f o)
