-- ===== src/Crawler/Sitemap.antt =====
-- gurtd/src/crawler/sitemap.rs: the addresses in a sitemap, and their priority.
pub mod Laws
use google_co.Base.{
  ℕ, zero, suc, ◌+◌, Bool, ◌||◌, List, [], ◌∷◌, ◌++◌, if◌then◌else◌, Option, none, some, is_empty,
  length, take, drop, any, ◌>>=◌,
}
use google_co.Str.Ascii.{Str, codes, eq, trim}
use google_co.Str.Search.{find, find_char}

-- The text inside the next `<loc>` element, and the text behind the element.
unfoldable pub next_loc : Str → Option (Str × Str)
next_loc rest = do
  start ← find rest (codes "<loc")
  let after_start = drop start rest
  gt ← find_char after_start b'>'
  let after_tag = drop (gt + 1) after_start
  end ← find after_tag (codes "</loc>")
  some (take end after_tag, drop (end + 6) after_tag)

abbrev pub push_url : Str → Option (List Str) → Option (List Str)
push_url u none = none
push_url u (some us) = if is_empty u then some us else some (u ∷ us)

abbrev pub scanned : (Str → Option (List Str)) → Option (Str × Str) → Option (List Str)
scanned later none = some []
scanned later (some (url, rest)) = push_url (trim url) (later rest)

-- The loop, with fuel; `none` means that the fuel ran out.
unfoldable pub scan_locs : ℕ → Str → Option (List Str)
scan_locs zero rest = none
scan_locs (suc f) rest = scanned (λ r. scan_locs f r) (next_loc rest)

unfoldable pub parse_sitemap_xml : Str → Option (List Str)
parse_sitemap_xml xml = scan_locs (suc (length xml)) xml

-- The loop that sorts the candidates into those of the sitemap and the others.
unfoldable pub part_by : List Str → List Str → List Str → List Str → List Str
part_by sm [] a b = a ++ b
part_by sm (u ∷ us) a b =
    let listed = any (λ s. eq s u) sm in
    part_by sm us (if listed then a ++ u ∷ [] else a) (if listed then b else b ++ u ∷ [])

unfoldable pub prioritize_with_sitemap : List Str → List Str → List Str
unfolding part_by
prioritize_with_sitemap candidates sitemap_urls =
    if is_empty sitemap_urls || is_empty candidates
    then candidates
    else part_by sitemap_urls candidates [] []
