-- ===== src/Search/Key.antt =====
-- The cache key of a query, and which queries share one.
use google_co.Base.{◌≡◌, refl, ap, List, [], ◌∷◌, ◌++◌, append_assoc, map, Option, none, some}
use google_co.Str.Ascii.{Str, codes, to_ascii_lowercase, to_ascii_lowercase_idempotent}
use google_co.Str.Split.{join}
use google_co.Query.{ParsedQuery}

abbrev filter_part : Str → Option Str → List Str
filter_part name none = []
filter_part name (some v) = (name ++ to_ascii_lowercase v) ∷ []

unfoldable pub key_parts : ParsedQuery → List Str
key_parts pq =
    map to_ascii_lowercase pq.terms
    ++ (filter_part (codes "site=") pq.filters.site
        ++ filter_part (codes "filetype=") pq.filters.filetype)

abbrev pub separator : Str
separator = 0x1f ∷ []

unfoldable pub normalize_key : ParsedQuery → Str
unfolding key_parts
normalize_key pq = join (key_parts pq) separator

abbrev pub lower_option : Option Str → Option Str
lower_option none = none
lower_option (some v) = some (to_ascii_lowercase v)

-- A query with every capital replaced.
abbrev pub lower_query : ParsedQuery → ParsedQuery
lower_query pq = record {
  terms = map to_ascii_lowercase pq.terms;
  filters = record {
    site = lower_option pq.filters.site;
    filetype = lower_option pq.filters.filetype;
  };
}

lower_twice :
    (ts : List Str) → map to_ascii_lowercase (map to_ascii_lowercase ts) ≡ map to_ascii_lowercase ts
lower_twice [] = refl
lower_twice (t ∷ ts) = rw (to_ascii_lowercase_idempotent t, lower_twice ts) refl

lower_part : (name : Str) (o : Option Str) → filter_part name (lower_option o) ≡ filter_part name o
lower_part name none = refl
lower_part name (some v) = rw (to_ascii_lowercase_idempotent v) refl

-- Queries that differ only in the case of their letters share one key.
pub normalize_key-lower_query :
    (pq : ParsedQuery) → normalize_key (lower_query pq) ≡ normalize_key pq
unfolding normalize_key
normalize_key-lower_query pq =
    rw
      (
        lower_twice pq.terms,
        lower_part (codes "site=") pq.filters.site,
        lower_part (codes "filetype=") pq.filters.filetype,
      )
      refl

map-concat :
    (ts : List Str) (t : Str)
    → map to_ascii_lowercase (ts ++ t ∷ []) ≡ map to_ascii_lowercase ts ++ to_ascii_lowercase t ∷ []
map-concat [] t = refl
map-concat (u ∷ ts) t = ap (◌∷◌ (to_ascii_lowercase u)) (map-concat ts t)

-- The query with the filter `site:v` and the one with the plain term `site=v` behind its terms.
abbrev pub with_site : List Str → Str → Option Str → ParsedQuery
with_site ts v ft = record { terms = ts; filters = record { site = some v; filetype = ft } }

abbrev pub with_term : List Str → Str → Option Str → ParsedQuery
with_term ts v ft = record {
  terms = ts ++ (codes "site=" ++ v) ∷ [];
  filters = record { site = none; filetype = ft };
}

-- A site filter and a plain term spelled `site=...` share one key.
pub normalize_key_collision :
    (ts : List Str) (v : Str) (ft : Option Str)
    → normalize_key (with_site ts v ft) ≡ normalize_key (with_term ts v ft)
unfolding normalize_key to_ascii_lowercase
normalize_key_collision ts v ft =
    rw (map-concat ts (codes "site=" ++ v), append_assoc (map to_ascii_lowercase ts)) refl
