-- ===== src/Query.antt =====
-- gurt-query/src/lib.rs: search terms and filters from a query string.
pub mod Laws
pub mod RoundTrip
use google_co.Base.{
  ℕ, ◌+◌, ◌-◌, Bool, true, false, ◌&&◌, ◌||◌, List, [], ◌∷◌, ◌++◌, leb, ◌==◌, if◌then◌else◌, Option,
  none, some, is_empty, length, take, drop,
}
use google_co.Str.Ascii.{Str, codes, eq, to_ascii_lowercase}
use google_co.Str.Split.{split_whitespace, split_once}

pub record QueryFilters : Type 0 where
  pub site : Option Str
  pub filetype : Option Str

pub record ParsedQuery : Type 0 where
  pub terms : List Str
  pub filters : QueryFilters

abbrev last_or : ℕ → Str → ℕ
last_or d [] = d
last_or d (c ∷ s) = last_or c s

abbrev is_quoted : Str → Bool
is_quoted [] = false
is_quoted (c ∷ s) = let last = last_or c s in (c == b'"' && last == b'"') || (c == 39 && last == 39)

unfoldable pub strip_quotes : Str → Str
strip_quotes s = if leb 2 (length s) && is_quoted s then take (length s - 2) (drop 1 s) else s

-- The value of a filter.
abbrev pub filter_value : Str → Str
filter_value v = to_ascii_lowercase (strip_quotes v)

abbrev set_site : Str → ParsedQuery → ParsedQuery
set_site v q = if is_empty v then q else record q { filters = record q.filters { site = some v } }

abbrev set_filetype : Str → ParsedQuery → ParsedQuery
set_filetype v q =
    if is_empty v then q else record q { filters = record q.filters { filetype = some v } }

abbrev push_term : Str → ParsedQuery → ParsedQuery
push_term raw q = if is_empty raw then q else record q { terms = q.terms ++ raw ∷ [] }

abbrev keyed : Option (Str × Str) → Str → ParsedQuery → ParsedQuery
keyed none raw q = push_term raw q
keyed (some (k, v)) raw q =
    if eq (to_ascii_lowercase k) (codes "site")
    then set_site (filter_value v) q
    else if eq (to_ascii_lowercase k) (codes "filetype")
    then set_filetype (filter_value v) q
    else push_term raw q

-- One round of the loop over the words.
unfoldable pub query_word : Str → ParsedQuery → ParsedQuery
query_word raw q = keyed (split_once raw b':') raw q

unfoldable pub query_words : List Str → ParsedQuery → ParsedQuery
query_words [] q = q
query_words (raw ∷ rest) q = query_words rest (query_word raw q)

abbrev pub no_query : ParsedQuery
no_query = record { terms = []; filters = record { site = none; filetype = none } }

unfoldable pub parse_query : Str → ParsedQuery
parse_query input = query_words (split_whitespace input) no_query
