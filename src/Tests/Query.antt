-- ===== src/Tests/Query.antt =====
-- gurt-query and gurtd/src/search: queries, their keys, and the merge of results.
use google_co.Base.{none, ◌≡◌, refl, List, [], ◌∷◌, some, All}
use google_co.Str.Ascii.{Str, codes}
use google_co.Query.{QueryFilters, ParsedQuery, parse_query, no_query, filter_value}
use google_co.Query.Laws.{IsParsed, IsTerm, parse_query-IsParsed}
use google_co.Query.RoundTrip.{parse_query-join}
use google_co.Str.Split.{join}
use google_co.Str.Ascii.{to_ascii_lowercase}

parse_query_mixed : parse_query (codes "rust SITE:Example.web filetype:html book") ≡ record {
  terms = codes "rust" ∷ codes "book" ∷ [];
  filters = record { site = some (codes "example.web"); filetype = some (codes "html") };
}
unfolding parse_query google_co.Query.query_words google_co.Str.Split.split_whitespace
    google_co.Query.query_word google_co.Str.Split.split_once google_co.Str.Ascii.eq
    to_ascii_lowercase google_co.Query.strip_quotes
parse_query_mixed = refl

parse_query-IsParsed_example : IsParsed (parse_query (codes "rust site:\"A b\" x"))
parse_query-IsParsed_example = parse_query-IsParsed (codes "rust site:\"A b\" x")

abbrev two_terms : List Str
two_terms = codes "rust" ∷ codes "book" ∷ []

two_terms-IsTerm : All IsTerm two_terms
unfolding google_co.Str.Ascii.is_whitespace google_co.Str.Split.split_once
two_terms-IsTerm = (
  ((refl, (refl, (refl, (refl, tt)))), refl, refl),
  (((refl, (refl, (refl, (refl, tt)))), refl, refl), tt),
)

parse_query-join_example :
    parse_query (join two_terms (32 ∷ [])) ≡ record no_query { terms = two_terms }
parse_query-join_example = parse_query-join two_terms two_terms-IsTerm

-- A filter behind another replaces it.
parse_query_site_twice : parse_query (codes "x site:a Site:b") ≡ record {
  terms = codes "x" ∷ [];
  filters = record { site = some (codes "b"); filetype = none };
}
unfolding parse_query google_co.Query.query_words google_co.Str.Split.split_whitespace
    google_co.Query.query_word google_co.Str.Split.split_once google_co.Str.Ascii.eq
    to_ascii_lowercase google_co.Query.strip_quotes
parse_query_site_twice = refl
