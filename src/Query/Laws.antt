-- ===== src/Query/Laws.antt =====
-- What every parsed query looks like, and what its last word does.
use google_co.Base.{
  ◌≡◌, refl, Bool, false, ◌||◌, List, [], ◌∷◌, ◌++◌, Option, none, some, is_empty, All, All-append,
  Bool-cases, inl, inr,
}
use google_co.Str.Ascii.{Str, codes, eq, to_ascii_lowercase, to_ascii_lowercase_idempotent, NoSpace}
use google_co.Str.Split.{split_whitespace, split_once, split_whitespace-NoSpace}
use google_co.Query.{
  ParsedQuery, parse_query, query_word, query_words, no_query, keyed, push_term, set_site,
  set_filetype, filter_value,
}

-- A filter's value is not empty and holds no capital.
abbrev pub IsValue : Option Str → Type 0
IsValue none = Unit
IsValue (some v) = (is_empty v ≡ false) × (to_ascii_lowercase v ≡ v)

abbrev pub names_filter : Option (Str × Str) → Bool
names_filter none = false
names_filter (some (k, v)) =
    eq (to_ascii_lowercase k) (codes "site") || eq (to_ascii_lowercase k) (codes "filetype")

-- The word sets a filter: `site:` or `filetype:` in any case.
abbrev pub is_filter : Str → Bool
is_filter raw = names_filter (split_once raw b':')

abbrev pub IsTerm : Str → Type 0
IsTerm t = NoSpace t × (is_empty t ≡ false) × (is_filter t ≡ false)

pub record IsParsed (q : ParsedQuery) : Type 0 where
  pub terms_ok : All IsTerm q.terms
  pub site_ok : IsValue q.filters.site
  pub filetype_ok : IsValue q.filters.filetype

push_term-IsParsed :
    (raw : Str) (q : ParsedQuery) → IsTerm raw → IsParsed q → IsParsed (push_term raw q)
push_term-IsParsed [] q h p = p
push_term-IsParsed (c ∷ s) q h p = record {
  terms_ok = All-append IsTerm q.terms ((c ∷ s) ∷ []) p.terms_ok (h, tt);
  site_ok = p.site_ok;
  filetype_ok = p.filetype_ok;
}

IsValue-ok : (v : Str) → is_empty (filter_value v) ≡ false → IsValue (some (filter_value v))
IsValue-ok v h = (h, to_ascii_lowercase_idempotent _)

set_site-IsParsed :
    (v : Str) (q : ParsedQuery) → IsParsed q → IsParsed (set_site (filter_value v) q)
set_site-IsParsed v q p = elim (Bool-cases (is_empty (filter_value v))) [
  | inl e ↦ rw e p
  | inr e ↦
      rw e (record { terms_ok = p.terms_ok; site_ok = IsValue-ok v e; filetype_ok = p.filetype_ok })
]

set_filetype-IsParsed :
    (v : Str) (q : ParsedQuery) → IsParsed q → IsParsed (set_filetype (filter_value v) q)
set_filetype-IsParsed v q p = elim (Bool-cases (is_empty (filter_value v))) [
  | inl e ↦ rw e p
  | inr e ↦
      rw e (record { terms_ok = p.terms_ok; site_ok = p.site_ok; filetype_ok = IsValue-ok v e })
]

keyed-IsParsed :
    (o : Option (Str × Str)) (raw : Str) (q : ParsedQuery)
    → NoSpace raw
    → is_empty raw ≡ false
    → o ≡ split_once raw b':'
    → IsParsed q
    → IsParsed (keyed o raw q)
keyed-IsParsed none raw q h ne e p = push_term-IsParsed raw q (h, ne, rw (← e) refl) p
keyed-IsParsed (some (k, v)) raw q h ne e p =
    elim (Bool-cases (eq (to_ascii_lowercase k) (codes "site"))) [
      | inl s ↦ rw s (set_site-IsParsed v q p)
      | inr s ↦ elim (Bool-cases (eq (to_ascii_lowercase k) (codes "filetype"))) [
        | inl f ↦ rw (s, f) (set_filetype-IsParsed v q p)
        | inr f ↦ rw (s, f) (push_term-IsParsed raw q (h, ne, rw (← e, s, f) refl) p)
      ]
    ]

query_words-IsParsed :
    (ws : List Str) (q : ParsedQuery)
    → All (λ w. NoSpace w × (is_empty w ≡ false)) ws
    → IsParsed q
    → IsParsed (query_words ws q)
unfolding query_words query_word
query_words-IsParsed [] q h p = p
query_words-IsParsed (w ∷ ws) q (h, hs) p =
    query_words-IsParsed ws _ hs (keyed-IsParsed (split_once w b':') w q h.0 h.1 refl p)

-- Terms are words without whitespace that set no filter, and the filters' values are not empty and
-- in lower case.
pub parse_query-IsParsed : (input : Str) → IsParsed (parse_query input)
unfolding parse_query
parse_query-IsParsed input =
    query_words-IsParsed (split_whitespace input) no_query (split_whitespace-NoSpace input)
      (record { terms_ok = tt; site_ok = tt; filetype_ok = tt })

pub query_words-append :
    (ws vs : List Str) (q : ParsedQuery)
    → query_words (ws ++ vs) q ≡ query_words vs (query_words ws q)
unfolding query_words
query_words-append [] vs q = refl
query_words-append (w ∷ ws) vs q = query_words-append ws vs (query_word w q)
