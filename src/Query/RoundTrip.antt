-- ===== src/Query/RoundTrip.antt =====
-- Queries that are put together from words.
use google_co.Base.{
  ℕ, ◌≡◌, refl, sym, ap, ◌∙◌, arith, Bool, true, false, ◌||◌, List, [], ◌∷◌, ◌++◌, append-nil,
  append_assoc, Option, none, some, is_empty, All, Bool-cases, inl, inr, or-false, if◌then◌else◌,
}
use google_co.Str.Ascii.{Str, codes, eq, to_ascii_lowercase}
use google_co.Str.Split.{split_once, join}
use google_co.Str.Split.Words.{
  split_whitespace-join, split_whitespace-append, split_whitespace_word, IsWord,
}
use google_co.Query.{
  ParsedQuery, parse_query, query_word, query_words, no_query, keyed, push_term, filter_value,
}
use google_co.Query.Laws.{IsTerm, names_filter, query_words-append}

keyed_term :
    (o : Option (Str × Str)) (raw : Str) (q : ParsedQuery)
    → names_filter o ≡ false
    → keyed o raw q ≡ push_term raw q
keyed_term none raw q h = refl
keyed_term (some (k, v)) raw q h =
    let (s, f) =
      or-false (eq (to_ascii_lowercase k) (codes "site"))
        (eq (to_ascii_lowercase k) (codes "filetype")) h in
    rw (s, f) refl

query_word_term :
    (t : Str) (q : ParsedQuery) → IsTerm t → query_word t q ≡ record q { terms = q.terms ++ t ∷ [] }
unfolding query_word
query_word_term [] q (_, h, _) = cc h
query_word_term (c ∷ s) q (_, _, h) = keyed_term (split_once (c ∷ s) b':') (c ∷ s) q h

query_words_terms :
    (ts : List Str) (q : ParsedQuery)
    → All IsTerm ts
    → query_words ts q ≡ record q { terms = q.terms ++ ts }
unfolding query_words
query_words_terms [] q h = ap (λ ts. record q { terms = ts }) (sym (append-nil q.terms))
query_words_terms (t ∷ ts) q (h, k) =
    rw (query_word_term t q h, query_words_terms ts _ k, append_assoc q.terms (t ∷ []) ts) refl

terms_are_words : (ts : List Str) → All IsTerm ts → All IsWord ts
terms_are_words [] h = tt
terms_are_words (t ∷ ts) (h, k) = ((h.0, h.1), terms_are_words ts k)

-- Plain terms, joined by spaces, are parsed to themselves, with no filter.
pub parse_query-join :
    (ts : List Str)
    → All IsTerm ts
    → parse_query (join ts (32 ∷ [])) ≡ record no_query { terms = ts }
unfolding parse_query
parse_query-join ts h =
    rw (split_whitespace-join ts (terms_are_words ts h), query_words_terms ts no_query h) refl

-- The filter word `key:value`.
abbrev pub filter_word : Str → Str → Str
filter_word k v = k ++ b':' ∷ v

split_once_filter :
    (k v : Str)
    → All (λ c. google_co.Base.◌==◌ c b':' ≡ false) k
    → split_once (filter_word k v) b':' ≡ some (k, v)
unfolding split_once
split_once_filter [] v h = refl
split_once_filter (c ∷ k) v (h, hs) = rw (h, split_once_filter k v hs) refl

-- A site filter with a value, as one word at the end of a query, replaces any earlier one and leaves
-- the rest of the query as it was, whatever the case of its key, which has no colon.
pub parse_query_site_last :
    (input k v : Str)
    → to_ascii_lowercase k ≡ codes "site"
    → All (λ c. google_co.Base.◌==◌ c b':' ≡ false) k
    → IsWord (filter_word k v)
    → is_empty (filter_value v) ≡ false
    → parse_query (input ++ 32 ∷ filter_word k v) ≡ (
        let q = parse_query input in
        record q { filters = record q.filters { site = some (filter_value v) } })
unfolding parse_query query_words query_word eq
parse_query_site_last input k v site plain word given =
    rw
      (
        split_whitespace-append,
        split_whitespace_word (filter_word k v) word,
        query_words-append,
        split_once_filter k v plain,
        site,
        given,
      )
      refl
