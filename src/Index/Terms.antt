-- ===== src/Index/Terms.antt =====
-- gurt-index/src/tantivy.rs: the terms of a query as the engine looks them up, and the page that it
-- asks for. What `char::is_alphanumeric` accepts is a parameter: a Unicode table.
use google_co.Base.{
  ℕ, ◌-◌, ◌*◌, ◌%◌, ◌^◌, ◌≡◌, refl, Bool, false, not, List, [], ◌∷◌, ◌++◌, max, if◌then◌else◌,
  is_empty, any, All, All-append, Bool-cases, inl, inr,
}
use google_co.Base.Results.{Result, ok}
use google_co.Index.{SearchHit}
use google_co.Query.{ParsedQuery}
use google_co.Str.Ascii.{Str, codes, eq, to_ascii_lowercase, to_ascii_lowercase_idempotent}
use google_co.Str.Split.{split_by}

unfoldable pub stopwords : List Str
stopwords =
    codes "a"
    ∷ codes "an"
    ∷ codes "the"
    ∷ codes "and"
    ∷ codes "or"
    ∷ codes "of"
    ∷ codes "in"
    ∷ codes "to"
    ∷ codes "for"
    ∷ codes "on"
    ∷ codes "with"
    ∷ codes "is"
    ∷ codes "it"
    ∷ codes "this"
    ∷ codes "that"
    ∷ codes "by"
    ∷ codes "be"
    ∷ codes "as"
    ∷ codes "at"
    ∷ codes "from"
    ∷ []

unfoldable pub is_stopword : Str → Bool
unfolding stopwords
is_stopword t = any (λ w. eq t w) stopwords

-- One token: dropped if it is empty or a stop word.
unfoldable pub push_token : Str → List Str → List Str
push_token tok out =
    let t = to_ascii_lowercase tok in
    if is_empty t then out else if is_stopword t then out else out ++ t ∷ []

unfoldable pub push_tokens : List Str → List Str → List Str
push_tokens [] out = out
push_tokens (tok ∷ toks) out = push_tokens toks (push_token tok out)

module _ (is_alphanumeric : ℕ → Bool) where
  unfoldable pub analyze_from : List Str → List Str → List Str
  analyze_from [] out = out
  analyze_from (term ∷ terms) out =
      analyze_from terms (push_tokens (split_by (λ c. not (is_alphanumeric c)) term) out)

  unfoldable pub analyze_terms : List Str → List Str
  analyze_terms raw_terms = analyze_from raw_terms []

  -- A token of the index: not empty, no stop word, in lower case.
  abbrev pub IsToken : Str → Type 0
  IsToken t = (is_empty t ≡ false) × (is_stopword t ≡ false) × (to_ascii_lowercase t ≡ t)

  push_token-IsToken :
      (tok : Str) (out : List Str) → All IsToken out → All IsToken (push_token tok out)
  unfolding push_token
  push_token-IsToken tok out h =
      let t = to_ascii_lowercase tok in
      elim (Bool-cases (is_empty t)) [
        | inl e ↦ rw e h
        | inr e ↦ elim (Bool-cases (is_stopword t)) [
          | inl s ↦ rw (e, s) h
          | inr s ↦
              rw (e, s)
                (All-append IsToken out (t ∷ []) h ((e, s, to_ascii_lowercase_idempotent tok), tt))
        ]
      ]

  push_tokens-IsToken :
      (toks : List Str) (out : List Str) → All IsToken out → All IsToken (push_tokens toks out)
  unfolding push_tokens
  push_tokens-IsToken [] out h = h
  push_tokens-IsToken (tok ∷ toks) out h =
      push_tokens-IsToken toks (push_token tok out) (push_token-IsToken tok out h)

  analyze_from-IsToken :
      (terms : List Str) (out : List Str) → All IsToken out → All IsToken (analyze_from terms out)
  unfolding analyze_from
  analyze_from-IsToken [] out h = h
  analyze_from-IsToken (term ∷ terms) out h =
      analyze_from-IsToken terms _
        (push_tokens-IsToken (split_by (λ c. not (is_alphanumeric c)) term) out h)

  -- The terms that are looked up are not empty, no stop words, and in lower case.
  pub analyze_terms-IsToken : (raw_terms : List Str) → All IsToken (analyze_terms raw_terms)
  unfolding analyze_terms
  analyze_terms-IsToken raw_terms = analyze_from-IsToken raw_terms [] tt

-- The number of the first hit of a page; `page` and `size` are at least 1. A product of `usize` may wrap
-- around.
unfoldable pub page_offset : ℕ → ℕ → ℕ
page_offset page size = ((max page 1 - 1) * max size 1) % 2 ^ 64

-- A term is looked up in two fields.
pub data Field : Type 0 where
  title content : Field

abbrev pub clauses_of : List Str → List (Field × Str)
clauses_of [] = []
clauses_of (t ∷ ts) = (title, t) ∷ (content, t) ∷ clauses_of ts

module _ (is_alphanumeric : ℕ → Bool) {Score Error : Type 0} where
  -- `search`: the searcher of the crate `tantivy` is a parameter, which takes the clauses of the
  -- Boolean query, the limit and the offset.
  unfoldable pub search :
      (List (Field × Str) → ℕ → ℕ → Result Error (List (SearchHit Score)))
      → ParsedQuery
      → ℕ
      → ℕ
      → Result Error (List (SearchHit Score))
  search searcher query page size =
      let tokens = analyze_terms is_alphanumeric query.terms in
      if is_empty tokens
      then ok []
      else searcher (clauses_of tokens) (max size 1) (page_offset page size)

  -- The filters of a query play no part in a search.
  pub search_filters :
      (searcher : List (Field × Str) → ℕ → ℕ → Result Error (List (SearchHit Score)))
      (q q' : ParsedQuery) (page size : ℕ)
      → q.terms ≡ q'.terms
      → search searcher q page size ≡ search searcher q' page size
  unfolding search
  search_filters searcher q q' page size e = rw e refl
