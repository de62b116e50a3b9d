-- ===== src/Index/Documents.antt =====
-- gurt-index/src/tantivy.rs: the documents that a search returns, and its pages. The index is a
-- parameter: for the clauses of a query, a number and an offset it returns the stored documents, as JSON,
-- with their scores.
use google_co.Base.{
  ℕ, zero, suc, ◌+◌, ◌-◌, ◌*◌, ◌^◌, ◌≤◌, ◌<◌, ◌≡◌, refl, sym, ap, ◌∙◌, arith, max, Bool, false,
  List, [], ◌∷◌, ◌++◌, Option, none, some, or, unwrap_or, is_empty, if◌then◌else◌, take, drop, map,
}
use google_co.Base.Results.{Result, ok, err, ◌>>=◌}
use google_co.Str.Ascii.{Str, codes, eq}
use google_co.Query.{ParsedQuery}
use google_co.Index.{SearchHit}
use google_co.Index.Terms.{Field, analyze_terms, clauses_of, page_offset, search}

mutual
  -- `serde_json::Value`; a number is kept as far as it is an `i64` that is not negative.
  pub data Json : Type 0 where
    null bool : Json
    number : Option ℕ → Json
    string : Str → Json
    array : Elements → Json
    object : Members → Json

  pub data Elements : Type 0 where
    end : Elements
    element : Json → Elements → Elements

  pub data Members : Type 0 where
    none_left : Members
    member : Str → Json → Members → Members

abbrev as_str : Json → Option Str
as_str null = none
as_str bool = none
as_str (number n) = none
as_str (string s) = some s
as_str (array es) = none
as_str (object ms) = none

abbrev as_i64 : Json → Option ℕ
as_i64 null = none
as_i64 bool = none
as_i64 (number n) = n
as_i64 (string s) = none
as_i64 (array es) = none
as_i64 (object ms) = none

-- `find_map` over the elements.
abbrev first_of : {A : Type 0} → (Json → Option A) → Elements → Option A
first_of f end = none
first_of f (element v es) = or (f v) (first_of f es)

-- `get` of an object; keys stand once.
unfoldable pub member_of : Str → Members → Option Json
member_of k none_left = none
member_of k (member j v ms) = let later = member_of k ms in if eq j k then some v else later

abbrev str_at : Str → Members → Option Str
str_at k ms = elim (member_of k ms) [ none ↦ none | some v ↦ as_str v ]

unfoldable pub first_str : Json → Option Str
unfolding member_of
first_str null = none
first_str bool = none
first_str (number n) = none
first_str (string s) = some s
first_str (array es) = first_of as_str es
first_str (object ms) =
    or (str_at (codes "value") ms) (or (str_at (codes "text") ms) (str_at (codes "raw") ms))

unfoldable pub first_i64 : Json → Option ℕ
unfolding member_of
first_i64 null = none
first_i64 bool = none
first_i64 (number n) = n
first_i64 (string s) = none
first_i64 (array es) = first_of as_i64 es
first_i64 (object ms) = elim (member_of (codes "value") ms) [ none ↦ none | some v ↦ as_i64 v ]

-- `v.get(k)` of a value: of an object only.
abbrev field : Str → Json → Option Json
field k null = none
field k bool = none
field k (number n) = none
field k (string s) = none
field k (array es) = none
field k (object ms) = member_of k ms

abbrev text_at : Str → Json → Str
text_at k v = elim (field k v) [ none ↦ [] | some j ↦ unwrap_or (first_str j) [] ]

abbrev number_at : Str → Json → ℕ
number_at k v = elim (field k v) [ none ↦ 0 | some j ↦ unwrap_or (first_i64 j) 0 ]

-- A stored document with its score, as a hit.
unfoldable pub hit_of : {Score : Type 0} → Score × Json → SearchHit Score
unfolding first_str first_i64
hit_of (score, v) = record {
  title = text_at (codes "title") v;
  url = text_at (codes "url") v;
  domain = text_at (codes "domain") v;
  fetch_time = number_at (codes "fetch_time") v;
  score = score;
}

-- What the index returns for the clauses of a query, a number and an offset.
abbrev pub TopDocs : Type 0 → Type 0 → Type 0
TopDocs Score Error = List (Field × Str) → ℕ → ℕ → Result Error (List (Score × Json))

module _ (is_alphanumeric : ℕ → Bool) {Score Error : Type 0} where
  abbrev converted :
      TopDocs Score Error → List (Field × Str) → ℕ → ℕ → Result Error (List (SearchHit Score))
  converted top_docs clauses limit offset = do
    docs ← top_docs clauses limit offset
    ok (map hit_of docs)

  unfoldable pub search_documents :
      TopDocs Score Error → ParsedQuery → ℕ → ℕ → Result Error (List (SearchHit Score))
  unfolding search hit_of
  search_documents top_docs query page size =
      search is_alphanumeric (converted top_docs) query page size

  abbrev hits_of : Result Error (List (SearchHit Score)) → List (SearchHit Score)
  hits_of (err e) = []
  hits_of (ok hs) = hs

  -- The hits of the first pages, page by page.
  unfoldable pub first_pages : TopDocs Score Error → ParsedQuery → ℕ → ℕ → List (SearchHit Score)
  unfolding search_documents
  first_pages top_docs query size zero = []
  first_pages top_docs query size (suc n) =
      first_pages top_docs query size n ++ hits_of (search_documents top_docs query (suc n) size)

module _ {Score : Type 0} where
  map-take :
      (n : ℕ) (docs : List (Score × Json)) → map hit_of (take n docs) ≡ take n (map hit_of docs)
  map-take zero docs = refl
  map-take (suc n) [] = refl
  map-take (suc n) (d ∷ docs) = ap (◌∷◌ (hit_of d)) (map-take n docs)

  map-drop :
      (n : ℕ) (docs : List (Score × Json)) → map hit_of (drop n docs) ≡ drop n (map hit_of docs)
  map-drop zero docs = refl
  map-drop (suc n) [] = refl
  map-drop (suc n) (d ∷ docs) = map-drop n docs

take_nil {ℓ} : {A : Type ℓ} (n : ℕ) → take {A = A} n [] ≡ []
take_nil zero = refl
take_nil (suc n) = refl

take-more {ℓ} :
    {A : Type ℓ} (m n : ℕ) (xs : List A) → take m xs ++ take n (drop m xs) ≡ take (m + n) xs
take-more zero n xs = ap (λ k. take k xs) (omega arith)
take-more (suc m) n [] = take_nil n ∙ sym (take_nil (suc m + n))
take-more (suc m) n (x ∷ xs) =
    let shifted : suc m + n ≡ suc (m + n) = omega arith in
    rw shifted (ap (◌∷◌ x) (take-more m n xs))

page_offset-suc : (n size : ℕ) → 1 ≤ size → n * size < 2 ^ 64 → page_offset (suc n) size ≡ n * size
unfolding page_offset
page_offset-suc n size h k =
    let same : (max (suc n) 1 - 1) * max size 1 ≡ n * size =
      ap (λ a. a * max size 1) (omega arith) ∙ ap (λ b. n * b) (omega arith) in
    rw same (omega arith)

module _ (is_alphanumeric : ℕ → Bool) {Score Error : Type 0} where
  -- The hits of the first pages, put together, are the first hits of the ranking, as many as the pages
  -- have room for: no page repeats or skips a hit. The query has a token, and the index answers with the
  -- documents behind the offset, up to the number asked for.
  pub first_pages_tile :
      (top_docs : TopDocs Score Error) (query : ParsedQuery) (docs : List (Score × Json))
      (size n : ℕ)
      → is_empty (analyze_terms is_alphanumeric query.terms) ≡ false
      → ((limit offset : ℕ)
          → top_docs (clauses_of (analyze_terms is_alphanumeric query.terms)) limit offset
            ≡ ok (take limit (drop offset docs)))
      → 1 ≤ size
      → n * size < 2 ^ 64
      → first_pages is_alphanumeric top_docs query size n ≡ take (n * size) (map hit_of docs)
  unfolding first_pages search_documents search
  first_pages_tile top_docs query docs size zero some_token answers h k =
      let none_left : 0 * size ≡ 0 = omega arith in rw none_left refl
  first_pages_tile top_docs query docs size (suc n) some_token answers h k =
      let before : n * size < 2 ^ 64 = grind arith in
      let offset = page_offset-suc n size h before in
      let limit : max size 1 ≡ size = omega arith in
      let whole : suc n * size ≡ n * size + size = grind arith in
      rw
        (
          first_pages_tile top_docs query docs size n some_token answers h before,
          some_token,
          answers (max size 1) (page_offset (suc n) size),
          offset,
          limit,
          whole,
          map-take size (drop (n * size) docs),
          map-drop (n * size) docs,
        )
        (take-more (n * size) size (map hit_of docs))
