-- ===== src/Tests/Engine.antt =====
-- gurt-index, gurtd/src/link, gurtd/src/router: pages of hits, scores of nodes, results and routes.
use google_co.Base.{
  none, ℕ, ◌+◌, ◌*◌, ◌-◌, ◌≡◌, refl, arith, Bool, false, ltb, max, List, [], ◌∷◌, some, take, drop,
  map, is_empty, inl, min,
}
use google_co.Base.Results.{ok}
use google_co.Str.Ascii.{Str, codes}
use google_co.Query.{ParsedQuery, parse_query}
use google_co.Index.{SearchHit, make_known_engine}
use google_co.Index.Terms.{analyze_terms}
use google_co.Index.Documents.{
  Json, string, number, object, member, none_left, TopDocs, hit_of, first_pages, first_pages_tile,
}
use google_co.Link.Graph.{Float64, pagerank}
use google_co.Link.Graph.Laws.{graph_of}
use google_co.Link.Authority.{AuthorityStore, to_json, from_json}
use google_co.Search.Merge.Laws.{IsStrict}
use google_co.Router.Rescore.{Scoring, rescore_all, rescore_and_convert}
use google_co.Router.Rescore.Laws.{IsTop, rescore_and_convert-IsTop}
use google_co.Api.HttpLike.{Request}
use google_co.Router.Dispatch.{handle_with_peer}
use google_co.Router.Dispatch.Ext.{Routes, handle_with_peer_ext}
use google_co.Router.Dispatch.Ext.Same.{IsOurs, handle_with_peer_ext-same}
use google_co.Tests.Router.{server, app, ip_a}

abbrev doc : Str → ℕ → ℕ × Json
doc title n = (
  n,
  object (
      member (codes "title") (string title)
        (member (codes "fetch_time") (number (some n)) none_left)),
)

abbrev docs : List (ℕ × Json)
docs = doc (codes "a") 9 ∷ doc (codes "b") 7 ∷ doc (codes "c") 4 ∷ []

abbrev ranking : TopDocs ℕ Str
ranking clauses limit offset = ok (take limit (drop offset docs))

abbrev query : ParsedQuery
query = parse_query (codes "rust web")

abbrev any_letter : ℕ → Bool
any_letter c = ltb 64 c

has_token : is_empty (analyze_terms any_letter query.terms) ≡ false
unfolding analyze_terms parse_query google_co.Index.Terms.analyze_from google_co.Query.query_words
    google_co.Str.Split.split_whitespace google_co.Query.query_word google_co.Str.Split.split_once
    google_co.Index.Terms.push_tokens google_co.Index.Terms.push_token
    google_co.Str.Ascii.to_ascii_lowercase google_co.Index.Terms.is_stopword google_co.Str.Ascii.eq
has_token = refl

first_pages_tile_example : first_pages any_letter ranking query 2 2 ≡ take (2 * 2) (map hit_of docs)
first_pages_tile_example =
    first_pages_tile any_letter ranking query docs 2 2 has_token (λ limit offset. refl)
      (omega arith) (omega arith)

-- Whole numbers in place of the floating point.
abbrev whole : Float64
whole = record {
  F = ℕ;
  of_usize = λ n. n * 1000;
  add = λ a b. a + b;
  sub = λ a b. a - b;
  mul = λ a b. a * b;
  div = λ a b. a;
  clamp01 = λ a. min a 1000;
}

abbrev edges : List (Str × Str)
edges = (codes "a", codes "b") ∷ (codes "b", codes "c") ∷ (codes "a", codes "c") ∷ []

-- Three rounds give a score to each node.
scored_nodes :
    map (λ e. e.0) (pagerank whole 850 3 (graph_of edges)) ≡ codes "c" ∷ codes "b" ∷ codes "a" ∷ []
unfolding pagerank graph_of google_co.Dict.lookup google_co.Dict.insert google_co.Str.Ascii.eq
scored_nodes = refl

abbrev scoring : Scoring whole ℕ
scoring = record {
  gt = λ a b. ltb b a;
  zero32 = 0;
  tiny32 = 1;
  max32 = λ a b. max a b;
  div32 = λ a b. a;
  to_f64 = λ a. a;
  to_f32 = λ a. a;
  pow_half = λ a. 1000 - a;
  tenth = 100;
  fifth = 200;
  three_fifths = 600;
}

scoring-IsStrict : IsStrict scoring.gt
scoring-IsStrict = record {
  irrefl = λ a. ground arith;
  trans = λ a b c h k. ground arith;
  neg_trans = λ a b c h k. ground arith;
}

abbrev store : AuthorityStore ℕ
store = (codes "u", 5) ∷ []

abbrev hits : List (SearchHit ℕ)
hits = map hit_of docs

rescore_and_convert-IsTop_example :
    IsTop whole scoring scoring-IsStrict
      (rescore_all whole scoring store 20 hits)
      (rescore_and_convert whole scoring store 20 hits 2)
rescore_and_convert-IsTop_example =
    rescore_and_convert-IsTop whole scoring scoring-IsStrict store 20 hits 2

-- A store with one entry, printed and read.
stored_text :
    from_json (λ t. some t) (to_json (λ a b. false) (λ t. t) ((codes "u", codes "0.5") ∷ []))
    ≡ (codes "u", codes "0.5") ∷ []
unfolding from_json google_co.Str.Split.lines to_json google_co.Str.Search.starts_with
    google_co.Str.Ascii.trim google_co.Str.Split.split_once google_co.Str.Search.find_char
    google_co.Dict.insert
stored_text = refl

abbrev get_page : Request
get_page = record { method = codes "GET"; path = codes "/domains?x"; headers = []; body = [] }

abbrev no_routes : Routes
no_routes = record { once = false; registry = [] }

handle_with_peer_ext-same_example :
    ((handle_with_peer_ext server 7 get_page (some ip_a) app no_routes).0
      ≡ handle_with_peer server 7 get_page (some ip_a) app)
    × IsOurs (handle_with_peer_ext server 7 get_page (some ip_a) app no_routes).1
handle_with_peer_ext-same_example =
    handle_with_peer_ext-same server 7 get_page (some ip_a) app no_routes (inl (refl, refl))

-- The engines are numbered, and an unknown name has none.
known_engines :
    ((make_known_engine {F = ℕ} (λ n. n) 1 2 (codes "noop") []).0 ≡ some 2)
    × ((make_known_engine {F = ℕ} (λ n. n) 1 2 (codes "tantivy") []).0 ≡ some 1)
    × ((make_known_engine {F = ℕ} (λ n. n) 1 2 (codes "other") []).0 ≡ none)
unfolding make_known_engine google_co.Dict.lookup google_co.Dict.insert google_co.Str.Ascii.eq
known_engines = (refl, refl, refl)
