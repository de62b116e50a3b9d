-- ===== src/Router/Results.antt =====
-- gurtd/src/router/api.rs: the search endpoint, and gurt-api/src/response.rs. The decoder of percent
-- signs, the flags of the environment, the engine, the scores (floating point) and JSON are parameters.
pub mod Laws
use google_co.Base.{
  ℕ, Bool, true, false, List, [], ◌∷◌, ◌++◌, if◌then◌else◌, Option, none, some, ◌>>=◌, unwrap_or,
  length,
}
use google_co.Str.Ascii.{Str, Bytes, codes, eq, trim}
use google_co.Str.Split.{split, split_once, join}
use google_co.Query.{ParsedQuery, parse_query}
use google_co.Search.Key.{normalize_key}
use google_co.Search.Cache.{HotQueryCache, get, put}
use google_co.Search.Merge.{SearchResultItem}
use google_co.Index.{SearchHit}
use google_co.Api.Status.{okay, bad_request, too_many_requests, internal_server_error}
use google_co.Api.Message.{Response}
use google_co.Api.HttpLike.{Request, query}
use google_co.Router.Util.{json_response, empty_response}
use google_co.Indexing.Service.{is_empty_text}

pub record SearchResponse (Score : Type 0) : Type 0 where
  pub query : Str
  pub total : ℕ
  pub page : ℕ
  pub size : ℕ
  pub results : List (SearchResultItem Score)

pub record Backend (Score : Type 0) : Type 0 where
  pub percent_decode : Str → Str
  pub overloaded : Bool
  pub force_500 : Bool
  pub search : ParsedQuery → ℕ → ℕ → Option (List (SearchHit Score))
  pub rescore_and_convert : List (SearchHit Score) → ℕ → List (SearchResultItem Score)
  pub to_vec : SearchResponse Score → Bytes

abbrev last_value : Option (Str × Str) → Option Str → Option Str
last_value none q = q
last_value (some (k, v)) q = if eq k (codes "q") then some v else q

-- The last value of `q`: each later one takes the place of those before.
unfoldable pub last_q : List Str → Option Str → Option Str
last_q [] q = q
last_q (pair ∷ rest) q = last_q rest (last_value (split_once pair b'=') q)

abbrev first_value : Option (Str × Str) → Option Str → Option Str
first_value none later = later
first_value (some (k, v)) later = if eq k (codes "q") then some v else later

-- The first value of `q`, which the page of results uses.
unfoldable pub first_q : List Str → Option Str
first_q [] = none
first_q (pair ∷ rest) = first_value (split_once pair b'=') (first_q rest)

abbrev pub pairs_of : Option Str → List Str
pairs_of none = []
pairs_of (some q) = split q b'&'

module _ {Score : Type 0} where
  unfoldable pub searched_text : Backend Score → Request → Str
  unfolding last_q
  searched_text backend req =
      unwrap_or (last_q (pairs_of (query req)) none >>= λ v. some (backend.percent_decode v))
        (codes "")

  unfoldable pub run_search : Backend Score → ParsedQuery → SearchResponse Score
  run_search backend pq =
      let results = backend.rescore_and_convert (unwrap_or (backend.search pq 1 10) []) 10 in
      record {
        query = join pq.terms (codes " ");
        total = length results;
        page = 1;
        size = 10;
        results = results;
      }

  abbrev pub answered :
      Backend Score
      → ℕ
      → ParsedQuery
      → Option (SearchResponse Score) × HotQueryCache (SearchResponse Score)
      → Response × HotQueryCache (SearchResponse Score)
  answered backend now pq (some hit, cache) = (json_response okay (backend.to_vec hit), cache)
  answered backend now pq (none, cache) = (
    json_response okay (backend.to_vec (run_search backend pq)),
    put now (normalize_key pq) (run_search backend pq) cache,
  )

  unfoldable pub handle_search :
      Backend Score
      → ℕ
      → Request
      → HotQueryCache (SearchResponse Score)
      → Response × HotQueryCache (SearchResponse Score)
  unfolding searched_text run_search
  handle_search backend now req cache =
      let q = searched_text backend req in
      if is_empty_text (trim q)
      then (empty_response bad_request, cache)
      else if backend.overloaded
      then (empty_response too_many_requests, cache)
      else if backend.force_500
      then (empty_response internal_server_error, cache)
      else answered backend now (parse_query q) (get now (normalize_key (parse_query q)) cache)
