-- ===== src/Router/Results/Laws.antt =====
-- A search that was answered is answered again from the cache.
use google_co.Base.{
  ℕ, ◌-◌, ◌≡◌, refl, ◌∙◌, true, false, leb, Option, none, some, Option-cases, Bool-cases, inl, inr,
  List,
}
use google_co.Str.Ascii.{Str, trim}
use google_co.Query.{ParsedQuery, parse_query}
use google_co.Index.{SearchHit}
use google_co.Dict.{lookup}
use google_co.Search.Key.{normalize_key}
use google_co.Search.Cache.{HotQueryCache, get, put, get-put}
use google_co.Api.Status.{okay}
use google_co.Api.HttpLike.{Request}
use google_co.Router.Util.{json_response}
use google_co.Indexing.Service.{is_empty_text}
use google_co.Router.Results.{
  SearchResponse, Backend, searched_text, run_search, answered, handle_search,
}

module _ {Score : Type 0} where
  get-ttl :
      (now : ℕ) (key : Str) (c : HotQueryCache (SearchResponse Score))
      → (get now key c).1.ttl ≡ c.ttl
  unfolding get
  get-ttl now key c = elim (Option-cases (lookup key c.map)) [
    | inl e ↦ rw e refl
    | inr (entry, e) ↦ elim (Bool-cases (leb (now - entry.inserted) c.ttl)) [
      | inl b ↦ rw (e, b) refl
      | inr b ↦ rw (e, b) refl
    ]
  ]

  answered_hit :
      (backend : Backend Score) (now : ℕ) (pq : ParsedQuery) (hit : SearchResponse Score)
      (g : Option (SearchResponse Score) × HotQueryCache (SearchResponse Score))
      → g.0 ≡ some hit
      → (answered backend now pq g).0 ≡ json_response okay (backend.to_vec hit)
  answered_hit backend now pq hit (o, c) h = rw h refl

  answered_miss :
      (backend : Backend Score) (now : ℕ) (pq : ParsedQuery)
      (g : Option (SearchResponse Score) × HotQueryCache (SearchResponse Score))
      → g.0 ≡ none
      → answered backend now pq g ≡ (
        json_response okay (backend.to_vec (run_search backend pq)),
        put now (normalize_key pq) (run_search backend pq) g.1,
      )
  answered_miss backend now pq (o, c) h = rw h refl

  answered_again :
      (backend : Backend Score) (search : ParsedQuery → ℕ → ℕ → Option (List (SearchHit Score)))
      (now later : ℕ) (pq : ParsedQuery) (cache : HotQueryCache (SearchResponse Score))
      → (get now (normalize_key pq) cache).0 ≡ none
      → leb (later - now) cache.ttl ≡ true
      → (answered
          (record backend { search = search })
          later
          pq
          (get later
            (normalize_key pq)
            (answered backend now pq (get now (normalize_key pq) cache)).1)).0
        ≡ (answered backend now pq (get now (normalize_key pq) cache)).0
  answered_again backend search now later pq cache h k =
      let key = normalize_key pq in
      let c = (get now key cache).1 in
      rw (answered_miss backend now pq (get now key cache) h) (
        answered_hit (record backend { search = search }) later pq (run_search backend pq)
          (get later key (put now key (run_search backend pq) c))
          (get-put now later key (run_search backend pq) c ∙ rw (get-ttl now key cache, k) refl))

  -- A search that ran, because its key was not in the cache, is answered with the same bytes within
  -- the time that the cache keeps it, whatever the engine would return by then.
  pub handle_search_again :
      (backend : Backend Score) (search : ParsedQuery → ℕ → ℕ → Option (List (SearchHit Score)))
      (now later : ℕ) (req : Request) (cache : HotQueryCache (SearchResponse Score))
      → is_empty_text (trim (searched_text backend req)) ≡ false
      → backend.overloaded ≡ false
      → backend.force_500 ≡ false
      → (get now (normalize_key (parse_query (searched_text backend req))) cache).0 ≡ none
      → leb (later - now) cache.ttl ≡ true
      → (handle_search
          (record backend { search = search })
          later
          req
          (handle_search backend now req cache).1).0
        ≡ (handle_search backend now req cache).0
  unfolding handle_search searched_text
  handle_search_again backend search now later req cache a b d h k =
      rw (a, b, d)
        (answered_again backend search now later (parse_query (searched_text backend req)) cache h
          k)
