-- ===== src/Router/Dispatch.antt =====
-- gurtd/src/router/mod.rs: which handler answers a request.
pub mod Ext
use google_co.Base.{ℕ, if◌then◌else◌, Option, none, some}
use google_co.Str.Ascii.{Str, Bytes, codes, eq}
use google_co.Str.Utf8.{as_bytes}
use google_co.Router.Page.{render_search_ssr}
use google_co.Router.Page.BuiltIn.{default_index_html, default_search_html, default_domains_html}
use google_co.Str.Search.{starts_with}
use google_co.Str.Split.{split, nth_or_empty}
use google_co.Search.Cache.{HotQueryCache}
use google_co.Api.Status.{okay, bad_request}
use google_co.Api.Message.{Response}
use google_co.Api.HttpLike.{Request, query}
use google_co.Router.RateLimit.{IpAddr}
use google_co.Router.Util.{json_response, empty_response}
use google_co.Router.Ui.{Files, serve_page, serve_asset}
use google_co.Router.Submit.{Outside, Sites, handle_add_site}
use google_co.Router.Results.{Backend, SearchResponse, first_q, pairs_of, handle_search}

-- What the handlers share: the cache of answers and what submissions change.
pub record App (Score : Type 0) : Type 0 where
  pub cache : HotQueryCache (SearchResponse Score)
  pub sites : Sites

-- What lies outside, and the files of the user interface.
pub record Server (Score : Type 0) : Type 0 where
  pub backend : Backend Score
  pub outside : Outside
  pub files : Files

module _ {Score : Type 0} where
  abbrev pub searched : Server Score → Option Str → Response
  searched server none =
      serve_page server.files (codes "search.html") (as_bytes default_search_html)
  searched server (some v) = render_search_ssr server.backend (server.backend.percent_decode v)

  abbrev pub cached :
      App Score → Response × HotQueryCache (SearchResponse Score) → Response × App Score
  cached app (r, c) = (r, record { cache = c; sites = app.sites })

  abbrev pub submitted : App Score → Response × Sites → Response × App Score
  submitted app (r, s) = (r, record { cache = app.cache; sites = s })

  abbrev pub route_get : Server Score → ℕ → Request → Str → App Score → Response × App Score
  route_get server now req path app =
      if eq path (codes "/")
      then (serve_page server.files (codes "index.html") (as_bytes default_index_html), app)
      else if eq path (codes "/search")
      then (searched server (first_q (pairs_of (query req))), app)
      else if eq path (codes "/domains")
      then (serve_page server.files (codes "domains.html") (as_bytes default_domains_html), app)
      else if starts_with path (codes "/assets/")
      then (serve_asset server.files path, app)
      else if eq path (codes "/health/ready")
      then (json_response okay (codes "{\"status\":\"ready\"}"), app)
      else if eq path (codes "/api/search")
      then cached app (handle_search server.backend now req app.cache)
      else (empty_response bad_request, app)

  abbrev pub route_post :
      Server Score → ℕ → Request → Option IpAddr → Str → App Score → Response × App Score
  route_post server now req peer path app =
      if eq path (codes "/api/sites")
      then submitted app (handle_add_site server.outside now req peer app.sites)
      else (empty_response bad_request, app)

  unfoldable pub handle_with_peer :
      Server Score → ℕ → Request → Option IpAddr → App Score → Response × App Score
  handle_with_peer server now req peer app =
      let path = nth_or_empty (split req.path b'?') 0 in
      if eq req.method (codes "GET")
      then route_get server now req path app
      else if eq req.method (codes "POST")
      then route_post server now req peer path app
      else (empty_response bad_request, app)
