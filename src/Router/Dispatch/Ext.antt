-- ===== src/Router/Dispatch/Ext.antt =====
-- gurtd/src/router/mod.rs with the feature ext-web: the routes are registered at the first request, and
-- a request is dispatched if its route is registered.
pub mod Same
use google_co.Base.{
  ℕ, ◌≡◌, refl, sym, ap, arith, Bool, true, false, ◌&&◌, ◌||◌, List, [], ◌∷◌, if◌then◌else◌, Option,
  none, some, Bool-cases, inl, inr, ◌⊎◌,
}
use mathlib.Core.Path.{subst}
use google_co.Str.Ascii.{Str, codes, eq, eq→≡}
use google_co.Str.Utf8.{as_bytes}
use google_co.Router.Page.BuiltIn.{default_index_html, default_domains_html}
use google_co.Str.Search.{starts_with}
use google_co.Str.Split.{split, nth_or_empty}
use google_co.Web.{Registry, register_route, is_registered}
use google_co.Api.Status.{okay, bad_request}
use google_co.Api.Message.{Response}
use google_co.Api.HttpLike.{Request, query}
use google_co.Router.RateLimit.{IpAddr}
use google_co.Router.Util.{json_response, empty_response}
use google_co.Router.Ui.{serve_page, serve_asset}
use google_co.Router.Submit.{handle_add_site}
use google_co.Router.Results.{first_q, pairs_of, handle_search}
use google_co.Router.Dispatch.{
  App, Server, searched, cached, submitted, route_get, route_post, handle_with_peer,
}

-- Whether the routes have been registered, and the registry.
pub record Routes : Type 0 where
  pub once : Bool
  pub registry : Registry

abbrev get : Str
get = codes "GET"

abbrev post : Str
post = codes "POST"

unfoldable pub register_all : Registry → Registry
unfolding register_route
register_all rs = register_route post (codes "/api/sites") (codes "web_api_sites") (
    register_route get (codes "/api/search") (codes "web_api_search") (
      register_route get (codes "/health/ready") (codes "web_health_ready") (
        register_route get (codes "/domains") (codes "web_domains") (
          register_route get (codes "/search") (codes "web_search")
            (register_route get (codes "/") (codes "web_root") rs)))))

unfoldable pub register_routes_once : Routes → Routes
unfolding register_all
register_routes_once w =
    if w.once then w else record { once = true; registry = register_all w.registry }

module _ {Score : Type 0} where
  unfoldable pub dispatch :
      Server Score → ℕ → Request → Option IpAddr → Str → App Score → Response × App Score
  dispatch server now req peer path app =
      if eq req.method get && eq path (codes "/")
      then (serve_page server.files (codes "index.html") (as_bytes default_index_html), app)
      else if eq req.method get && eq path (codes "/search")
      then (searched server (first_q (pairs_of (query req))), app)
      else if eq req.method get && eq path (codes "/domains")
      then (serve_page server.files (codes "domains.html") (as_bytes default_domains_html), app)
      else if eq req.method get && eq path (codes "/health/ready")
      then (json_response okay (codes "{\"status\":\"ready\"}"), app)
      else if eq req.method get && eq path (codes "/api/search")
      then cached app (handle_search server.backend now req app.cache)
      else if eq req.method post && eq path (codes "/api/sites")
      then submitted app (handle_add_site server.outside now req peer app.sites)
      else (empty_response bad_request, app)

  abbrev fallback : Server Score → Request → Str → App Score → Response × App Score
  fallback server req path app =
      if eq req.method get && starts_with path (codes "/assets/")
      then (serve_asset server.files path, app)
      else (empty_response bad_request, app)

  abbrev routed :
      Server Score → ℕ → Request → Option IpAddr → Str → App Score → Registry → Response × App Score
  routed server now req peer path app rs =
      if is_registered req.method path rs
      then dispatch server now req peer path app
      else fallback server req path app

  unfoldable pub handle_with_peer_ext :
      Server Score
      → ℕ
      → Request
      → Option IpAddr
      → App Score
      → Routes
      → (Response × App Score) × Routes
  unfolding register_routes_once is_registered dispatch
  handle_with_peer_ext server now req peer app w =
      let path = nth_or_empty (split req.path b'?') 0 in
      let w' = register_routes_once w in (routed server now req peer path app w'.registry, w')
