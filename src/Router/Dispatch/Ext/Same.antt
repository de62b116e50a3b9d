-- ===== src/Router/Dispatch/Ext/Same.antt =====
-- A server with the feature ext-web answers like one without it.
use google_co.Base.{
  ℕ, ◌≡◌, refl, sym, ap, ◌∙◌, arith, Bool, true, false, ◌||◌, [], ◌∷◌, if◌then◌else◌, Option,
  Bool-cases, inl, inr, ◌⊎◌,
}
use mathlib.Core.Path.{subst}
use google_co.Str.Ascii.{Str, codes, eq, eq→≡}
use google_co.Str.Search.{starts_with}
use google_co.Str.Split.{split, nth_or_empty}
use google_co.Web.{RouteInfo, Registry, is_registered}
use google_co.Api.Status.{bad_request}
use google_co.Api.Message.{Response}
use google_co.Api.HttpLike.{Request}
use google_co.Router.RateLimit.{IpAddr}
use google_co.Router.Util.{empty_response}
use google_co.Router.Dispatch.{App, Server, route_get, route_post, handle_with_peer}
use google_co.Router.Dispatch.Ext.{
  Routes, get, post, register_all, register_routes_once, dispatch, routed, handle_with_peer_ext,
}

abbrev route : Str → Str → Str → RouteInfo
route method path key = record { method = method; path = path; key = key }

-- The six routes of the server.
abbrev ours : Registry
ours =
    route post (codes "/api/sites") (codes "web_api_sites")
    ∷ route get (codes "/api/search") (codes "web_api_search")
    ∷ route get (codes "/health/ready") (codes "web_health_ready")
    ∷ route get (codes "/domains") (codes "web_domains")
    ∷ route get (codes "/search") (codes "web_search")
    ∷ route get (codes "/") (codes "web_root")
    ∷ []

register_all-ours : register_all [] ≡ ours
unfolding register_all is_registered eq
register_all-ours = refl

-- The registry is empty before the first request, and holds the six routes behind it.
abbrev pub IsOurs : Routes → Type 0
IsOurs w =
    ((w.once ≡ false) × (w.registry ≡ [])) ⊎ ((w.once ≡ true) × (w.registry ≡ register_all []))

register_routes_once-registered :
    (once : Bool) (rs : Registry)
    → IsOurs (record { once = once; registry = rs })
    → ((register_routes_once (record { once = once; registry = rs })).once ≡ true)
      × ((register_routes_once (record { once = once; registry = rs })).registry ≡ register_all [])
unfolding register_routes_once
register_routes_once-registered false rs (inl (a, b)) = (refl, ap register_all b)
register_routes_once-registered false rs (inr (a, b)) = cc a
register_routes_once-registered true rs (inl (a, b)) = cc a
register_routes_once-registered true rs (inr (a, b)) = (refl, b)

-- A path that is a route is no asset.
no_asset :
    (path t : Str)
    → starts_with t (codes "/assets/") ≡ false
    → eq path t ≡ true
    → starts_with path (codes "/assets/") ≡ false
no_asset path t h e = subst (λ p. starts_with p (codes "/assets/") ≡ false) (sym (eq→≡ path t e)) h

-- The tests in the one order and in the other, where an asset is none of the last two.
same_choice {ℓ} :
    {A : Type ℓ} (root search domains health api asset : Bool) (v1 v2 v3 v4 v5 v6 bad : A)
    → (health ≡ true → asset ≡ false)
    → (api ≡ true → asset ≡ false)
    → (if api || (health || (domains || (search || (root || false))))
        then (if root
            then v1
            else if search
            then v2
            else if domains
            then v3
            else if health
            then v4
            else if api
            then v5
            else bad)
        else if asset
        then v6
        else bad)
      ≡ (if root
          then v1
          else if search
          then v2
          else if domains
          then v3
          else if asset
          then v6
          else if health
          then v4
          else if api
          then v5
          else bad)
same_choice root search domains health api asset v1 v2 v3 v4 v5 v6 bad h k = ground arith

not_both : (m : Str) → eq m get ≡ true → eq m post ≡ false
unfolding eq
not_both m h = subst (λ m. eq m post ≡ false) (sym (eq→≡ m get h)) refl

health_no_asset : starts_with (codes "/health/ready") (codes "/assets/") ≡ false
unfolding starts_with
health_no_asset = refl

search_no_asset : starts_with (codes "/api/search") (codes "/assets/") ≡ false
unfolding starts_with
search_no_asset = refl

module _ {Score : Type 0} (server : Server Score) (now : ℕ) (req : Request) (peer : Option IpAddr)
    (path : Str) (app : App Score) where
  is_get-routed :
      eq req.method get ≡ true
      → eq req.method post ≡ false
      → routed server now req peer path app ours ≡ route_get server now req path app
  unfolding is_registered dispatch
  is_get-routed g p =
      rw (g, p)
        (same_choice (eq path (codes "/")) (eq path (codes "/search")) (eq path (codes "/domains"))
          (eq path (codes "/health/ready")) (eq path (codes "/api/search"))
          (starts_with path (codes "/assets/")) _ _ _ _ _ _ _
          (no_asset path (codes "/health/ready") health_no_asset)
          (no_asset path (codes "/api/search") search_no_asset))

  is_post-routed :
      eq req.method get ≡ false
      → eq req.method post ≡ true
      → routed server now req peer path app ours ≡ route_post server now req peer path app
  unfolding is_registered dispatch
  is_post-routed g p = elim (Bool-cases (eq path (codes "/api/sites"))) [
    | inl a ↦ rw (g, p, a) refl
    | inr a ↦ rw (g, p, a) refl
  ]

  other-routed :
      eq req.method get ≡ false
      → eq req.method post ≡ false
      → routed server now req peer path app ours ≡ (empty_response bad_request, app)
  unfolding is_registered dispatch
  other-routed g p = rw (g, p) refl

  abbrev plain : Response × App Score
  plain =
      if eq req.method get
      then route_get server now req path app
      else if eq req.method post
      then route_post server now req peer path app
      else (empty_response bad_request, app)

  ours-routed : routed server now req peer path app ours ≡ plain
  ours-routed = elim (Bool-cases (eq req.method get)) [
    | inl g ↦
        let chosen : plain ≡ route_get server now req path app = rw g refl in
        is_get-routed g (not_both req.method g) ∙ sym chosen
    | inr g ↦ elim (Bool-cases (eq req.method post)) [
      | inl p ↦
          let chosen : plain ≡ route_post server now req peer path app = rw (g, p) refl in
          is_post-routed g p ∙ sym chosen
      | inr p ↦
          let chosen : plain ≡ (empty_response bad_request, app) = rw (g, p) refl in
          other-routed g p ∙ sym chosen
    ]
  ]

-- With the routes registered or about to be, a server with the feature ext-web answers every request
-- like one without it, changes what it changes, and keeps the registry.
pub handle_with_peer_ext-same :
    {Score : Type 0} (server : Server Score) (now : ℕ) (req : Request) (peer : Option IpAddr)
    (app : App Score) (w : Routes)
    → IsOurs w
    → ((handle_with_peer_ext server now req peer app w).0
        ≡ handle_with_peer server now req peer app)
      × IsOurs (handle_with_peer_ext server now req peer app w).1
unfolding handle_with_peer_ext handle_with_peer
handle_with_peer_ext-same server now req peer app w h =
    let path = nth_or_empty (split req.path b'?') 0 in
    let (once, all) = register_routes_once-registered w.once w.registry h in
    let registered = all ∙ register_all-ours in
    (
      ap (routed server now req peer path app) registered
          ∙ ours-routed server now req peer path app,
      inr (once, all),
    )
