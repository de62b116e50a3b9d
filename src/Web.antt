-- ===== src/Web.antt =====
-- gurt-web/src/lib.rs: the registry of routes, by method and path. The macro `route` of gurt-macros makes
-- the function that registers a handler under its own name.
use google_co.Base.{Bool, false, ◌&&◌, ◌||◌, List, [], ◌∷◌, if◌then◌else◌}
use google_co.Str.Ascii.{Str, eq}

pub record RouteInfo : Type 0 where
  pub method : Str
  pub path : Str
  pub key : Str

-- The registry as the list of its entries.
abbrev pub Registry : Type 0
Registry = List RouteInfo

unfoldable pub is_registered : Str → Str → Registry → Bool
is_registered method path [] = false
is_registered method path (r ∷ rs) =
    (eq method r.method && eq path r.path) || is_registered method path rs

-- `entry(..).or_insert(key)`: a route that is there keeps its key.
unfoldable pub register_route : Str → Str → Str → Registry → Registry
unfolding is_registered
register_route method path key rs =
    if is_registered method path rs
    then rs
    else record { method = method; path = path; key = key } ∷ rs

unfoldable pub routes : Registry → List RouteInfo
routes rs = rs
