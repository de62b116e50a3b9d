-- ===== src/Router/Ui.antt =====
-- gurtd/src/router/ui.rs: the files of the user interface. The file system and the extension of a path
-- are parameters; the fixed pages are kept by their names.
use google_co.Base.{
  ◌≡◌, refl, Bool, false, ◌==◌, List, [], ◌∷◌, ◌++◌, if◌then◌else◌, Option, none, some, unwrap_or,
  length, drop,
}
use google_co.Str.Ascii.{Str, Bytes, codes, eq, to_ascii_lowercase}
use google_co.Str.Search.{contains}
use google_co.Api.Status.{StatusCode, okay, bad_request}
use google_co.Api.Message.{Response}
use google_co.Router.Util.{empty_response}

-- `PathBuf::push`: an absolute path takes the place of what was there.
unfoldable pub push : Str → Str → Str
push p [] = p ++ b'/' ∷ []
push p (c ∷ rel) = if c == b'/' then c ∷ rel else p ++ b'/' ∷ c ∷ rel

abbrev content_type_of : Str → Str
content_type_of e =
    if eq e (codes "html")
    then codes "text/html"
    else if eq e (codes "css")
    then codes "text/css"
    else if eq e (codes "js")
    then codes "application/javascript"
    else if eq e (codes "json")
    then codes "application/json"
    else if eq e (codes "lua")
    then codes "text/lua"
    else if eq e (codes "png")
    then codes "image/png"
    else if eq e (codes "jpg")
    then codes "image/jpeg"
    else if eq e (codes "jpeg")
    then codes "image/jpeg"
    else if eq e (codes "svg")
    then codes "image/svg+xml"
    else codes "application/octet-stream"

-- The files of the machine, the extension of a path, and the directory of the user interface.
pub record Files : Type 0 where
  pub read : Str → Option Bytes
  pub extension : Str → Option Str
  pub ui_dir : Str

-- The places for the directory of the user interface, in their order; `built_in` is that of the build.
pub record Places : Type 0 where
  pub gurt_ui_dir : Option Str
  pub built_in : Str
  pub current_dir : Option Str
  pub exe_dir : Option Str
  pub is_dir : Str → Bool

abbrev with_ui : Option Str → List Str
with_ui none = []
with_ui (some dir) = push dir (codes "ui") ∷ []

abbrev candidates : Places → List Str
candidates p =
    elim p.gurt_ui_dir [ none ↦ [] | some dir ↦ dir ∷ [] ]
    ++ (push p.built_in (codes "ui") ∷ [])
    ++ with_ui p.current_dir
    ++ with_ui p.exe_dir

unfoldable pub first_dir : (Str → Bool) → List Str → Option Str
first_dir is_dir [] = none
first_dir is_dir (p ∷ ps) = let later = first_dir is_dir ps in if is_dir p then some p else later

unfoldable pub ui_dir : Places → Str
unfolding first_dir push
ui_dir p = unwrap_or (first_dir p.is_dir (candidates p)) (push p.built_in (codes "ui"))

unfoldable pub content_type_for : Files → Str → Str
content_type_for files p =
    content_type_of (to_ascii_lowercase (unwrap_or (files.extension p) (codes "")))

unfoldable pub html_response : StatusCode → Bytes → Response
html_response code body = record {
  code = code;
  headers = (codes "content-type", codes "text/html") ∷ [];
  body = body;
}

-- A page from the directory, or else the page that is built in.
unfoldable pub serve_page : Files → Str → Bytes → Response
unfolding html_response push
serve_page files name built_in =
    html_response okay (unwrap_or (files.read (push files.ui_dir name)) built_in)

abbrev asset_response : Str → Option Bytes → Response
asset_response content_type none = empty_response bad_request
asset_response content_type (some bytes) = record {
  code = okay;
  headers = (codes "content-type", content_type) ∷ [];
  body = bytes;
}

unfoldable pub asset_path : Files → Str → Str
unfolding push
asset_path files rel = push (push files.ui_dir (codes "assets")) rel

abbrev asset_behind : Files → Str → Response
asset_behind files rel =
    if contains rel (codes "..")
    then empty_response bad_request
    else asset_response (content_type_for files (asset_path files rel))
        (files.read (asset_path files rel))

abbrev pub assets_prefix : Str
assets_prefix = codes "/assets/"

unfoldable pub serve_asset : Files → Str → Response
unfolding content_type_for asset_path
serve_asset files path = asset_behind files (drop (length assets_prefix) path)

-- A request for `/assets/` and an absolute path without two dots in a row is answered with the file at
-- that path, wherever it lies: the directory of the user interface does not confine what is read.
pub serve_asset_absolute :
    (files : Files) (rel : Str) (bytes : Bytes)
    → contains (b'/' ∷ rel) (codes "..") ≡ false
    → files.read (b'/' ∷ rel) ≡ some bytes
    → (serve_asset files (assets_prefix ++ b'/' ∷ rel)).body ≡ bytes
unfolding serve_asset asset_path push
serve_asset_absolute files rel bytes h k = rw (h, k) refl
