-- ===== src/Tests/Router.antt =====
-- gurtd/src/router and gurtd/src/main.rs: submissions, searches, files and connections.
use google_co.Base.{
  map, ◌+◌, ◌*◌, ℕ, suc, ◌≡◌, refl, arith, true, false, List, [], ◌∷◌, ◌++◌, none, some, length,
  if◌then◌else◌,
}
use google_co.Str.Ascii.{Str, Bytes, codes, eq, trim}
use google_co.Str.Search.{contains}
use google_co.Dict.{lookup}
use google_co.Query.{parse_query}
use google_co.Search.Key.{normalize_key}
use google_co.Search.Cache.{HotQueryCache, new, get}
use google_co.Api.Stream.{Stream, chunks}
use google_co.Api.Headers.{crlfcrlf}
use google_co.Api.HttpLike.{Request}
use google_co.Router.RateLimit.{IpAddr, IpRateLimiter, admit, allow, rate_limiter}
use google_co.Router.RateLimit.Window.{IsAscending, decisions, admit_all, admit_all-decisions}
use google_co.Router.Ui.{Files, assets_prefix, serve_asset, serve_asset_absolute}
use google_co.Router.Submit.{
  Outside, Sites, is_valid_domain, extract_domain_from_body, handle_add_site, run_task,
}
use google_co.Router.Submit.Laws.{Table}
use google_co.Indexing.Service.{is_empty_text}
use google_co.Router.Results.{SearchResponse, Backend, searched_text, handle_search}
use google_co.Router.Results.Laws.{handle_search_again}
use google_co.Router.Dispatch.{App, Server}
use google_co.Connection.{Clock, serve}
use google_co.Connection.Laws.{serve_total}
use google_co.Str.Utf8.{as_bytes}
use google_co.Router.Page.{item_markup, page_markup, page_results, render_search_ssr}
use google_co.Router.Page.Markup.{occurrences, render_search_ssr-markup}

abbrev nows : List ℕ
nows = 1 ∷ 2 ∷ 3 ∷ 70 ∷ []

nows-IsAscending : IsAscending 0 nows
nows-IsAscending = (omega arith, (omega arith, (omega arith, (omega arith, tt))))

admit_all-decisions_example : admit_all 2 60 [] nows ≡ decisions 2 60 [] nows
admit_all-decisions_example = admit_all-decisions 2 60 nows nows-IsAscending

admitted_twice : admit_all 2 60 [] nows ≡ true ∷ true ∷ false ∷ true ∷ []
unfolding admit_all admit google_co.Router.RateLimit.pop_old
admitted_twice = refl

-- A variable that is no number counts as if it were not set.
limiter_of_environment :
    rate_limiter 1000 (some (codes "+7")) (some (codes "x"))
    ≡ record { max = 7; window = 60000; map = [] }
unfolding rate_limiter google_co.Str.Number.parse_unsigned
limiter_of_environment = refl

abbrev limiter : IpRateLimiter
limiter = record { max = 2; window = 60; map = [] }

abbrev pub ip_a : IpAddr
ip_a = codes "10.0.0.1"

abbrev ip_b : IpAddr
ip_b = codes "10.0.0.2"

abbrev secret_path : Str
secret_path = codes "/etc/passwd"

abbrev files : Files
files = record {
  read = λ p. if eq p (codes "/etc/passwd") then some (codes "root") else none;
  extension = λ p. none;
  ui_dir = codes "/srv/ui";
}

no_dots : contains secret_path (codes "..") ≡ false
unfolding contains
no_dots = refl

secret_read : files.read secret_path ≡ some (codes "root")
unfolding eq
secret_read = refl

serve_asset_absolute_example :
    (serve_asset files (assets_prefix ++ secret_path)).body ≡ codes "root"
serve_asset_absolute_example =
    serve_asset_absolute files (codes "etc/passwd") (codes "root") no_dots secret_read

-- A body is taken as the text of the field `url`.
abbrev outside : Outside
outside = record {
  from_slice = λ b. some (λ name. if eq name (codes "url") then some b else none);
  parse_ip = λ s. some s;
  to_lowercase = λ s. s;
  accepted_json = λ d. d;
}

abbrev body : Bytes
body = codes "gurt://a-1.web/x"

domain_found : extract_domain_from_body outside body ≡ some (codes "a-1.web")
unfolding extract_domain_from_body is_valid_domain trim eq google_co.Str.Search.strip_prefix
    google_co.Str.Split.split google_co.Str.Length.str_len
domain_found = refl

abbrev request : Request
request = record { method = codes "POST"; path = codes "/api/sites"; headers = []; body = body }

abbrev sites : Sites
sites = record {
  limiter = limiter;
  submitted = [];
  tasks = [];
  indexing = record { in_flight = []; sending = []; channel = []; processing = none };
}

abbrev table : Table
table = record { lower = λ s. s; answers = true; now = 9; next_id = 4; domains = [] }

-- A submission that is accepted and whose task finds a database that does not answer writes nothing.
nothing_written :
    (run_task
      (λ s. s)
      false
      9
      4
      (codes "a-1.web")
      ((handle_add_site outside 7 request (some ip_a) sites).1, [])).1
    ≡ []
unfolding run_task google_co.Storage.upsert_domain_submission google_co.Str.Ascii.to_ascii_lowercase
    trim
nothing_written = refl

is_written :
    map
      (λ d. d.name)
      (run_task
        (λ s. s)
        true
        9
        4
        (codes "a-1.web")
        ((handle_add_site outside 7 request (some ip_a) sites).1, [])).1
    ≡ codes "a-1.web" ∷ []
unfolding run_task google_co.Storage.upsert_domain_submission google_co.Str.Ascii.to_ascii_lowercase
    trim
is_written = refl

abbrev search_request : Request
search_request = record {
  method = codes "GET";
  path = codes "/api/search?q=rust";
  headers = [];
  body = [];
}

abbrev backend : Backend ℕ
backend = record {
  percent_decode = λ s. s;
  overloaded = false;
  force_500 = false;
  search = λ q page size. none;
  rescore_and_convert = λ hits k. [];
  to_vec = λ r. r.query;
}

abbrev cache : HotQueryCache (SearchResponse ℕ)
cache = new 20

query_given : is_empty_text (trim (searched_text backend search_request)) ≡ false
unfolding trim searched_text google_co.Api.HttpLike.query google_co.Str.Split.split_once
    google_co.Str.Split.split eq
query_given = refl

not_cached :
    (get 5 (normalize_key (parse_query (searched_text backend search_request))) cache).0 ≡ none
unfolding get lookup
not_cached = refl

handle_search_again_example :
    (handle_search
      (record backend { search = λ q page size. some [] })
      20
      search_request
      (handle_search backend 5 search_request cache).1).0
    ≡ (handle_search backend 5 search_request cache).0
handle_search_again_example =
    handle_search_again backend (λ q page size. some []) 5 20 search_request cache query_given refl
      refl not_cached refl

abbrev pub server : Server ℕ
server = record { backend = backend; outside = outside; files = files }

abbrev clock : Clock
clock = record { date = λ i. codes "now"; now = λ i. i; is_idle = λ i. false }

abbrev pub app : App ℕ
app = record { cache = cache; sites = sites }

abbrev two_requests : Stream
two_requests =
    chunks
      ((codes "GET / GURT/1.0.0" ++ crlfcrlf) ∷ (codes "GET /domains GURT/1.0.0" ++ crlfcrlf) ∷ [])

serve_total_example :
    (serve server clock (some ip_a) (suc (length two_requests)) 1 two_requests app).ended ≡ true
serve_total_example = serve_total server clock (some ip_a) two_requests app

-- A query that tries to add a tag.
abbrev tag_query : Str
tag_query = codes "<script>"

render_search_ssr-markup_example :
    (text : Str) × ((render_search_ssr backend tag_query).body ≡ as_bytes text)
    × (occurrences 60 text
        ≡ occurrences 60 (page_markup [] [])
          + length (page_results backend tag_query) * occurrences 60 (item_markup [] []))
render_search_ssr-markup_example = render_search_ssr-markup backend tag_query 60 refl
