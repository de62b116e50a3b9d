-- ===== src/Router/Submit.antt =====
-- gurtd/src/router/api.rs: the submission of a site. JSON, the parser of addresses and the Unicode
-- lower case are parameters.
pub mod Laws
pub mod Tasks
use google_co.Base.{
  ℕ, ◌+◌, Bool, true, false, ◌==◌, ◌||◌, leb, ltb, all, List, [], ◌∷◌, ◌++◌, if◌then◌else◌, Option,
  none, some, ◌>>=◌, or, unwrap_or, length,
}
use google_co.Str.Ascii.{Str, Bytes, codes, trim}
use google_co.Str.Length.{str_len}
use google_co.Str.Search.{strip_prefix}
use google_co.Str.Split.{split, nth_or_empty}
use google_co.Dict.{Set, insert}
use google_co.Str.Bag.{remove_first}
use google_co.Base.Results.{Result, ok, err}
use google_co.Storage.{Domains, StorageError, upsert_domain_submission}
use google_co.Api.Status.{StatusCode, okay, bad_request, too_many_requests}
use google_co.Api.Message.{Response}
use google_co.Api.HttpLike.{Request}
use google_co.Router.RateLimit.{IpAddr, IpRateLimiter, allow}
use google_co.Router.Util.{json_response, empty_response, get_header}
use google_co.Indexing.Service.{IndexingService, enqueue_domain, is_empty_text}

-- What the libraries do: the texts below the names of a JSON object, the address in a text, the lower
-- case, and the JSON of an accepted domain.
pub record Outside : Type 0 where
  pub from_slice : Bytes → Option (Str → Option Str)
  pub parse_ip : Str → Option IpAddr
  pub to_lowercase : Str → Str
  pub accepted_json : Str → Bytes

abbrev pub is_domain_char : ℕ → Bool
is_domain_char c =
    if leb b'a' c
    then (if leb c b'z' then true else false)
    else if leb b'0' c
    then (if leb c b'9' then true else false)
    else (c == b'-') || (c == b'.')

unfoldable pub is_valid_domain : Str → Bool
is_valid_domain s =
    if is_empty_text s then false else if ltb 255 (str_len s) then false else all is_domain_char s

abbrev host_of : Option Str → Str → Str
host_of none u = u
host_of (some rest) u = nth_or_empty (split rest b'/') 0

abbrev from_url : Option Str → Str
from_url none = []
from_url (some u) = host_of (strip_prefix u (codes "gurt://")) u

abbrev from_domain : Option Str → Option Str → Str
from_domain none url = from_url url
from_domain (some d) url = d

abbrev pub valid_only : Str → Option Str
valid_only domain = if is_valid_domain domain then some domain else none

unfoldable pub extract_domain_from_body : Outside → Bytes → Option Str
extract_domain_from_body out body = do
  v ← out.from_slice body
  valid_only (out.to_lowercase (trim (from_domain (v (codes "domain")) (v (codes "url")))))

-- The state that a submission touches: the limiter, the set of submissions, the tasks that are spawned to
-- write a domain to the table and have not run, and the queue of the indexer.
pub record Sites : Type 0 where
  pub limiter : IpRateLimiter
  pub submitted : Set
  pub tasks : List Str
  pub indexing : IndexingService

abbrev pub accept : Outside → Str → Sites → Response × Sites
accept out domain s = (
  json_response okay (out.accepted_json domain),
  record {
    limiter = s.limiter;
    submitted = insert domain tt s.submitted;
    tasks = s.tasks ++ domain ∷ [];
    indexing = enqueue_domain domain s.indexing;
  },
)

abbrev pub submit_domain : Outside → Option Str → Sites → Response × Sites
submit_domain out none s = (empty_response bad_request, s)
submit_domain out (some domain) s =
    if is_empty_text domain then (empty_response bad_request, s) else accept out domain s

abbrev pub with_limiter : IpRateLimiter → Sites → Sites
with_limiter l s = record {
  limiter = l;
  submitted = s.submitted;
  tasks = s.tasks;
  indexing = s.indexing;
}

abbrev pub limited : Outside → Option Str → Bool × IpRateLimiter → Sites → Response × Sites
limited out domain (allowed, l) s =
    if allowed
    then submit_domain out domain (with_limiter l s)
    else (empty_response too_many_requests, with_limiter l s)

abbrev pub limited_by : Outside → ℕ → Option IpAddr → Option Str → Sites → Response × Sites
limited_by out now none domain s = submit_domain out domain s
limited_by out now (some ip) domain s = limited out domain (allow now ip s.limiter) s

abbrev pub forwarded : Outside → Request → Option IpAddr
forwarded out req = do
  s ← get_header req (codes "x-forwarded-for")
  out.parse_ip (trim (nth_or_empty (split s b',') 0))

unfoldable pub handle_add_site : Outside → ℕ → Request → Option IpAddr → Sites → Response × Sites
unfolding extract_domain_from_body
handle_add_site out now req peer s =
    limited_by out now (or peer (forwarded out req)) (extract_domain_from_body out req.body) s

abbrev pub kept_table : Domains → Result StorageError (ℕ × Domains) → Domains
kept_table ds (ok r) = r.1
kept_table ds (err e) = ds

-- The body of a spawned task: its error is dropped.
unfoldable pub persist : (Str → Str) → Bool → ℕ → ℕ → Str → Domains → Domains
persist lower answers now new_id domain ds =
    kept_table ds (upsert_domain_submission lower answers now new_id domain (some (codes "api")) ds)

-- A spawned task runs, at any time and in any order with the others.
unfoldable pub run_task : (Str → Str) → Bool → ℕ → ℕ → Str → Sites × Domains → Sites × Domains
unfolding persist remove_first
run_task lower answers now new_id domain (s, ds) =
    (record s { tasks = remove_first s.tasks domain }, persist lower answers now new_id domain ds)
