-- ===== src/Indexing/Process.antt =====
-- gurtd/src/indexing/fetch.rs and gurtd/src/indexing/mod.rs: a page is fetched, checked and given to the
-- engine; a domain's pages are indexed, and the domain is marked as ready.
pub mod Laws
pub mod Domain
pub mod Ends
use google_co.Base.{
  ℕ, zero, suc, ◌+◌, ◌*◌, Bool, true, false, ◌&&◌, not, List, [], ◌∷◌, ◌++◌, if◌then◌else◌, ltb,
  leb, Option, none, some, unwrap_or, is_empty,
}
use google_co.Base.Results.{Result, ok, err}
use google_co.Str.Ascii.{Str, Bytes, codes, to_ascii_lowercase}
use google_co.Str.Search.{contains}
use google_co.Str.Utf8.{from_utf8, from_utf8_lossy}
use google_co.Crawler.Client.{ClientResponse, Url}
use google_co.Crawler.Pipeline.{
  ReCrawlItem, Page, DynamicReCrawlQueue, process_fetched_document, drain,
}
use google_co.Index.{IndexDocument, IndexEngine}
use google_co.Indexing.Fetch.{FetchError, header_value}
use google_co.Indexing.Fetch.Title.{extract_title}
use google_co.Indexing.Candidates.{collect_candidate_urls}

abbrev pub render_budget : ℕ
render_budget = 120

-- The result, and the engine and the queue behind.
pub record Attempt (State : Type 0) : Type 0 where
  pub result : Result FetchError (Unit {0})
  pub state : State
  pub queue : DynamicReCrawlQueue

abbrev pub is_success : ℕ → Bool
is_success code = leb 200 code && ltb code 300

abbrev pub is_html : Option Str → Bool
is_html none = true
is_html (some ct) = contains (to_ascii_lowercase ct) (codes "text/html")

abbrev pub body_text : Bytes → Str
body_text body = elim (from_utf8 body) [ none ↦ from_utf8_lossy body | some t ↦ t ]

abbrev pub host_of : Url → Str
host_of u = unwrap_or u.host []

-- The parser of URLs, the clock in seconds, and what fetching a URL returns.
pub record Web : Type 0 where
  pub parse_url : Str → Option Url
  pub now : ℕ
  pub fetch : Str → Result FetchError ClientResponse

module _ {State Score Error : Type 0} (engine : IndexEngine State Score Error) where
  -- An attempt that ends before the engine is asked.
  abbrev pub ended :
      Result FetchError (Unit {0}) → DynamicReCrawlQueue → State → Option (Attempt State)
  ended r q s = some (record { result = r; state = s; queue = q })

  abbrev pub outcome_of :
      State → Option (Result Error State × DynamicReCrawlQueue) → Option (Attempt State)
  outcome_of s none = none
  outcome_of s (some (err e, q)) = ended (err FetchError.index_failed) q s
  outcome_of s (some (ok t, q)) = ended (ok tt) q t

  abbrev pub page_of : Web → Str → Str → Str → Page
  page_of web url domain body = record {
    url = url;
    domain = domain;
    title = unwrap_or (extract_title body) domain;
    html = body;
    language = codes "en";
    fetch_time = web.now;
  }

  abbrev pub index_page :
      Web → Str → Bytes → Option Url → DynamicReCrawlQueue → State → Option (Attempt State)
  index_page web url body none q s = ended (err FetchError.bad_url) q s
  index_page web url body (some parsed) q s =
      if is_empty (host_of parsed)
      then ended (err FetchError.missing_host) q s
      else outcome_of s (
          process_fetched_document engine.add (page_of web url (host_of parsed) (body_text body))
            render_budget q s)

  abbrev pub index_response :
      Web
      → Str
      → Result FetchError ClientResponse
      → DynamicReCrawlQueue
      → State
      → Option (Attempt State)
  index_response web url (err e) q s = ended (err e) q s
  index_response web url (ok resp) q s =
      if not (is_success resp.code)
      then ended (err (FetchError.status resp.code)) q s
      else if not (is_html (header_value resp.headers (codes "content-type")))
      then ended (ok tt) q s
      else index_page web url resp.body (web.parse_url url) q s

  -- `none` means that the fuel of the rendering ran out.
  unfoldable pub index_single_url : Web → Str → DynamicReCrawlQueue → State → Option (Attempt State)
  unfolding process_fetched_document header_value
  index_single_url web url q s = index_response web url (web.fetch url) q s

  abbrev pub next_page :
      (DynamicReCrawlQueue → State → Option (DynamicReCrawlQueue × State))
      → Option (Attempt State)
      → Option (DynamicReCrawlQueue × State)
  next_page later none = none
  next_page later (some a) = later a.queue a.state

  -- The loop over the pages: an error is logged, and the next page is tried.
  unfoldable pub index_urls :
      Web → List Str → DynamicReCrawlQueue → State → Option (DynamicReCrawlQueue × State)
  unfolding index_single_url
  index_urls web [] q s = some (q, s)
  index_urls web (url ∷ urls) q s =
      next_page (λ q s. index_urls web urls q s) (index_single_url web url q s)

  -- An error of `commit` or `refresh` is logged.
  abbrev pub or_same : State → Result Error State → State
  or_same s (err e) = s
  or_same s (ok t) = t

  unfoldable pub flush : State → State
  flush s = let t = or_same s (engine.commit s) in or_same t (engine.refresh t)
