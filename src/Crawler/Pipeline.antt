-- ===== src/Crawler/Pipeline.antt =====
-- gurtd/src/crawler/pipeline.rs: a fetched page is rendered, queued again if that took too long, and
-- added to the index.
pub mod Laws
use google_co.Base.{ℕ, suc, ◌+◌, List, [], ◌∷◌, ◌++◌, if◌then◌else◌, Option, none, some, length}
use google_co.Base.Results.{Result, ok, err}
use google_co.Str.Ascii.{Str}
use google_co.Index.{IndexDocument}
use google_co.Crawler.Render.{DynamicReason, RenderOutcome, RenderConfig, render_once}

pub record ReCrawlItem : Type 0 where
  pub url : Str
  pub reason : Option DynamicReason

abbrev pub DynamicReCrawlQueue : Type 0
DynamicReCrawlQueue = List ReCrawlItem

unfoldable pub enqueue : ReCrawlItem → DynamicReCrawlQueue → DynamicReCrawlQueue
enqueue item q = q ++ item ∷ []

-- The items, and the queue behind.
unfoldable pub drain : DynamicReCrawlQueue → List ReCrawlItem × DynamicReCrawlQueue
drain q = (q, [])

unfoldable pub queue_len : DynamicReCrawlQueue → ℕ
queue_len q = length q

-- What is known of a fetched page.
pub record Page : Type 0 where
  pub url : Str
  pub domain : Str
  pub title : Str
  pub html : Str
  pub language : Str
  pub fetch_time : ℕ

abbrev pub document : Page → RenderOutcome → IndexDocument
document p o = record {
  url = p.url;
  domain = p.domain;
  title = p.title;
  content = o.content;
  fetch_time = p.fetch_time;
  language = p.language;
  render_mode = o.render_mode;
}

abbrev pub requeued : Page → RenderOutcome → DynamicReCrawlQueue → DynamicReCrawlQueue
requeued p o q = if o.timed_out then enqueue (record { url = p.url; reason = o.reason }) q else q

-- The engine's `add`; an error of it is passed on, with the queue as it is by then.
module _ {State Error : Type 0} (add : IndexDocument → State → Result Error State) where
  abbrev pub added :
      Page
      → DynamicReCrawlQueue
      → State
      → Option RenderOutcome
      → Option (Result Error State × DynamicReCrawlQueue)
  added p q s none = none
  added p q s (some o) = some (add (document p o) s, requeued p o q)

  unfoldable pub process_fetched_document_with_cost :
      Page
      → ℕ
      → Option ℕ
      → DynamicReCrawlQueue
      → State
      → Option (Result Error State × DynamicReCrawlQueue)
  process_fetched_document_with_cost p render_budget simulated_cost q s =
      added p q s (
        render_once p.html
          (record { time_budget = render_budget; simulated_cost = simulated_cost }))

  unfoldable pub process_fetched_document :
      Page → ℕ → DynamicReCrawlQueue → State → Option (Result Error State × DynamicReCrawlQueue)
  process_fetched_document p render_budget q s =
      process_fetched_document_with_cost p render_budget none q s
