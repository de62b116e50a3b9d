-- ===== src/Indexing/Process/Domain.antt =====
-- gurtd/src/indexing/mod.rs: `process_domain`, the work of the indexer on one domain.
use google_co.Base.{
  ℕ, zero, suc, ◌+◌, ◌*◌, Bool, true, List, [], ◌∷◌, ◌++◌, if◌then◌else◌, Option, none, some,
}
use google_co.Base.Results.{Result, ok, err}
use google_co.Str.Ascii.{Str, codes}
use google_co.Crawler.Pipeline.{ReCrawlItem, DynamicReCrawlQueue, drain}
use google_co.Index.{IndexEngine}
use google_co.Indexing.Candidates.{collect_candidate_urls}
use google_co.Indexing.Process.{Web, index_urls, flush}

abbrev pub max_attempts : ℕ
max_attempts = 3

-- How the loop that marks a domain as ready has ended: the number of attempts, the waits in
-- milliseconds between them, and whether the last one has succeeded.
pub record Marked : Type 0 where
  pub attempts : ℕ
  pub waits : List ℕ
  pub is_ready : Bool

abbrev waited : ℕ → Marked → Marked
waited backoff m = record {
  attempts = m.attempts;
  waits = backoff ∷ m.waits;
  is_ready = m.is_ready;
}

-- The loop from attempt `n` on, with `left` more behind it; the database answers each attempt.
unfoldable pub mark_from : (ℕ → Bool) → ℕ → ℕ → ℕ → Marked
mark_from set_status n zero backoff = record { attempts = n; waits = []; is_ready = set_status n }
mark_from set_status n (suc left) backoff =
    let more = waited backoff (mark_from set_status (n + 1) left (backoff * 2)) in
    if set_status n then record { attempts = n; waits = []; is_ready = true } else more

unfoldable pub mark_ready : (ℕ → Bool) → Marked
unfolding mark_from
mark_ready set_status = mark_from set_status 1 2 100

-- What the work on a domain leaves: the engine, the queue of pages to crawl again, the items that
-- were taken from it, and the mark.
pub record Processed (State : Type 0) : Type 0 where
  pub state : State
  pub queue : DynamicReCrawlQueue
  pub drained : List ReCrawlItem
  pub marked : Marked

pub data ProcessError : Type 0 where
  no_candidates : ProcessError

module _ {State Score Error : Type 0} (engine : IndexEngine State Score Error) where
  abbrev pub completed :
      (ℕ → Bool)
      → Option (DynamicReCrawlQueue × State)
      → Option (Result ProcessError (Processed State))
  completed set_status none = none
  completed set_status (some (q, s)) =
      let (items, behind) = drain q in
      some (
        ok (record {
          state = flush engine s;
          queue = behind;
          drained = items;
          marked = mark_ready set_status;
        }))

  abbrev pub process_urls :
      Web
      → (ℕ → Bool)
      → List Str
      → DynamicReCrawlQueue
      → State
      → Option (Result ProcessError (Processed State))
  process_urls web set_status [] q s = some (err no_candidates)
  process_urls web set_status (url ∷ urls) q s =
      completed set_status (index_urls engine web (url ∷ urls) q s)

  unfoldable pub process_domain :
      (Str → Str → Bool)
      → Web
      → (ℕ → Bool)
      → Str
      → DynamicReCrawlQueue
      → State
      → Option (Result ProcessError (Processed State))
  unfolding index_urls flush mark_ready drain collect_candidate_urls
  process_domain order web set_status domain q s =
      process_urls web set_status
        (collect_candidate_urls order domain
          (web.fetch (codes "gurt://" ++ domain ++ codes "/sitemap.xml")))
        q s
