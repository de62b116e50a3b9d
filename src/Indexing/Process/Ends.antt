-- ===== src/Indexing/Process/Ends.antt =====
-- The work on a domain ends: its pages are tried, the engine has taken only documents that it may, and
-- the domain has been marked as ready, or the database has refused three times.
use google_co.Base.{
  ℕ, ◌≤◌, ◌≡◌, ◌⊎◌, refl, arith, Bool, true, false, List, [], ◌∷◌, ◌++◌, Option, none, some, length,
  All, Bool-cases, inl, inr,
}
use google_co.Base.Results.{Result, ok}
use google_co.Str.Ascii.{Str, codes}
use google_co.Crawler.Pipeline.{DynamicReCrawlQueue, drain}
use google_co.Index.{IndexEngine}
use google_co.Indexing.Candidates.{IsGurt, collect_candidate_urls, collect_candidate_urls-All}
use google_co.Indexing.Candidates.NonEmpty.{collect_candidate_urls-length}
use google_co.Indexing.Process.{Web, index_urls}
use google_co.Indexing.Process.Domain.{
  Marked, mark_from, mark_ready, Processed, ProcessError, completed, process_urls, process_domain,
}
use google_co.Indexing.Process.Laws.{IsKept, RunKeeps, index_urls-Keeps, flush-Keeps}

-- The mark: at most three attempts, a wait of 100 ms behind the first failure and one of 200 ms behind
-- the second, and success as soon as the database agrees once.
abbrev pub IsMarked : (ℕ → Bool) → Marked → Type 0
IsMarked set_status m =
    ((set_status 1 ≡ true) × (m ≡ record { attempts = 1; waits = []; is_ready = true }))
    ⊎ (((set_status 1 ≡ false)
          × (set_status 2 ≡ true)
          × (m ≡ record { attempts = 2; waits = 100 ∷ []; is_ready = true }))
        ⊎ ((set_status 1 ≡ false)
            × (set_status 2 ≡ false)
            × (m ≡ record { attempts = 3; waits = 100 ∷ 200 ∷ []; is_ready = set_status 3 })))

mark_ready-IsMarked : (set_status : ℕ → Bool) → IsMarked set_status (mark_ready set_status)
unfolding mark_ready mark_from
mark_ready-IsMarked set_status = elim (Bool-cases (set_status 1)) [
  | inl a ↦ inl (a, rw a refl)
  | inr a ↦ elim (Bool-cases (set_status 2)) [
    | inl b ↦ inr (inl (a, b, rw (a, b) refl))
    | inr b ↦ inr (inr (a, b, rw (a, b) refl))
  ]
]

module _ {State Score Error : Type 0} (engine : IndexEngine State Score Error)
    (P : State → Type 0) where
  -- How the work on a domain has ended.
  pub record IsProcessed (q : DynamicReCrawlQueue) (set_status : ℕ → Bool) (p : Processed State)
      : Type 0 where
    pub kept : P p.state
    pub emptied : p.queue ≡ []
    pub drained : p.drained ≡ q
    pub marked : IsMarked set_status p.marked

  abbrev Ended :
      DynamicReCrawlQueue → (ℕ → Bool) → Option (Result ProcessError (Processed State)) → Type 0
  Ended q set_status r = (p : Processed State) × (r ≡ some (ok p)) × IsProcessed q set_status p

  completed-Ended :
      (q : DynamicReCrawlQueue) (set_status : ℕ → Bool) (o : Option (DynamicReCrawlQueue × State))
      → IsKept engine P
      → RunKeeps engine P q o
      → Ended q set_status (completed engine set_status o)
  unfolding drain
  completed-Ended q set_status none k h = absurd h
  completed-Ended q set_status (some (q', s)) k (e, h) = (
    _,
    refl,
    record {
      kept = flush-Keeps engine P s k h;
      emptied = refl;
      drained = e;
      marked = mark_ready-IsMarked set_status;
    },
  )

  urls-Ended :
      (web : Web) (set_status : ℕ → Bool) (urls : List Str) (q : DynamicReCrawlQueue) (s : State)
      → IsKept engine P
      → 1 ≤ length urls
      → All IsGurt urls
      → P s
      → Ended q set_status (process_urls engine web set_status urls q s)
  urls-Ended web set_status [] q s k n g h = absurd (omega arith)
  urls-Ended web set_status (url ∷ urls) q s k n g h =
      completed-Ended q set_status (index_urls engine web (url ∷ urls) q s) k
        (index_urls-Keeps engine P web (url ∷ urls) q s k g h)

-- The work on a domain always ends, and without its error: there is a candidate. What the engine keeps
-- under documents whose URL begins with gurt://, which have a domain, and whose title is made of words or
-- is the domain, holds of it behind; no page has been queued again, what was queued is taken out and
-- dropped; and the domain has been marked as ready, or the database has refused three times.
pub process_domain-IsProcessed :
    {State Score Error : Type 0} (engine : IndexEngine State Score Error) (P : State → Type 0)
    (order : Str → Str → Bool) (web : Web) (set_status : ℕ → Bool) (domain : Str)
    (q : DynamicReCrawlQueue) (s : State)
    → IsKept engine P
    → P s
    → (p : Processed State) × (process_domain engine order web set_status domain q s ≡ some (ok p))
      × IsProcessed engine P q set_status p
unfolding process_domain
process_domain-IsProcessed engine P order web set_status domain q s k h =
    let fetched = web.fetch (codes "gurt://" ++ domain ++ codes "/sitemap.xml") in
    urls-Ended engine P web set_status (collect_candidate_urls order domain fetched) q s k
      (collect_candidate_urls-length order domain fetched)
      (collect_candidate_urls-All order domain fetched).1 h
