-- ===== src/Crawler/Pipeline/Laws.antt =====
-- Which document is indexed and what is queued again, in each case.
use google_co.Base.{ℕ, ◌<◌, ◌≡◌, refl, [], ◌∷◌, ◌++◌, none, some, lt→ltb, ◌⊎◌, inl, inr}
use google_co.Base.Results.{Result}
use google_co.Str.Ascii.{Str}
use google_co.Index.{IndexDocument}
use google_co.Crawler.Render.{
  DynamicReason, RenderOutcome, detect_dynamic, static_mode, rendered_mode, render_once, marked,
  strip_script_blocks,
}
use google_co.Crawler.Render.Laws.{render_once-Outcome, Outcome, static, late, in_budget}
use google_co.Crawler.Pipeline.{
  Page, DynamicReCrawlQueue, enqueue, process_fetched_document_with_cost, process_fetched_document,
}

-- The page as it is indexed.
abbrev pub indexed : Page → Str → Str → IndexDocument
indexed p content mode = record {
  url = p.url;
  domain = p.domain;
  title = p.title;
  content = content;
  fetch_time = p.fetch_time;
  language = p.language;
  render_mode = mode;
}

-- What of the page is indexed, and in which mode.
abbrev pub IsContent : Page → Str → Str → Type 0
IsContent p content mode =
    ((detect_dynamic p.html ≡ none) × (content ≡ p.html) × (mode ≡ static_mode))
    ⊎ ((t : Str) × (strip_script_blocks p.html ≡ some t)
        × (content ≡ marked t)
        × (mode ≡ rendered_mode))

module _ {State Error : Type 0} (add : IndexDocument → State → Result Error State) where
  -- A page that is found to be dynamic and whose cost exceeds the budget is queued again once, with
  -- its reason, and indexed unchanged.
  pub process_late :
      (p : Page) (budget cost : ℕ) (r : DynamicReason) (q : DynamicReCrawlQueue) (s : State)
      → detect_dynamic p.html ≡ some r
      → budget < cost
      → process_fetched_document_with_cost add p budget (some cost) q s
        ≡ some (
          add (indexed p p.html static_mode) s,
          q ++ record { url = p.url; reason = some r } ∷ [],
        )
  unfolding process_fetched_document_with_cost render_once enqueue
  process_late p budget cost r q s dynamic over = rw (dynamic, lt→ltb budget cost over) refl

  -- Without a simulated cost no page is queued again, and every page is indexed: a static one
  -- unchanged, any other without its scripts and marked.
  pub process_in_time :
      (p : Page) (budget : ℕ) (q : DynamicReCrawlQueue) (s : State)
      → (content : Str) × (mode : Str) × (process_fetched_document add p budget q s
          ≡ some (add (indexed p content mode) s, q))
        × IsContent p content mode
  unfolding process_fetched_document process_fetched_document_with_cost
  process_in_time p budget q s =
      let (o, e, case) =
        render_once-Outcome p.html (record { time_budget = budget; simulated_cost = none }) in
      by_case o e case
    where
      by_case :
          (o : RenderOutcome)
          → render_once p.html (record { time_budget = budget; simulated_cost = none }) ≡ some o
          → Outcome p.html (record { time_budget = budget; simulated_cost = none }) o
          → (content : Str) × (mode : Str) × (process_fetched_document add p budget q s
              ≡ some (add (indexed p content mode) s, q))
            × IsContent p content mode
      by_case o e (static d same) = (p.html, static_mode, rw (e, same) refl, inl (d, refl, refl))
      by_case o e (late r d over same) = cc over
      by_case o e (in_budget r t d over stripped same) =
          (marked t, rendered_mode, rw (e, same) refl, inr (t, stripped, refl, refl))
