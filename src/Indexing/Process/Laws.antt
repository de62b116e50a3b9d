-- ===== src/Indexing/Process/Laws.antt =====
-- What the engine is given by the work on a domain, and how that work ends.
use google_co.Base.{
  ◌≡◌, ◌⊎◌, refl, false, List, [], ◌∷◌, Option, none, some, unwrap_or, is_empty, All, Bool-cases,
  inl, inr,
}
use google_co.Base.Results.{Result, ok, err}
use google_co.Str.Ascii.{Str, Bytes, codes}
use google_co.Crawler.Client.{ClientResponse, Url}
use google_co.Crawler.Pipeline.{DynamicReCrawlQueue}
use google_co.Crawler.Pipeline.Laws.{process_in_time, indexed}
use google_co.Index.{IndexDocument, IndexEngine}
use google_co.Indexing.Candidates.{IsGurt}
use google_co.Indexing.Fetch.{FetchError, header_value}
use google_co.Indexing.Fetch.Title.{extract_title, IsTitle, extract_title-IsTitle}
use google_co.Indexing.Process.{
  Web, Attempt, is_success, is_html, host_of, body_text, render_budget, outcome_of, page_of,
  index_page, index_response, index_single_url, next_page, index_urls, or_same, flush,
}

-- A document that may be given to the engine.
pub record IsPageDocument (d : IndexDocument) : Type 0 where
  pub is_gurt : IsGurt d.url
  pub has_domain : is_empty d.domain ≡ false
  pub has_title : IsTitle d.title ⊎ (d.title ≡ d.domain)

module _ {State Score Error : Type 0} (engine : IndexEngine State Score Error)
    (P : State → Type 0) where
  -- What is kept by the engine's operations, where documents are such.
  pub record IsKept : Type 0 where
    pub adds :
        (d : IndexDocument) (s t : State) → IsPageDocument d → P s → engine.add d s ≡ ok t → P t
    pub commits : (s t : State) → P s → engine.commit s ≡ ok t → P t
    pub refreshes : (s t : State) → P s → engine.refresh s ≡ ok t → P t

  -- The attempt has ended, and what is kept holds of the engine behind.
  abbrev AttemptKeeps : DynamicReCrawlQueue → Option (Attempt State) → Type 0
  AttemptKeeps q none = ⊥
  AttemptKeeps q (some a) = P a.state × (a.queue ≡ q)

  page-has-IsTitle :
      (o : Option Str) (domain : Str)
      → ((t : Str) → o ≡ some t → IsTitle t)
      → IsTitle (unwrap_or o domain) ⊎ (unwrap_or o domain ≡ domain)
  page-has-IsTitle none domain f = inr refl
  page-has-IsTitle (some t) domain f = inl (f t refl)

  outcome-Keeps :
      (r : Result Error State) (q : DynamicReCrawlQueue) (s : State)
      → P s
      → ((t : State) → r ≡ ok t → P t)
      → AttemptKeeps q (outcome_of engine s (some (r, q)))
  outcome-Keeps (err e) q s h f = (h, refl)
  outcome-Keeps (ok t) q s h f = (f t refl, refl)

  index_page-Keeps :
      (web : Web) (url : Str) (body : Bytes) (o : Option Url) (q : DynamicReCrawlQueue) (s : State)
      → IsKept
      → IsGurt url
      → P s
      → AttemptKeeps q (index_page engine web url body o q s)
  index_page-Keeps web url body none q s k g h = (h, refl)
  index_page-Keeps web url body (some parsed) q s k g h =
      elim (Bool-cases (is_empty (host_of parsed))) [
        | inl a ↦ rw a (h, refl)
        | inr a ↦
            let page = page_of engine web url (host_of parsed) (body_text body) in
            let (content, mode, e, _) = process_in_time engine.add page render_budget q s in
            rw (a, e)
              (outcome-Keeps (engine.add (indexed page content mode) s) q s h (λ t.
                k.adds (indexed page content mode) s t
                  (record {
                    is_gurt = g;
                    has_domain = a;
                    has_title =
                        page-has-IsTitle (extract_title (body_text body)) (host_of parsed)
                          (extract_title-IsTitle (body_text body));
                  })
                  h))
      ]

  response-Keeps :
      (web : Web) (url : Str) (r : Result FetchError ClientResponse) (q : DynamicReCrawlQueue)
      (s : State)
      → IsKept
      → IsGurt url
      → P s
      → AttemptKeeps q (index_response engine web url r q s)
  response-Keeps web url (err e) q s k g h = (h, refl)
  response-Keeps web url (ok resp) q s k g h = elim (Bool-cases (is_success resp.code)) [
    | inr a ↦ rw a (h, refl)
    | inl a ↦ elim (Bool-cases (is_html (header_value resp.headers (codes "content-type")))) [
      | inr b ↦ rw (a, b) (h, refl)
      | inl b ↦ rw (a, b) (index_page-Keeps web url resp.body (web.parse_url url) q s k g h)
    ]
  ]

  -- The loop over pages ends, and queues no page again.
  abbrev pub RunKeeps : DynamicReCrawlQueue → Option (DynamicReCrawlQueue × State) → Type 0
  RunKeeps q none = ⊥
  RunKeeps q (some (q', s)) = (q' ≡ q) × P s

  next_page-Keeps :
      (o : Option (Attempt State))
      (later : DynamicReCrawlQueue → State → Option (DynamicReCrawlQueue × State))
      (q : DynamicReCrawlQueue)
      → ((s : State) → P s → RunKeeps q (later q s))
      → AttemptKeeps q o
      → RunKeeps q (next_page engine later o)
  next_page-Keeps none later q f h = absurd h
  next_page-Keeps (some a) later q f (h, e) = rw e (f a.state h)

  pub index_urls-Keeps :
      (web : Web) (urls : List Str) (q : DynamicReCrawlQueue) (s : State)
      → IsKept
      → All IsGurt urls
      → P s
      → RunKeeps q (index_urls engine web urls q s)
  unfolding index_urls index_single_url
  index_urls-Keeps web [] q s k g h = (refl, h)
  index_urls-Keeps web (url ∷ urls) q s k (g, gs) h =
      next_page-Keeps (index_response engine web url (web.fetch url) q s) _ q
        (λ t. index_urls-Keeps web urls q t k gs) (response-Keeps web url (web.fetch url) q s k g h)

  or_same-Keeps :
      (r : Result Error State) (s : State)
      → P s
      → ((t : State) → r ≡ ok t → P t)
      → P (or_same engine s r)
  or_same-Keeps (err e) s h f = h
  or_same-Keeps (ok t) s h f = f t refl

  pub flush-Keeps : (s : State) → IsKept → P s → P (flush engine s)
  unfolding flush
  flush-Keeps s k h =
      let t = or_same engine s (engine.commit s) in
      let kept = or_same-Keeps (engine.commit s) s h (λ t. k.commits s t h) in
      or_same-Keeps (engine.refresh t) t kept (λ u. k.refreshes t u kept)
