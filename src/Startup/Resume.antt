-- ===== src/Startup/Resume.antt =====
-- The start queues the oldest pending domains, while the worker and the other threads go on.
use google_co.Base.{
  ◌⊎◌, sym, some, false, ◌≤◌, ◌≡◌, refl, Bool, true, List, [], ◌∷◌, All, Bool-cases, inl, inr, ◌^◌,
  Option, none, le→not_ltb,
}
use mathlib.Core.Path.{subst}
use google_co.Str.Ascii.{Str}
use google_co.Str.Bag.{contains, contains_head}
use google_co.Indexing.Service.{
  IndexingService, send, enqueue_domain, reserve, is_empty_text, Steps,
}
use google_co.Storage.{Domains, ℤ, pos, as_i64, list_pending_domains}
use google_co.Startup.{
  to_send, Environment, env_flag_true, env_usize, resumed, Loop, ended, enqueues, sends_on,
  BootstrapResume,
}

-- The domain was in flight already when the start came to it: the loop is at it, with `rest` behind it.
abbrev pub Known : IndexingService → IndexingService → Str → Type 0
Known s u d =
    (t : IndexingService) × (rest : List Str) × Steps s t
    × Loop true none (d ∷ rest) t u
    × (contains t.in_flight d ≡ true)

-- Between two states there is one in which the domain waits in the channel of the worker.
abbrev pub Queued : IndexingService → IndexingService → Str → Type 0
Queued s u d = (t : IndexingService) × Steps s t × Steps t u × (contains t.channel d ≡ true)

abbrev pub Taken : IndexingService → IndexingService → Str → Type 0
Taken s u d = (is_empty_text d ≡ true) ⊎ (Known s u d ⊎ Queued s u d)

-- The domain that is being sent will be queued.
abbrev WillSend : IndexingService → IndexingService → Option Str → Type 0
WillSend s u none = Unit
WillSend s u (some d) = Queued s u d

abbrev Covers : Option Str → List Str → IndexingService → IndexingService → Type 0
Covers sent ds s u = WillSend s u sent × All (Taken s u) ds

-- A limit of 2 ^ 63 or more is negative as an `i64`: the start then goes through no domain.
pub resumed_wraps :
    (env : Environment) (answers : Bool) (ds : Domains)
    → 2 ^ 63 ≤ env_usize env.bootstrap_limit 200
    → resumed env answers ds ≡ []
unfolding resumed list_pending_domains as_i64 google_co.Storage.capped
resumed_wraps env answers ds h = elim (Bool-cases (env_flag_true env.bootstrap_enabled true)) [
  | inl a ↦ rw (a, le→not_ltb (2 ^ 63) (env_usize env.bootstrap_limit 200) h) refl
  | inr a ↦ rw a refl
]

reserved :
    (d : Str) (s : IndexingService)
    → is_empty_text d ≡ false
    → contains s.in_flight d ≡ false
    → contains (enqueue_domain d s).sending d ≡ true
unfolding enqueue_domain reserve
reserved d s a b = rw (a, b) (contains_head s.sending d)

-- The loop of the start does not wait for the others: from every state it can end by its own blocks.
Loop-ends :
    (alive : Bool) (ds : List Str) (s : IndexingService)
    → (u : IndexingService) × Loop alive none ds s u
Loop-ends alive [] s = (s, ended)
Loop-ends alive (d ∷ ds) s =
    let skipped : to_send d s ≡ none → (u : IndexingService) × Loop alive none (d ∷ ds) s u = λ e.
      let (u, rest) = Loop-ends alive ds (enqueue_domain d s) in
      (u, enqueues (subst (λ o. Loop alive o ds (enqueue_domain d s) u) (sym e) rest)) in
    elim (Bool-cases (is_empty_text d)) [
      | inl a ↦ skipped (rw a refl)
      | inr a ↦ elim (Bool-cases (contains s.in_flight d)) [
        | inl b ↦ skipped (rw (a, b) refl)
        | inr b ↦
            let (u, rest) = Loop-ends alive ds (send alive d (enqueue_domain d s)) in
            let own : to_send d s ≡ some d = rw (a, b) refl in
            (
              u,
              enqueues (
                  subst (λ o. Loop alive o ds (enqueue_domain d s) u) (sym own)
                    (sends_on (reserved d s a b) rest)),
            )
      ]
    ]

-- A start can always end, with the worker alive or not.
pub BootstrapResume-ends :
    (env : Environment) (answers alive : Bool) (ds : Domains) (s : IndexingService)
    → (u : IndexingService) × BootstrapResume env answers alive ds s u
unfolding BootstrapResume
BootstrapResume-ends env answers alive ds s = Loop-ends alive (resumed env answers ds) s
