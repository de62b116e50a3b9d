-- ===== src/Crawler/Scheduler/Progress.antt =====
-- No deadlock: where limits are not 0, tasks that have called can go on until all are done.
use google_co.Base.{
  ℕ, zero, suc, ◌+◌, ◌*◌, ◌≤◌, ◌≡◌, ◌⊎◌, refl, ap, arith, List, [], ◌∷◌, some, Option-cases, inl,
  inr, length, >>=-eq-some, eq_of_some,
}
use mathlib.Core.Path.{subst}
use google_co.Str.Ascii.{Str}
use google_co.Str.Bag.{count, length-remove_first, contains_head}
use google_co.Crawler.Scheduler.{
  Semaphore, Crawl, new, host_sem, put_host, take_global, take_host, drop_permits, Work,
  takes_global, takes_host, drops, Steps, Works, at_rest, work_then, run_length,
}
use google_co.Crawler.Scheduler.Permits.{
  IsPermitted, new-IsPermitted, Steps-IsPermitted, Work-IsPermitted,
}

-- No task has called without having dropped its permits.
abbrev pub AllDone : {Sem : Type 0} → Crawl Sem → Type 0
AllDone c = (c.waiting ≡ []) × (c.at_host ≡ []) × (c.working ≡ [])

-- The steps that the tasks still have to do.
unfoldable pub work_left : {Sem : Type 0} → Crawl Sem → ℕ
work_left c = length c.waiting * 3 + length c.at_host * 2 + length c.working

module _ (lib : Semaphore) (global_limit per_host_limit : ℕ) where
  -- Each step takes one from what is left.
  Work-work_left : {c d : Crawl lib.Sem} → Work lib c d → work_left c ≡ suc (work_left d)
  unfolding work_left take_global take_host drop_permits put_host
  Work-work_left {c = c} (takes_global host k e) =
      let (sem, a, b) = >>=-eq-some (lib.acquire c.scheduler.global) _ e in
      subst (λ d. work_left c ≡ suc (work_left d)) (eq_of_some b)
        (omega (arith, length-remove_first c.waiting host k))
  Work-work_left {c = c} (takes_host host k e) =
      let (sem, a, b) = >>=-eq-some (lib.acquire (host_sem lib host c.scheduler)) _ e in
      subst (λ d. work_left c ≡ suc (work_left d)) (eq_of_some b)
        (omega (arith, length-remove_first c.at_host host k))
  Work-work_left {c = c} (drops host k) = omega (arith, length-remove_first c.working host k)

  can_take_host :
      (host : Str) (c : Crawl lib.Sem)
      → 1 ≤ lib.available (host_sem lib host c.scheduler)
      → (d : Crawl lib.Sem) × (take_host lib host c ≡ some d)
  unfolding take_host
  can_take_host host c h = elim (Option-cases (lib.acquire (host_sem lib host c.scheduler))) [
    | inl a ↦ absurd (omega (arith, lib.acquire-none (host_sem lib host c.scheduler) a))
    | inr (sem, a) ↦ rw a (_, refl)
  ]

  can_take_global :
      (host : Str) (c : Crawl lib.Sem)
      → 1 ≤ lib.available c.scheduler.global
      → (d : Crawl lib.Sem) × (take_global lib host c ≡ some d)
  unfolding take_global
  can_take_global host c h = elim (Option-cases (lib.acquire c.scheduler.global)) [
    | inl a ↦ absurd (omega (arith, lib.acquire-none c.scheduler.global a))
    | inr (sem, a) ↦ rw a (_, refl)
  ]

  progress_at :
      (c : Crawl lib.Sem) (waiting at_host working : List Str)
      → c.waiting ≡ waiting
      → c.at_host ≡ at_host
      → c.working ≡ working
      → 1 ≤ global_limit
      → 1 ≤ per_host_limit
      → IsPermitted lib global_limit per_host_limit c
      → AllDone c ⊎ ((d : Crawl lib.Sem) × Work lib c d)
  unfolding count
  progress_at c w a (h ∷ k) p q r g l i =
      inr (drop_permits lib h c, drops h (rw r (contains_head k h)))
  progress_at c w (h ∷ a) [] p q r g l i =
      let none_works : count c.working h ≡ 0 = rw r refl in
      let (d, taken) = can_take_host h c (omega (arith, i.per_host h, none_works)) in
      inr (d, takes_host h (rw q (contains_head a h)) taken)
  progress_at c (h ∷ w) [] [] p q r g l i =
      let none_at_host = ap (λ t. length t) q in
      let none_works = ap (λ t. length t) r in
      let (d, taken) = can_take_global h c (omega (arith, i.globally, none_at_host, none_works)) in
      inr (d, takes_global h (rw p (contains_head w h)) taken)
  progress_at c [] [] [] p q r g l i = inl (p, q, r)

  progress :
      (c : Crawl lib.Sem)
      → 1 ≤ global_limit
      → 1 ≤ per_host_limit
      → IsPermitted lib global_limit per_host_limit c
      → AllDone c ⊎ ((d : Crawl lib.Sem) × Work lib c d)
  progress c g l i = progress_at c c.waiting c.at_host c.working refl refl refl g l i

  -- As many steps as are left, at most, and then no more is possible.
  finishes :
      (fuel : ℕ) (c : Crawl lib.Sem)
      → work_left c ≤ fuel
      → 1 ≤ global_limit
      → 1 ≤ per_host_limit
      → IsPermitted lib global_limit per_host_limit c
      → (d : Crawl lib.Sem) × Works lib c d × AllDone d
  finishes zero c h g l i = elim (progress c g l i) [
    | inl done ↦ (c, at_rest, done)
    | inr (d, w) ↦ absurd (omega (arith, Work-work_left w))
  ]
  finishes (suc f) c h g l i = elim (progress c g l i) [
    | inl done ↦ (c, at_rest, done)
    | inr (d, w) ↦
        let (e, rest, done) =
          finishes f d (omega (arith, Work-work_left w)) g l
            (Work-IsPermitted lib global_limit per_host_limit w i) in
        (e, work_then w rest, done)
  ]

  run_length-work_left :
      {c d : Crawl lib.Sem} (run : Works lib c d) → run_length lib run + work_left d ≡ work_left c
  unfolding run_length
  run_length-work_left at_rest = omega arith
  run_length-work_left (work_then w rest) =
      omega (arith, Work-work_left w, run_length-work_left rest)

-- Where both limits are at least 1, from every reachable state: the tasks that have called can go on
-- until each has had its permits and dropped them; and every run of theirs, in whatever order they take
-- their steps, has three steps at most for each task.
pub reachable_drains :
    (lib : Semaphore) (global_limit per_host_limit : ℕ) {c : Crawl lib.Sem}
    → 1 ≤ global_limit
    → 1 ≤ per_host_limit
    → Steps lib (new lib global_limit per_host_limit) c
    → ((d : Crawl lib.Sem) × Works lib c d × AllDone d)
      × ((d : Crawl lib.Sem) (run : Works lib c d)
          → run_length lib run ≤ 3 * (length c.waiting + length c.at_host + length c.working))
unfolding work_left
reachable_drains lib global_limit per_host_limit {c = c} g l steps =
    let permitted =
      Steps-IsPermitted lib global_limit per_host_limit steps
        (new-IsPermitted lib global_limit per_host_limit) in
    (
      finishes lib global_limit per_host_limit (work_left c) c (omega arith) g l permitted,
      λ d run. omega (arith, run_length-work_left lib global_limit per_host_limit run),
    )
