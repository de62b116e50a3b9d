-- ===== src/Crawler/Scheduler/Permits.antt =====
-- The permits that tasks hold are within the limits, global and per host.
use google_co.Base.{
  ℕ, ◌+◌, ◌≤◌, ◌≡◌, refl, ap, arith, true, Option, some, Bool-cases, inl, inr, length,
  if◌then◌else◌, >>=-eq-some, eq_of_some,
}
use mathlib.Core.Path.{subst}
use google_co.Str.Ascii.{Str, eq, eq→≡}
use google_co.Str.Bag.{
  contains, tick, count, contains-count, count-remove_first, length-remove_first,
}
use google_co.Dict.{lookup, lookup-insert}
use google_co.Crawler.Scheduler.{
  Semaphore, HostScheduler, Crawl, new, host_sem, put_host, acquire_polite, take_global, take_host,
  drop_permits, Work, takes_global, takes_host, drops, Step, calls, works, Steps, none_yet,
  step_then,
}

module _ (lib : Semaphore) (global_limit per_host_limit : ℕ) where
  -- Every permit is free or held.
  pub record IsPermitted (c : Crawl lib.Sem) : Type 0 where
    pub limit : c.scheduler.per_host_limit ≡ per_host_limit
    pub globally :
        lib.available c.scheduler.global + length c.at_host + length c.working ≡ global_limit
    pub per_host :
        (h : Str) → lib.available (host_sem lib h c.scheduler) + count c.working h ≡ per_host_limit

  pub new-IsPermitted : IsPermitted (new lib global_limit per_host_limit)
  unfolding new host_sem count lookup
  new-IsPermitted = record {
    limit = refl;
    globally = omega (arith, lib.available-new global_limit);
    per_host = λ h. omega (arith, lib.available-new per_host_limit);
  }

  acquire_polite-IsPermitted :
      (host : Str) (gate : Option (ℕ × ℕ × ℕ)) (c : Crawl lib.Sem)
      → IsPermitted c
      → IsPermitted (acquire_polite lib host gate c)
  unfolding acquire_polite host_sem
  acquire_polite-IsPermitted host Option.none c h = record {
    limit = h.limit;
    globally = h.globally;
    per_host = h.per_host;
  }
  acquire_polite-IsPermitted host (some gate) c h = record {
    limit = h.limit;
    globally = h.globally;
    per_host = h.per_host;
  }

  take_global-IsPermitted :
      (host : Str) (c d : Crawl lib.Sem)
      → contains c.waiting host ≡ true
      → take_global lib host c ≡ some d
      → IsPermitted c
      → IsPermitted d
  unfolding take_global host_sem
  take_global-IsPermitted host c d k e h =
      let (sem, a, b) = >>=-eq-some (lib.acquire c.scheduler.global) _ e in
      subst IsPermitted (eq_of_some b) (record {
        limit = h.limit;
        globally = omega (arith, h.globally, lib.available-acquire c.scheduler.global sem a);
        per_host = h.per_host;
      })

  -- The semaphore of a host behind a change of another's, or its own.
  available-put_host :
      (h x : Str) (sem : lib.Sem) (s : HostScheduler lib.Sem)
      → lib.available (host_sem lib x (put_host lib h sem s))
        ≡ (if eq h x then lib.available sem else lib.available (host_sem lib x s))
  unfolding host_sem put_host
  available-put_host h x sem s = elim (Bool-cases (eq h x)) [
    | inl a ↦ rw (lookup-insert h x sem s.hosts, a) refl
    | inr a ↦ rw (lookup-insert h x sem s.hosts, a) refl
  ]

  take_host-IsPermitted :
      (host : Str) (c d : Crawl lib.Sem)
      → contains c.at_host host ≡ true
      → take_host lib host c ≡ some d
      → IsPermitted c
      → IsPermitted d
  unfolding take_host count put_host
  take_host-IsPermitted host c d k e h =
      let (sem, a, b) = >>=-eq-some (lib.acquire (host_sem lib host c.scheduler)) _ e in
      let taken = lib.available-acquire (host_sem lib host c.scheduler) sem a in
      subst IsPermitted (eq_of_some b) (record {
        limit = h.limit;
        globally = omega (arith, h.globally, length-remove_first c.at_host host k);
        per_host = λ x. elim (Bool-cases (eq host x)) [
          | inl own ↦
              let same = ap (λ y. count c.working y) (eq→≡ host x own) in
              rw (available-put_host host x sem c.scheduler, own)
                (omega (arith, h.per_host host, taken, same))
          | inr other ↦
              rw (available-put_host host x sem c.scheduler, other) (omega (arith, h.per_host x))
        ];
      })

  drop_permits-IsPermitted :
      (host : Str) (c : Crawl lib.Sem)
      → contains c.working host ≡ true
      → IsPermitted c
      → IsPermitted (drop_permits lib host c)
  unfolding drop_permits count put_host host_sem
  drop_permits-IsPermitted host c k h =
      let freed = lib.available-release (host_sem lib host c.scheduler) in
      let holds = contains-count c.working host k in
      record {
        limit = h.limit;
        globally = omega (
          arith,
          h.globally,
          length-remove_first c.working host k,
          lib.available-release c.scheduler.global,
        );
        per_host = λ x. elim (Bool-cases (eq host x)) [
          | inl own ↦
              let same = ap (λ y. count c.working y) (eq→≡ host x own) in
              rw
                (
                  available-put_host host x (lib.release (host_sem lib host c.scheduler))
                      c.scheduler,
                  own,
                )
                (omega (
                  arith,
                  h.per_host host,
                  freed,
                  same,
                  ap tick own,
                  count-remove_first c.working host x holds,
                ))
          | inr other ↦
              rw
                (
                  available-put_host host x (lib.release (host_sem lib host c.scheduler))
                      c.scheduler,
                  other,
                )
                (omega
                  (arith, h.per_host x, ap tick other, count-remove_first c.working host x holds))
        ];
      }

  pub Work-IsPermitted : {c d : Crawl lib.Sem} → Work lib c d → IsPermitted c → IsPermitted d
  Work-IsPermitted {c = c} {d = d} (takes_global host k e) h =
      take_global-IsPermitted host c d k e h
  Work-IsPermitted {c = c} {d = d} (takes_host host k e) h = take_host-IsPermitted host c d k e h
  Work-IsPermitted {c = c} (drops host k) h = drop_permits-IsPermitted host c k h

  Step-IsPermitted : {c d : Crawl lib.Sem} → Step lib c d → IsPermitted c → IsPermitted d
  Step-IsPermitted {c = c} (calls host gate) h = acquire_polite-IsPermitted host gate c h
  Step-IsPermitted (works w) h = Work-IsPermitted w h

  pub Steps-IsPermitted : {c d : Crawl lib.Sem} → Steps lib c d → IsPermitted c → IsPermitted d
  Steps-IsPermitted none_yet h = h
  Steps-IsPermitted (step_then a later) h = Steps-IsPermitted later (Step-IsPermitted a h)

-- In every state that is reachable from a new scheduler, whatever the tasks do: the tasks with a global
-- permit are at most as many as the global limit, and the tasks with both permits for a host at most as
-- many as the limit per host.
pub reachable-IsPermitted :
    (lib : Semaphore) (global_limit per_host_limit : ℕ) {c : Crawl lib.Sem}
    → Steps lib (new lib global_limit per_host_limit) c
    → (length c.at_host + length c.working ≤ global_limit)
      × ((host : Str) → count c.working host ≤ per_host_limit)
reachable-IsPermitted lib global_limit per_host_limit steps =
    let h =
      Steps-IsPermitted lib global_limit per_host_limit steps
        (new-IsPermitted lib global_limit per_host_limit) in
    (omega (arith, h.globally), λ host. omega (arith, h.per_host host))
