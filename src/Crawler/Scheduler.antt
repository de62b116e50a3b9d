-- ===== src/Crawler/Scheduler.antt =====
-- gurtd/src/crawler/scheduler.rs: permits for fetches, global and per host, and the spacing of the
-- fetches of a host. The semaphore is tokio's: an interface with the laws of its documentation. A step
-- is what one task does until it waits; a permit is given back when its guard is dropped.
pub mod Permits
pub mod Progress
pub mod Spacing
use google_co.Base.{
  ℕ, suc, ◌+◌, ◌-◌, ◌≡◌, true, List, [], ◌∷◌, Option, none, some, ◌>>=◌, unwrap_or,
}
use google_co.Str.Ascii.{Str}
use google_co.Dict.{Dict, lookup, insert}
use google_co.Str.Bag.{contains, remove_first}

-- `tokio::sync::Semaphore`: `acquire` is `none` where the task waits.
pub record Semaphore : Type 1 where
  pub Sem : Type 0
  pub new : ℕ → Sem
  pub available : Sem → ℕ
  pub acquire : Sem → Option Sem
  pub release : Sem → Sem
  pub available-new : (n : ℕ) → available (new n) ≡ n
  pub available-acquire : (s t : Sem) → acquire s ≡ some t → available s ≡ suc (available t)
  pub acquire-none : (s : Sem) → acquire s ≡ none → available s ≡ 0
  pub available-release : (s : Sem) → available (release s) ≡ suc (available s)

-- Instants and durations are counts of one unit.
pub record HostScheduler (Sem : Type 0) : Type 0 where
  pub global : Sem
  pub per_host_limit : ℕ
  pub hosts : Dict Sem
  pub polite : Dict (Option ℕ)

-- The scheduler with its tasks, each named by its host: in `acquire` before the global permit, in
-- `acquire` with the global permit, and behind `acquire`, with both.
pub record Crawl (Sem : Type 0) : Type 0 where
  pub scheduler : HostScheduler Sem
  pub waiting : List Str
  pub at_host : List Str
  pub working : List Str

-- The gate of a host: how long the task sleeps. The second instant is read behind the sleep, which
-- takes `late` more than was asked for.
unfoldable pub sleep_time : ℕ → ℕ → Option ℕ → ℕ
sleep_time delay now none = 0
sleep_time delay now (some prev) = prev + delay - now

unfoldable pub host_polite_gate : Str → Dict (Option ℕ) → Option ℕ
host_polite_gate host gates = unwrap_or (lookup host gates) none

-- The instant that the gate keeps, for a call that reads `now` when it holds the gate.
unfoldable pub gate_stamp : Str → ℕ → ℕ → ℕ → Dict (Option ℕ) → ℕ
unfolding sleep_time host_polite_gate
gate_stamp host delay now late gates =
    now + sleep_time delay now (host_polite_gate host gates) + late

unfoldable pub pass_gate : Str → ℕ → ℕ → ℕ → Dict (Option ℕ) → Dict (Option ℕ)
unfolding gate_stamp
pass_gate host delay now late gates =
    insert host (some (gate_stamp host delay now late gates)) gates

module _ (lib : Semaphore) where
  unfoldable pub new : ℕ → ℕ → Crawl lib.Sem
  new global_limit per_host_limit = record {
    scheduler = record {
      global = lib.new global_limit;
      per_host_limit = per_host_limit;
      hosts = [];
      polite = [];
    };
    waiting = [];
    at_host = [];
    working = [];
  }

  -- The semaphore of a host, which is made at the first use.
  unfoldable pub host_sem : Str → HostScheduler lib.Sem → lib.Sem
  host_sem host s = unwrap_or (lookup host s.hosts) (lib.new s.per_host_limit)

  unfoldable pub put_host : Str → lib.Sem → HostScheduler lib.Sem → HostScheduler lib.Sem
  put_host host sem s = record {
    global = s.global;
    per_host_limit = s.per_host_limit;
    hosts = insert host sem s.hosts;
    polite = s.polite;
  }

  abbrev pub with_global : lib.Sem → HostScheduler lib.Sem → HostScheduler lib.Sem
  with_global sem s = record {
    global = sem;
    per_host_limit = s.per_host_limit;
    hosts = s.hosts;
    polite = s.polite;
  }

  -- The call of `acquire_polite`: without a delay it is `acquire`, otherwise the gate comes first.
  unfoldable pub acquire_polite : Str → Option (ℕ × ℕ × ℕ) → Crawl lib.Sem → Crawl lib.Sem
  unfolding pass_gate
  acquire_polite host none c = record {
    scheduler = c.scheduler;
    waiting = host ∷ c.waiting;
    at_host = c.at_host;
    working = c.working;
  }
  acquire_polite host (some (delay, now, late)) c = record {
    scheduler = record {
      global = c.scheduler.global;
      per_host_limit = c.scheduler.per_host_limit;
      hosts = c.scheduler.hosts;
      polite = pass_gate host delay now late c.scheduler.polite;
    };
    waiting = host ∷ c.waiting;
    at_host = c.at_host;
    working = c.working;
  }

  -- `acquire`, up to the global permit.
  unfoldable pub take_global : Str → Crawl lib.Sem → Option (Crawl lib.Sem)
  unfolding remove_first
  take_global host c = do
    sem ← lib.acquire c.scheduler.global
    some (record {
      scheduler = with_global sem c.scheduler;
      waiting = remove_first c.waiting host;
      at_host = host ∷ c.at_host;
      working = c.working;
    })

  -- `acquire`, from the global permit to its end.
  unfoldable pub take_host : Str → Crawl lib.Sem → Option (Crawl lib.Sem)
  unfolding host_sem put_host remove_first
  take_host host c = do
    sem ← lib.acquire (host_sem host c.scheduler)
    some (record {
      scheduler = put_host host sem c.scheduler;
      waiting = c.waiting;
      at_host = remove_first c.at_host host;
      working = host ∷ c.working;
    })

  -- Both permits are dropped.
  unfoldable pub drop_permits : Str → Crawl lib.Sem → Crawl lib.Sem
  unfolding host_sem put_host remove_first
  drop_permits host c = record {
    scheduler =
        with_global (lib.release c.scheduler.global)
          (put_host host (lib.release (host_sem host c.scheduler)) c.scheduler);
    waiting = c.waiting;
    at_host = c.at_host;
    working = remove_first c.working host;
  }

module _ (lib : Semaphore) where
  -- A step of a task that has called.
  pub data Work : Crawl lib.Sem → Crawl lib.Sem → Type 0 where
    takes_global :
        {c d : Crawl lib.Sem} (host : Str)
        → contains c.waiting host ≡ true
        → take_global lib host c ≡ some d
        → Work c d
    takes_host :
        {c d : Crawl lib.Sem} (host : Str)
        → contains c.at_host host ≡ true
        → take_host lib host c ≡ some d
        → Work c d
    drops :
        {c : Crawl lib.Sem} (host : Str)
        → contains c.working host ≡ true
        → Work c (drop_permits lib host c)

  pub data Step : Crawl lib.Sem → Crawl lib.Sem → Type 0 where
    calls :
        {c : Crawl lib.Sem} (host : Str) (gate : Option (ℕ × ℕ × ℕ))
        → Step c (acquire_polite lib host gate c)
    works : {c d : Crawl lib.Sem} → Work c d → Step c d

  pub data Steps : Crawl lib.Sem → Crawl lib.Sem → Type 0 where
    none_yet : {c : Crawl lib.Sem} → Steps c c
    step_then : {c d e : Crawl lib.Sem} → Step c d → Steps d e → Steps c e

  pub data Works : Crawl lib.Sem → Crawl lib.Sem → Type 0 where
    at_rest : {c : Crawl lib.Sem} → Works c c
    work_then : {c d e : Crawl lib.Sem} → Work c d → Works d e → Works c e

  unfoldable pub run_length : {c d : Crawl lib.Sem} → Works c d → ℕ
  run_length at_rest = 0
  run_length (work_then w rest) = suc (run_length rest)
