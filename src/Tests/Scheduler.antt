-- ===== src/Tests/Scheduler.antt =====
-- gurtd/src/crawler/scheduler.rs: permits and spacing, with counting semaphores.
use google_co.Base.{
  ℕ, zero, suc, ◌+◌, ◌*◌, ◌≤◌, ◌≡◌, refl, arith, true, [], ◌∷◌, ◌++◌, Option, none, some, length,
}
use google_co.Str.Ascii.{Str, codes}
use google_co.Str.Bag.{contains, count}
use google_co.Crawler.Scheduler.{
  Semaphore, Crawl, new, acquire_polite, take_global, take_host, calls, works, takes_global,
  takes_host, Steps, none_yet, step_then, Works, run_length,
}
use google_co.Crawler.Scheduler.Permits.{reachable-IsPermitted}
use google_co.Crawler.Scheduler.Progress.{AllDone, reachable_drains}
use google_co.Crawler.Scheduler.Spacing.{Call, passed_at, passed_at-Spaced}

abbrev pred : ℕ → Option ℕ
pred zero = none
pred (suc n) = some n

pred-some : (s t : ℕ) → pred s ≡ some t → s ≡ suc t
pred-some zero t e = cc
pred-some (suc n) t e = cc

pred-none : (s : ℕ) → pred s ≡ none → s ≡ 0
pred-none zero e = refl
pred-none (suc n) e = cc

abbrev counting : Semaphore
counting = record {
  Sem = ℕ;
  new = λ n. n;
  available = λ n. n;
  acquire = pred;
  release = suc;
  available-new = λ n. refl;
  available-acquire = pred-some;
  acquire-none = pred-none;
  available-release = λ n. refl;
}

abbrev host : Str
host = codes "a.web"

abbrev called : Crawl ℕ
called = acquire_polite counting host (some (2, 10, 1)) (new counting 2 1)

abbrev opened : Crawl ℕ
opened = record {
  scheduler = record {
    global = 1;
    per_host_limit = 1;
    hosts = [];
    polite = called.scheduler.polite;
  };
  waiting = [];
  at_host = host ∷ [];
  working = [];
}

abbrev fetching : Crawl ℕ
fetching = record {
  scheduler = record {
    global = 1;
    per_host_limit = 1;
    hosts = (host, 0) ∷ [];
    polite = called.scheduler.polite;
  };
  waiting = [];
  at_host = [];
  working = host ∷ [];
}

is_waiting : contains called.waiting host ≡ true
unfolding acquire_polite google_co.Str.Ascii.eq
is_waiting = refl

takes_first : take_global counting host called ≡ some opened
unfolding take_global acquire_polite new google_co.Str.Ascii.eq
takes_first = refl

is_at_host : contains opened.at_host host ≡ true
unfolding google_co.Str.Ascii.eq
is_at_host = refl

takes_second : take_host counting host opened ≡ some fetching
unfolding take_host google_co.Dict.lookup google_co.Dict.insert google_co.Str.Ascii.eq
takes_second = refl

to_fetching : Steps counting (new counting 2 1) fetching
to_fetching = step_then (calls host (some (2, 10, 1))) (
    step_then (works (takes_global host is_waiting takes_first))
      (step_then (works (takes_host host is_at_host takes_second)) none_yet))

reachable-IsPermitted_example :
    (length fetching.at_host + length fetching.working ≤ 2)
    × ((h : Str) → count fetching.working h ≤ 1)
reachable-IsPermitted_example = reachable-IsPermitted counting 2 1 to_fetching

reachable_drains_example :
    ((d : Crawl ℕ) × Works counting fetching d × AllDone d)
    × ((d : Crawl ℕ) (run : Works counting fetching d)
        → run_length counting run
          ≤ 3 * (length fetching.waiting + length fetching.at_host + length fetching.working))
reachable_drains_example = reachable_drains counting 2 1 (omega arith) (omega arith) to_fetching

abbrev first_call : Call
first_call = record { host = host; delay = 5; now = 10; late = 0 }

abbrev other_call : Call
other_call = record { host = codes "b.web"; delay = 5; now = 10; late = 3 }

abbrev second_call : Call
second_call = record { host = host; delay = 5; now = 12; late = 1 }

passed_at-Spaced_example :
    passed_at first_call [] + second_call.delay
    ≤ passed_at second_call ((other_call ∷ []) ++ first_call ∷ [])
passed_at-Spaced_example = passed_at-Spaced second_call (other_call ∷ []) first_call [] refl

-- The second call sleeps from 12 to 15 and is late by 1.
passes_at_16 : passed_at second_call (other_call ∷ first_call ∷ []) ≡ 16
unfolding passed_at google_co.Dict.lookup google_co.Dict.insert google_co.Str.Ascii.eq
passes_at_16 = refl
