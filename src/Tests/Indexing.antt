-- ===== src/Tests/Indexing.antt =====
-- gurtd/src/indexing and gurt-db: the queue of domains, candidates, addresses and the database.
use google_co.Base.{
  max, ℕ, suc, ◌*◌, ◌+◌, ◌≡◌, ◌≤◌, refl, arith, true, false, [], ◌∷◌, none, some, leb,
  if◌then◌else◌,
}
use google_co.Base.Results.{ok, err}
use google_co.Str.Ascii.{Str, codes}
use google_co.Indexing.Service.{
  IndexingService, new, enqueue_domain, send, submits, sends, Steps, none_yet, step_then,
}
use google_co.Str.Bag.{contains, count}
use google_co.Indexing.Service.Laws.{count_job, reachable-IsConsistent}
use google_co.Indexing.Dns.{
  IpAddr, DnsCache, Queries, response, late, dns_cache_get, resolve_via_gurt_dns,
}
use google_co.Indexing.Dns.Laws.{Remembered, resolve_via_gurt_dns_uncached}
use google_co.Db.Backoff.{min, pow2, compute_backoff_ms, compute_backoff_ms-pow2}
use google_co.Db.Connect.{DbConfig, default_config, Outside, Db, try_connect_with_retry}
use google_co.Db.Connect.Laws.{EndsAt, try_connect_with_retry-EndsAt}

abbrev domain : Str
domain = codes "a.web"

abbrev queued : IndexingService
queued = send true domain (enqueue_domain domain new)

in_sending : contains (enqueue_domain domain new).sending domain ≡ true
unfolding enqueue_domain new google_co.Str.Ascii.eq
in_sending = refl

to_queued : Steps new queued
to_queued = step_then (submits domain) (step_then (sends domain true in_sending) none_yet)

reachable-IsConsistent_example :
    (count queued.in_flight domain
      ≡ count queued.sending domain
        + count queued.channel domain
        + count_job queued.processing domain)
    × (count queued.in_flight domain ≤ 1)
reachable-IsConsistent_example = reachable-IsConsistent to_queued domain

abbrev address : IpAddr
address = record { text = codes "10.0.0.1"; is_ipv4 = true }

abbrev queries : Queries
queries = record {
  parse_ip = λ s. some address;
  first = λ s.
      response 200
        (some (record { type_text = some (codes "a"); value = some (codes "10.0.0.1") } ∷ []));
  second = λ s. late;
}

abbrev no_addresses : DnsCache
no_addresses = []

not_cached : (dns_cache_get 7 domain no_addresses).0 ≡ none
unfolding dns_cache_get google_co.Dict.lookup
not_cached = refl

resolve_via_gurt_dns_uncached_example :
    ((resolve_via_gurt_dns queries 7 domain no_addresses).asked ≤ 5)
    × Remembered 7 domain (resolve_via_gurt_dns queries 7 domain no_addresses)
resolve_via_gurt_dns_uncached_example =
    resolve_via_gurt_dns_uncached queries 7 domain no_addresses not_cached

backoff_third : compute_backoff_ms 200 3 17 ≡ 817
unfolding compute_backoff_ms google_co.Db.Backoff.saturating_add google_co.Db.Backoff.saturating_mul
    google_co.Db.Backoff.doubled
backoff_third = refl

compute_backoff_ms-pow2_example : compute_backoff_ms 200 (suc 9) 17 ≡ min (200 * pow2 9) 30000 + 17
compute_backoff_ms-pow2_example = compute_backoff_ms-pow2 200 9 17 (omega arith)

-- The database answers from the third attempt on.
abbrev out : Outside ℕ
out = record {
  connect = λ url attempt. if leb 3 attempt then ok 1 else err (codes "refused");
  slower_than = λ attempt secs. false;
  jitter = λ attempt. 0;
  migrate = λ pool. ok tt;
}

abbrev db : Db ℕ
db = record {
  cfg = record default_config { database_url = some (codes "postgres://") };
  pool = none;
  migrated = false;
}

try_connect_with_retry-EndsAt_example :
    EndsAt out db.cfg
      (codes "postgres://")
      1
      (max db.cfg.retry_max_attempts 1)
      (max db.cfg.retry_max_attempts 1)
      (try_connect_with_retry out db)
try_connect_with_retry-EndsAt_example =
    try_connect_with_retry-EndsAt out db (codes "postgres://") refl

connected_third : try_connect_with_retry out db ≡ (200 ∷ 400 ∷ [], ok 1)
unfolding try_connect_with_retry google_co.Db.Connect.attempts_from
    google_co.Db.Connect.attempt_once compute_backoff_ms google_co.Db.Backoff.saturating_add
    google_co.Db.Backoff.saturating_mul google_co.Db.Backoff.doubled
connected_third = refl
