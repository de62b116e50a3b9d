-- ===== src/Db/Connect.antt =====
-- gurt-db/src/lib.rs: the pool of connections and when it is made. `PgPool` and the migrations are
-- parameters: what connecting returns at each attempt, and what a run of the migrations returns.
pub mod Laws
use google_co.Base.{
  ℕ, zero, suc, ◌+◌, Bool, true, false, ltb, if◌then◌else◌, ◌==◌, List, [], ◌∷◌, ◌++◌, Option, none,
  some, unwrap_or, is_some, or, length,
}
use google_co.Base.Results.{Result, ok, err, ◌>>=◌}
use google_co.Str.Ascii.{Str, codes, eq, trim, to_ascii_lowercase}
use google_co.Str.Number.{parse_unsigned, show, u32_max, u64_max}
use google_co.Db.Backoff.{compute_backoff_ms}

pub record DbConfig : Type 0 where
  pub database_url : Option Str
  pub min_connections : ℕ
  pub max_connections : ℕ
  pub connect_timeout_secs : ℕ
  pub idle_timeout_secs : Option ℕ
  pub max_lifetime_secs : Option ℕ
  pub acquire_timeout_secs : ℕ
  pub retry_max_attempts : ℕ
  pub retry_base_backoff_ms : ℕ
  pub eager_init : Bool
  pub migrate_on_start : Bool

abbrev pub default_config : DbConfig
default_config = record {
  database_url = none;
  min_connections = 0;
  max_connections = 20;
  connect_timeout_secs = 5;
  idle_timeout_secs = none;
  max_lifetime_secs = none;
  acquire_timeout_secs = 5;
  retry_max_attempts = 5;
  retry_base_backoff_ms = 200;
  eager_init = false;
  migrate_on_start = false;
}

-- The environment, a variable at a time.
abbrev pub Env : Type 0
Env = Str → Option Str

abbrev parsed_within : ℕ → Option Str → Option ℕ
parsed_within limit none = none
parsed_within limit (some s) = parse_unsigned limit s

unfoldable pub parse_env_u32 : Env → Str → ℕ → ℕ
parse_env_u32 env key default = unwrap_or (parsed_within u32_max (env key)) default

unfoldable pub parse_env_u64 : Env → Str → ℕ → ℕ
parse_env_u64 env key default = unwrap_or (parsed_within u64_max (env key)) default

abbrev is_on : Str → Bool
is_on s =
    if eq s (codes "1")
    then true
    else if eq s (codes "true")
    then true
    else if eq s (codes "yes")
    then true
    else eq s (codes "on")

abbrev switch : Option Str → Bool → Bool
switch none default = default
switch (some s) default = is_on (to_ascii_lowercase (trim s))

unfoldable pub parse_env_bool : Env → Str → Bool → Bool
parse_env_bool env key default = switch (env key) default

unfoldable pub from_env : Env → DbConfig
from_env env = record {
  database_url = env (codes "DATABASE_URL");
  min_connections = parse_env_u32 env (codes "DB_MIN_CONNECTIONS") default_config.min_connections;
  max_connections = parse_env_u32 env (codes "DB_MAX_CONNECTIONS") default_config.max_connections;
  connect_timeout_secs =
      parse_env_u64 env (codes "DB_CONNECT_TIMEOUT_SECS") default_config.connect_timeout_secs;
  idle_timeout_secs = parsed_within u64_max (env (codes "DB_IDLE_TIMEOUT_SECS"));
  max_lifetime_secs = parsed_within u64_max (env (codes "DB_MAX_LIFETIME_SECS"));
  acquire_timeout_secs =
      parse_env_u64 env (codes "DB_ACQUIRE_TIMEOUT_SECS") default_config.acquire_timeout_secs;
  retry_max_attempts =
      parse_env_u32 env (codes "DB_RETRY_MAX_ATTEMPTS") default_config.retry_max_attempts;
  retry_base_backoff_ms =
      parse_env_u64 env (codes "DB_RETRY_BASE_BACKOFF_MS") default_config.retry_base_backoff_ms;
  eager_init = parse_env_bool env (codes "DB_EAGER_INIT") default_config.eager_init;
  migrate_on_start =
      parse_env_bool env (codes "DB_MIGRATE_ON_START") default_config.migrate_on_start;
}

pub data DbInitError : Type 0 where
  missing_url : DbInitError
  connect_failed : ℕ → Str → DbInitError
  migrate_failed : Str → DbInitError
  other : Str → DbInitError

pub data HealthStatus : Type 0 where
  no_url not_initialized healthy : HealthStatus
  unhealthy : Str → HealthStatus

-- What the library does: how connecting ends at an attempt, whether that takes longer than a number
-- of seconds, the jitter drawn behind the attempt, and how a run of the migrations ends.
pub record Outside (Pool : Type 0) : Type 0 where
  pub connect : Str → ℕ → Result Str Pool
  pub slower_than : ℕ → ℕ → Bool
  pub jitter : ℕ → ℕ
  pub migrate : Pool → Result Str (Unit {0})

pub record Db (Pool : Type 0) : Type 0 where
  pub cfg : DbConfig
  pub pool : Option Pool
  pub migrated : Bool

-- How the probe ends, with `none` when it takes longer than a second.
abbrev pub probed : Option (Result Str (Unit {0})) → HealthStatus
probed none = unhealthy (codes "health check timed out")
probed (some (ok u)) = healthy
probed (some (err e)) = unhealthy e

-- The waits between attempts, and how the attempts end.
abbrev pub Attempts : Type 0 → Type 0
Attempts Pool = List ℕ × Result DbInitError Pool

abbrev pub at_least_one : ℕ → ℕ
at_least_one zero = 1
at_least_one (suc n) = suc n

abbrev pub behind_first : ℕ → ℕ
behind_first zero = 0
behind_first (suc n) = n

module _ {Pool : Type 0} where
  abbrev pub new : DbConfig → Db Pool
  new cfg = record { cfg = cfg; pool = none; migrated = false }

  unfoldable pub attempt_once : Outside Pool → DbConfig → Str → ℕ → Result Str Pool
  attempt_once out cfg url attempt =
      if ltb 0 cfg.connect_timeout_secs
      then (if out.slower_than attempt cfg.connect_timeout_secs
          then err (
              codes "connect attempt timed out after "
              ++ show cfg.connect_timeout_secs
              ++ codes "s")
          else out.connect url attempt)
      else out.connect url attempt

  abbrev pub after_wait : ℕ → Attempts Pool → Attempts Pool
  after_wait delay (waits, r) = (delay ∷ waits, r)

  -- The end of one attempt: with success, after the last of them, or with a wait before the next.
  abbrev pub next_attempt : ℕ → ℕ → ℕ → Result Str Pool → Attempts Pool → Attempts Pool
  next_attempt max left delay (ok p) later = ([], ok p)
  next_attempt max zero delay (err msg) later = ([], err (connect_failed max msg))
  next_attempt max (suc left) delay (err msg) later = after_wait delay later

  -- The attempts from one on, with the number of those behind it.
  unfoldable pub attempts_from : Outside Pool → DbConfig → Str → ℕ → ℕ → ℕ → Attempts Pool
  attempts_from out cfg url max zero attempt =
      next_attempt max zero 0 (attempt_once out cfg url attempt) ([], err missing_url)
  attempts_from out cfg url max (suc left) attempt =
      next_attempt max (suc left)
        (compute_backoff_ms cfg.retry_base_backoff_ms attempt (out.jitter attempt))
        (attempt_once out cfg url attempt) (attempts_from out cfg url max left (suc attempt))

  abbrev pub connect_to : Outside Pool → DbConfig → Option Str → Attempts Pool
  connect_to out cfg none = ([], err missing_url)
  connect_to out cfg (some url) =
      attempts_from out cfg url (at_least_one cfg.retry_max_attempts)
        (behind_first cfg.retry_max_attempts) 1

  unfoldable pub try_connect_with_retry : Outside Pool → Db Pool → Attempts Pool
  try_connect_with_retry out db = connect_to out db.cfg db.cfg.database_url

  abbrev pub migrated_by : Db Pool → Result Str (Unit {0}) → Result DbInitError (Unit {0}) × Db Pool
  migrated_by db (ok u) = (ok tt, record { cfg = db.cfg; pool = db.pool; migrated = true })
  migrated_by db (err e) = (err (migrate_failed e), db)

  unfoldable pub ensure_migrated :
      Outside Pool → Pool → Db Pool → Result DbInitError (Unit {0}) × Db Pool
  ensure_migrated out p db = if db.migrated then (ok tt, db) else migrated_by db (out.migrate p)

  abbrev with_pool : Pool → Db Pool → Db Pool
  with_pool p db = record { cfg = db.cfg; pool = or db.pool (some p); migrated = db.migrated }

  abbrev migrate_pool :
      Outside Pool → Option Pool → Db Pool → Result DbInitError (Unit {0}) × Db Pool
  migrate_pool out none db = (ok tt, db)
  migrate_pool out (some p) db = ensure_migrated out p db

  abbrev set_up : Outside Pool → Db Pool → Result DbInitError (Unit {0}) × Db Pool
  set_up out db = if db.cfg.migrate_on_start then migrate_pool out db.pool db else (ok tt, db)

  abbrev pub init_with :
      Outside Pool → Db Pool → Result DbInitError Pool → Result DbInitError (Unit {0}) × Db Pool
  init_with out db (ok p) = set_up out (with_pool p db)
  init_with out db (err e) = if db.cfg.eager_init then (err e, db) else (ok tt, db)

  unfoldable pub init : Outside Pool → Db Pool → Result DbInitError (Unit {0}) × Db Pool
  init out db = init_with out db (try_connect_with_retry out db).1

  abbrev pub pool_or_connect : Outside Pool → Db Pool → Option Pool → Result DbInitError Pool
  pool_or_connect out db none = (try_connect_with_retry out db).1
  pool_or_connect out db (some p) = ok p

  abbrev pub pool_after :
      Pool → Result DbInitError (Unit {0}) × Db Pool → Result DbInitError Pool × Db Pool
  pool_after p (ok u, db) = (ok p, db)
  pool_after p (err e, db) = (err e, db)

  abbrev pub got_pool :
      Outside Pool → Db Pool → Result DbInitError Pool → Result DbInitError Pool × Db Pool
  got_pool out db (err e) = (err e, db)
  got_pool out db (ok p) =
      if db.cfg.migrate_on_start
      then pool_after p (ensure_migrated out p (with_pool p db))
      else (ok p, with_pool p db)

  unfoldable pub get_pool : Outside Pool → Db Pool → Result DbInitError Pool × Db Pool
  get_pool out db = got_pool out db (pool_or_connect out db db.pool)

  abbrev pub health_of :
      Option Str → Option Pool → (Pool → Option (Result Str (Unit {0}))) → HealthStatus
  health_of none p probe = no_url
  health_of (some url) none probe = not_initialized
  health_of (some url) (some p) probe = probed (probe p)

  unfoldable pub health_check : (Pool → Option (Result Str (Unit {0}))) → Db Pool → HealthStatus
  health_check probe db = health_of db.cfg.database_url db.pool probe
