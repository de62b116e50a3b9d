-- ===== src/Startup.antt =====
-- gurtd/src/startup.rs and gurtd/src/services.rs: what the server does when it starts. Pending domains
-- are queued again, and the index engine is chosen.
pub mod Resume
use google_co.Base.{
  ℕ, ◌≡◌, Bool, true, false, ◌||◌, List, [], ◌∷◌, if◌then◌else◌, Option, none, some, is_empty,
  unwrap_or, or,
}
use google_co.Base.Results.{Result, ok, err}
use google_co.Str.Ascii.{Str, codes, eq, trim, to_ascii_lowercase}
use google_co.Str.Bag.{contains}
use google_co.Str.Number.{parse_unsigned, u64_max}
use google_co.Dict.{Dict}
use google_co.Index.{make_engine}
use google_co.Indexing.Service.{IndexingService, enqueue_domain, send, is_empty_text, Step}
use google_co.Storage.{Domains, StorageError, as_i64, list_pending_domains}

abbrev is_yes : Str → Bool
is_yes s = eq s (codes "1") || eq s (codes "true") || eq s (codes "yes") || eq s (codes "on")

-- A flag of the environment, by the value of its variable.
unfoldable pub env_flag_true : Option Str → Bool → Bool
env_flag_true none default_true = default_true
env_flag_true (some v) default_true = is_yes (to_ascii_lowercase (trim v))

abbrev parsed_or : ℕ → Option ℕ → ℕ
parsed_or default_val o = unwrap_or o default_val

unfoldable pub env_usize : Option Str → ℕ → ℕ
env_usize none default_val = default_val
env_usize (some s) default_val = parsed_or default_val (parse_unsigned u64_max (trim s))

abbrev pub listed_or_none : Result StorageError (List Str) → List Str
listed_or_none (err e) = []
listed_or_none (ok ns) = ns

-- The variables of the environment that the start reads; the progress log is not modelled.
pub record Environment : Type 0 where
  pub bootstrap_enabled : Option Str
  pub bootstrap_limit : Option Str
  pub index_dir : Option Str

-- The domains that the start goes through: none without the flag, or when the database does not answer.
unfoldable pub resumed : Environment → Bool → Domains → List Str
unfolding env_flag_true env_usize list_pending_domains as_i64
resumed env answers ds =
    if env_flag_true env.bootstrap_enabled true
    then listed_or_none
        (list_pending_domains answers (as_i64 (env_usize env.bootstrap_limit 200)) ds)
    else []

-- The domain that a call of `enqueue` has to send behind its first block, if it put it into the set.
abbrev pub to_send : Str → IndexingService → Option Str
to_send d s = if is_empty_text d then none else if contains s.in_flight d then none else some d

-- The loop of the start, from a state of the service to the state at its end: the domain that is being
-- sent, if any, and those that are left. The start takes its blocks one at a time; between any two of
-- them the worker and the other threads take as many steps as they like. A send of the start succeeds
-- while the worker is alive.
pub data Loop (alive : Bool)
    : Option Str → List Str → IndexingService → IndexingService → Type 0 where
  ended : {s : IndexingService} → Loop alive none [] s s
  others :
      {sent : Option Str} {ds : List Str} {s t u : IndexingService}
      → Step s t
      → Loop alive sent ds t u
      → Loop alive sent ds s u
  enqueues :
      {d : Str} {ds : List Str} {s u : IndexingService}
      → Loop alive (to_send d s) ds (enqueue_domain d s) u
      → Loop alive none (d ∷ ds) s u
  sends_on :
      {d : Str} {ds : List Str} {s u : IndexingService}
      → contains s.sending d ≡ true
      → Loop alive none ds (send alive d s) u
      → Loop alive (some d) ds s u

-- A start, with the worker and the other threads beside it.
unfoldable pub BootstrapResume :
    Environment → Bool → Bool → Domains → IndexingService → IndexingService → Type 0
unfolding resumed
BootstrapResume env answers alive ds s u = Loop alive none (resumed env answers ds) s u

-- `INDEX_ENGINE`: the engine on disk, if a directory is named and opens; else by name; `none` is the
-- panic. Opening a directory and running a factory are parameters.
abbrev in_dir : {E : Type 0} → (Str → Option E) → Option Str → Option E
in_dir open_dir none = none
in_dir open_dir (some dir) = if is_empty (trim dir) then none else open_dir (trim dir)

unfoldable pub index_engine :
    {F E : Type 0} → (Str → Option E) → (F → E) → Dict F → Environment → Option E
unfolding make_engine
index_engine open_dir run registry env =
    or (in_dir open_dir env.index_dir)
      (or (make_engine run (codes "tantivy") registry) (make_engine run (codes "noop") registry))
