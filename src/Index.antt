-- ===== src/Index.antt =====
-- gurt-index/src/lib.rs and noop.rs: documents, hits, the engine interface and its registry.
pub mod Terms
pub mod Documents
use google_co.Base.{ℕ, ◌+◌, ◌%◌, ◌^◌, List, [], ◌∷◌, Option, none, some, map}
use google_co.Base.Results.{Result, ok, err}
use google_co.Str.Ascii.{Str, codes}
use google_co.Query.{ParsedQuery}
use google_co.Dict.{Dict, lookup, insert}

pub record IndexDocument : Type 0 where
  pub url : Str
  pub domain : Str
  pub title : Str
  pub content : Str
  pub fetch_time : ℕ
  pub language : Str
  pub render_mode : Str

pub record SearchHit (Score : Type 0) : Type 0 where
  pub title : Str
  pub url : Str
  pub domain : Str
  pub fetch_time : ℕ
  pub score : Score

-- The trait `IndexEngine`: operations on the engine's own state, with the error of a failed one.
pub record IndexEngine (State Score Error : Type 0) : Type 0 where
  pub engine_name : Str
  pub add : IndexDocument → State → Result Error State
  pub commit : State → Result Error State
  pub refresh : State → Result Error State
  pub search : ParsedQuery → ℕ → ℕ → State → Result Error (List (SearchHit Score))

-- The engine that indexes nothing and counts the documents, in a 64-bit counter.
unfoldable pub noop_engine : {Score Error : Type 0} → IndexEngine ℕ Score Error
noop_engine = record {
  engine_name = codes "noop";
  add = λ _ n. ok ((n + 1) % 2 ^ 64);
  commit = λ n. ok n;
  refresh = λ n. ok n;
  search = λ _ _ _ _. ok [];
}

-- The registry of engine factories, by name.
module _ {F : Type 0} where
  unfoldable pub register_engine : Str → F → Dict F → Dict F
  register_engine name factory registry = insert name factory registry

  abbrev called : {E : Type 0} → (F → E) → Option F → Option E
  called run none = none
  called run (some f) = some (run f)

  unfoldable pub make_engine : {E : Type 0} → (F → E) → Str → Dict F → Option E
  make_engine run name registry = called run (lookup name registry)

  unfoldable pub list_engines : Dict F → List Str
  list_engines registry = map (λ p. p.0) registry

  -- The two engines of the crate, registered under their names.
  unfoldable pub register_defaults : F → F → Dict F → Dict F
  unfolding register_engine
  register_defaults tantivy noop registry =
      register_engine (codes "noop") noop (register_engine (codes "tantivy") tantivy registry)

  -- `make_engine` of gurtd/src/index/mod.rs, with the registry behind; none is the error of an unknown name.
  unfoldable pub make_known_engine :
      {E : Type 0} → (F → E) → F → F → Str → Dict F → Option E × Dict F
  unfolding register_defaults make_engine
  make_known_engine run tantivy noop name registry =
      let registered = register_defaults tantivy noop registry in
      (make_engine run name registered, registered)
