-- ===== src/Storage.antt =====
-- gurtd/src/storage/mod.rs: the table of domains, and what the SQL statements of the source do to it
-- (the columns that they name, with the keys of gurt-db/migrations/0002_core_schema.sql). `LOWER` of the
-- database and the id that its sequence gives are parameters; so is whether the database answers.
pub mod Keys
pub mod Pending
use google_co.Base.{
  ℕ, suc, ◌^◌, ◌-◌, ◌≡◌, Bool, true, false, ◌&&◌, not, List, [], ◌∷◌, ◌++◌, if◌then◌else◌, ltb, leb,
  Option, none, some, or, is_empty, any, take, map, min,
}
use google_co.Base.Results.{Result, ok, err, ◌>>=◌}
use google_co.Str.Ascii.{Str, codes, eq, trim, to_ascii_lowercase}

-- The enum `domain_status`.
pub data DomainStatus : Type 0 where
  pending ready blocked error : DomainStatus

pub record Domain : Type 0 where
  pub id : ℕ
  pub name : Str
  pub submission_source : Option Str
  pub submitted_at : ℕ
  pub status : DomainStatus
  pub updated_at : ℕ

abbrev pub Domains : Type 0
Domains = List Domain

pub data StorageError : Type 0 where
  empty_domain unavailable duplicate_key invalid_status : StorageError

unfoldable pub normalize_name : Str → Str
normalize_name name = to_ascii_lowercase (trim name)

abbrev pub resubmitted : ℕ → Option Str → Domain → Domain
resubmitted now source d = record {
  id = d.id;
  name = d.name;
  submission_source = or source d.submission_source;
  submitted_at = d.submitted_at;
  status = d.status;
  updated_at = now;
}

abbrev pub submitted : ℕ → ℕ → Str → Option Str → Domain
submitted now new_id name source = record {
  id = new_id;
  name = name;
  submission_source = source;
  submitted_at = now;
  status = pending;
  updated_at = now;
}

unfoldable pub find_name : Str → Domains → Option Domain
find_name name [] = none
find_name name (d ∷ ds) = let later = find_name name ds in if eq d.name name then some d else later

-- `DO UPDATE`, at the row that has the name.
unfoldable pub update_name : Str → (Domain → Domain) → Domains → Domains
update_name name change [] = []
update_name name change (d ∷ ds) =
    let rest = d ∷ update_name name change ds in if eq d.name name then change d ∷ ds else rest

abbrev pub has_lower : (Str → Str) → Str → Domains → Bool
has_lower lower name ds = any (λ d. eq (lower d.name) (lower name)) ds

abbrev pub upsert_at :
    (Str → Str)
    → ℕ
    → ℕ
    → Str
    → Option Str
    → Option Domain
    → Domains
    → Result StorageError (ℕ × Domains)
upsert_at lower now new_id name source (some d) ds =
    ok (d.id, update_name name (resubmitted now source) ds)
upsert_at lower now new_id name source none ds =
    if has_lower lower name ds
    then err duplicate_key
    else ok (new_id, ds ++ submitted now new_id name source ∷ [])

-- The id of the domain, and the table behind.
unfoldable pub upsert_domain_submission :
    (Str → Str) → Bool → ℕ → ℕ → Str → Option Str → Domains → Result StorageError (ℕ × Domains)
unfolding find_name update_name normalize_name
upsert_domain_submission lower answers now new_id raw source ds =
    let name = normalize_name raw in
    if is_empty name
    then err empty_domain
    else if not answers
    then err unavailable
    else upsert_at lower now new_id name source (find_name name ds) ds

abbrev pub is_pending : Domain → Bool
is_pending d = elim d.status [ pending ↦ true | ready ↦ false | blocked ↦ false | error ↦ false ]

-- `ORDER BY submitted_at ASC`, by insertion; rows of one instant stay in the order of the table.
unfoldable pub insert_by_age : Domain → Domains → Domains
insert_by_age d [] = d ∷ []
insert_by_age d (e ∷ es) =
    let rest = e ∷ insert_by_age d es in
    if leb d.submitted_at e.submitted_at then d ∷ e ∷ es else rest

-- `WHERE status = 'pending' ORDER BY submitted_at ASC`
unfoldable pub pending_by_age : Domains → Domains
unfolding insert_by_age
pending_by_age [] = []
pending_by_age (d ∷ ds) =
    let rest = pending_by_age ds in if is_pending d then insert_by_age d rest else rest

-- An `i64`.
pub data ℤ : Type 0 where
  pos negsuc : ℕ → ℤ

-- `limit as i64` of a `usize`
unfoldable pub as_i64 : ℕ → ℤ
as_i64 n = if ltb n (2 ^ 63) then pos n else negsuc (2 ^ 64 - 1 - n)

-- `if limit <= 0 { 0 } else { limit.min(10_000) }`
unfoldable pub capped : ℤ → ℕ
capped (pos n) = min n 10000
capped (negsuc n) = 0

unfoldable pub list_pending_domains : Bool → ℤ → Domains → Result StorageError (List Str)
unfolding pending_by_age capped
list_pending_domains answers limit ds =
    if leb (capped limit) 0
    then ok []
    else if not answers
    then err unavailable
    else ok (map (λ d. d.name) (take (capped limit) (pending_by_age ds)))

abbrev pub with_status : ℕ → DomainStatus → Domain → Domain
with_status now status d = record {
  id = d.id;
  name = d.name;
  submission_source = d.submission_source;
  submitted_at = d.submitted_at;
  status = status;
  updated_at = now;
}

-- `UPDATE domains SET status = ... WHERE LOWER(name) = LOWER($1)`
unfoldable pub update_lower : (Str → Str) → Str → (Domain → Domain) → Domains → Domains
update_lower lower name change [] = []
update_lower lower name change (d ∷ ds) =
    let rest = update_lower lower name change ds in
    (if eq (lower d.name) (lower name) then change d else d) ∷ rest

-- The cast of a text to the enum.
unfoldable pub domain_status : Str → Result StorageError DomainStatus
domain_status s =
    if eq s (codes "pending")
    then ok pending
    else if eq s (codes "ready")
    then ok ready
    else if eq s (codes "blocked")
    then ok blocked
    else if eq s (codes "error")
    then ok error
    else err invalid_status

unfoldable pub set_domain_status :
    (Str → Str) → Bool → ℕ → Str → Str → Domains → Result StorageError Domains
unfolding update_lower domain_status normalize_name
set_domain_status lower answers now raw status ds =
    let name = normalize_name raw in
    if is_empty name
    then ok ds
    else if not answers
    then err unavailable
    else (do st ← domain_status status; ok (update_lower lower name (with_status now st) ds))
