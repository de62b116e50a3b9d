-- ===== src/Storage/Pending.antt =====
-- The pending domains that are listed are the oldest; a domain that is set to ready is not among them.
use mathlib.Core.List.{Perm}
use mathlib.Core.List.Perm
use mathlib.Core.Path.{subst}
use google_co.Base.{
  ℕ, zero, suc, true, ◌⊎◌, ◌≤◌, ◌≡◌, refl, arith, Bool, false, List, [], ◌∷◌, ◌++◌, if◌then◌else◌,
  is_empty, map, min, take, drop, length, All, Bool-cases, inl, inr, leb, leb→le, take-append-drop,
  length-take,
}
use google_co.Base.Results.{Result, err, ok, eq_of_ok, err≢ok}
use google_co.Str.Ascii.{Str, eq, codes}
use google_co.Storage.{
  StorageError, unavailable, Domain, Domains, DomainStatus, ℤ, capped, is_pending, insert_by_age,
  pending_by_age, list_pending_domains, normalize_name, with_status, update_lower,
  set_domain_status, domain_status,
}

-- The pending rows, in the order of the table.
unfoldable pub pending_rows : Domains → Domains
pending_rows [] = []
pending_rows (d ∷ ds) = let rest = pending_rows ds in if is_pending d then d ∷ rest else rest

-- Each row is not younger than those behind it.
abbrev pub IsByAge : Domains → Type 0
IsByAge [] = Unit
IsByAge (d ∷ ds) = All (λ e. d.submitted_at ≤ e.submitted_at) ds × IsByAge ds

insert_by_age-perm : (d : Domain) (es : Domains) → Perm (insert_by_age d es) (d ∷ es)
unfolding insert_by_age
insert_by_age-perm d [] = Perm.refl _
insert_by_age-perm d (e ∷ es) = elim (Bool-cases (leb d.submitted_at e.submitted_at)) [
  | inl a ↦ rw a (Perm.refl _)
  | inr a ↦ rw a (Perm.trans (Perm.cons e (insert_by_age-perm d es)) (Perm.swap _ _ _))
]

pending_by_age-perm : (ds : Domains) → Perm (pending_by_age ds) (pending_rows ds)
unfolding pending_by_age pending_rows
pending_by_age-perm [] = Perm.refl _
pending_by_age-perm (d ∷ ds) = elim (Bool-cases (is_pending d)) [
  | inl a ↦
      rw a (
        Perm.trans (insert_by_age-perm d (pending_by_age ds))
          (Perm.cons d (pending_by_age-perm ds)))
  | inr a ↦ rw a (pending_by_age-perm ds)
]

insert_by_age-All :
    (t : ℕ) (d : Domain) (es : Domains)
    → t ≤ d.submitted_at
    → All (λ e. t ≤ e.submitted_at) es
    → All (λ e. t ≤ e.submitted_at) (insert_by_age d es)
unfolding insert_by_age
insert_by_age-All t d [] h k = (h, tt)
insert_by_age-All t d (e ∷ es) h (k, l) = elim (Bool-cases (leb d.submitted_at e.submitted_at)) [
  | inl a ↦ rw a (h, (k, l))
  | inr a ↦ rw a (k, insert_by_age-All t d es h l)
]

All-le :
    (s t : ℕ) (es : Domains)
    → s ≤ t
    → All (λ e. t ≤ e.submitted_at) es
    → All (λ e. s ≤ e.submitted_at) es
All-le s t [] h k = tt
All-le s t (e ∷ es) h (k, l) = (omega arith, All-le s t es h l)

insert_by_age-IsByAge : (d : Domain) (es : Domains) → IsByAge es → IsByAge (insert_by_age d es)
unfolding insert_by_age
insert_by_age-IsByAge d [] h = (tt, tt)
insert_by_age-IsByAge d (e ∷ es) (h, k) = elim (Bool-cases (leb d.submitted_at e.submitted_at)) [
  | inl a ↦
      let le = leb→le d.submitted_at e.submitted_at a in
      rw a ((le, All-le d.submitted_at e.submitted_at es le h), (h, k))
  | inr a ↦
      rw a (insert_by_age-All e.submitted_at d es (ground arith) h, insert_by_age-IsByAge d es k)
]

pending_by_age-IsByAge : (ds : Domains) → IsByAge (pending_by_age ds)
unfolding pending_by_age
pending_by_age-IsByAge [] = tt
pending_by_age-IsByAge (d ∷ ds) = elim (Bool-cases (is_pending d)) [
  | inl a ↦ rw a (insert_by_age-IsByAge d (pending_by_age ds) (pending_by_age-IsByAge ds))
  | inr a ↦ rw a (pending_by_age-IsByAge ds)
]

-- The rows of the names that are listed for a limit, and the pending rows that are left: no more than the
-- limit and than 10,000 are listed, and some are left only if one of the two is reached.
pub record IsListed (limit : ℕ) (ds : Domains) (ns : List Str) : Type 0 where
  pub listed : Domains
  pub left : Domains
  pub are_names : ns ≡ map (λ d. d.name) listed
  pub within_limit : length listed ≤ limit
  pub within_cap : length listed ≤ 10000
  pub all_or_full : (left ≡ []) ⊎ ((length listed ≡ limit) ⊎ (length listed ≡ 10000))
  pub are_pending : Perm (listed ++ left) (pending_rows ds)
  pub oldest_first : IsByAge (listed ++ left)

-- What is listed for an `i64`: nothing for a negative one.
abbrev pub Listing : ℤ → Domains → List Str → Type 0
Listing (ℤ.pos n) ds ns = IsListed n ds ns
Listing (ℤ.negsuc n) ds ns = ns ≡ []

drop_all {ℓ} : {A : Type ℓ} (n : ℕ) (xs : List A) → length xs ≤ n → drop n xs ≡ []
drop_all zero [] h = refl
drop_all (suc n) [] h = refl
drop_all zero (x ∷ xs) h = absurd (omega arith)
drop_all (suc n) (x ∷ xs) h = drop_all n xs (omega arith)

-- All are taken, or as many as asked for.
drop_or_full {ℓ} :
    {A : Type ℓ} (m n : ℕ) (xs : List A)
    → (drop (min n m) xs ≡ [])
      ⊎ ((length (take (min n m) xs) ≡ n) ⊎ (length (take (min n m) xs) ≡ m))
drop_or_full m n xs = elim (Bool-cases (leb (length xs) (min n m))) [
  | inl a ↦ inl (drop_all (min n m) xs (leb→le (length xs) (min n m) a))
  | inr a ↦ elim (Bool-cases (leb n m)) [
    | inl b ↦ inr (inl (ground (arith, length-take (min n m) xs)))
    | inr b ↦ inr (inr (ground (arith, length-take (min n m) xs)))
  ]
]

rows-IsListed :
    (n : ℕ) (ds : Domains)
    → IsListed n ds (map (λ d. d.name) (take (min n 10000) (pending_by_age ds)))
rows-IsListed n ds =
    let rows = pending_by_age ds in
    let whole = take-append-drop (min n 10000) rows in
    let many = length-take (min n 10000) rows in
    record {
      listed = take (min n 10000) rows;
      left = drop (min n 10000) rows;
      are_names = refl;
      within_limit = omega (arith, many);
      within_cap = omega (arith, many);
      all_or_full = drop_or_full 10000 n rows;
      are_pending = rw whole (pending_by_age-perm ds);
      oldest_first = rw whole (pending_by_age-IsByAge ds);
    }

-- The database has listed, or has not answered.
abbrev pub Listed : Bool → ℤ → Domains → Result StorageError (List Str) → Type 0
Listed answers limit ds (ok ns) = Listing limit ds ns
Listed answers limit ds (err e) = (answers ≡ false) × (e ≡ unavailable)

-- What is listed for a limit are the names of pending domains, at most as many as the limit and 10,000;
-- the other pending ones are left, and only if as many as the limit or 10,000 are listed; those that are
-- listed are the oldest, oldest first. Nothing is listed for a negative limit. The listing fails only if
-- the database does not answer.
pub list_pending_domains-IsListed :
    (answers : Bool) (limit : ℤ) (ds : Domains)
    → Listed answers limit ds (list_pending_domains answers limit ds)
unfolding list_pending_domains capped
list_pending_domains-IsListed answers (ℤ.negsuc n) ds = refl
list_pending_domains-IsListed answers (ℤ.pos zero) ds = rows-IsListed 0 ds
list_pending_domains-IsListed true (ℤ.pos (suc n)) ds =
    let some_room : leb (min (suc n) 10000) 0 ≡ false = ground arith in
    rw some_room (rows-IsListed (suc n) ds)
list_pending_domains-IsListed false (ℤ.pos (suc n)) ds =
    let some_room : leb (min (suc n) 10000) 0 ≡ false = ground arith in rw some_room (refl, refl)

-- The rows whose name differs in more than its case.
unfoldable pub without : (Str → Str) → Str → Domains → Domains
without lower name [] = []
without lower name (d ∷ ds) =
    let rest = without lower name ds in if eq (lower d.name) (lower name) then rest else d ∷ rest

update_lower-pending_rows :
    (lower : Str → Str) (name : Str) (now : ℕ) (ds : Domains)
    → pending_rows (update_lower lower name (with_status now DomainStatus.ready) ds)
      ≡ without lower name (pending_rows ds)
unfolding update_lower pending_rows without
update_lower-pending_rows lower name now [] = refl
update_lower-pending_rows lower name now (d ∷ ds) =
    let rest = update_lower-pending_rows lower name now ds in
    elim (Bool-cases (eq (lower d.name) (lower name))) [
      | inl a ↦ elim (Bool-cases (is_pending d)) [
        | inl b ↦ rw (a, b, rest) (rw a refl)
        | inr b ↦ rw (a, b, rest) refl
      ]
      | inr a ↦ elim (Bool-cases (is_pending d)) [
        | inl b ↦ rw (a, b, rest) (rw a refl)
        | inr b ↦ rw (a, b, rest) refl
      ]
    ]

-- A domain that is set to ready, under a name that is not empty, is taken out of the pending ones, and no
-- other is.
pub set_domain_status_ready :
    (lower : Str → Str) (answers : Bool) (now : ℕ) (raw : Str) (ds es : Domains)
    → is_empty (normalize_name raw) ≡ false
    → set_domain_status lower answers now raw (codes "ready") ds ≡ ok es
    → pending_rows es ≡ without lower (normalize_name raw) (pending_rows ds)
unfolding set_domain_status domain_status eq
set_domain_status_ready lower answers now raw ds es n = elim (Bool-cases answers) [
  | inr b ↦ rw (n, b) (λ e. absurd (err≢ok e))
  | inl b ↦
      rw (n, b)
        (λ e.
          subst (λ es. pending_rows es ≡ without lower (normalize_name raw) (pending_rows ds))
            (eq_of_ok e) (update_lower-pending_rows lower (normalize_name raw) now ds))
]
