-- ===== src/Storage/Keys.antt =====
-- The names in the table of domains are a key, and a submission is found under its name.
use google_co.Base.{
  ◌⊎◌, any, true, ℕ, ◌≤◌, ◌≡◌, refl, sym, ap, ◌∙◌, arith, Bool, false, List, [], ◌∷◌, ◌++◌,
  if◌then◌else◌, Option, none, some, is_empty, map, All, All-append, Bool-cases, inl, inr,
  none≢some, eq_of_some, or,
}
use mathlib.Core.Path.{subst}
use google_co.Base.Results.{Result, err, ok, eq_of_ok, err≢ok}
use google_co.Str.Ascii.{Str, eq, eq→≡, eq_iff}
use google_co.Str.Bag.{tick, count, count-append}
use google_co.Storage.{
  StorageError, Domain, Domains, pending, resubmitted, submitted, find_name, update_name, has_lower,
  upsert_at, upsert_domain_submission, normalize_name, update_lower,
}

abbrev pub names : Domains → List Str
names ds = map (λ d. d.name) ds

-- What `find_name` finds has the name.
find_name-name :
    (name : Str) (ds : Domains) (d : Domain) → find_name name ds ≡ some d → d.name ≡ name
unfolding find_name
find_name-name name [] d = λ e. absurd (none≢some e)
find_name-name name (e ∷ ds) d = elim (Bool-cases (eq e.name name)) [
  | inl a ↦ rw a (λ k. subst (λ x. x.name ≡ name) (eq_of_some k) (eq→≡ e.name name a))
  | inr a ↦ rw a (find_name-name name ds d)
]

find_name-count : (name : Str) (ds : Domains) → find_name name ds ≡ none → count (names ds) name ≡ 0
unfolding find_name count
find_name-count name [] = λ e. refl
find_name-count name (d ∷ ds) = elim (Bool-cases (eq d.name name)) [
  | inl a ↦ rw a (λ e. absurd (none≢some (sym e)))
  | inr a ↦ rw a (λ e. omega (arith, find_name-count name ds e))
]

-- A change that keeps names keeps the list of names.
update_name-names :
    (name : Str) (change : Domain → Domain) (ds : Domains)
    → ((d : Domain) → (change d).name ≡ d.name)
    → names (update_name name change ds) ≡ names ds
unfolding update_name
update_name-names name change [] f = refl
update_name-names name change (d ∷ ds) f = elim (Bool-cases (eq d.name name)) [
  | inl a ↦ rw (a, f d) refl
  | inr a ↦ rw (a, update_name-names name change ds f) refl
]

update_lower-names :
    (lower : Str → Str) (name : Str) (change : Domain → Domain) (ds : Domains)
    → ((d : Domain) → (change d).name ≡ d.name)
    → names (update_lower lower name change ds) ≡ names ds
unfolding update_lower
update_lower-names lower name change [] f = refl
update_lower-names lower name change (d ∷ ds) f =
    elim (Bool-cases (eq (lower d.name) (lower name))) [
      | inl a ↦ rw (a, f d, update_lower-names lower name change ds f) refl
      | inr a ↦ rw (a, update_lower-names lower name change ds f) refl
    ]

-- What a lookup finds behind an update, and behind a new row.
find_name-update_name :
    (name x : Str) (change : Domain → Domain) (ds : Domains) (d : Domain)
    → ((e : Domain) → (change e).name ≡ e.name)
    → find_name name ds ≡ some d
    → find_name x (update_name name change ds)
      ≡ (if eq name x then some (change d) else find_name x ds)
unfolding find_name update_name
find_name-update_name name x change [] d f = λ h. absurd (none≢some h)
find_name-update_name name x change (e ∷ ds) d f = elim (Bool-cases (eq e.name name)) [
  | inl a ↦ rw a (λ h.
      let own = ap (λ n. eq n x) (eq→≡ e.name name a) in
      let changed = ap (λ n. eq n x) (f e ∙ eq→≡ e.name name a) in
      elim (Bool-cases (eq name x)) [
        | inl b ↦ rw (changed, b) (ap (λ t. some (change t)) (eq_of_some h))
        | inr b ↦ rw (changed, own, b) refl
      ])
  | inr a ↦ rw a (λ h.
      rw (find_name-update_name name x change ds d f h)
        (ground (arith, eq_iff e.name name, eq_iff e.name x, eq_iff name x)))
]

find_name-new :
    (x : Str) (ds : Domains) (d : Domain)
    → find_name d.name ds ≡ none
    → find_name x (ds ++ d ∷ []) ≡ (if eq d.name x then some d else find_name x ds)
unfolding find_name
find_name-new x [] d = λ h. refl
find_name-new x (e ∷ ds) d = elim (Bool-cases (eq e.name d.name)) [
  | inl a ↦ rw a (λ h. absurd (none≢some (sym h)))
  | inr a ↦ rw a (λ h.
      rw (find_name-new x ds d h)
        (ground (arith, eq_iff e.name d.name, eq_iff e.name x, eq_iff d.name x)))
]

-- Each name stands at most once, and none is empty.
pub record IsKeyed (ds : Domains) : Type 0 where
  pub once : (name : Str) → count (names ds) name ≤ 1
  pub named : All (λ name. is_empty name ≡ false) (names ds)

-- A row for a new domain: it is pending, and as old as the submission.
abbrev pub IsNewRow : ℕ → ℕ → Str → Option Str → Domain → Type 0
IsNewRow now new_id name source row =
    (row.id ≡ new_id)
    × (row.name ≡ name)
    × (row.status ≡ pending)
    × (row.submission_source ≡ source)
    × (row.submitted_at ≡ now)
    × (row.updated_at ≡ now)

-- A row for a domain that was there as `old`: its id, name, status and age are kept; the source is the
-- new one, if there is one.
abbrev pub IsKeptRow : ℕ → Option Str → Domain → Domain → Type 0
IsKeptRow now source old row =
    (row.id ≡ old.id)
    × (row.name ≡ old.name)
    × (row.status ≡ old.status)
    × (row.submission_source ≡ or source old.submission_source)
    × (row.submitted_at ≡ old.submitted_at)
    × (row.updated_at ≡ now)

abbrev pub IsRow : ℕ → ℕ → Str → Option Str → Option Domain → Domain → Type 0
IsRow now new_id name source none row = IsNewRow now new_id name source row
IsRow now new_id name source (some old) row = IsKeptRow now source old row

-- What a submission of `name` leaves, where `old` is what the table had under the name: the row that is
-- found under it, whose id is returned; the rows of all other names as they were; and names as a key.
pub record IsSubmitted (now new_id : ℕ) (name : Str) (source : Option Str) (old : Option Domain)
    (ds : Domains) (r : ℕ × Domains) : Type 0 where
  pub row : Domain
  pub found : (x : Str) → find_name x r.1 ≡ (if eq name x then some row else find_name x ds)
  pub is_row : IsRow now new_id name source old row
  pub same_id : r.0 ≡ row.id
  pub keyed : IsKeyed r.1

names-append : (ds es : Domains) → names (ds ++ es) ≡ names ds ++ names es
names-append [] es = refl
names-append (d ∷ ds) es = ap (λ ns. d.name ∷ ns) (names-append ds es)

keyed_names : (ds es : Domains) → names es ≡ names ds → IsKeyed ds → IsKeyed es
keyed_names ds es e h = record {
  once = λ n. subst (λ ns. count ns n ≤ 1) (sym e) (h.once n);
  named = subst (λ ns. All (λ n. is_empty n ≡ false) ns) (sym e) h.named;
}

keyed_new :
    (ds : Domains) (d : Domain)
    → is_empty d.name ≡ false
    → find_name d.name ds ≡ none
    → IsKeyed ds
    → IsKeyed (ds ++ d ∷ [])
unfolding count
keyed_new ds d n e h = record {
  once = λ x. rw (names-append ds (d ∷ [])) (elim (Bool-cases (eq d.name x)) [
    | inl a ↦
        let no = ap (λ y. count (names ds) y) (eq→≡ d.name x a) in
        omega (
          arith,
          count-append (names ds) (d.name ∷ []) x,
          no,
          find_name-count d.name ds e,
          ap tick a,
        )
    | inr a ↦ omega (arith, count-append (names ds) (d.name ∷ []) x, h.once x, ap tick a)
  ]);
  named =
      rw (names-append ds (d ∷ []))
        (All-append (λ n. is_empty n ≡ false) (names ds) (d.name ∷ []) h.named (n, tt));
}

pub upsert_at-IsSubmitted :
    (lower : Str → Str) (now new_id : ℕ) (name : Str) (source : Option Str) (o : Option Domain)
    (ds : Domains) (r : ℕ × Domains)
    → find_name name ds ≡ o
    → is_empty name ≡ false
    → IsKeyed ds
    → upsert_at lower now new_id name source o ds ≡ ok r
    → IsSubmitted now new_id name source o ds r
upsert_at-IsSubmitted lower now new_id name source (some d) ds r e n h = λ k.
    subst (IsSubmitted now new_id name source (some d) ds) (eq_of_ok k) (record {
      row = resubmitted now source d;
      is_row = (refl, refl, refl, refl, refl, refl);
      found = λ x. find_name-update_name name x (resubmitted now source) ds d (λ c. refl) e;
      same_id = refl;
      keyed =
          keyed_names ds (update_name name (resubmitted now source) ds)
            (update_name-names name (resubmitted now source) ds (λ c. refl)) h;
    })
upsert_at-IsSubmitted lower now new_id name source none ds r e n h =
    elim (Bool-cases (has_lower lower name ds)) [
      | inl a ↦ rw a (λ k. absurd (err≢ok k))
      | inr a ↦ rw a (λ k. subst (IsSubmitted now new_id name source none ds) (eq_of_ok k) (record {
        row = submitted now new_id name source;
        is_row = (refl, refl, refl, refl, refl, refl);
        found = λ x. find_name-new x ds (submitted now new_id name source) e;
        same_id = refl;
        keyed = keyed_new ds (submitted now new_id name source) n e h;
      }))
    ]

-- A submission that succeeds; or one that fails, since the name is empty, the database does not answer,
-- or the name is new and a row has the same name in lower case.
abbrev pub Submitting :
    (Str → Str)
    → Bool
    → ℕ
    → ℕ
    → Str
    → Option Str
    → Domains
    → Result StorageError (ℕ × Domains)
    → Type 0
Submitting lower answers now new_id name source ds (ok r) =
    IsSubmitted now new_id name source (find_name name ds) ds r
Submitting lower answers now new_id name source ds (err e) =
    (is_empty name ≡ true)
    ⊎ ((answers ≡ false)
        ⊎ ((find_name name ds ≡ none) × (any (λ row. eq (lower row.name) (lower name)) ds ≡ true)))

-- A submission that succeeds keeps the names a key, and its normalised name then finds a row, whose id is
-- returned: for a new domain one that is pending and as old as the submission, under the new id; for a
-- known one the row with its id, status and age, and with the new source, if there is one. Every other
-- name is found as before. A submission fails only for an empty name, for a new name that a row has in
-- another case, and when the database does not answer.
pub upsert_domain_submission-IsSubmitted :
    (lower : Str → Str) (answers : Bool) (now new_id : ℕ) (raw : Str) (source : Option Str)
    (ds : Domains)
    → IsKeyed ds
    → Submitting lower answers now new_id
        (normalize_name raw)
        source
        ds
        (upsert_domain_submission lower answers now new_id raw source ds)
unfolding upsert_domain_submission
upsert_domain_submission-IsSubmitted lower answers now new_id raw source ds h =
    let name = normalize_name raw in
    elim (Bool-cases (is_empty name)) [
      | inl a ↦ rw a (inl a)
      | inr a ↦ elim (Bool-cases answers) [
        | inr b ↦ rw (a, b) (inr (inl refl))
        | inl b ↦ rw (a, b) (at_row (find_name name ds) refl a)
      ]
    ]
  where
    name : Str
    name = normalize_name raw

    at_row :
        (o : Option Domain)
        → find_name name ds ≡ o
        → is_empty name ≡ false
        → Submitting lower true now new_id name source ds
            (upsert_at lower now new_id name source o ds)
    at_row (some d) e n =
        rw e (upsert_at-IsSubmitted lower now new_id name source (some d) ds _ e n h refl)
    at_row none e n = elim (Bool-cases (has_lower lower name ds)) [
      | inl a ↦ rw a (inr (inr (e, a)))
      | inr a ↦
          rw (a, e) (upsert_at-IsSubmitted lower now new_id name source none ds _ e n h (rw a refl))
    ]
