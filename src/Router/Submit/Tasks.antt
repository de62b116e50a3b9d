-- ===== src/Router/Submit/Tasks.antt =====
-- A domain that is valid is a name in the form of the table, and what the spawned task does with it.
use google_co.Base.{
  any, ℕ, ◌≡◌, refl, ap, ◌∙◌, arith, Bool, true, false, not, all, [], ◌∷◌, is_empty, if◌then◌else◌,
  Option, none, some, Bool-cases, inl, inr,
}
use google_co.Base.Results.{err}
use google_co.Str.Ascii.{eq, Str, NoSpace, codes, is_whitespace, lower, to_ascii_lowercase, trim}
use google_co.Str.Split.{join}
use google_co.Str.Split.Words.{trim-join}
use google_co.Indexing.Service.{is_empty_text}
use google_co.Storage.{
  Domain, Domains, unavailable, normalize_name, find_name, has_lower, upsert_at,
  upsert_domain_submission,
}
use google_co.Storage.Keys.{IsKeyed, IsSubmitted, upsert_at-IsSubmitted}
use google_co.Router.Submit.{is_domain_char, is_valid_domain, kept_table, persist}

is_domain_char-plain : (c : ℕ) → is_domain_char c ≡ true → (is_whitespace c ≡ false) × (lower c ≡ c)
unfolding is_whitespace lower
is_domain_char-plain c h = (ground (arith, h), ground (arith, h))

all_plain : (d : Str) → all is_domain_char d ≡ true → NoSpace d × (to_ascii_lowercase d ≡ d)
unfolding to_ascii_lowercase
all_plain [] h = (tt, refl)
all_plain (c ∷ d) h =
    let own : is_domain_char c ≡ true = ground (arith, h) in
    let more : all is_domain_char d ≡ true = ground (arith, h) in
    let (k, l) = is_domain_char-plain c own in
    let (m, n) = all_plain d more in ((k, m), rw (l, n) refl)

is_valid_domain-all : (d : Str) → is_valid_domain d ≡ true → all is_domain_char d ≡ true
unfolding is_valid_domain
is_valid_domain-all [] h = refl
is_valid_domain-all (c ∷ d) h = ground (arith, h)

pub is_valid_domain-nonempty : (d : Str) → is_valid_domain d ≡ true → is_empty_text d ≡ false
unfolding is_valid_domain
is_valid_domain-nonempty [] h = cc h
is_valid_domain-nonempty (c ∷ d) h = refl

-- A valid domain is its own normalised name.
normalize_name-valid : (d : Str) → is_valid_domain d ≡ true → normalize_name d ≡ d
unfolding normalize_name
normalize_name-valid [] h = cc (is_valid_domain-nonempty [] h)
normalize_name-valid (c ∷ d) h =
    let (k, l) = all_plain (c ∷ d) (is_valid_domain-all (c ∷ d) h) in
    let trimmed : trim (c ∷ d) ≡ c ∷ d = unfold join in trim-join c d [] ((k, refl), tt) in
    ap to_ascii_lowercase trimmed ∙ l

-- Whether the table refuses a new name: a row has the same name in lower case.
abbrev pub is_blocked : (Str → Str) → Str → Option Domain → Domains → Bool
is_blocked low d (some old) ds = false
is_blocked low d none ds = any (λ row. eq (low row.name) (low d)) ds

-- What a task leaves of the table: the domain is submitted as from the source `api`, if the database
-- answers and the name is not blocked; else the table is as it was, although the submission was accepted.
abbrev pub Written : Bool → Bool → ℕ → ℕ → Str → Option Domain → Domains → Domains → Type 0
Written true false now new_id d old ds ds' =
    (id : ℕ) × IsSubmitted now new_id d (some (codes "api")) old ds (id, ds')
Written true true now new_id d old ds ds' = ds' ≡ ds
Written false blocked now new_id d old ds ds' = ds' ≡ ds

module _ (low : Str → Str) (now new_id : ℕ) (d : Str) (ds : Domains) where
  abbrev source : Option Str
  source = some (codes "api")

  persisted :
      (answers : Bool) (old : Option Domain)
      → find_name d ds ≡ old
      → is_empty d ≡ false
      → IsKeyed ds
      → Written answers (is_blocked low d old ds) now new_id d old ds (
          kept_table ds
            (if not answers then err unavailable else upsert_at low now new_id d source old ds))
  persisted false old e n h = refl
  persisted true (some o) e n h =
      (o.id, upsert_at-IsSubmitted low now new_id d source (some o) ds _ e n h refl)
  persisted true none e n h = elim (Bool-cases (has_lower low d ds)) [
    | inl a ↦ rw a refl
    | inr a ↦
        rw a (new_id, upsert_at-IsSubmitted low now new_id d source none ds _ e n h (rw a refl))
  ]

  pub persist-Written :
      (answers : Bool)
      → is_valid_domain d ≡ true
      → IsKeyed ds
      → Written answers
          (is_blocked low d (find_name d ds) ds)
          now
          new_id
          d
          (find_name d ds)
          ds
          (persist low answers now new_id d ds)
  unfolding persist upsert_domain_submission
  persist-Written answers h k =
      let nonempty : is_empty d ≡ false = same_test d h in
      rw (normalize_name-valid d h, nonempty) (persisted answers (find_name d ds) refl nonempty k)
    where
      same_test : (d : Str) → is_valid_domain d ≡ true → is_empty d ≡ false
      same_test [] h = cc (is_valid_domain-nonempty [] h)
      same_test (c ∷ d) h = refl
