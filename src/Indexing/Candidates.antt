-- ===== src/Indexing/Candidates.antt =====
-- gurtd/src/indexing/mod.rs: the pages of a domain that are to be indexed. What fetching the site map
-- returns is a parameter; `order` is the order of texts that `sort` uses.
pub mod NonEmpty
use mathlib.Core.Path.{subst}
use google_co.Base.{
  ℕ, ◌≤◌, ◌≡◌, refl, arith, Bool, true, ltb, leb, ◌==◌, List, [], ◌∷◌, ◌++◌, if◌then◌else◌, Option,
  none, some, length, take, length-take, Bool-cases, inl, inr, All, All-append, All-take,
  eq_of_some, none≢some,
}
use google_co.Base.Results.{Result, ok, err}
use google_co.Str.Ascii.{Str, codes, eq, trim}
use google_co.Str.Utf8.{from_utf8}
use google_co.Str.Search.{starts_with, starts_with-append}
use google_co.Crawler.Client.{ClientResponse}
use google_co.Crawler.Sitemap.{parse_sitemap_xml}

abbrev pub max_pages_per_domain : ℕ
max_pages_per_domain = 16

abbrev pub with_scheme : Str → Str
with_scheme s = codes "gurt://" ++ s

abbrev pub normalized : Str → Str → Option Str
normalized domain [] = none
normalized domain (c ∷ s) =
    if starts_with (c ∷ s) (codes "gurt://")
    then some (c ∷ s)
    else if c == b'/'
    then some (with_scheme (domain ++ (c ∷ s)))
    else some (with_scheme (domain ++ b'/' ∷ c ∷ s))

unfoldable pub normalize_candidate_url : Str → Str → Option Str
normalize_candidate_url domain raw = normalized domain (trim raw)

abbrev pub pushed : Option Str → List Str → List Str
pushed none urls = urls
pushed (some u) urls = urls ++ u ∷ []

-- The loop over the entries of the site map.
unfoldable pub add_entries : Str → List Str → List Str → List Str
unfolding normalize_candidate_url
add_entries domain [] urls = urls
add_entries domain (entry ∷ entries) urls =
    let rest = add_entries domain entries (pushed (normalize_candidate_url domain entry) urls) in
    if leb max_pages_per_domain (length urls) then urls else rest

-- The entries of a site map that was fetched with success and is text.
abbrev entries_of : Option (List Str) → List Str
entries_of none = []
entries_of (some es) = es

abbrev entries_in : Option Str → List Str
entries_in none = []
entries_in (some xml) = entries_of (parse_sitemap_xml xml)

abbrev pub sitemap_entries : {E : Type 0} → Result E ClientResponse → List Str
sitemap_entries (err e) = []
sitemap_entries (ok r) =
    if leb 200 r.code then (if ltb r.code 300 then entries_in (from_utf8 r.body) else []) else []

-- `Vec::sort` by an order, and `Vec::dedup`.
unfoldable pub insert_by : (Str → Str → Bool) → Str → List Str → List Str
insert_by order u [] = u ∷ []
insert_by order u (v ∷ vs) =
    let rest = v ∷ insert_by order u vs in if order u v then u ∷ v ∷ vs else rest

unfoldable pub sort : (Str → Str → Bool) → List Str → List Str
unfolding insert_by
sort order [] = []
sort order (u ∷ us) = insert_by order u (sort order us)

abbrev pub dedup_one : Str → List Str → List Str
dedup_one u [] = u ∷ []
dedup_one u (v ∷ vs) = if eq u v then u ∷ vs else u ∷ v ∷ vs

unfoldable pub dedup : List Str → List Str
dedup [] = []
dedup (u ∷ us) = dedup_one u (dedup us)

unfoldable pub collect_candidate_urls :
    {E : Type 0} → (Str → Str → Bool) → Str → Result E ClientResponse → List Str
unfolding add_entries sort dedup
collect_candidate_urls order domain fetched = take max_pages_per_domain (
    dedup (
      sort order
        (add_entries domain (sitemap_entries fetched) (with_scheme (domain ++ codes "/") ∷ []))))

-- Every URL of the list begins with `gurt://`.
abbrev pub IsGurt : Str → Type 0
IsGurt u = starts_with u (codes "gurt://") ≡ true

insert_by-All :
    (order : Str → Str → Bool) (u : Str) (us : List Str)
    → IsGurt u
    → All IsGurt us
    → All IsGurt (insert_by order u us)
unfolding insert_by
insert_by-All order u [] h k = (h, tt)
insert_by-All order u (v ∷ vs) h (k, l) = elim (Bool-cases (order u v)) [
  | inl e ↦ rw e (h, (k, l))
  | inr e ↦ rw e (k, insert_by-All order u vs h l)
]

sort-All : (order : Str → Str → Bool) (us : List Str) → All IsGurt us → All IsGurt (sort order us)
unfolding sort
sort-All order [] h = tt
sort-All order (u ∷ us) (h, k) = insert_by-All order u (sort order us) h (sort-All order us k)

dedup_one-All : (u : Str) (us : List Str) → IsGurt u → All IsGurt us → All IsGurt (dedup_one u us)
dedup_one-All u [] h k = (h, tt)
dedup_one-All u (v ∷ vs) h (k, l) = elim (Bool-cases (eq u v)) [
  | inl e ↦ rw e (h, l)
  | inr e ↦ rw e (h, (k, l))
]

dedup-All : (us : List Str) → All IsGurt us → All IsGurt (dedup us)
unfolding dedup
dedup-All [] h = tt
dedup-All (u ∷ us) (h, k) = dedup_one-All u (dedup us) h (dedup-All us k)

pushed-All :
    (o : Option Str) (us : List Str)
    → ((u : Str) → o ≡ some u → IsGurt u)
    → All IsGurt us
    → All IsGurt (pushed o us)
pushed-All none us h k = k
pushed-All (some u) us h k = All-append IsGurt us (u ∷ []) k (h u refl, tt)

normalized-IsGurt : (domain s u : Str) → normalized domain s ≡ some u → IsGurt u
normalized-IsGurt domain [] u = λ e. absurd (none≢some e)
normalized-IsGurt domain (c ∷ s) u = elim (Bool-cases (starts_with (c ∷ s) (codes "gurt://"))) [
  | inl a ↦ rw a (λ e. subst IsGurt (eq_of_some e) a)
  | inr a ↦ elim (Bool-cases (c == b'/')) [
    | inl b ↦ rw (a, b) (λ e. subst IsGurt (eq_of_some e) (starts_with-append (codes "gurt://") _))
    | inr b ↦ rw (a, b) (λ e. subst IsGurt (eq_of_some e) (starts_with-append (codes "gurt://") _))
  ]
]

add_entries-All :
    (domain : Str) (es us : List Str) → All IsGurt us → All IsGurt (add_entries domain es us)
unfolding add_entries normalize_candidate_url
add_entries-All domain [] us h = h
add_entries-All domain (e ∷ es) us h = elim (Bool-cases (leb max_pages_per_domain (length us))) [
  | inl a ↦ rw a h
  | inr a ↦ rw a (
      add_entries-All domain es (pushed (normalized domain (trim e)) us)
        (pushed-All (normalized domain (trim e)) us (normalized-IsGurt domain (trim e)) h))
]

-- The pages to be indexed of a domain are at most 16, and each begins with `gurt://`, whatever its
-- site map contains and whatever the order is.
pub collect_candidate_urls-All :
    {E : Type 0} (order : Str → Str → Bool) (domain : Str) (fetched : Result E ClientResponse)
    → (length (collect_candidate_urls order domain fetched) ≤ 16)
      × All IsGurt (collect_candidate_urls order domain fetched)
unfolding collect_candidate_urls
collect_candidate_urls-All order domain fetched =
    let urls =
      add_entries domain (sitemap_entries fetched) (with_scheme (domain ++ codes "/") ∷ []) in
    (
      omega (arith, length-take 16 (dedup (sort order urls))),
      All-take IsGurt 16 (dedup (sort order urls)) (
          dedup-All (sort order urls) (
            sort-All order urls (
              add_entries-All domain (sitemap_entries fetched)
                (with_scheme (domain ++ codes "/") ∷ [])
                (starts_with-append (codes "gurt://") (domain ++ codes "/"), tt)))),
    )
