-- ===== src/Indexing/Candidates/NonEmpty.antt =====
-- A domain always has a page that is to be indexed.
use google_co.Base.{
  ◌≤◌, arith, Bool, List, [], ◌∷◌, ◌++◌, Option, none, some, length, length-append, length-take,
  leb, Bool-cases, inl, inr,
}
use google_co.Base.Results.{Result}
use google_co.Str.Ascii.{Str, codes, eq, trim}
use google_co.Crawler.Client.{ClientResponse}
use google_co.Indexing.Candidates.{
  max_pages_per_domain, normalized, normalize_candidate_url, pushed, add_entries, with_scheme,
  sitemap_entries, insert_by, sort, dedup_one, dedup, collect_candidate_urls,
}

pushed-length : (o : Option Str) (us : List Str) → length us ≤ length (pushed o us)
pushed-length none us = omega arith
pushed-length (some u) us = omega (arith, length-append us (u ∷ []))

add_entries-length :
    (domain : Str) (es us : List Str) → length us ≤ length (add_entries domain es us)
unfolding add_entries normalize_candidate_url
add_entries-length domain [] us = omega arith
add_entries-length domain (e ∷ es) us = elim (Bool-cases (leb max_pages_per_domain (length us))) [
  | inl a ↦ rw a (omega arith)
  | inr a ↦ rw a (
      omega (
        arith,
        pushed-length (normalized domain (trim e)) us,
        add_entries-length domain es (pushed (normalized domain (trim e)) us),
      ))
]

insert_by-length :
    (order : Str → Str → Bool) (u : Str) (us : List Str) → 1 ≤ length (insert_by order u us)
unfolding insert_by
insert_by-length order u [] = omega arith
insert_by-length order u (v ∷ vs) = elim (Bool-cases (order u v)) [
  | inl a ↦ rw a (omega arith)
  | inr a ↦ rw a (omega arith)
]

sort-length :
    (order : Str → Str → Bool) (us : List Str) → 1 ≤ length us → 1 ≤ length (sort order us)
unfolding sort
sort-length order [] h = absurd (omega arith)
sort-length order (u ∷ us) h = insert_by-length order u (sort order us)

dedup_one-length : (u : Str) (us : List Str) → 1 ≤ length (dedup_one u us)
dedup_one-length u [] = omega arith
dedup_one-length u (v ∷ vs) = elim (Bool-cases (eq u v)) [
  | inl a ↦ rw a (omega arith)
  | inr a ↦ rw a (omega arith)
]

dedup-length : (us : List Str) → 1 ≤ length us → 1 ≤ length (dedup us)
unfolding dedup
dedup-length [] h = absurd (omega arith)
dedup-length (u ∷ us) h = dedup_one-length u (dedup us)

pub collect_candidate_urls-length :
    {E : Type 0} (order : Str → Str → Bool) (domain : Str) (fetched : Result E ClientResponse)
    → 1 ≤ length (collect_candidate_urls order domain fetched)
unfolding collect_candidate_urls
collect_candidate_urls-length order domain fetched =
    let root = with_scheme (domain ++ codes "/") ∷ [] in
    let urls = add_entries domain (sitemap_entries fetched) root in
    let some_url = add_entries-length domain (sitemap_entries fetched) root in
    let some_left =
      dedup-length (sort order urls) (sort-length order urls (omega (arith, some_url))) in
    omega (arith, length-take 16 (dedup (sort order urls)), some_left)
