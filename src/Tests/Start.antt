-- ===== src/Tests/Start.antt =====
-- gurtd/src/storage and gurtd/src/startup.rs: the table of domains, and the start.
use google_co.Base.{◌≡◌, refl, arith, true, false, [], ◌∷◌, none, some, is_empty}
use google_co.Base.Results.{ok}
use google_co.Str.Ascii.{Str, codes}
use google_co.Indexing.Service.{IndexingService, new, enqueue_domain, send, receive, finish}
use google_co.Str.Bag.{contains}
use google_co.Storage.{
  Domain, Domains, DomainStatus, pos, normalize_name, upsert_domain_submission,
  list_pending_domains, set_domain_status,
}
use google_co.Storage.Keys.{IsKeyed, Submitting, upsert_domain_submission-IsSubmitted}
use google_co.Storage.Pending.{
  Listed, pending_rows, without, list_pending_domains-IsListed, set_domain_status_ready,
}
use google_co.Startup.{Environment}

-- `LOWER` of ASCII names that are in lower case already.
abbrev same : Str → Str
same s = s

abbrev young : Domain
young = record {
  id = 1;
  name = codes "b.web";
  submission_source = none;
  submitted_at = 20;
  status = DomainStatus.pending;
  updated_at = 20;
}

abbrev old : Domain
old = record {
  id = 2;
  name = codes "a.web";
  submission_source = none;
  submitted_at = 10;
  status = DomainStatus.pending;
  updated_at = 10;
}

abbrev table : Domains
table = young ∷ old ∷ []

table-IsKeyed : IsKeyed (young ∷ [])
unfolding google_co.Str.Bag.count
table-IsKeyed = record { once = λ n. ground arith; named = (refl, tt) }

abbrev later : Domain
later = record {
  id = 2;
  name = codes "a.web";
  submission_source = some (codes "form");
  submitted_at = 10;
  status = DomainStatus.pending;
  updated_at = 10;
}

is_upserted :
    upsert_domain_submission same true 10 2 (codes " A.web ") (some (codes "form")) (young ∷ [])
    ≡ ok (2, young ∷ later ∷ [])
unfolding upsert_domain_submission google_co.Str.Ascii.to_ascii_lowercase google_co.Str.Ascii.trim
    google_co.Str.Ascii.eq
is_upserted = refl

upsert_domain_submission-IsSubmitted_example :
    Submitting same true 10 2
      (normalize_name (codes " A.web "))
      (some (codes "form"))
      (young ∷ [])
      (upsert_domain_submission same true 10 2 (codes " A.web ") (some (codes "form")) (young ∷ []))
upsert_domain_submission-IsSubmitted_example =
    upsert_domain_submission-IsSubmitted same true 10 2 (codes " A.web ") (some (codes "form"))
      (young ∷ []) table-IsKeyed

-- A known domain that is ready keeps its status and its age.
resubmits_ready :
    upsert_domain_submission same true 40 3
      (codes "A.web")
      none
      (record old { status = DomainStatus.ready } ∷ [])
    ≡ ok (2, record old { status = DomainStatus.ready; updated_at = 40 } ∷ [])
unfolding upsert_domain_submission google_co.Str.Ascii.to_ascii_lowercase google_co.Str.Ascii.trim
    google_co.Str.Ascii.eq
resubmits_ready = refl

is_listed : list_pending_domains true (pos 1) table ≡ ok (codes "a.web" ∷ [])
unfolding list_pending_domains
is_listed = refl

list_pending_domains-IsListed_example :
    Listed true (pos 1) table (list_pending_domains true (pos 1) table)
list_pending_domains-IsListed_example = list_pending_domains-IsListed true (pos 1) table

abbrev readied : Domains
readied =
    young
    ∷ (record {
      id = 2;
      name = codes "a.web";
      submission_source = none;
      submitted_at = 10;
      status = DomainStatus.ready;
      updated_at = 30;
    })
    ∷ []

is_named : is_empty (normalize_name (codes "A.WEB")) ≡ false
unfolding normalize_name google_co.Str.Ascii.to_ascii_lowercase google_co.Str.Ascii.trim
is_named = refl

is_set : set_domain_status same true 30 (codes "A.WEB") (codes "ready") table ≡ ok readied
unfolding set_domain_status google_co.Str.Ascii.to_ascii_lowercase google_co.Str.Ascii.trim
    google_co.Str.Ascii.eq
is_set = refl

set_domain_status_ready_example :
    pending_rows readied ≡ without same (normalize_name (codes "A.WEB")) (pending_rows table)
set_domain_status_ready_example =
    set_domain_status_ready same true 30 (codes "A.WEB") table readied is_named is_set

abbrev env : Environment
env = record {
  bootstrap_enabled = some (codes " Yes ");
  bootstrap_limit = some (codes "1");
  index_dir = none;
}

abbrev name : Str
name = codes "a.web"

-- The start sends the domain, and the worker takes it and is done with it before the start ends.
abbrev sent : IndexingService
sent = send true name (enqueue_domain name new)

abbrev done : IndexingService
done = finish (receive sent)

not_in_flight : contains done.in_flight name ≡ false
unfolding finish receive send enqueue_domain new google_co.Str.Ascii.eq
not_in_flight = refl
