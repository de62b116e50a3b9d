-- ===== src/Router/Submit/Laws.antt =====
-- What a submission changes, and when.
use mathlib.Core.Path.{subst}
use google_co.Base.{
  ℕ, ◌≡◌, ◌⊎◌, inl, inr, Bool, true, false, [], ◌∷◌, ◌++◌, Option, none, some, Bool-cases,
  eq_of_some, none≢some, ◌>>=◌, if◌then◌else◌,
}
use google_co.Str.Ascii.{Str, Bytes, eq}
use google_co.Str.Bag.{contains}
use google_co.Dict.{lookup}
use google_co.Api.Status.{okay, bad_request, too_many_requests}
use google_co.Api.Message.{Response}
use google_co.Router.RateLimit.{IpAddr, allow}
use google_co.Indexing.Service.{Steps}
use google_co.Storage.{Domains, find_name}
use google_co.Router.Submit.{
  Outside, is_valid_domain, valid_only, extract_domain_from_body, Sites, persist,
}
use google_co.Router.Submit.Tasks.{is_blocked, Written}

valid_only-IsValid : (s d : Str) → valid_only s ≡ some d → is_valid_domain d ≡ true
valid_only-IsValid s d = elim (Bool-cases (is_valid_domain s)) [
  | inl a ↦ rw a (λ e. subst (λ t. is_valid_domain t ≡ true) (eq_of_some e) a)
  | inr a ↦ rw a (λ e. absurd (none≢some e))
]

bind_valid-IsValid :
    (v : Option (Str → Option Str)) (text : (Str → Option Str) → Str) (d : Str)
    → (v >>= λ w. valid_only (text w)) ≡ some d
    → is_valid_domain d ≡ true
bind_valid-IsValid none text d h = absurd (none≢some h)
bind_valid-IsValid (some w) text d h = valid_only-IsValid (text w) d h

-- A domain that is found in a body is valid, whatever the JSON is: it is neither empty nor longer than
-- 255 bytes, and has only small letters, digits, dashes and dots.
pub extract_domain_from_body-IsValid :
    (out : Outside) (body : Bytes) (d : Str)
    → extract_domain_from_body out body ≡ some d
    → is_valid_domain d ≡ true
unfolding extract_domain_from_body
extract_domain_from_body-IsValid out body d h = bind_valid-IsValid (out.from_slice body) _ d h

-- The table as the task of a domain finds it: its `LOWER`, whether it answers, the clock, the next id.
pub record Table : Type 0 where
  pub lower : Str → Str
  pub answers : Bool
  pub now : ℕ
  pub next_id : ℕ
  pub domains : Domains

-- A submission that is answered with 200: a valid domain is in the body; it is in the set of submissions,
-- which is otherwise as it was; it is in flight behind a step of the indexing service; and one more task
-- is spawned, which leaves the table with the domain submitted, if it can write, and as it was if not.
pub record Accepted (t : Table) (o : Option Str) (s : Sites) (r : Response × Sites) : Type 0 where
  pub domain : Str
  pub is_found : o ≡ some domain
  pub is_valid : is_valid_domain domain ≡ true
  pub code : r.0.code ≡ okay
  pub submitted :
      (x : Str) → lookup x r.1.submitted ≡ (if eq domain x then some tt else lookup x s.submitted)
  pub steps : Steps s.indexing r.1.indexing
  pub in_flight : contains r.1.indexing.in_flight domain ≡ true
  pub spawned : r.1.tasks ≡ s.tasks ++ domain ∷ []
  pub written :
      Written t.answers
        (is_blocked t.lower domain (find_name domain t.domains) t.domains)
        t.now
        t.next_id
        domain
        (find_name domain t.domains)
        t.domains
        (persist t.lower t.answers t.now t.next_id domain t.domains)

abbrev pub IsUnchanged : Sites → Sites → Type 0
IsUnchanged s s' = (s'.submitted ≡ s.submitted) × (s'.tasks ≡ s.tasks) × (s'.indexing ≡ s.indexing)

-- A submission that is refused changes none of the three; the limiter has refused its address, or there
-- is no domain in the body.
abbrev pub Refused : ℕ → Option IpAddr → Option Str → Sites → Response × Sites → Type 0
Refused now peer o s (r, s') =
    IsUnchanged s s'
    × (((r.code ≡ too_many_requests)
          × ((ip : IpAddr) × (peer ≡ some ip) × ((allow now ip s.limiter).0 ≡ false)))
        ⊎ ((r.code ≡ bad_request) × (o ≡ none)))

abbrev pub Outcome : Table → ℕ → Option IpAddr → Option Str → Sites → Response × Sites → Type 0
Outcome t now peer o s r = Accepted t o s r ⊎ Refused now peer o s r

abbrev AllValid : Option Str → Type 0
AllValid o = (d : Str) → o ≡ some d → is_valid_domain d ≡ true
