-- ===== src/Router/RateLimit/Window.antt =====
-- The limiter against what it promises: a request is admitted if fewer than `max` requests of its
-- address have been admitted in the window before it.
use google_co.Base.{
  ℕ, ◌-◌, ◌≤◌, ◌≡◌, refl, sym, ap, ◌∙◌, arith, Bool, true, false, List, [], ◌∷◌, ◌++◌,
  if◌then◌else◌, ltb, leb, length, Bool-cases, inl, inr, All, All-append, unwrap_or, some,
}
use google_co.Str.Ascii.{eq}
use google_co.Dict.{lookup, lookup-insert}
use google_co.Router.RateLimit.{IpAddr, IpRateLimiter, pop_old, admit, allow}

-- The instants that lie in the window before `now`.
unfoldable pub recent : ℕ → ℕ → List ℕ → List ℕ
recent window now [] = []
recent window now (t ∷ ts) =
    let rest = recent window now ts in if leb (now - t) window then t ∷ rest else rest

-- Instants in order, none before `lo`.
abbrev pub IsAscending : ℕ → List ℕ → Type 0
IsAscending lo [] = Unit
IsAscending lo (t ∷ ts) = (lo ≤ t) × IsAscending t ts

-- The decisions as they should be, from the instants admitted before.
unfoldable pub decisions : ℕ → ℕ → List ℕ → List ℕ → List Bool
decisions max window admitted [] = []
decisions max window admitted (now ∷ later) =
    let ok = ltb (length (recent window now admitted)) max in
    ok ∷ decisions max window (if ok then admitted ++ now ∷ [] else admitted) later

-- The decisions of the queue.
unfoldable pub admit_all : ℕ → ℕ → List ℕ → List ℕ → List Bool
admit_all max window q [] = []
admit_all max window q (now ∷ later) =
    let (ok, q') = admit max window now q in ok ∷ admit_all max window q' later

module _ (window : ℕ) where
  recent_all :
      (now lo : ℕ) (ts : List ℕ)
      → leb (now - lo) window ≡ true
      → IsAscending lo ts
      → recent window now ts ≡ ts
  unfolding recent
  recent_all now lo [] h k = refl
  recent_all now lo (t ∷ ts) h (le, k) = ground (arith, recent_all now t ts)

  pop_old-recent :
      (now lo : ℕ) (q : List ℕ) → IsAscending lo q → pop_old window now q ≡ recent window now q
  unfolding pop_old recent
  pop_old-recent now lo [] h = refl
  pop_old-recent now lo (t ∷ q) (le, h) = elim (Bool-cases (ltb window (now - t))) [
    | inl old ↦ ground (arith, pop_old-recent now t q h)
    | inr fresh ↦ ground (arith, recent_all now t q (ground arith) h)
  ]

  recent-recent :
      (before now : ℕ) (ts : List ℕ)
      → before ≤ now
      → recent window now (recent window before ts) ≡ recent window now ts
  unfolding recent
  recent-recent before now [] h = refl
  recent-recent before now (t ∷ ts) h = ground (arith, recent-recent before now ts h)

  recent-concat :
      (now : ℕ) (ts : List ℕ)
      → recent window now (ts ++ now ∷ []) ≡ recent window now ts ++ now ∷ []
  unfolding recent
  recent-concat now [] = ground arith
  recent-concat now (t ∷ ts) = ground (arith, recent-concat now ts)

  IsAscending-le : (lo lo' : ℕ) (ts : List ℕ) → lo ≤ lo' → IsAscending lo' ts → IsAscending lo ts
  IsAscending-le lo lo' [] h k = tt
  IsAscending-le lo lo' (t ∷ ts) h (le, k) = (omega arith, k)

  recent-IsAscending :
      (now lo : ℕ) (ts : List ℕ) → IsAscending lo ts → IsAscending lo (recent window now ts)
  unfolding recent
  recent-IsAscending now lo [] h = tt
  recent-IsAscending now lo (t ∷ ts) (le, h) = elim (Bool-cases (leb (now - t) window)) [
    | inl e ↦ rw e (le, recent-IsAscending now t ts h)
    | inr e ↦ rw e (IsAscending-le lo t (recent window now ts) le (recent-IsAscending now t ts h))
  ]

  concat-IsAscending :
      (lo now : ℕ) (ts : List ℕ)
      → IsAscending lo ts
      → All (λ t. t ≤ now) ts
      → lo ≤ now
      → IsAscending lo (ts ++ now ∷ [])
  concat-IsAscending lo now [] h b le = (le, tt)
  concat-IsAscending lo now (t ∷ ts) (l, h) (c, b) le = (l, concat-IsAscending t now ts h b c)

  All-le : (m n : ℕ) (ts : List ℕ) → m ≤ n → All (λ t. t ≤ m) ts → All (λ t. t ≤ n) ts
  All-le m n [] h k = tt
  All-le m n (t ∷ ts) h (le, k) = (omega arith, All-le m n ts h k)

  module _ (max : ℕ) where
    -- The queue holds the admitted instants of the window, as of the last request.
    pub record Holds (before : ℕ) (admitted q : List ℕ) : Type 0 where
      pub queue : q ≡ recent window before admitted
      pub ascending : IsAscending 0 admitted
      pub past : All (λ t. t ≤ before) admitted

    popped :
        (before now : ℕ) (admitted q : List ℕ)
        → Holds before admitted q
        → before ≤ now
        → pop_old window now q ≡ recent window now admitted
    popped before now admitted q h le = rw (h.queue) (
        pop_old-recent now 0 (recent window before admitted)
          (recent-IsAscending before 0 admitted h.ascending)
        ∙ recent-recent before now admitted le)

    admit_all-Holds :
        (before : ℕ) (admitted q later : List ℕ)
        → Holds before admitted q
        → IsAscending before later
        → admit_all max window q later ≡ decisions max window admitted later
    unfolding admit_all decisions admit
    admit_all-Holds before admitted q [] h k = refl
    admit_all-Holds before admitted q (now ∷ later) h (le, k) =
        rw (popped before now admitted q h le)
          (elim (Bool-cases (ltb (length (recent window now admitted)) max)) [
            | inl e ↦ rw e (
                ap (◌∷◌ true) (
                  admit_all-Holds now (admitted ++ now ∷ [])
                    (recent window now admitted ++ now ∷ []) later
                    (record {
                      queue = sym (recent-concat now admitted);
                      ascending =
                          concat-IsAscending 0 now admitted h.ascending
                            (All-le before now admitted le h.past) (omega arith);
                      past =
                          All-append _ admitted (now ∷ []) (All-le before now admitted le h.past)
                            (omega arith, tt);
                    })
                    k))
            | inr e ↦ rw e (
                ap (◌∷◌ false) (
                  admit_all-Holds now admitted (recent window now admitted) later
                    (record {
                      queue = refl;
                      ascending = h.ascending;
                      past = All-le before now admitted le h.past;
                    })
                    k))
          ])

-- For instants in ascending order, the queue decides each request as `decisions` does, which counts
-- the admitted instants within the window.
pub admit_all-decisions :
    (max window : ℕ) (nows : List ℕ)
    → IsAscending 0 nows
    → admit_all max window [] nows ≡ decisions max window [] nows
admit_all-decisions max window nows h =
    admit_all-Holds window max 0 [] [] nows
      (record { queue = unfold recent in refl; ascending = tt; past = tt }) h

-- A call decides by the queue of its own address and leaves those of the others alone.
pub allow_per_address :
    (now : ℕ) (ip other : IpAddr) (l : IpRateLimiter)
    → ((allow now ip l).0 ≡ (admit l.max l.window now (unwrap_or (lookup ip l.map) [])).0)
      × (lookup other (allow now ip l).1.map ≡ (
          if eq ip other
          then some (admit l.max l.window now (unwrap_or (lookup ip l.map) [])).1
          else lookup other l.map))
unfolding allow
allow_per_address now ip other l = (refl, lookup-insert ip other _ l.map)
