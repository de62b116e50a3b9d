-- ===== src/Search/Gather.antt =====
-- gurtd/src/search/mod.rs: gathering the results of shards that run at the same time. A shard ends at an
-- instant, counted from the start, with its results or by a panic, or it does not end. The handles are
-- awaited one behind the other, each with the whole time limit from then on.
use google_co.Base.{
  ℕ, suc, ◌+◌, ◌*◌, ◌≤◌, ◌<◌, ◌≡◌, refl, arith, max, true, List, [], ◌∷◌, if◌then◌else◌, leb,
  length, Bool-cases, inl, inr,
}

pub data Shard {ℓ} (A : Type ℓ) : Type ℓ where
  ends : ℕ → A → Shard A
  panics : ℕ → Shard A
  hangs : Shard A

-- One handle more takes the limit at most.
one_more :
    (limit now now' n e : ℕ) → now' ≤ now + limit → e ≤ now' + n * limit → e ≤ now + suc n * limit
one_more limit now now' n e h k = grind arith

module _ {ℓ} {A : Type ℓ} where
  -- The results, and the instant at which the last handle has been awaited.
  abbrev push_front : A → List A × ℕ → List A × ℕ
  push_front v r = (v ∷ r.0, r.1)

  unfoldable pub gather_from : ℕ → ℕ → List (Shard A) → List A × ℕ
  gather_from limit now [] = ([], now)
  gather_from limit now (ends t v ∷ rest) =
      let kept = push_front v (gather_from limit (max now t) rest) in
      let dropped = gather_from limit (now + limit) rest in
      if leb t (now + limit) then kept else dropped
  gather_from limit now (panics t ∷ rest) =
      let ended = gather_from limit (max now t) rest in
      let dropped = gather_from limit (now + limit) rest in
      if leb t (now + limit) then ended else dropped
  gather_from limit now (hangs ∷ rest) = gather_from limit (now + limit) rest

  unfoldable pub gather_with_timeout : ℕ → List (Shard A) → List A × ℕ
  unfolding gather_from
  gather_with_timeout limit shards = gather_from limit 0 shards

  -- The results of the shards that end within the limit.
  unfoldable pub on_time : ℕ → List (Shard A) → List A
  on_time limit [] = []
  on_time limit (ends t v ∷ rest) =
      let later = on_time limit rest in if leb t limit then v ∷ later else later
  on_time limit (panics t ∷ rest) = on_time limit rest
  on_time limit (hangs ∷ rest) = on_time limit rest

  -- A list is left when some elements of another are left out.
  pub data LeftOf : List A → List A → Type ℓ where
    empty : LeftOf [] []
    keep : {xs ys : List A} (x : A) → LeftOf xs ys → LeftOf (x ∷ xs) (x ∷ ys)
    skip : {xs ys : List A} (y : A) → LeftOf xs ys → LeftOf xs (y ∷ ys)

  gather_from-on_time :
      (limit now : ℕ) (shards : List (Shard A))
      → LeftOf (on_time limit shards) (gather_from limit now shards).0
  unfolding gather_from on_time
  gather_from-on_time limit now [] = empty
  gather_from-on_time limit now (hangs ∷ rest) = gather_from-on_time limit (now + limit) rest
  gather_from-on_time limit now (panics t ∷ rest) = elim (Bool-cases (leb t (now + limit))) [
    | inl a ↦ rw a (gather_from-on_time limit (max now t) rest)
    | inr a ↦ rw a (gather_from-on_time limit (now + limit) rest)
  ]
  gather_from-on_time limit now (ends t v ∷ rest) = elim (Bool-cases (leb t limit)) [
    | inl a ↦
        let kept : leb t (now + limit) ≡ true = ground arith in
        rw (a, kept) (keep v (gather_from-on_time limit (max now t) rest))
    | inr a ↦ elim (Bool-cases (leb t (now + limit))) [
      | inl b ↦ rw (a, b) (skip v (gather_from-on_time limit (max now t) rest))
      | inr b ↦ rw (a, b) (gather_from-on_time limit (now + limit) rest)
    ]
  ]

  gather_from-ends :
      (limit now : ℕ) (shards : List (Shard A))
      → (gather_from limit now shards).1 ≤ now + length shards * limit
  unfolding gather_from
  gather_from-ends limit now [] = omega arith
  gather_from-ends limit now (hangs ∷ rest) =
      one_more limit now (now + limit) (length rest) _ (omega arith)
        (gather_from-ends limit (now + limit) rest)
  gather_from-ends limit now (panics t ∷ rest) = elim (Bool-cases (leb t (now + limit))) [
    | inl a ↦ rw a (
        one_more limit now (max now t) (length rest) _ (ground arith)
          (gather_from-ends limit (max now t) rest))
    | inr a ↦ rw a (
        one_more limit now (now + limit) (length rest) _ (omega arith)
          (gather_from-ends limit (now + limit) rest))
  ]
  gather_from-ends limit now (ends t v ∷ rest) = elim (Bool-cases (leb t (now + limit))) [
    | inl a ↦ rw a (
        one_more limit now (max now t) (length rest) _ (ground arith)
          (gather_from-ends limit (max now t) rest))
    | inr a ↦ rw a (
        one_more limit now (now + limit) (length rest) _ (omega arith)
          (gather_from-ends limit (now + limit) rest))
  ]

  -- Every shard that ends within the limit is gathered, in the order of the shards; and gathering takes
  -- the limit for each shard at most.
  pub gather_with_timeout-on_time :
      (limit : ℕ) (shards : List (Shard A))
      → LeftOf (on_time limit shards) (gather_with_timeout limit shards).0
        × ((gather_with_timeout limit shards).1 ≤ length shards * limit)
  unfolding gather_with_timeout
  gather_with_timeout-on_time limit shards =
      (gather_from-on_time limit 0 shards, omega (arith, gather_from-ends limit 0 shards))

  -- A shard that ends behind the limit is gathered all the same, when the one before it does not end: it
  -- is awaited from then on.
  pub gather_late :
      (limit t : ℕ) (v : A)
      → limit < t
      → t ≤ limit + limit
      → (gather_with_timeout limit (hangs ∷ ends t v ∷ [])).0 ≡ v ∷ []
  unfolding gather_with_timeout
  gather_late limit t v late h =
      let kept : leb t (0 + limit + limit) ≡ true = ground arith in rw kept refl
