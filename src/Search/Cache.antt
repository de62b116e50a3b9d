-- ===== src/Search/Cache.antt =====
-- The hot query cache: entries expire `ttl` after they were put in. Instants and durations are
-- counts of one clock, whose reading is an argument; `elapsed` stops at zero, as `Instant`'s does.
use google_co.Base.{
  ℕ, ◌-◌, ◌≡◌, ◌≢◌, refl, [], leb, if◌then◌else◌, Option, none, some, false, Bool-cases, inl, inr,
  Option-cases, ◌⊎◌,
}
use google_co.Str.Ascii.{Str, eq, eq_refl}
use google_co.Dict.{Dict, lookup, insert, remove, lookup-insert, lookup-remove}

module _ {ℓ} (R : Type ℓ) where
  pub record CacheEntry : Type ℓ where
    pub inserted : ℕ
    pub response : R

  pub record HotQueryCache : Type ℓ where
    pub ttl : ℕ
    pub map : Dict CacheEntry

module _ {ℓ} {R : Type ℓ} where
  abbrev pub new : ℕ → HotQueryCache R
  new ttl = record { ttl = ttl; map = [] }

  abbrev expire : Str → HotQueryCache R → HotQueryCache R
  expire key c = record c { map = remove key c.map }

  abbrev found : ℕ → Str → HotQueryCache R → Option (CacheEntry R) → Option R × HotQueryCache R
  found now key c none = (none, expire key c)
  found now key c (some entry) =
      if leb (now - entry.inserted) c.ttl then (some entry.response, c) else (none, expire key c)

  unfoldable pub get : ℕ → Str → HotQueryCache R → Option R × HotQueryCache R
  get now key c = found now key c (lookup key c.map)

  unfoldable pub put : ℕ → Str → R → HotQueryCache R → HotQueryCache R
  put now key resp c = record c {
    map = insert key (record { inserted = now; response = resp }) c.map;
  }

  -- A key that was put in at `t` is found until `ttl` later, and not after.
  pub get-put :
      (t now : ℕ) (key : Str) (resp : R) (c : HotQueryCache R)
      → (get now key (put t key resp c)).0 ≡ (if leb (now - t) c.ttl then some resp else none)
  unfolding get put
  get-put t now key resp c =
      rw (lookup-insert, eq_refl key)
        (elim (Bool-cases (leb (now - t) c.ttl)) [ inl e ↦ rw e refl | inr e ↦ rw e refl ])

  -- Putting one key in changes the answer for no other key.
  pub get-put_other :
      (t now : ℕ) (key other : Str) (resp : R) (c : HotQueryCache R)
      → eq key other ≡ false
      → (get now other (put t key resp c)).0 ≡ (get now other c).0
  unfolding get put
  get-put_other t now key other resp c h =
      rw (lookup-insert, h)
        (elim (Option-cases (lookup other c.map)) [
          | inl e ↦ rw e refl
          | inr (entry, e) ↦ rw e (elim (Bool-cases (leb (now - entry.inserted) c.ttl)) [
            | inl b ↦ rw b refl
            | inr b ↦ rw b refl
          ])
        ])

  -- A miss leaves no entry under its key, and a hit leaves the cache as it was.
  pub get_after :
      (now : ℕ) (key : Str) (c : HotQueryCache R)
      → (((get now key c).0 ≡ none) × (lookup key (get now key c).1.map ≡ none))
        ⊎ (((get now key c).0 ≢ none) × ((get now key c).1 ≡ c))
  unfolding get
  get_after now key c = elim (Option-cases (lookup key c.map)) [
    | inl e ↦ rw e (inl (refl, rw (lookup-remove, eq_refl key) refl))
    | inr (entry, e) ↦ elim (Bool-cases (leb (now - entry.inserted) c.ttl)) [
      | inl b ↦ rw (e, b) (inr ((cc), refl))
      | inr b ↦ rw (e, b) (inl (refl, rw (lookup-remove, eq_refl key) refl))
    ]
  ]
