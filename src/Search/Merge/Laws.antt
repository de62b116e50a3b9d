-- ===== src/Search/Merge/Laws.antt =====
-- The best first item of the shards, and how many items a merge returns.
use google_co.Base.{
  ℕ, suc, ◌+◌, ◌≡◌, refl, sym, ap, ◌∙◌, arith, Bool, true, false, ◌⊎◌, inl, inr, List, [], ◌∷◌,
  Option, none, some, is_empty, All, Bool-cases,
}
use google_co.Search.Merge.{Item, best_idx, remove_first}

-- What the program relies on of `>` on scores: for `f32`, it holds of all values but NaN.
pub record IsStrict {Score : Type 0} (gt : Score → Score → Bool) : Type 0 where
  pub irrefl : (a : Score) → gt a a ≡ false
  pub trans : (a b c : Score) → gt a b ≡ true → gt b c ≡ true → gt a c ≡ true
  pub neg_trans : (a b c : Score) → gt a b ≡ false → gt b c ≡ false → gt a c ≡ false

module _ {Score : Type 0} (gt : Score → Score → Bool) where
  -- The first item of a shard, if there is one, does not beat this score.
  abbrev pub HeadLe : Score → List (Item gt) → Type 0
  HeadLe s [] = Unit
  HeadLe s (it ∷ _) = gt it.score s ≡ false

  abbrev NoBetter : Option (ℕ × Score) → List (Item gt) → Type 0
  NoBetter none items = is_empty items ≡ true
  NoBetter (some (_, s)) items = HeadLe s items

  abbrev Beats : Score → Option (ℕ × Score) → Type 0
  Beats s none = Unit
  Beats s (some (_, t)) = gt s t ≡ true

  -- The search has settled on the first item of shard `i` of these.
  pub record Chosen (b : ℕ) (shards : List (List (Item gt))) (best : Option (ℕ × Score))
      : Type 0 where
    pub i : ℕ
    pub it : Item gt
    pub rest : List (List (Item gt))
    pub chosen : best_idx gt b shards best ≡ some (b + i, it.score)
    pub removed : remove_first gt i shards ≡ some (it, rest)
    pub top : All (HeadLe it.score) shards
    pub beats : Beats it.score best

module _ {Score : Type 0} (gt : Score → Score → Bool) (laws : IsStrict gt) where
  pub not_back : (a b : Score) → gt a b ≡ true → gt b a ≡ false
  not_back a b h = elim (Bool-cases (gt b a)) [
    | inr e ↦ e
    | inl e ↦ absurd (true≢false (sym (laws.trans a b a h e) ∙ laws.irrefl a))
  ]
    where
      true≢false : true ≡ false → ⊥
      true≢false e = cc

  not_above : (a b c : Score) → gt a c ≡ false → gt b c ≡ true → gt a b ≡ false
  not_above a b c h k = elim (Bool-cases (gt a b)) [
    | inr e ↦ e
    | inl e ↦ absurd (true≢false (sym (laws.trans a b c e k) ∙ h))
  ]
    where
      true≢false : true ≡ false → ⊥
      true≢false e = cc

  -- The choice among the later shards is a choice among all of them.
  later_shard :
      {b : ℕ} {rest : List (List (Item gt))} {best best' : Option (ℕ × Score)}
      (items : List (Item gt))
      → (c : Chosen gt (b + 1) rest best')
      → best_idx gt b (items ∷ rest) best ≡ best_idx gt (b + 1) rest best'
      → HeadLe gt c.it.score items
      → Beats gt c.it.score best
      → Chosen gt b (items ∷ rest) best
  unfolding remove_first
  later_shard {b} items c e le beats = record {
    i = suc c.i;
    it = c.it;
    rest = items ∷ c.rest;
    chosen = e ∙ c.chosen ∙ ap (λ n. some (n, c.it.score)) (omega arith);
    removed = rw c.removed refl;
    top = (le, c.top);
    beats = beats;
  }

  first_shard :
      {b : ℕ} {rest : List (List (Item gt))} {best : Option (ℕ × Score)} (it : Item gt)
      (items : List (Item gt))
      → best_idx gt b ((it ∷ items) ∷ rest) best ≡ some (b, it.score)
      → All (HeadLe gt it.score) rest
      → Beats gt it.score best
      → Chosen gt b ((it ∷ items) ∷ rest) best
  unfolding remove_first
  first_shard {b} {rest} it items e h beats = record {
    i = 0;
    it = it;
    rest = items ∷ rest;
    chosen = e ∙ ap (λ n. some (n, it.score)) (omega arith);
    removed = refl;
    top = (laws.irrefl it.score, h);
    beats = beats;
  }

  pub best_idx-cases :
      (b : ℕ) (shards : List (List (Item gt))) (best : Option (ℕ × Score))
      → (All (NoBetter gt best) shards × (best_idx gt b shards best ≡ best))
        ⊎ Chosen gt b shards best
  unfolding best_idx
  best_idx-cases b [] best = inl (tt, refl)
  best_idx-cases b ([] ∷ rest) none = elim (best_idx-cases (b + 1) rest none) [
    | inl (h, e) ↦ inl ((refl, h), e)
    | inr c ↦ inr (later_shard [] c refl tt tt)
  ]
  best_idx-cases b ([] ∷ rest) (some (bi, bs)) =
      elim (best_idx-cases (b + 1) rest (some (bi, bs))) [
        | inl (h, e) ↦ inl ((tt, h), e)
        | inr c ↦ inr (later_shard [] c refl tt c.beats)
      ]
  best_idx-cases b ((it ∷ items) ∷ rest) none =
      elim (best_idx-cases (b + 1) rest (some (b, it.score))) [
        | inl (h, e) ↦ inr (first_shard it items e h tt)
        | inr c ↦ inr (later_shard (it ∷ items) c refl (not_back c.it.score it.score c.beats) tt)
      ]
  best_idx-cases b ((it ∷ items) ∷ rest) (some (bi, bs)) = elim (Bool-cases (gt it.score bs)) [
    | inl more ↦ elim (best_idx-cases (b + 1) rest (some (b, it.score))) [
      | inl (h, e) ↦ inr (first_shard it items (rw more e) h more)
      | inr c ↦ inr (
          later_shard (it ∷ items) c (rw more refl) (not_back c.it.score it.score c.beats)
            (laws.trans c.it.score it.score bs c.beats more))
    ]
    | inr less ↦ elim (best_idx-cases (b + 1) rest (some (bi, bs))) [
      | inl (h, e) ↦ inl ((less, h), rw less e)
      | inr c ↦ inr (
          later_shard (it ∷ items) c (rw less refl) (not_above it.score c.it.score bs less c.beats)
            c.beats)
    ]
  ]
