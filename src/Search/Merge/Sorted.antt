-- ===== src/Search/Merge/Sorted.antt =====
-- The merge of ranked shards is the top of all their items, in order.
use mathlib.Core.List.{Perm, perm_middle}
use mathlib.Core.List.Perm
use mathlib.Core.Path.{subst}
use google_co.Base.{
  ℕ, zero, suc, ◌+◌, ◌≡◌, refl, sym, arith, Bool, true, false, ◌⊎◌, inl, inr, List, [], ◌∷◌, ◌++◌,
  Option, none, some, is_empty, All, All-append, All-append_left, All-append_right, eq_of_some,
}
use google_co.Search.Merge.{Item, best_idx, remove_first, cons_taken, take_best, merge_topk}
use google_co.Search.Merge.Laws.{IsStrict, HeadLe, Chosen, best_idx-cases}

module _ {Score : Type 0} (gt : Score → Score → Bool) where
  -- All items of all shards.
  abbrev pub items_of : List (List (Item gt)) → List (Item gt)
  items_of [] = []
  items_of (s ∷ ss) = s ++ items_of ss

  -- No item of the list beats the score.
  abbrev pub AllLe : Score → List (Item gt) → Type 0
  AllLe s = All (λ it. gt it.score s ≡ false)

  -- Every item is followed only by items that do not beat it.
  abbrev pub IsRanked : List (Item gt) → Type 0
  IsRanked [] = Unit
  IsRanked (it ∷ items) = AllLe it.score items × IsRanked items

  -- What is left in the shards when the merge stops.
  abbrev rest_merged :
      (List (List (Item gt)) → List (List (Item gt)))
      → List (List (Item gt))
      → Option (Item gt × List (List (Item gt)))
      → List (List (Item gt))
  rest_merged later shards none = shards
  rest_merged later shards (some (it, rest)) = later rest

  unfoldable pub left_over : List (List (Item gt)) → ℕ → List (List (Item gt))
  left_over shards zero = shards
  left_over shards (suc k) =
      rest_merged (λ rest. left_over rest k) shards
        (take_best gt shards (best_idx gt 0 shards none))

  removed-perm :
      (i : ℕ) (shards : List (List (Item gt))) (it : Item gt) (rest : List (List (Item gt)))
      → remove_first gt i shards ≡ some (it, rest)
      → Perm (items_of shards) (it ∷ items_of rest)
  unfolding remove_first
  removed-perm i [] it rest e = cc
  removed-perm zero ([] ∷ ss) it rest e = cc
  removed-perm zero ((x ∷ xs) ∷ ss) it rest e =
      subst (λ p. Perm (items_of ((x ∷ xs) ∷ ss)) (p.0 ∷ items_of p.1)) (eq_of_some e) (Perm.refl _)
  removed-perm (suc i) (s ∷ ss) it rest e =
      kept (remove_first gt i ss) (λ it' rest' e'. removed-perm i ss it' rest' e') e
    where
      kept :
          (o : Option (Item gt × List (List (Item gt))))
          → ((it' : Item gt) (rest' : List (List (Item gt)))
              → o ≡ some (it', rest')
              → Perm (items_of ss) (it' ∷ items_of rest'))
          → cons_taken gt s o ≡ some (it, rest)
          → Perm (items_of (s ∷ ss)) (it ∷ items_of rest)
      kept none h q = cc
      kept (some (it', rest')) h q =
          subst (λ p. Perm (s ++ items_of ss) (p.0 ∷ items_of p.1)) (eq_of_some q)
            (Perm.trans (Perm.append_left s (h it' rest' refl)) (perm_middle s (items_of rest')))

module _ {Score : Type 0} (gt : Score → Score → Bool) (laws : IsStrict gt) where
  -- One round of the merge.
  round :
      (shards : List (List (Item gt))) (k : ℕ)
      → (All (λ s. is_empty s ≡ true) shards
          × (merge_topk gt shards (suc k) ≡ [])
          × (left_over gt shards (suc k) ≡ shards))
        ⊎ ((c : Chosen gt 0 shards none) × (merge_topk gt shards (suc k)
              ≡ c.it ∷ merge_topk gt c.rest k)
            × (left_over gt shards (suc k) ≡ left_over gt c.rest k))
  unfolding merge_topk left_over
  round shards k = elim (best_idx-cases gt laws 0 shards none) [
    | inl (h, e) ↦ inl (h, rw e refl, rw e refl)
    | inr c ↦
        let zeroth : 0 + c.i ≡ c.i = omega arith in
        inr (c, rw (c.chosen, zeroth, c.removed) refl, rw (c.chosen, zeroth, c.removed) refl)
  ]

  AllLe-of_head :
      (s : Score) (items : List (Item gt))
      → HeadLe gt s items
      → IsRanked gt items
      → AllLe gt s items
  AllLe-of_head s [] h r = tt
  AllLe-of_head s (it ∷ items) h (le, _) = (h, weaken items le)
    where
      weaken : (xs : List (Item gt)) → AllLe gt it.score xs → AllLe gt s xs
      weaken [] k = tt
      weaken (x ∷ xs) (k, ks) = (laws.neg_trans x.score it.score s k h, weaken xs ks)

  AllLe-of_heads :
      (s : Score) (shards : List (List (Item gt)))
      → All (HeadLe gt s) shards
      → All (IsRanked gt) shards
      → AllLe gt s (items_of gt shards)
  AllLe-of_heads s [] h r = tt
  AllLe-of_heads s (items ∷ ss) (h, hs) (r, rs) =
      All-append _ items (items_of gt ss) (AllLe-of_head s items h r) (AllLe-of_heads s ss hs rs)

  removed-IsRanked :
      (i : ℕ) (shards : List (List (Item gt))) (it : Item gt) (rest : List (List (Item gt)))
      → remove_first gt i shards ≡ some (it, rest)
      → All (IsRanked gt) shards
      → All (IsRanked gt) rest
  unfolding remove_first
  removed-IsRanked i [] it rest e r = cc
  removed-IsRanked zero ([] ∷ ss) it rest e r = cc
  removed-IsRanked zero ((x ∷ xs) ∷ ss) it rest e ((_, r), rs) =
      subst (λ p. All (IsRanked gt) p.1) (eq_of_some e) (r, rs)
  removed-IsRanked (suc i) (s ∷ ss) it rest e (r, rs) =
      kept (remove_first gt i ss) (λ it' rest' e'. removed-IsRanked i ss it' rest' e' rs) e
    where
      kept :
          (o : Option (Item gt × List (List (Item gt))))
          → ((it' : Item gt) (rest' : List (List (Item gt)))
              → o ≡ some (it', rest')
              → All (IsRanked gt) rest')
          → cons_taken gt s o ≡ some (it, rest)
          → All (IsRanked gt) rest
      kept none h q = cc
      kept (some (it', rest')) h q =
          subst (λ p. All (IsRanked gt) p.1) (eq_of_some q) (r, h it' rest' refl)

  -- What holds of every item of the shards holds of all that is merged and of all that is left.
  module _ (P : Item gt → Type 0) where
    removed-All :
        (i : ℕ) (shards : List (List (Item gt))) (it : Item gt) (rest : List (List (Item gt)))
        → remove_first gt i shards ≡ some (it, rest)
        → All P (items_of gt shards)
        → P it × All P (items_of gt rest)
    unfolding remove_first
    removed-All i [] it rest e h = cc
    removed-All zero ([] ∷ ss) it rest e h = cc
    removed-All zero ((x ∷ xs) ∷ ss) it rest e h =
        subst (λ p. P p.0 × All P (items_of gt p.1)) (eq_of_some e) h
    removed-All (suc i) (s ∷ ss) it rest e h =
        kept (remove_first gt i ss)
          (λ it' rest' e'. removed-All i ss it' rest' e' (All-append_right P s (items_of gt ss) h))
          e
      where
        kept :
            (o : Option (Item gt × List (List (Item gt))))
            → ((it' : Item gt) (rest' : List (List (Item gt)))
                → o ≡ some (it', rest')
                → P it' × All P (items_of gt rest'))
            → cons_taken gt s o ≡ some (it, rest)
            → P it × All P (items_of gt rest)
        kept none k q = cc
        kept (some (it', rest')) k q =
            let (p, ps) = k it' rest' refl in
            subst (λ p. P p.0 × All P (items_of gt p.1)) (eq_of_some q)
              (p, All-append P s (items_of gt rest') (All-append_left P s (items_of gt ss) h) ps)

    merge_topk-All :
        (k : ℕ) (shards : List (List (Item gt)))
        → All P (items_of gt shards)
        → All P (merge_topk gt shards k) × All P (items_of gt (left_over gt shards k))
    merge_topk-All zero shards h = unfold merge_topk left_over in (tt, h)
    merge_topk-All (suc k) shards h = elim (round shards k) [
      | inl (_, e, f) ↦ rw (e, f) (tt, h)
      | inr (c, e, f) ↦
          let (p, q) = removed-All c.i shards c.it c.rest c.removed h in
          let (m, l) = merge_topk-All k c.rest q in rw (e, f) ((p, m), l)
    ]

  -- The items that are merged and those that are left are the items of the shards, as often.
  pub merge_topk-perm :
      (k : ℕ) (shards : List (List (Item gt)))
      → Perm (items_of gt shards) (merge_topk gt shards k ++ items_of gt (left_over gt shards k))
  merge_topk-perm zero shards = unfold merge_topk left_over in Perm.refl _
  merge_topk-perm (suc k) shards = elim (round shards k) [
    | inl (_, e, f) ↦ rw (e, f) (Perm.refl _)
    | inr (c, e, f) ↦
        rw (e, f)
          (Perm.trans (removed-perm gt c.i shards c.it c.rest c.removed)
            (Perm.cons c.it (merge_topk-perm k c.rest)))
  ]

  -- Merging ranked shards gives a ranked list.
  pub merge_topk-IsRanked :
      (k : ℕ) (shards : List (List (Item gt)))
      → All (IsRanked gt) shards
      → IsRanked gt (merge_topk gt shards k)
  merge_topk-IsRanked zero shards r = unfold merge_topk in tt
  merge_topk-IsRanked (suc k) shards r = elim (round shards k) [
    | inl (_, e, _) ↦ rw e tt
    | inr (c, e, _) ↦
        let le = AllLe-of_heads c.it.score shards c.top r in
        let later =
          (removed-All (λ it. gt it.score c.it.score ≡ false) c.i shards c.it c.rest c.removed
            le).1 in
        rw e (
          (merge_topk-All (λ it. gt it.score c.it.score ≡ false) k c.rest later).0,
          merge_topk-IsRanked k c.rest (removed-IsRanked c.i shards c.it c.rest c.removed r),
        )
  ]

  -- If the shards are ranked, no item that is left beats one that was merged.
  pub merge_topk_best :
      (k : ℕ) (shards : List (List (Item gt)))
      → All (IsRanked gt) shards
      → All (λ it. AllLe gt it.score (items_of gt (left_over gt shards k))) (merge_topk gt shards k)
  merge_topk_best zero shards r = unfold merge_topk in tt
  merge_topk_best (suc k) shards r = elim (round shards k) [
    | inl (_, e, _) ↦ rw e tt
    | inr (c, e, f) ↦
        let le = AllLe-of_heads c.it.score shards c.top r in
        let later =
          (removed-All (λ it. gt it.score c.it.score ≡ false) c.i shards c.it c.rest c.removed
            le).1 in
        subst (λ l. All (λ it. AllLe gt it.score (items_of gt l)) (merge_topk gt shards (suc k)))
          (sym f)
          (rw e (
            (merge_topk-All (λ it. gt it.score c.it.score ≡ false) k c.rest later).1,
            merge_topk_best k c.rest (removed-IsRanked c.i shards c.it c.rest c.removed r),
          ))
  ]
