-- ===== src/Router/Rescore/Laws.antt =====
-- The results are the best of the hits by their new scores, in order.
use mathlib.Core.List.{Perm}
use mathlib.Core.List.Perm
use google_co.Base.{ℕ, ◌≡◌, false, List, [], ◌∷◌, ◌++◌, append-nil, Bool-cases, inl, inr, All}
use mathlib.Core.Path.{subst}
use google_co.Index.{SearchHit}
use google_co.Search.Merge.{Item, merge_topk}
use google_co.Search.Merge.Laws.{IsStrict, not_back}
use google_co.Search.Merge.Sorted.{
  AllLe, IsRanked, items_of, left_over, merge_topk-perm, merge_topk-IsRanked, merge_topk_best,
}
use google_co.Link.Graph.{Float64}
use google_co.Link.Authority.{AuthorityStore}
use google_co.Router.Rescore.{
  Scoring, insert_by_score, sort_by_score, rescore_all, rescore_and_convert,
}

module _ (f : Float64) {Score : Type 0} (s : Scoring f Score) (laws : IsStrict s.gt) where
  insert_by_score-perm :
      (it : Item s.gt) (xs : List (Item s.gt)) → Perm (it ∷ xs) (insert_by_score f s it xs)
  unfolding insert_by_score
  insert_by_score-perm it [] = Perm.refl _
  insert_by_score-perm it (x ∷ xs) = elim (Bool-cases (s.gt x.score it.score)) [
    | inl a ↦ rw a (Perm.trans (Perm.swap _ _ _) (Perm.cons x (insert_by_score-perm it xs)))
    | inr a ↦ rw a (Perm.refl _)
  ]

  sort_by_score-perm : (xs : List (Item s.gt)) → Perm xs (sort_by_score f s xs)
  unfolding sort_by_score
  sort_by_score-perm [] = Perm.refl _
  sort_by_score-perm (x ∷ xs) =
      Perm.trans (Perm.cons x (sort_by_score-perm xs))
        (insert_by_score-perm x (sort_by_score f s xs))

  insert-AllLe :
      (t : Score) (it : Item s.gt) (xs : List (Item s.gt))
      → s.gt it.score t ≡ false
      → AllLe s.gt t xs
      → AllLe s.gt t (insert_by_score f s it xs)
  unfolding insert_by_score
  insert-AllLe t it [] h k = (h, tt)
  insert-AllLe t it (x ∷ xs) h (k, l) = elim (Bool-cases (s.gt x.score it.score)) [
    | inl a ↦ rw a (k, insert-AllLe t it xs h l)
    | inr a ↦ rw a (h, (k, l))
  ]

  AllLe-below :
      (t u : Score) (xs : List (Item s.gt)) → s.gt t u ≡ false → AllLe s.gt t xs → AllLe s.gt u xs
  AllLe-below t u [] h k = tt
  AllLe-below t u (x ∷ xs) h (k, l) = (laws.neg_trans x.score t u k h, AllLe-below t u xs h l)

  insert-IsRanked :
      (it : Item s.gt) (xs : List (Item s.gt))
      → IsRanked s.gt xs
      → IsRanked s.gt (insert_by_score f s it xs)
  unfolding insert_by_score
  insert-IsRanked it [] h = (tt, tt)
  insert-IsRanked it (x ∷ xs) (h, k) = elim (Bool-cases (s.gt x.score it.score)) [
    | inl a ↦ rw a (
      insert-AllLe x.score it xs (not_back s.gt laws x.score it.score a) h,
      insert-IsRanked it xs k,
    )
    | inr a ↦ rw a ((a, AllLe-below x.score it.score xs a h), (h, k))
  ]

  sort_by_score-IsRanked : (xs : List (Item s.gt)) → IsRanked s.gt (sort_by_score f s xs)
  unfolding sort_by_score
  sort_by_score-IsRanked [] = tt
  sort_by_score-IsRanked (x ∷ xs) =
      insert-IsRanked x (sort_by_score f s xs) (sort_by_score-IsRanked xs)

  -- The results of a page, and the items that are left.
  pub record IsTop (items results : List (Item s.gt)) : Type 0 where
    pub left : List (Item s.gt)
    pub same_items : Perm items (results ++ left)
    pub ranked : IsRanked s.gt results
    pub best : All (λ it. AllLe s.gt it.score left) results

  merge_topk-IsTop :
      (items : List (Item s.gt)) (k : ℕ)
      → IsTop items (merge_topk s.gt (sort_by_score f s items ∷ []) k)
  merge_topk-IsTop items k =
      let shards = sort_by_score f s items ∷ [] in
      let ranked : All (IsRanked s.gt) shards = (sort_by_score-IsRanked items, tt) in
      record {
        left = items_of s.gt (left_over s.gt shards k);
        same_items = Perm.trans (sort_by_score-perm items) (
            subst
              (λ xs. Perm xs (merge_topk s.gt shards k ++ items_of s.gt (left_over s.gt shards k)))
              (append-nil (sort_by_score f s items)) (merge_topk-perm s.gt laws k shards));
        ranked = merge_topk-IsRanked s.gt laws k shards ranked;
        best = merge_topk_best s.gt laws k shards ranked;
      }

  -- For a strict order of scores: the results are ranked by their new scores, with what is left they are
  -- the hits with their new scores, and nothing that is left beats a result.
  pub rescore_and_convert-IsTop :
      (store : AuthorityStore Score) (now : ℕ) (hits : List (SearchHit Score)) (k : ℕ)
      → IsTop (rescore_all f s store now hits) (rescore_and_convert f s store now hits k)
  unfolding rescore_and_convert rescore_all
  rescore_and_convert-IsTop store now [] k = record {
    left = [];
    same_items = Perm.refl _;
    ranked = tt;
    best = tt;
  }
  rescore_and_convert-IsTop store now (h ∷ hits) k =
      merge_topk-IsTop (rescore_all f s store now (h ∷ hits)) k
