-- ===== src/Search/Merge.antt =====
-- Merging the ranked results of several shards. A score is a value of a type with the test `>`,
-- which for `f32` is a parameter.
pub mod Laws
pub mod Sorted
use google_co.Base.{ℕ, zero, suc, ◌+◌, Bool, List, [], ◌∷◌, ◌++◌, if◌then◌else◌, Option, none, some}
use google_co.Str.Ascii.{Str}

pub record SearchResultItem (Score : Type 0) : Type 0 where
  pub title : Str
  pub url : Str
  pub score : Score

module _ {Score : Type 0} (gt : Score → Score → Bool) where
  abbrev pub Item : Type 0
  Item = SearchResultItem Score

  -- The best first item so far: its shard and its score.
  abbrev pub better : ℕ → List Item → Option (ℕ × Score) → Option (ℕ × Score)
  better si [] best = best
  better si (it ∷ _) none = some (si, it.score)
  better si (it ∷ _) (some (bi, bscore)) =
      if gt it.score bscore then some (si, it.score) else some (bi, bscore)

  unfoldable pub best_idx : ℕ → List (List Item) → Option (ℕ × Score) → Option (ℕ × Score)
  best_idx si [] best = best
  best_idx si (items ∷ rest) best = best_idx (si + 1) rest (better si items best)

  abbrev pub cons_taken :
      List Item → Option (Item × List (List Item)) → Option (Item × List (List Item))
  cons_taken items none = none
  cons_taken items (some (it, rest)) = some (it, items ∷ rest)

  -- `shards[si].remove(0)`, `none` where that would panic.
  unfoldable pub remove_first : ℕ → List (List Item) → Option (Item × List (List Item))
  remove_first si [] = none
  remove_first zero ([] ∷ rest) = none
  remove_first zero ((it ∷ items) ∷ rest) = some (it, items ∷ rest)
  remove_first (suc si) (items ∷ rest) = cons_taken items (remove_first si rest)

  abbrev pub take_best : List (List Item) → Option (ℕ × Score) → Option (Item × List (List Item))
  take_best shards none = none
  take_best shards (some (si, _)) = remove_first si shards

  abbrev pub merged : (List (List Item) → List Item) → Option (Item × List (List Item)) → List Item
  merged rest none = []
  merged rest (some (it, shards)) = it ∷ rest shards

  -- The loop `while out.len() < k`: every round but the last pushes one item.
  unfoldable pub merge_topk : List (List Item) → ℕ → List Item
  unfolding best_idx remove_first
  merge_topk shards zero = []
  merge_topk shards (suc k) =
      merged (λ rest. merge_topk rest k) (take_best shards (best_idx 0 shards none))
