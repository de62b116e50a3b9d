-- ===== src/Router/Rescore.antt =====
-- gurtd/src/router/search_utils.rs: hits are scored again, sorted and cut. Floating point and the store of
-- authority scores are parameters.
pub mod Laws
use google_co.Base.{
  ℕ, ◌*◌, ◌-◌, Bool, List, [], ◌∷◌, if◌then◌else◌, Option, none, some, map, is_empty, unwrap_or,
}
use google_co.Str.Ascii.{Str}
use google_co.Index.{SearchHit}
use google_co.Search.Merge.{SearchResultItem, Item, merge_topk}
use google_co.Link.Graph.{Float64, domain_trust_from_cname_depth}
use google_co.Link.Authority.{AuthorityStore, get}

-- `f32` with its conversions, and the constants of the formula.
pub record Scoring (f : Float64) (Score : Type 0) : Type 0 where
  pub gt : Score → Score → Bool
  pub zero32 : Score
  pub tiny32 : Score
  pub max32 : Score → Score → Score
  pub div32 : Score → Score → Score
  pub to_f64 : Score → f.F
  pub to_f32 : f.F → Score
  pub pow_half : f.F → f.F
  pub tenth : f.F
  pub fifth : f.F
  pub three_fifths : f.F

abbrev half_life_secs : ℕ
half_life_secs = 7 * 24 * 3600

module _ (f : Float64) {Score : Type 0} (s : Scoring f Score) where
  -- The greatest score of the hits, and `1e-6` at least.
  unfoldable pub max_score : Score → List (SearchHit Score) → Score
  max_score best [] = best
  max_score best (h ∷ hs) = max_score (s.max32 best h.score) hs

  abbrev recency : ℕ → ℕ → f.F
  recency now fetch_time =
      s.pow_half (f.div (f.of_usize (now - fetch_time)) (f.of_usize half_life_secs))

  unfoldable pub rescored : AuthorityStore Score → ℕ → Score → SearchHit Score → Item s.gt
  unfolding get domain_trust_from_cname_depth
  rescored store now max_bm h = record {
    title = h.title;
    url = h.url;
    score = s.to_f32 (
        f.add
          (f.add
            (f.add (f.mul s.three_fifths (s.to_f64 (s.div32 h.score max_bm)))
              (f.mul s.fifth (s.to_f64 (unwrap_or (get h.url store) s.zero32))))
            (f.mul s.tenth (domain_trust_from_cname_depth f 0)))
          (f.mul s.tenth (recency now h.fetch_time)));
  }

  -- The stable sort, the greatest score first.
  unfoldable pub insert_by_score : Item s.gt → List (Item s.gt) → List (Item s.gt)
  insert_by_score it [] = it ∷ []
  insert_by_score it (x ∷ xs) =
      let rest = x ∷ insert_by_score it xs in if s.gt x.score it.score then rest else it ∷ x ∷ xs

  unfoldable pub sort_by_score : List (Item s.gt) → List (Item s.gt)
  unfolding insert_by_score
  sort_by_score [] = []
  sort_by_score (x ∷ xs) = insert_by_score x (sort_by_score xs)

  unfoldable pub rescore_all : AuthorityStore Score → ℕ → List (SearchHit Score) → List (Item s.gt)
  unfolding rescored max_score
  rescore_all store now hits =
      map (rescored store now (s.max32 (max_score s.zero32 hits) s.tiny32)) hits

  unfoldable pub rescore_and_convert :
      AuthorityStore Score → ℕ → List (SearchHit Score) → ℕ → List (Item s.gt)
  unfolding rescore_all sort_by_score merge_topk
  rescore_and_convert store now hits k =
      if is_empty hits
      then []
      else merge_topk s.gt (sort_by_score (rescore_all store now hits) ∷ []) k
