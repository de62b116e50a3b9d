-- ===== src/Tests/Search.antt =====
-- gurtd/src/search: the cache, the keys and the merge.
use google_co.Base.{ℕ, ◌≡◌, refl, arith, Bool, ltb, List, [], ◌∷◌, none, All}
use google_co.Str.Ascii.{codes}
use google_co.Query.{ParsedQuery, parse_query}
use google_co.Search.Key.{normalize_key, with_site, with_term, normalize_key_collision}
use google_co.Search.Cache.{HotQueryCache, new, put}
use google_co.Search.Merge.{Item, merge_topk}
use google_co.Search.Merge.Laws.{IsStrict}
use google_co.Search.Merge.Sorted.{items_of, IsRanked, AllLe, left_over, merge_topk_best}

abbrev query_a : ParsedQuery
query_a = parse_query (codes "Rust site:Example.web")

normalize_key_collision_example :
    normalize_key (with_site (codes "x" ∷ []) (codes "a.b") none)
    ≡ normalize_key (with_term (codes "x" ∷ []) (codes "a.b") none)
normalize_key_collision_example = normalize_key_collision (codes "x" ∷ []) (codes "a.b") none

abbrev empty_cache : HotQueryCache ℕ
empty_cache = new 20

abbrev old_cache : HotQueryCache ℕ
old_cache = put 5 (codes "k") 7 empty_cache

abbrev gt : ℕ → ℕ → Bool
gt a b = ltb b a

gt-IsStrict : IsStrict gt
gt-IsStrict = record {
  irrefl = λ a. ground arith;
  trans = λ a b c h k. ground arith;
  neg_trans = λ a b c h k. ground arith;
}

abbrev item : ℕ → Item gt
item n = record { title = codes "t"; url = codes "u"; score = n }

abbrev two_shards : List (List (Item gt))
two_shards = (item 9 ∷ item 2 ∷ []) ∷ (item 5 ∷ item 3 ∷ []) ∷ []

merge_two : merge_topk gt two_shards 3 ≡ item 9 ∷ item 5 ∷ item 3 ∷ []
unfolding merge_topk
merge_two = refl

two_shards-IsRanked : All (IsRanked gt) two_shards
two_shards-IsRanked = (((refl, tt), (tt, tt)), (((refl, tt), (tt, tt)), tt))

merge_topk_best_example :
    All
      (λ it. AllLe gt it.score (items_of gt (left_over gt two_shards 3)))
      (merge_topk gt two_shards 3)
merge_topk_best_example = merge_topk_best gt gt-IsStrict 3 two_shards two_shards-IsRanked
