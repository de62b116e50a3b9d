-- ===== src/Link/Graph.antt =====
-- gurtd/src/link/mod.rs: the graph of links and the scores of its nodes. Floating point is a parameter;
-- the order of iteration is that of the association list.
pub mod Laws
use google_co.Base.{
  ℕ, zero, suc, ◌+◌, max, Bool, true, false, List, [], ◌∷◌, ◌++◌, if◌then◌else◌, ltb, Option, none,
  some, unwrap_or, length, map, ◌*◌,
}
use google_co.Str.Ascii.{Str}
use google_co.Dict.{Dict, lookup, insert}

-- From each node to its targets.
abbrev pub LinkGraph : Type 0
LinkGraph = Dict (List Str)

unfoldable pub new : LinkGraph
new = []

-- `entry(to).or_default()`
abbrev pub or_default : Str → Option (List Str) → LinkGraph → LinkGraph
or_default node none g = insert node [] g
or_default node (some targets) g = g

unfoldable pub push_target : Str → Str → LinkGraph → LinkGraph
push_target from target g = insert from (unwrap_or (lookup from g) [] ++ target ∷ []) g

unfoldable pub add_edge : Str → Str → LinkGraph → LinkGraph
unfolding push_target
add_edge from target g =
    let g' = push_target from target g in or_default target (lookup target g') g'

-- `f64`, as far as the scores use it.
pub record Float64 : Type 1 where
  pub F : Type 0
  pub of_usize : ℕ → F
  pub add : F → F → F
  pub sub : F → F → F
  pub mul : F → F → F
  pub div : F → F → F
  pub clamp01 : F → F

abbrev pub Rank : Float64 → Type 0
Rank f = Dict f.F

module _ (f : Float64) where
  abbrev pub nodes_of : LinkGraph → List Str
  nodes_of g = map (λ e. e.0) g

  -- Every node with one value.
  unfoldable pub fill : f.F → List Str → Rank f
  fill x [] = []
  fill x (k ∷ ks) = insert k x (fill x ks)

  -- The inner loop: a share for each target of a node.
  unfoldable pub share_out : f.F → f.F → List Str → Rank f → Rank f
  share_out base share [] next = next
  share_out base share (v ∷ vs) next =
      share_out base share vs (insert v (f.add (unwrap_or (lookup v next) base) share) next)

  abbrev pub share_of : f.F → Rank f → Str → List Str → f.F
  share_of damping rank u vs =
      f.mul damping
        (f.div (unwrap_or (lookup u rank) (f.of_usize 0)) (f.of_usize (max (length vs) 1)))

  unfoldable pub share_all : f.F → f.F → Rank f → LinkGraph → Rank f → Rank f
  unfolding share_out
  share_all damping base rank [] next = next
  share_all damping base rank ((u, vs) ∷ edges) next =
      share_all damping base rank edges (share_out base (share_of damping rank u vs) vs next)

  -- The power iteration.
  unfoldable pub iterate : f.F → f.F → LinkGraph → ℕ → Rank f → Rank f
  unfolding share_all fill
  iterate damping base g zero rank = rank
  iterate damping base g (suc n) rank =
      iterate damping base g n (share_all damping base rank g (fill base (nodes_of g)))

  unfoldable pub pagerank : f.F → ℕ → LinkGraph → Rank f
  unfolding iterate fill
  pagerank damping iters g =
      let n = f.of_usize (max (length g) 1) in
      let base = f.div (f.sub (f.of_usize 1) damping) n in
      iterate damping base g iters (fill (f.div (f.of_usize 1) n) (nodes_of g))

  unfoldable pub domain_trust_from_cname_depth : ℕ → f.F
  domain_trust_from_cname_depth depth =
      if ltb 5 depth
      then f.of_usize 0
      else f.div (f.of_usize 1) (f.add (f.of_usize 1) (f.of_usize depth))

  unfoldable pub combine_authority : f.F → f.F → f.F → f.F
  combine_authority pr domain_trust alpha =
      let a = f.clamp01 alpha in f.add (f.mul a pr) (f.mul (f.sub (f.of_usize 1) a) domain_trust)
