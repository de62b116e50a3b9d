-- ===== src/Link/Graph/Laws.antt =====
-- The graph has every target of an edge as a node, and the scores are those of its nodes.
use google_co.Base.{
  ℕ, zero, suc, ◌≡◌, refl, sym, ap, ◌∙◌, Bool, true, ◌||◌, List, [], ◌∷◌, ◌++◌, Option, none, some,
  unwrap_or, is_some, All, All-append, Bool-cases, inl, inr,
}
use mathlib.Core.Path.{subst}
use google_co.Str.Ascii.{Str, eq, eq→≡, eq_refl}
use google_co.Dict.{Dict, lookup, insert, remove, lookup-insert}
use google_co.Link.Graph.{
  LinkGraph, new, or_default, push_target, add_edge, Float64, Rank, nodes_of, fill, share_of,
  share_out, share_all, iterate, pagerank,
}

abbrev pub has {ℓ} : {V : Type ℓ} → Str → Dict V → Bool
has k m = is_some (lookup k m)

has-insert {ℓ} :
    {V : Type ℓ} (k j : Str) (v : V) (m : Dict V) → has j (insert k v m) ≡ (eq k j || has j m)
has-insert k j v m =
    rw (lookup-insert k j v m)
      (elim (Bool-cases (eq k j)) [ inl a ↦ rw a refl | inr a ↦ rw a refl ])

-- The targets of the entries are nodes of a graph.
abbrev pub EntriesIn : LinkGraph → LinkGraph → Type 0
EntriesIn h g = All (λ e. All (λ v. has v h ≡ true) e.1) g

-- The targets of every node are nodes.
abbrev pub IsClosed : LinkGraph → Type 0
IsClosed g = EntriesIn g g

All-has :
    (g h : LinkGraph) (vs : List Str)
    → ((v : Str) → has v g ≡ true → has v h ≡ true)
    → All (λ v. has v g ≡ true) vs
    → All (λ v. has v h ≡ true) vs
All-has g h [] f k = tt
All-has g h (v ∷ vs) f (k, l) = (f v k, All-has g h vs f l)

has-more :
    (k j : Str) (vs : List Str) (g : LinkGraph) → has j g ≡ true → has j (insert k vs g) ≡ true
has-more k j vs g h =
    has-insert k j vs g ∙ (elim (Bool-cases (eq k j)) [ inl a ↦ rw a refl | inr a ↦ rw a h ])

lookup-EntriesIn :
    (k : Str) (h g : LinkGraph)
    → EntriesIn h g
    → All (λ v. has v h ≡ true) (unwrap_or (lookup k g) [])
unfolding lookup
lookup-EntriesIn k h [] c = tt
lookup-EntriesIn k h ((u, vs) ∷ g) (c, d) = elim (Bool-cases (eq u k)) [
  | inl a ↦ rw a c
  | inr a ↦ rw a (lookup-EntriesIn k h g d)
]

remove-EntriesIn : (k : Str) (h g : LinkGraph) → EntriesIn h g → EntriesIn h (remove k g)
unfolding remove
remove-EntriesIn k h [] c = tt
remove-EntriesIn k h ((u, vs) ∷ g) (c, d) = elim (Bool-cases (eq u k)) [
  | inl a ↦ rw a (remove-EntriesIn k h g d)
  | inr a ↦ rw a (c, remove-EntriesIn k h g d)
]

EntriesIn-more :
    (h i g : LinkGraph)
    → ((v : Str) → has v h ≡ true → has v i ≡ true)
    → EntriesIn h g
    → EntriesIn i g
EntriesIn-more h i [] f c = tt
EntriesIn-more h i ((u, vs) ∷ g) f (c, d) = (All-has h i vs f c, EntriesIn-more h i g f d)

-- The entries behind the new edge, in a later graph.
push_target-EntriesIn :
    (from target : Str) (g h : LinkGraph)
    → IsClosed g
    → ((v : Str) → has v g ≡ true → has v h ≡ true)
    → has target h ≡ true
    → EntriesIn h (push_target from target g)
unfolding push_target insert
push_target-EntriesIn from target g h closed f t =
    let kept = EntriesIn-more g h g f closed in
    (
      All-append (λ v. has v h ≡ true) (unwrap_or (lookup from g) []) (target ∷ [])
          (lookup-EntriesIn from h g kept) (t, tt),
      remove-EntriesIn from h g kept,
    )

has-push_target :
    (from target v : Str) (g : LinkGraph)
    → has v g ≡ true
    → has v (push_target from target g) ≡ true
unfolding push_target
has-push_target from target v g h =
    has-more from v (unwrap_or (lookup from g) [] ++ target ∷ []) g h

defaulted-IsClosed :
    (from target : Str) (g : LinkGraph) (o : Option (List Str))
    → lookup target (push_target from target g) ≡ o
    → IsClosed g
    → IsClosed (or_default target o (push_target from target g))
unfolding insert
defaulted-IsClosed from target g (some ts) e h =
    push_target-EntriesIn from target g (push_target from target g) h
      (λ v k. has-push_target from target v g k) (ap is_some e)
defaulted-IsClosed from target g none e h =
    let g' = push_target from target g in
    let later = insert target [] g' in
    let entries =
      push_target-EntriesIn from target g later h
        (λ v k. has-more target v [] g' (has-push_target from target v g k))
        (has-insert target target [] g' ∙ rw (eq_refl target) refl) in
    (tt, remove-EntriesIn target later g' entries)

pub add_edge-IsClosed :
    (from target : Str) (g : LinkGraph) → IsClosed g → IsClosed (add_edge from target g)
unfolding add_edge
add_edge-IsClosed from target g h =
    defaulted-IsClosed from target g (lookup target (push_target from target g)) refl h

-- Both have the same keys.
abbrev pub SameKeys {ℓ κ} : {V : Type ℓ} {W : Type κ} → Dict V → Dict W → Type 0
SameKeys m g = (k : Str) → has k m ≡ has k g

module _ (f : Float64) where
  fill-SameKeys : (x : f.F) (g : LinkGraph) → SameKeys (fill f x (nodes_of f g)) g
  unfolding fill lookup
  fill-SameKeys x [] k = refl
  fill-SameKeys x ((u, vs) ∷ g) k =
      has-insert u k x (fill f x (nodes_of f g))
      ∙ (elim (Bool-cases (eq u k)) [ inl a ↦ rw a refl | inr a ↦ rw a (fill-SameKeys x g k) ])

  share_out-SameKeys :
      (base share : f.F) (vs : List Str) (next : Rank f) (g : LinkGraph)
      → All (λ v. has v g ≡ true) vs
      → SameKeys next g
      → SameKeys (share_out f base share vs next) g
  unfolding share_out
  share_out-SameKeys base share [] next g h same = same
  share_out-SameKeys base share (v ∷ vs) next g (h, k) same =
      share_out-SameKeys base share vs _ g k (λ j.
        has-insert v j _ next ∙ (elim (Bool-cases (eq v j)) [
          | inl a ↦ rw a (sym (subst (λ j. has j g ≡ true) (eq→≡ v j a) h))
          | inr a ↦ rw a (same j)
        ]))

  share_all-SameKeys :
      (damping base : f.F) (rank : Rank f) (edges : LinkGraph) (next : Rank f) (g : LinkGraph)
      → EntriesIn g edges
      → SameKeys next g
      → SameKeys (share_all f damping base rank edges next) g
  unfolding share_all
  share_all-SameKeys damping base rank [] next g h same = same
  share_all-SameKeys damping base rank ((u, vs) ∷ edges) next g (h, k) same =
      share_all-SameKeys damping base rank edges _ g k
        (share_out-SameKeys base (share_of f damping rank u vs) vs next g h same)

  iterate-SameKeys :
      (damping base : f.F) (g : LinkGraph) (n : ℕ) (rank : Rank f)
      → IsClosed g
      → SameKeys rank g
      → SameKeys (iterate f damping base g n rank) g
  unfolding iterate
  iterate-SameKeys damping base g zero rank h same = same
  iterate-SameKeys damping base g (suc n) rank h same =
      iterate-SameKeys damping base g n _ h
        (share_all-SameKeys damping base rank g _ g h (fill-SameKeys base g))

-- The graph of a list of edges.
unfoldable pub graph_of : List (Str × Str) → LinkGraph
unfolding add_edge new
graph_of [] = new
graph_of ((u, v) ∷ es) = add_edge u v (graph_of es)

graph_of-IsClosed : (es : List (Str × Str)) → IsClosed (graph_of es)
unfolding graph_of
graph_of-IsClosed [] = tt
graph_of-IsClosed ((u, v) ∷ es) = add_edge-IsClosed u v (graph_of es) (graph_of-IsClosed es)

-- In a graph that is made of edges, each target is a node, and the power iteration gives a score to the
-- nodes and to nothing else, whatever the arithmetic, the damping and the number of rounds are.
pub pagerank-SameKeys :
    (f : Float64) (damping : f.F) (iters : ℕ) (es : List (Str × Str))
    → IsClosed (graph_of es) × SameKeys (pagerank f damping iters (graph_of es)) (graph_of es)
unfolding pagerank
pagerank-SameKeys f damping iters es =
    let g = graph_of es in
    (
      graph_of-IsClosed es,
      iterate-SameKeys f damping _ g iters _ (graph_of-IsClosed es) (fill-SameKeys f _ g),
    )
