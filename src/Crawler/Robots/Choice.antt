-- ===== src/Crawler/Robots/Choice.antt =====
-- Which group of a robots.txt speaks to a user agent.
use google_co.Base.{
  ℕ, ◌≤◌, ◌≡◌, refl, arith, Bool, true, false, List, [], ◌∷◌, leb, if◌then◌else◌, Option, none,
  some, All, inl, inr, Bool-cases,
}
use google_co.Str.Ascii.{Str, to_ascii_lowercase}
use google_co.Str.Length.{str_len}
use google_co.Crawler.Robots.{AgentGroup, applies, longer, best_group, is_allowed, crawl_delay}
use google_co.Crawler.Robots.Rules.{longest, verdict-most_specific_rule}

abbrev size : Option AgentGroup → ℕ
size none = 0
size (some g) = str_len g.agent

abbrev has_group : Option AgentGroup → Bool
has_group none = false
has_group (some g) = true

module _ (ua : Str) where
  -- No group that applies has a longer name than this.
  abbrev pub NoneLonger : ℕ → List AgentGroup → Type 0
  NoneLonger n = All (λ g. applies ua g ≡ true → str_len g.agent ≤ n)

  round : AgentGroup → Option AgentGroup → Option AgentGroup
  round g best = if applies ua g then longer g best else best

  size-round : (g : AgentGroup) (best : Option AgentGroup) → size best ≤ size (round g best)
  unfolding round
  size-round g none = omega arith
  size-round g (some b) = ground arith

  longer_in :
      (g : AgentGroup) (best : Option AgentGroup)
      → applies ua g ≡ true
      → str_len g.agent ≤ size (round g best)
  unfolding round
  longer_in g none h = rw h (omega arith)
  longer_in g (some b) h = ground arith

  NoneLonger-le : (m n : ℕ) (gs : List AgentGroup) → m ≤ n → NoneLonger m gs → NoneLonger n gs
  NoneLonger-le m n [] h k = tt
  NoneLonger-le m n (g ∷ gs) h (k, ks) = ((λ a. omega (arith, k a)), NoneLonger-le m n gs h ks)

  -- The group that is chosen, or the one before, has the longest name of those that apply.
  best_group_longest :
      (gs : List AgentGroup) (best : Option AgentGroup)
      → (size best ≤ size (best_group ua gs best)) × NoneLonger (size (best_group ua gs best)) gs
  unfolding best_group round
  best_group_longest [] best = (omega arith, tt)
  best_group_longest (g ∷ gs) best =
      let (grows, longest) = best_group_longest gs (round g best) in
      (
        omega (arith, grows, size-round g best),
        ((λ a. omega (arith, grows, longer_in g best a)), longest),
      )

  AppliesOption : Option AgentGroup → Type 0
  AppliesOption none = Unit
  AppliesOption (some g) = applies ua g ≡ true

  round-AppliesOption :
      (g : AgentGroup) (best : Option AgentGroup)
      → AppliesOption best
      → AppliesOption (round g best)
  unfolding round AppliesOption
  round-AppliesOption g none h = elim (Bool-cases (applies ua g)) [
    | inl e ↦ rw e e
    | inr e ↦ rw e tt
  ]
  round-AppliesOption g (some b) h = ground arith

  best_group-AppliesOption :
      (gs : List AgentGroup) (best : Option AgentGroup)
      → AppliesOption best
      → AppliesOption (best_group ua gs best)
  unfolding best_group round
  best_group-AppliesOption [] best h = h
  best_group-AppliesOption (g ∷ gs) best h =
      best_group-AppliesOption gs (round g best) (round-AppliesOption g best h)

  -- The chosen group applies to the user agent, and no other that applies has a longer name.
  pub best_group_lem :
      (gs : List AgentGroup) (g : AgentGroup)
      → best_group ua gs none ≡ some g
      → (applies ua g ≡ true) × NoneLonger (str_len g.agent) gs
  unfolding AppliesOption
  best_group_lem gs g e =
      (rw e at (best_group-AppliesOption gs none tt), rw e at (best_group_longest gs none).1)

  abbrev pub NoneApplies : List AgentGroup → Type 0
  NoneApplies = All (λ g. applies ua g ≡ false)

  best_group-none : (gs : List AgentGroup) → NoneApplies gs → best_group ua gs none ≡ none
  unfolding best_group
  best_group-none [] h = refl
  best_group-none (g ∷ gs) (h, hs) = rw h (best_group-none gs hs)

-- Where no group applies, not even a wildcard, the first group decides all the same, although there
-- is then no crawl delay.
pub is_allowed_unnamed :
    (g : AgentGroup) (gs : List AgentGroup) (user_agent path : Str)
    → NoneApplies (to_ascii_lowercase user_agent) (g ∷ gs)
    → (is_allowed (record { groups = g ∷ gs }) user_agent path
        ≡ some (leb (longest path g.disallow) (longest path g.allow)))
      × (crawl_delay (record { groups = g ∷ gs }) user_agent ≡ none)
unfolding is_allowed crawl_delay
is_allowed_unnamed g gs user_agent path h =
    let e = best_group-none (to_ascii_lowercase user_agent) (g ∷ gs) h in
    (rw (e, verdict-most_specific_rule g path) refl, rw e refl)
