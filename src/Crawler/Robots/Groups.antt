-- ===== src/Crawler/Robots/Groups.antt =====
-- Groups by agent while robots.txt is parsed, and to which agents a rule is added.
use mathlib.Core.Path.{subst}
use google_co.Base.{
  ◌≡◌, refl, ap, arith, Bool, true, ◌||◌, List, [], ◌∷◌, ◌++◌, if◌then◌else◌, Option, none, some,
  inl, inr, Bool-cases, Option-cases, ◌>>=◌, any, eq_of_some, or,
}
use google_co.Str.Ascii.{Str, codes, eq, eq_iff, eq_refl, eq→≡, to_ascii_lowercase}
use google_co.Str.Split.{lines}
use google_co.Crawler.Robots.{
  AgentGroup, RobotsTxt, Duration, fresh, position, get_or_create_group_index, modify_at, on_group,
  on_groups, ParseState, or_star, with_groups, push_disallow, name_agent, directive, robots_lines,
  initial, or_default, parse, is_allowed, best_group, verdict, most_specific_rule,
}

-- The group of an agent.
unfoldable pub group_of : Str → List AgentGroup → Option AgentGroup
group_of a [] = none
group_of a (g ∷ gs) = let rest = group_of a gs in if eq g.agent a then some g else rest

abbrev pub group_or_fresh : Str → Option AgentGroup → AgentGroup
group_or_fresh a none = fresh a
group_or_fresh a (some g) = g

module _ (f : AgentGroup → AgentGroup) where
  on_group-cons :
      (a : Str) (g : AgentGroup) (gs : List AgentGroup)
      → on_group f a (g ∷ gs) ≡ (if eq g.agent a then f g ∷ gs else g ∷ on_group f a gs)
  unfolding on_group get_or_create_group_index position modify_at
  on_group-cons a g gs = elim (Bool-cases (eq g.agent a)) [
    | inl e ↦ rw e refl
    | inr e ↦ elim (Option-cases (position gs a)) [
      | inl p ↦ rw (e, p) refl
      | inr (i, p) ↦ rw (e, p) refl
    ]
  ]

  on_group-nil : (a : Str) → on_group f a [] ≡ f (fresh a) ∷ []
  unfolding on_group get_or_create_group_index position modify_at
  on_group-nil a = refl

  module _ (keeps : (g : AgentGroup) → (f g).agent ≡ g.agent) where
    -- Changing the group of one agent, which is created if need be, leaves the others alone.
    pub group_of-on_group :
        (a j : Str) (gs : List AgentGroup)
        → group_of j (on_group f a gs)
          ≡ (if eq a j then some (f (group_or_fresh a (group_of a gs))) else group_of j gs)
    unfolding group_of
    group_of-on_group a j [] =
        rw (on_group-nil a)
          (ap (λ n. if eq n j then some (f (fresh a)) else none) (keeps (fresh a)))
    group_of-on_group a j (g ∷ gs) = rw (on_group-cons a g gs) (
        ground (
          arith,
          eq_iff g.agent a,
          eq_iff g.agent j,
          eq_iff a j,
          keeps g,
          group_of-on_group a j gs,
        ))

abbrev pub has_text : Str → List Str → Bool
has_text v vs = any (λ w. eq w v) vs

has_text-append :
    (v : Str) (vs ws : List Str) → has_text v (vs ++ ws) ≡ (has_text v vs || has_text v ws)
has_text-append v [] ws = refl
has_text-append v (w ∷ vs) ws = rw (has_text-append v vs ws) (ground arith)

has_text_last : (v : Str) (vs : List Str) → has_text v (vs ++ v ∷ []) ≡ true
has_text_last v vs = rw (has_text-append v vs (v ∷ []), eq_refl v) (ground arith)

-- The agent has a group, and the rule is among those that disallow.
abbrev pub DisallowsFor : Str → Str → List AgentGroup → Type 0
DisallowsFor a v gs = (g : AgentGroup) × (group_of a gs ≡ some g) × (has_text v g.disallow ≡ true)

module _ (v : Str) where
  group_of-push :
      (a j : Str) (gs : List AgentGroup)
      → group_of j (on_group (push_disallow v) a gs) ≡ (
          if eq a j
          then some (push_disallow v (group_or_fresh a (group_of a gs)))
          else group_of j gs)
  group_of-push = group_of-on_group (push_disallow v) (λ g. refl)

  pushed : (a : Str) (gs : List AgentGroup) → DisallowsFor a v (on_group (push_disallow v) a gs)
  pushed a gs = (
    push_disallow v (group_or_fresh a (group_of a gs)),
    rw (group_of-push a a gs, eq_refl a) refl,
    has_text_last v (group_or_fresh a (group_of a gs)).disallow,
  )

  kept :
      (a j : Str) (gs : List AgentGroup)
      → DisallowsFor j v gs
      → DisallowsFor j v (on_group (push_disallow v) a gs)
  kept a j gs (g, e, h) = elim (Bool-cases (eq a j)) [
    | inl same ↦ rw (eq→≡ a j same) (pushed j gs)
    | inr other ↦ (g, rw (group_of-push a j gs, other) e, h)
  ]

  all_kept :
      (agents : List Str) (j : Str) (gs : List AgentGroup)
      → DisallowsFor j v gs
      → DisallowsFor j v (on_groups (push_disallow v) agents gs)
  unfolding on_groups
  all_kept [] j gs h = h
  all_kept (a ∷ agents) j gs h = all_kept agents j (on_group (push_disallow v) a gs) (kept a j gs h)

  all_pushed :
      (agents : List Str) (j : Str) (gs : List AgentGroup)
      → has_text j agents ≡ true
      → DisallowsFor j v (on_groups (push_disallow v) agents gs)
  unfolding on_groups
  all_pushed [] j gs h = cc
  all_pushed (a ∷ agents) j gs h = elim (Bool-cases (eq a j)) [
    | inl same ↦ all_kept agents j _ (rw (eq→≡ a j same) (pushed j gs))
    | inr other ↦ all_pushed agents j (on_group (push_disallow v) a gs) (rw other at h)
  ]

has_text-or_star :
    (j : Str) (agents : List Str) → has_text j agents ≡ true → or_star agents ≡ agents
has_text-or_star j [] h = cc
has_text-or_star j (a ∷ agents) h = refl

module _ (secs_f64 : Str → Option (Option Duration)) where
  -- A `Disallow` line adds its rule to every agent that has been named so far.
  pub directive_disallow :
      (v j : Str) (st : ParseState)
      → has_text j st.current_agents ≡ true
      → (st' : ParseState) × (directive secs_f64 (codes "disallow") v st ≡ some st')
        × DisallowsFor j v st'.groups
  unfolding directive eq
  directive_disallow v j st h = (
    with_groups (push_disallow v) st,
    refl,
    rw (has_text-or_star j st.current_agents h) (all_pushed v st.current_agents j st.groups h),
  )

  -- If an agent has been named before, the `Disallow` rule of a later record, for another agent, is
  -- added to the first agent too.
  pub later_record_leaks :
      (a b v : Str) (st : ParseState)
      → has_text a st.current_agents ≡ true
      → (st' : ParseState) × ((directive secs_f64 (codes "user-agent") b st
            >>= directive secs_f64 (codes "disallow") v)
          ≡ some st')
        × DisallowsFor a v st'.groups
  later_record_leaks a b v st h =
      let named : has_text a (st.current_agents ++ to_ascii_lowercase b ∷ []) ≡ true =
        rw (has_text-append a st.current_agents (to_ascii_lowercase b ∷ []), h) refl in
      let (st', e, d) = directive_disallow v a (name_agent (to_ascii_lowercase b) st) named in
      (st', (rw (first b st) e), d)
    where
      first :
          (b : Str) (st : ParseState)
          → directive secs_f64 (codes "user-agent") b st
            ≡ some (name_agent (to_ascii_lowercase b) st)
      first b st = unfold directive eq in refl

  NonEmpty : List AgentGroup → Type 0
  NonEmpty [] = ⊥
  NonEmpty (_ ∷ _) = Unit

  or_default-NonEmpty : (gs : List AgentGroup) → NonEmpty (or_default secs_f64 gs)
  unfolding NonEmpty
  or_default-NonEmpty [] = tt
  or_default-NonEmpty (g ∷ gs) = tt

  or_total : {A : Type 0} (o : Option A) (a : A) → (b : A) × (or o (some a) ≡ some b)
  or_total none a = (a, refl)
  or_total (some b) a = (b, refl)

  answered :
      (r : RobotsTxt) (ua path : Str)
      → NonEmpty r.groups
      → (b : Bool) × (is_allowed r ua path ≡ some b)
  unfolding is_allowed
  answered r ua path h = go r.groups h
    where
      go :
          (gs : List AgentGroup)
          → NonEmpty gs
          → (b : Bool) × (is_allowed (record { groups = gs }) ua path ≡ some b)
      go [] h = unfold NonEmpty in absurd h
      go (g ∷ gs) h =
          let chosen = or_total (best_group (to_ascii_lowercase ua) (g ∷ gs) none) g in
          (verdict (most_specific_rule chosen.0 path), rw chosen.1 refl)

  -- A parsed robots.txt answers for every user agent and path: `groups[0]` is there.
  pub parse_answers :
      (input : Str) (r : RobotsTxt) (user_agent path : Str)
      → parse secs_f64 input ≡ some r
      → (b : Bool) × (is_allowed r user_agent path ≡ some b)
  unfolding parse
  parse_answers input r user_agent path e =
      go (robots_lines secs_f64 (lines input) (initial secs_f64)) e
    where
      go :
          (o : Option ParseState)
          → (o >>= λ st. some (record { groups = or_default secs_f64 st.groups })) ≡ some r
          → (b : Bool) × (is_allowed r user_agent path ≡ some b)
      go none q = cc
      go (some st) q =
          answered r user_agent path
            (subst (λ t. NonEmpty t.groups) (eq_of_some q) (or_default-NonEmpty st.groups))
