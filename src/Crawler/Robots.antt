-- ===== src/Crawler/Robots.antt =====
-- gurtd/src/crawler/robots.rs: parsing robots.txt, and which paths it allows.
pub mod Groups
pub mod Rules
pub mod Choice
use google_co.Base.{
  ℕ, ◌+◌, ◌*◌, ◌^◌, Bool, true, false, ◌||◌, List, [], ◌∷◌, ◌++◌, ltb, if◌then◌else◌, Option, none,
  some, is_empty, length, ◌>>=◌, or, not, ◌&&◌,
}
use google_co.Str.Ascii.{Str, codes, eq, trim, to_ascii_lowercase}
use google_co.Str.Search.{starts_with, contains}
use google_co.Str.Split.{lines, split_once}
use google_co.Str.Number.{parse_unsigned, u64_max}
use google_co.Str.Length.{str_len}

-- A duration in nanoseconds.
abbrev pub Duration : Type 0
Duration = ℕ

pub record AgentGroup : Type 0 where
  pub agent : Str
  pub allow : List Str
  pub disallow : List Str
  pub crawl_delay : Option Duration

pub record RobotsTxt : Type 0 where
  pub groups : List AgentGroup

abbrev pub fresh : Str → AgentGroup
fresh agent = record { agent = agent; allow = []; disallow = []; crawl_delay = none }

abbrev bump : Option ℕ → Option ℕ
bump none = none
bump (some i) = some (ℕ.suc i)

unfoldable pub position : List AgentGroup → Str → Option ℕ
position [] agent = none
position (g ∷ gs) agent =
    let rest = bump (position gs agent) in if eq g.agent agent then some 0 else rest

abbrev or_pushed : Option ℕ → List AgentGroup → Str → List AgentGroup × ℕ
or_pushed (some i) gs agent = (gs, i)
or_pushed none gs agent = (gs ++ fresh agent ∷ [], length gs)

unfoldable pub get_or_create_group_index : List AgentGroup → Str → List AgentGroup × ℕ
unfolding position
get_or_create_group_index gs agent = or_pushed (position gs agent) gs agent

-- `groups[i] = f(groups[i])`
unfoldable pub modify_at : ℕ → (AgentGroup → AgentGroup) → List AgentGroup → List AgentGroup
modify_at i f [] = []
modify_at ℕ.zero f (g ∷ gs) = f g ∷ gs
modify_at (ℕ.suc i) f (g ∷ gs) = g ∷ modify_at i f gs

unfoldable pub on_group : (AgentGroup → AgentGroup) → Str → List AgentGroup → List AgentGroup
on_group f agent gs = let (gs', i) = get_or_create_group_index gs agent in modify_at i f gs'

-- `for a in &current_agents`
unfoldable pub on_groups : (AgentGroup → AgentGroup) → List Str → List AgentGroup → List AgentGroup
on_groups f [] gs = gs
on_groups f (a ∷ as') gs = on_groups f as' (on_group f a gs)

unfoldable pub ensure_groups : List Str → List AgentGroup → List AgentGroup
ensure_groups [] gs = gs
ensure_groups (a ∷ as') gs = ensure_groups as' (get_or_create_group_index gs a).0

-- The two variables of the parser's loop.
pub record ParseState : Type 0 where
  pub groups : List AgentGroup
  pub current_agents : List Str

abbrev pub star : Str
star = codes "*"

abbrev pub or_star : List Str → List Str
or_star [] = star ∷ []
or_star (a ∷ as') = a ∷ as'

abbrev pub with_groups : (AgentGroup → AgentGroup) → ParseState → ParseState
with_groups f st =
    let agents = or_star st.current_agents in
    record { groups = on_groups f agents st.groups; current_agents = agents }

abbrev pub push_allow : Str → AgentGroup → AgentGroup
push_allow v g = record g { allow = g.allow ++ v ∷ [] }

abbrev pub push_disallow : Str → AgentGroup → AgentGroup
push_disallow v g = record g { disallow = g.disallow ++ v ∷ [] }

abbrev pub set_delay : Option Duration → AgentGroup → AgentGroup
set_delay d g = record g { crawl_delay = d }

abbrev pub name_agent : Str → ParseState → ParseState
name_agent agent st =
    let agents = st.current_agents ++ agent ∷ [] in
    record { groups = ensure_groups agents st.groups; current_agents = agents }

-- `f64` is a parameter: `secs_f64 s` is `none` where `s` is no `f64`, `some none` where
-- `Duration::from_secs_f64(f.max(0.0))` panics, and else the duration.
module _ (secs_f64 : Str → Option (Option Duration)) where
  abbrev fractional : Option (Option Duration) → Option (Option Duration)
  fractional none = some none
  fractional (some none) = none
  fractional (some (some d)) = some (some d)

  abbrev whole_or : Option ℕ → Str → Option (Option Duration)
  whole_or (some n) sv = some (some (n * 10 ^ 9))
  whole_or none sv = fractional (secs_f64 sv)

  -- `none` is a panic.
  unfoldable pub parse_crawl_delay : Str → Option (Option Duration)
  parse_crawl_delay s =
      let sv = trim s in if is_empty sv then some none else whole_or (parse_unsigned u64_max sv) sv

  abbrev delayed : Option (Option Duration) → ParseState → Option ParseState
  delayed none st = none
  delayed (some d) st = some (with_groups (set_delay d) st)

  -- One directive: its key in lower case and its value.
  unfoldable pub directive : Str → Str → ParseState → Option ParseState
  unfolding parse_crawl_delay
  directive key val st =
      if eq key (codes "user-agent")
      then some (name_agent (to_ascii_lowercase val) st)
      else if eq key (codes "allow")
      then some (with_groups (push_allow val) st)
      else if eq key (codes "disallow")
      then some (with_groups (push_disallow val) st)
      else if eq key (codes "crawl-delay")
      then delayed (parse_crawl_delay val) st
      else some st

  abbrev keyed : Option (Str × Str) → ParseState → Option ParseState
  keyed none st = some st
  keyed (some (k, v)) st = directive (to_ascii_lowercase (trim k)) (trim v) st

  unfoldable pub robots_line : Str → ParseState → Option ParseState
  robots_line raw_line st =
      let line = trim raw_line in
      if is_empty line || starts_with line (codes "#")
      then some st
      else keyed (split_once line b':') st

  unfoldable pub robots_lines : List Str → ParseState → Option ParseState
  robots_lines [] st = some st
  robots_lines (l ∷ ls) st = do st' ← robots_line l st; robots_lines ls st'

  abbrev pub or_default : List AgentGroup → List AgentGroup
  or_default [] = fresh star ∷ []
  or_default (g ∷ gs) = g ∷ gs

  abbrev pub initial : ParseState
  initial = record { groups = []; current_agents = [] }

  -- `none` is a panic.
  unfoldable pub parse : Str → Option RobotsTxt
  parse input = do
    st ← robots_lines (lines input) initial
    some (record { groups = or_default st.groups })

-- The group names this user agent (in lower case), or every one.
abbrev pub applies : Str → AgentGroup → Bool
applies ua g = eq g.agent star || contains ua g.agent

abbrev pub longer : AgentGroup → Option AgentGroup → Option AgentGroup
longer g none = some g
longer g (some prev) = if ltb (str_len prev.agent) (str_len g.agent) then some g else some prev

unfoldable pub best_group : Str → List AgentGroup → Option AgentGroup → Option AgentGroup
best_group ua [] best = best
best_group ua (g ∷ gs) best = best_group ua gs (if applies ua g then longer g best else best)

pub data Rule : Type 0 where
  allow disallow : Str → Rule

abbrev pub pattern_of : Rule → Str
pattern_of (allow s) = s
pattern_of (disallow s) = s

abbrev pub is_allow : Rule → Bool
is_allow (allow _) = true
is_allow (disallow _) = false

-- The closure `test`: the rule against the best one so far.
abbrev pub wins : Rule → Option Rule → Bool
wins rule none = true
wins rule (some prev) =
    let len = str_len (pattern_of rule) in
    let prev_len = str_len (pattern_of prev) in
    if ltb prev_len len
    then true
    else if ltb len prev_len
    then false
    else not (is_allow prev) && is_allow rule

unfoldable pub test_rule : Str → Rule → Option Rule → Option Rule
test_rule path rule best =
    if is_empty (pattern_of rule)
    then best
    else if starts_with path (pattern_of rule)
    then (if wins rule best then some rule else best)
    else best

unfoldable pub test_rules : Str → (Str → Rule) → List Str → Option Rule → Option Rule
test_rules path kind [] best = best
test_rules path kind (p ∷ ps) best = test_rules path kind ps (test_rule path (kind p) best)

unfoldable pub most_specific_rule : AgentGroup → Str → Option Rule
most_specific_rule g path = test_rules path disallow g.disallow (test_rules path allow g.allow none)

abbrev pub verdict : Option Rule → Bool
verdict none = true
verdict (some rule) = is_allow rule

abbrev first_of_groups : List AgentGroup → Option AgentGroup
first_of_groups [] = none
first_of_groups (g ∷ _) = some g

-- `none` where `groups[0]` would panic.
unfoldable pub is_allowed : RobotsTxt → Str → Str → Option Bool
is_allowed r user_agent path = do
  group ← or (best_group (to_ascii_lowercase user_agent) r.groups none) (first_of_groups r.groups)
  some (verdict (most_specific_rule group path))

unfoldable pub crawl_delay : RobotsTxt → Str → Option Duration
crawl_delay r user_agent = do
  group ← best_group (to_ascii_lowercase user_agent) r.groups none
  group.crawl_delay

unfoldable pub is_allowed_with_robots : Option RobotsTxt → Str → Str → Option Bool
is_allowed_with_robots none user_agent path = some true
is_allowed_with_robots (some r) user_agent path = is_allowed r user_agent path
