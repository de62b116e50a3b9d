-- ===== src/Crawler/Render.antt =====
-- gurtd/src/crawler/render.rs: pages with scripts, and their rendering within a time budget.
pub mod Laws
use google_co.Base.{
  ℕ, zero, suc, ◌+◌, Bool, true, false, ◌&&◌, ◌||◌, not, List, [], ◌∷◌, ◌++◌, if◌then◌else◌, ltb,
  Option, none, some, length, take, drop,
}
use google_co.Str.Ascii.{Str, codes, to_ascii_lowercase}
use google_co.Str.Search.{find, contains}

pub data DynamicReason : Type 0 where
  lua_script_tag network_fetch : DynamicReason

-- Durations are counts of one unit.
pub record RenderConfig : Type 0 where
  pub time_budget : ℕ
  pub simulated_cost : Option ℕ

pub record RenderOutcome : Type 0 where
  pub content : Str
  pub render_mode : Str
  pub timed_out : Bool
  pub reason : Option DynamicReason

unfoldable pub with_budget_ms : ℕ → RenderConfig
with_budget_ms ms = record { time_budget = ms; simulated_cost = none }

abbrev pub script_open : Str
script_open = codes "<script"

abbrev pub script_close : Str
script_close = codes "</script>"

unfoldable pub detect_dynamic : Str → Option DynamicReason
detect_dynamic html =
    let low = to_ascii_lowercase html in
    if contains low script_open && contains low (codes "lua")
    then some lua_script_tag
    else if contains low (codes "network.fetch(")
    then some network_fetch
    else none

-- What one round of the scan does with the rest of the text: the piece that is kept, and the text
-- behind the script, if a script closes.
pub data Cut : Type 0 where
  whole : Cut
  unclosed : Str → Cut
  closed : Str → Str → Cut

abbrev cut_at : Str → Option ℕ → Cut
cut_at rest none = whole
cut_at rest (some start) = elim (find (drop start (to_ascii_lowercase rest)) script_close) [
  | none ↦ unclosed (take start rest)
  | some close_pos ↦ closed (take start rest) (drop (start + close_pos + 9) rest)
]

unfoldable pub next_script : Str → Cut
next_script rest = cut_at rest (find (to_ascii_lowercase rest) script_open)

abbrev pub prepend : Str → Option Str → Option Str
prepend s none = none
prepend s (some t) = some (s ++ t)

abbrev pub strip_cut : (Str → Option Str) → Str → Cut → Option Str
strip_cut later rest whole = some rest
strip_cut later rest (unclosed piece) = some piece
strip_cut later rest (closed piece behind) = prepend piece (later behind)

-- The loop, with fuel; `none` means that the fuel ran out.
unfoldable pub strip_from : ℕ → Str → Option Str
strip_from zero rest = none
strip_from (suc f) rest = strip_cut (λ r. strip_from f r) rest (next_script rest)

unfoldable pub strip_script_blocks : Str → Option Str
strip_script_blocks input = strip_from (suc (length input)) input

abbrev pub static_mode : Str
static_mode = codes "static"

abbrev pub rendered_mode : Str
rendered_mode = codes "rendered"

abbrev pub marker : Str
marker = codes "<!-- rendered -->"

abbrev pub exceeds : RenderConfig → Bool
exceeds cfg = elim cfg.simulated_cost [ none ↦ false | some cost ↦ ltb cfg.time_budget cost ]

abbrev pub marked : Str → Str
marked out = if contains out marker then out else out ++ 10 ∷ marker

abbrev pub rendered : Option DynamicReason → Option Str → Option RenderOutcome
rendered reason none = none
rendered reason (some out) = some (record {
  content = marked out;
  render_mode = rendered_mode;
  timed_out = false;
  reason = reason;
})

abbrev pub render_as : Str → RenderConfig → Option DynamicReason → Option RenderOutcome
render_as html cfg none =
    some (record { content = html; render_mode = static_mode; timed_out = false; reason = none })
render_as html cfg (some reason) =
    if exceeds cfg
    then some (record {
      content = html;
      render_mode = static_mode;
      timed_out = true;
      reason = some reason;
    })
    else rendered (some reason) (strip_script_blocks html)

-- The waiting and yielding of the source change no result.
unfoldable pub render_once : Str → RenderConfig → Option RenderOutcome
render_once html cfg = render_as html cfg (detect_dynamic html)
