-- ===== src/Crawler/Render/Laws.antt =====
-- Rendering ends, and what it returns in each case.
use google_co.Base.{
  ℕ, zero, suc, ◌+◌, ◌<◌, ◌≡◌, refl, arith, true, false, ◌++◌, Option, none, some, length, drop,
  length-drop, Option-cases, Bool-cases, inl, inr, ◌⊎◌,
}
use google_co.Str.Ascii.{Str, to_ascii_lowercase}
use google_co.Str.Length.{length-to_ascii_lowercase}
use google_co.Str.Search.{find, find-le}
use google_co.Crawler.Render.{
  DynamicReason, RenderConfig, RenderOutcome, detect_dynamic, Cut, whole, unclosed, closed, cut_at,
  next_script, strip_cut, strip_from, strip_script_blocks, static_mode, rendered_mode, exceeds,
  marked, render_as, render_once, script_open, script_close,
}

Shorter : Cut → ℕ → Type 0
Shorter whole n = Unit
Shorter (unclosed piece) n = Unit
Shorter (closed piece behind) n = length behind < n

next_script-Shorter : (s : Str) → Shorter (next_script s) (length s)
unfolding next_script Shorter
next_script-Shorter s = elim (Option-cases (find (to_ascii_lowercase s) script_open)) [
  | inl e ↦ rw e tt
  | inr (start, e) ↦
      let low = drop start (to_ascii_lowercase s) in
      elim (Option-cases (find low script_close)) [
        | inl c ↦ rw (e, cut_at, c) tt
        | inr (pos, c) ↦
            rw (e, cut_at, c)
              (omega (
                arith,
                length-drop (start + pos + 9) s,
                find-le (to_ascii_lowercase s) script_open start e,
                find-le low script_close pos c,
                length-to_ascii_lowercase s,
                length-drop start (to_ascii_lowercase s),
              ))
      ]
]

Cut-cases :
    (c : Cut)
    → ((piece : Str) × (behind : Str) × (c ≡ closed piece behind))
      ⊎ ((rest : Str) (later : Str → Option Str) → (t : Str) × (strip_cut later rest c ≡ some t))
Cut-cases whole = inr (λ rest later. (rest, refl))
Cut-cases (unclosed piece) = inr (λ rest later. (piece, refl))
Cut-cases (closed piece behind) = inl (piece, behind, refl)

strip_from_total : (f : ℕ) (s : Str) → length s < f → (t : Str) × (strip_from f s ≡ some t)
unfolding strip_from Shorter
strip_from_total zero s h = absurd (omega arith)
strip_from_total (suc f) s h = elim (Cut-cases (next_script s)) [
  | inr ends ↦ ends s (λ r. strip_from f r)
  | inl (piece, behind, e) ↦
      let less : length behind < length s = rw e at (next_script-Shorter s) in
      let (t, q) = strip_from_total f behind (omega arith) in (piece ++ t, rw (e, q) refl)
]

-- Stripping the scripts ends, whatever the text is.
pub strip_script_blocks_total : (s : Str) → (t : Str) × (strip_script_blocks s ≡ some t)
unfolding strip_script_blocks
strip_script_blocks_total s = strip_from_total (suc (length s)) s (omega arith)

-- The three outcomes: a static page is kept; a dynamic page over the budget is kept and marked as
-- timed out; any other is stripped of its scripts and marked.
pub data Outcome (html : Str) (cfg : RenderConfig) (o : RenderOutcome) : Type 0 where
  static :
      detect_dynamic html ≡ none
      → o ≡ record { content = html; render_mode = static_mode; timed_out = false; reason = none }
      → Outcome html cfg o
  late :
      (r : DynamicReason)
      → detect_dynamic html ≡ some r
      → exceeds cfg ≡ true
      → o ≡ record { content = html; render_mode = static_mode; timed_out = true; reason = some r }
      → Outcome html cfg o
  in_budget :
      (r : DynamicReason) (stripped : Str)
      → detect_dynamic html ≡ some r
      → exceeds cfg ≡ false
      → strip_script_blocks html ≡ some stripped
      → o ≡ record {
        content = marked stripped;
        render_mode = rendered_mode;
        timed_out = false;
        reason = some r;
      }
      → Outcome html cfg o

-- Rendering always returns, with one of the three outcomes.
pub render_once-Outcome :
    (html : Str) (cfg : RenderConfig)
    → (o : RenderOutcome) × (render_once html cfg ≡ some o) × Outcome html cfg o
unfolding render_once
render_once-Outcome html cfg = elim (Option-cases (detect_dynamic html)) [
  | inl e ↦ (_, rw e refl, static e refl)
  | inr (r, e) ↦ elim (Bool-cases (exceeds cfg)) [
    | inl over ↦ (_, rw (e, render_as, over) refl, late r e over refl)
    | inr under ↦
        let (t, q) = strip_script_blocks_total html in
        (_, rw (e, render_as, under, q) refl, in_budget r t e under q refl)
  ]
]
