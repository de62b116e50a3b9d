-- ===== src/Crawler/Scheduler/Spacing.antt =====
-- The calls for one host that pass its gate are at least a crawl delay apart.
use mathlib.Core.Path.{subst}
use google_co.Base.{
  ℕ, ◌+◌, ◌≤◌, ◌≡◌, refl, sym, arith, List, [], ◌∷◌, ◌++◌, Option, none, some, Bool-cases, inl, inr,
  if◌then◌else◌,
}
use google_co.Str.Ascii.{Str, eq, eq→≡, eq_refl}
use google_co.Dict.{Dict, lookup-insert}
use google_co.Crawler.Scheduler.{host_polite_gate, gate_stamp, pass_gate, sleep_time}

-- A call: the host, its delay, the instant at which it holds the gate, and by how much its sleep is late.
pub record Call : Type 0 where
  pub host : Str
  pub delay : ℕ
  pub now : ℕ
  pub late : ℕ

abbrev Gates : Type 0
Gates = Dict (Option ℕ)

-- The gates behind some calls, the latest call first.
unfoldable pub gates_after : List Call → Gates
unfolding pass_gate
gates_after [] = []
gates_after (c ∷ cs) = pass_gate c.host c.delay c.now c.late (gates_after cs)

-- The instant at which a call behind others passes the gate.
unfoldable pub passed_at : Call → List Call → ℕ
unfolding gates_after gate_stamp
passed_at c cs = gate_stamp c.host c.delay c.now c.late (gates_after cs)

-- A gate keeps an instant that is not before `t`.
abbrev StampedBy : ℕ → Option ℕ → Type 0
StampedBy t none = ⊥
StampedBy t (some l) = t ≤ l

StampedBy-spaced :
    (t delay now late : ℕ) (g : Option ℕ)
    → StampedBy t g
    → t + delay ≤ now + sleep_time delay now g + late
unfolding sleep_time
StampedBy-spaced t delay now late none h = absurd h
StampedBy-spaced t delay now late (some l) h = omega arith

-- The gate of a host behind one more call.
host_polite_gate-pass_gate :
    (c : Call) (cs : List Call) (h : Str)
    → host_polite_gate h (gates_after (c ∷ cs))
      ≡ (if eq c.host h then some (passed_at c cs) else host_polite_gate h (gates_after cs))
unfolding host_polite_gate gates_after pass_gate passed_at
host_polite_gate-pass_gate c cs h = elim (Bool-cases (eq c.host h)) [
  | inl a ↦
      rw
        (
          lookup-insert c.host h (some (gate_stamp c.host c.delay c.now c.late (gates_after cs)))
              (gates_after cs),
          a,
        )
        refl
  | inr a ↦
      rw
        (
          lookup-insert c.host h (some (gate_stamp c.host c.delay c.now c.late (gates_after cs)))
              (gates_after cs),
          a,
        )
        refl
]

-- A further call moves no gate back.
gate_step :
    (c : Call) (cs : List Call) (h : Str) (t : ℕ)
    → StampedBy t (host_polite_gate h (gates_after cs))
    → StampedBy t (host_polite_gate h (gates_after (c ∷ cs)))
unfolding passed_at gate_stamp
gate_step c cs h t k = elim (Bool-cases (eq c.host h)) [
  | inl a ↦
      let own =
        subst (λ k. StampedBy t (host_polite_gate k (gates_after cs))) (sym (eq→≡ c.host h a)) k in
      rw (host_polite_gate-pass_gate c cs h, a)
        (omega (arith, StampedBy-spaced t c.delay c.now c.late _ own))
  | inr a ↦ rw (host_polite_gate-pass_gate c cs h, a) k
]

-- The gate of the host of a call keeps an instant that the call does not pass.
gates_after-Stamped :
    (later : List Call) (e : Call) (before : List Call)
    → StampedBy (passed_at e before) (host_polite_gate e.host (gates_after (later ++ e ∷ before)))
gates_after-Stamped [] e before =
    rw (host_polite_gate-pass_gate e before e.host, eq_refl e.host) (omega arith)
gates_after-Stamped (c ∷ later) e before =
    gate_step c (later ++ e ∷ before) e.host (passed_at e before)
      (gates_after-Stamped later e before)

-- Of two calls for one host, the later passes its gate at least its own crawl delay behind the instant
-- at which the earlier passed it, whatever calls come before, between them, and for other hosts, and
-- whatever the clock shows and the sleeps take.
pub passed_at-Spaced :
    (c : Call) (between : List Call) (e : Call) (before : List Call)
    → e.host ≡ c.host
    → passed_at e before + c.delay ≤ passed_at c (between ++ e ∷ before)
unfolding passed_at gate_stamp
passed_at-Spaced c between e before same =
    StampedBy-spaced (passed_at e before) c.delay c.now c.late
      (host_polite_gate c.host (gates_after (between ++ e ∷ before)))
      (subst
        (λ h.
          StampedBy (passed_at e before) (host_polite_gate h (gates_after (between ++ e ∷ before))))
        same (gates_after-Stamped between e before))
