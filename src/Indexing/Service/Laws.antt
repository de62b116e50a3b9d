-- ===== src/Indexing/Service/Laws.antt =====
-- A domain is in flight exactly while it is sent, waits in the channel or is processed, and never twice.
use mathlib.Core.Path.{subst}
use google_co.Base.{
  ℕ, ◌+◌, ◌≤◌, ◌≡◌, refl, ap, arith, Bool, true, false, List, [], ◌∷◌, Option, none, some,
  Bool-cases, inl, inr,
}
use google_co.Str.Ascii.{Str, eq, eq→≡, eq_refl}
use google_co.Str.Bag.{
  contains, tick, count, count-append, contains-count, not_contains-count, count-remove_first,
}
use google_co.Indexing.Service.{
  IndexingService, new, reserve, send, received, receive, finished, finish, is_empty_text,
  enqueue_domain, Step, submits, sends, receives, finishes, Steps, none_yet, step_then,
}

abbrev pub count_job : Option Str → Str → ℕ
count_job none d = 0
count_job (some e) d = tick (eq e d)

abbrev pub IsConsistent : IndexingService → Type 0
IsConsistent s =
    (d : Str)
    → (count s.in_flight d ≡ count s.sending d + count s.channel d + count_job s.processing d)
      × (count s.in_flight d ≤ 1)

reserve-IsConsistent : (d : Str) (s : IndexingService) → IsConsistent s → IsConsistent (reserve d s)
unfolding reserve count
reserve-IsConsistent d s h = elim (Bool-cases (contains s.in_flight d)) [
  | inl a ↦ rw a h
  | inr a ↦ rw a (λ x. elim (Bool-cases (eq d x)) [
    | inl b ↦
        let none_there =
          subst (λ t. count s.in_flight t ≡ 0) (eq→≡ d x b) (not_contains-count s.in_flight d a) in
        rw b (omega (arith, h x, none_there), omega (arith, h x, none_there))
    | inr b ↦ rw b (omega (arith, h x), omega (arith, h x))
  ])
]

enqueue_domain-IsConsistent :
    (d : Str) (s : IndexingService) → IsConsistent s → IsConsistent (enqueue_domain d s)
unfolding enqueue_domain
enqueue_domain-IsConsistent d s h = elim (Bool-cases (is_empty_text d)) [
  | inl a ↦ rw a h
  | inr a ↦ rw a (reserve-IsConsistent d s h)
]

send-IsConsistent :
    (succeeds : Bool) (d : Str) (s : IndexingService)
    → contains s.sending d ≡ true
    → IsConsistent s
    → IsConsistent (send succeeds d s)
unfolding send count
send-IsConsistent true d s k h x =
    let there = contains-count s.sending d k in
    (
      omega (arith, h x, count-remove_first s.sending d x there, count-append s.channel (d ∷ []) x),
      omega (arith, h x),
    )
send-IsConsistent false d s k h x =
    let there = contains-count s.sending d k in
    let reserved : 1 ≤ count s.in_flight d = omega (arith, h d, there) in
    (
      omega (
        arith,
        h x,
        count-remove_first s.sending d x there,
        count-remove_first s.in_flight d x reserved,
      ),
      omega (arith, h x, count-remove_first s.in_flight d x reserved),
    )

received-IsConsistent :
    (c : List Str) (p : Option Str) (s : IndexingService)
    → s.channel ≡ c
    → s.processing ≡ p
    → IsConsistent s
    → IsConsistent (received c p s)
unfolding count
received-IsConsistent [] p s a b h x = h x
received-IsConsistent (d ∷ ds) (some e) s a b h x = h x
received-IsConsistent (d ∷ ds) none s a b h x =
    let in_channel = ap (λ c. count c x) a in
    let idle = ap (λ o. count_job o x) b in
    (omega (arith, h x, in_channel, idle), omega (arith, h x))

finished-IsConsistent :
    (p : Option Str) (s : IndexingService)
    → s.processing ≡ p
    → IsConsistent s
    → IsConsistent (finished p s)
unfolding count
finished-IsConsistent none s a h x = h x
finished-IsConsistent (some d) s a h x =
    let job = ap (λ o. count_job o x) a in
    let own = ap (λ o. count_job o d) a in
    let reserved : 1 ≤ count s.in_flight d = omega (arith, h d, own, ap tick (eq_refl d)) in
    (
      omega (arith, h x, job, count-remove_first s.in_flight d x reserved),
      omega (arith, h x, count-remove_first s.in_flight d x reserved),
    )

Step-IsConsistent : {s t : IndexingService} → Step s t → IsConsistent s → IsConsistent t
unfolding receive finish
Step-IsConsistent {s = s} (submits d) h = enqueue_domain-IsConsistent d s h
Step-IsConsistent {s = s} (sends d succeeds k) h = send-IsConsistent succeeds d s k h
Step-IsConsistent {s = s} receives h = received-IsConsistent s.channel s.processing s refl refl h
Step-IsConsistent {s = s} finishes h = finished-IsConsistent s.processing s refl h

Steps-IsConsistent : {s t : IndexingService} → Steps s t → IsConsistent s → IsConsistent t
Steps-IsConsistent none_yet h = h
Steps-IsConsistent (step_then a later) h = Steps-IsConsistent later (Step-IsConsistent a h)

-- From the start, whatever the threads and the worker do: the set of domains in flight contains a
-- domain exactly as often as it is being sent, waits in the channel or is processed, and once at
-- most. So a domain is never queued twice, and never stays behind when its job is done.
pub reachable-IsConsistent :
    {s : IndexingService}
    → Steps new s
    → (d : Str)
    → (count s.in_flight d ≡ count s.sending d + count s.channel d + count_job s.processing d)
      × (count s.in_flight d ≤ 1)
unfolding new count
reachable-IsConsistent steps = Steps-IsConsistent steps (λ d. (omega arith, omega arith))
