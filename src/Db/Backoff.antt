-- ===== src/Db/Backoff.antt =====
-- gurt-db/src/lib.rs: the wait between two attempts to connect. `jitter` is what `fastrand` returns.
use google_co.Base.{
  ℕ, zero, suc, ◌+◌, ◌*◌, ◌≤◌, ◌≡◌, ◌⊎◌, inl, inr, refl, arith, ltb, if◌then◌else◌, Bool-cases,
  ltb→lt, not_ltb→le,
}
use native.Mathlib.Nat.{mul-le-mul}
use google_co.Str.Number.{u64_max}

abbrev pub min : ℕ → ℕ → ℕ
min a b = if ltb a b then a else b

unfoldable pub saturating_mul : ℕ → ℕ → ℕ
saturating_mul a b = min (a * b) u64_max

unfoldable pub saturating_add : ℕ → ℕ → ℕ
saturating_add a b = min (a + b) u64_max

-- The factor after a number of rounds of doubling.
unfoldable pub doubled : ℕ → ℕ
doubled zero = 1
doubled (suc n) = saturating_mul (doubled n) 2

abbrev pub rounds_before : ℕ → ℕ
rounds_before zero = zero
rounds_before (suc attempt) = attempt

unfoldable pub compute_backoff_ms : ℕ → ℕ → ℕ → ℕ
compute_backoff_ms base_ms attempt jitter =
    saturating_add (min (saturating_mul base_ms (doubled (rounds_before attempt))) 30000) jitter

min_cases : (a b : ℕ) → ((min a b ≡ a) × (a ≤ b)) ⊎ ((min a b ≡ b) × (b ≤ a))
min_cases a b = elim (Bool-cases (ltb a b)) [
  | inl e ↦ inl (rw e refl, omega (arith, ltb→lt a b e))
  | inr e ↦ inr (rw e refl, not_ltb→le b a e)
]

-- The powers of two, without a bound.
abbrev pub pow2 : ℕ → ℕ
pow2 zero = 1
pow2 (suc n) = pow2 n * 2

doubled-pow2 : (n : ℕ) → (doubled n ≡ pow2 n) ⊎ ((doubled n ≡ u64_max) × (u64_max ≤ pow2 n))
unfolding doubled saturating_mul
doubled-pow2 zero = inl refl
doubled-pow2 (suc n) = elim (doubled-pow2 n) [
  | inl e ↦
      rw e (elim (min_cases (pow2 n * 2) u64_max) [ inl (a, h) ↦ inl a | inr (a, h) ↦ inr (a, h) ])
  | inr (e, k) ↦ rw e (inr (refl, omega arith))
]

capped_equal : (x y : ℕ) → x ≡ y → min (min x u64_max) 30000 ≡ min y 30000
capped_equal x y h = ground arith

capped_great : (x y : ℕ) → u64_max ≤ x → u64_max ≤ y → min (min x u64_max) 30000 ≡ min y 30000
capped_great x y h k = ground arith

capped-pow2 : (base n : ℕ) → min (saturating_mul base (doubled n)) 30000 ≡ min (base * pow2 n) 30000
unfolding saturating_mul
capped-pow2 base n = elim (doubled-pow2 n) [
  | inl e ↦ rw e (capped_equal (base * pow2 n) (base * pow2 n) refl)
  | inr (e, k) ↦ rw e (great base k)
]
  where
    great :
        (b : ℕ) → u64_max ≤ pow2 n → min (min (b * u64_max) u64_max) 30000 ≡ min (b * pow2 n) 30000
    great zero k = capped_equal (0 * u64_max) (0 * pow2 n) (omega arith)
    great (suc b) k =
        capped_great (suc b * u64_max) (suc b * pow2 n)
          (omega (
            arith,
            mul-le-mul {n₁ = 1} {m₁ = u64_max} {n₂ = suc b} {m₂ = u64_max} (omega arith)
                (omega arith),
          ))
          (omega
            (arith, mul-le-mul {n₁ = 1} {m₁ = u64_max} {n₂ = suc b} {m₂ = pow2 n} (omega arith) k))

-- The wait before a next attempt is the base, doubled for each attempt behind the first, at most 30
-- seconds, and the jitter: the saturation of the factor and of the product never shows, if the jitter
-- leaves room for the 30 seconds below the greatest `u64`.
pub compute_backoff_ms-pow2 :
    (base_ms attempts jitter : ℕ)
    → 30000 + jitter ≤ u64_max
    → compute_backoff_ms base_ms (suc attempts) jitter
      ≡ min (base_ms * pow2 attempts) 30000 + jitter
unfolding compute_backoff_ms saturating_add
compute_backoff_ms-pow2 base_ms attempts jitter h =
    rw (capped-pow2 base_ms attempts) (room (base_ms * pow2 attempts))
  where
    room : (x : ℕ) → min (min x 30000 + jitter) u64_max ≡ min x 30000 + jitter
    room x = ground arith
