-- ===== src/Crawler/Client/Retries.antt =====
-- How often an address is fetched, and which attempt's result is returned.
use native.Mathlib.Decide.{dec_lt}
use google_co.Base.{ℕ, zero, suc, ◌+◌, ◌≤◌, ◌<◌, ◌≡◌, refl, ap, arith, true, false, ◌⊎◌, inl, inr}
use google_co.Base.Results.{Result, ok, err}
use google_co.Crawler.Client.{
  ClientError, ClientResponse, Fetched, is_retryable, slept, attempted, fetch_from,
  fetch_with_retries,
}

-- This result makes the loop go on.
abbrev pub GoesOn : Result ClientError ClientResponse → Type 0
GoesOn (ok _) = ⊥
GoesOn (err e) = is_retryable e ≡ true

abbrev pub Final : Result ClientError ClientResponse → Type 0
Final (ok _) = Unit
Final (err e) = is_retryable e ≡ false

module _ (fetch : ℕ → Result ClientError ClientResponse) where
  -- The loop stopped at attempt `k` and returned its result.
  pub record StoppedAt (start last k : ℕ) (f : Fetched) : Type 0 where
    pub in_range : (start ≤ k) × (k ≤ last)
    pub retried : (j : ℕ) → start ≤ j → j < k → GoesOn (fetch j)
    pub final : Final (fetch k) ⊎ (k ≡ last)
    pub result : f.result ≡ fetch k
    pub attempts : f.attempts ≡ k + 1
    pub sleeps : f.sleeps + start ≡ k

  attempted_final :
      (r : Result ClientError ClientResponse) (n : ℕ) (later : Fetched)
      → Final r
      → attempted r n later ≡ record { result = r; attempts = n; sleeps = 0 }
  attempted_final (ok _) n later h = refl
  attempted_final (err e) n later h = rw h refl

  attempted_on :
      (r : Result ClientError ClientResponse) (n : ℕ) (later : Fetched)
      → GoesOn r
      → attempted r n later ≡ later
  attempted_on (ok _) n later h = absurd h
  attempted_on (err e) n later h = rw h refl

  decide : (r : Result ClientError ClientResponse) → Final r ⊎ GoesOn r
  decide (ok _) = inl tt
  decide (err ClientError.invalid_message) = inl refl
  decide (err ClientError.connection) = inr refl
  decide (err ClientError.timeout) = inr refl
  decide (err ClientError.io) = inr refl

  stop_now :
      (start last : ℕ) (f : Fetched)
      → start ≤ last
      → Final (fetch start) ⊎ (start ≡ last)
      → f ≡ record { result = fetch start; attempts = start + 1; sleeps = 0 }
      → StoppedAt start last start f
  stop_now start last f le final e = record {
    in_range = (omega arith, le);
    retried = λ j h k. absurd (omega arith);
    final = final;
    result = ap (λ f. f.result) e;
    attempts = ap (λ f. f.attempts) e;
    sleeps = rw e (omega arith);
  }

  last_attempt :
      (r : Result ClientError ClientResponse) (n : ℕ)
      → attempted r n (record { result = r; attempts = n; sleeps = 0 })
        ≡ record { result = r; attempts = n; sleeps = 0 }
  last_attempt r n = elim (decide r) [
    | inl h ↦ attempted_final r n _ h
    | inr h ↦ attempted_on r n _ h
  ]

  go_on :
      (start last k : ℕ) (f : Fetched)
      → GoesOn (fetch start)
      → StoppedAt (start + 1) last k f
      → StoppedAt start last k (slept f)
  go_on start last k f h s = record {
    in_range = (omega (arith, s.in_range.0), s.in_range.1);
    retried = λ j low high. elim (dec_lt start j) [
      | yes p ↦ s.retried j (omega arith) high
      | no p ↦ let same : j ≡ start = omega arith in rw same h
    ];
    final = s.final;
    result = s.result;
    attempts = s.attempts;
    sleeps = omega (arith, s.sleeps);
  }

  fetch_from-StoppedAt :
      (start left last : ℕ)
      → start + left ≡ last
      → (k : ℕ) × StoppedAt start last k (fetch_from fetch start left)
  unfolding fetch_from
  fetch_from-StoppedAt start zero last e = (
    start,
    stop_now start last _ (omega arith) (inr (omega arith))
        (last_attempt (fetch start) (start + 1)),
  )
  fetch_from-StoppedAt start (suc left) last e = elim (decide (fetch start)) [
    | inl h ↦ (start, stop_now start last _ (omega arith) (inl h) (attempted_final _ _ _ h))
    | inr h ↦
        let (k, s) = fetch_from-StoppedAt (start + 1) left last (omega arith) in
        (
          k,
          rw (attempted_on (fetch start) (start + 1) (slept (fetch_from fetch (start + 1) left)) h)
              (go_on start last k _ h s),
        )
  ]

-- With `retries` retries there is an attempt, numbered from 0 to `retries`, whose result is
-- returned: the first one that succeeds or is refused as invalid, or else the last. All before it
-- failed otherwise, and the client slept once behind each of them.
pub fetch_with_retries-StoppedAt :
    (fetch : ℕ → Result ClientError ClientResponse) (retries : ℕ)
    → (k : ℕ) × StoppedAt fetch 0 retries k (fetch_with_retries fetch retries)
unfolding fetch_with_retries
fetch_with_retries-StoppedAt fetch retries =
    fetch_from-StoppedAt fetch 0 retries retries (omega arith)
