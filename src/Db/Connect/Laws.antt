-- ===== src/Db/Connect/Laws.antt =====
-- How connecting to the database ends.
use google_co.Base.{
  ℕ, zero, suc, ◌+◌, ◌≤◌, ◌≡◌, refl, sym, ap, arith, max, List, [], ◌∷◌, some, ◌⊎◌, inl, inr, map,
  All,
}
use mathlib.Core.Path.{subst}
use google_co.Base.Results.{Result, ok, err}
use google_co.Str.Ascii.{Str}
use google_co.Db.Backoff.{compute_backoff_ms}
use google_co.Db.Connect.{
  DbConfig, Db, DbInitError, Outside, connect_failed, Attempts, attempt_once, after_wait,
  attempts_from, try_connect_with_retry, at_least_one, behind_first, connect_to,
}

-- The numbers from one on, so many of them.
unfoldable pub from : ℕ → ℕ → List ℕ
from a zero = []
from a (suc n) = a ∷ from (suc a) n

module _ {Pool : Type 0} (out : Outside Pool) (cfg : DbConfig) (url : Str) where
  abbrev pub Fails : ℕ → Type 0
  Fails i = (msg : Str) × (attempt_once out cfg url i ≡ err msg)

  -- The wait behind an attempt.
  abbrev pub wait_behind : ℕ → ℕ
  wait_behind i = compute_backoff_ms cfg.retry_base_backoff_ms i (out.jitter i)

  abbrev pub Connected : ℕ → Result DbInitError Pool → Type 0
  Connected i r = (p : Pool) × (attempt_once out cfg url i ≡ ok p) × (r ≡ ok p)

  -- The end with the error of an attempt, and with the number of attempts.
  abbrev pub GivenUp : ℕ → ℕ → Result DbInitError Pool → Type 0
  GivenUp i n r =
      (msg : Str) × (attempt_once out cfg url i ≡ err msg) × (r ≡ err (connect_failed n msg))

  -- Attempts from `first` to `last` at most: `failed` of them fail, each with its wait behind it, and the
  -- next either succeeds, or fails as well and is `last`. The error names `total` attempts.
  pub record EndsAt (first last total : ℕ) (a : Attempts Pool) : Type 0 where
    pub failed : ℕ
    pub in_range : first + failed ≤ last
    pub all_failed : All Fails (from first failed)
    pub waits : a.0 ≡ map wait_behind (from first failed)
    pub end :
        Connected (first + failed) a.1
        ⊎ ((first + failed ≡ last) × GivenUp (first + failed) total a.1)

  Result-cases : (r : Result Str Pool) → ((p : Pool) × (r ≡ ok p)) ⊎ ((m : Str) × (r ≡ err m))
  Result-cases (ok p) = inl (p, refl)
  Result-cases (err m) = inr (m, refl)

  ends_now :
      (first last total : ℕ) (r : Result DbInitError Pool)
      → first ≤ last
      → Connected first r ⊎ ((first ≡ last) × GivenUp first total r)
      → EndsAt first last total ([], r)
  unfolding from
  ends_now first last total r le e =
      let same : first ≡ first + 0 = omega arith in
      record {
        failed = 0;
        in_range = omega arith;
        all_failed = tt;
        waits = refl;
        end = subst (λ n. Connected n r ⊎ ((n ≡ last) × GivenUp n total r)) same e;
      }

  ends_later :
      (first last total : ℕ) (msg : Str) (later : Attempts Pool)
      → attempt_once out cfg url first ≡ err msg
      → EndsAt (suc first) last total later
      → EndsAt first last total (after_wait (wait_behind first) later)
  unfolding from
  ends_later first last total msg (waits, r) e h =
      let same : suc first + h.failed ≡ first + suc h.failed = omega arith in
      record {
        failed = suc h.failed;
        in_range = omega (arith, h.in_range);
        all_failed = ((msg, e), h.all_failed);
        waits = ap (λ ws. wait_behind first ∷ ws) h.waits;
        end = subst (λ n. Connected n r ⊎ ((n ≡ last) × GivenUp n total r)) same h.end;
      }

  attempts_from-EndsAt :
      (total left first last : ℕ)
      → first + left ≡ last
      → EndsAt first last total (attempts_from out cfg url total left first)
  unfolding attempts_from
  attempts_from-EndsAt total zero first last h =
      elim (Result-cases (attempt_once out cfg url first)) [
        | inl (p, e) ↦ rw e (ends_now first last total _ (omega arith) (inl (p, e, refl)))
        | inr (m, e) ↦
            rw e (ends_now first last total _ (omega arith) (inr (omega arith, (m, e, refl))))
      ]
  attempts_from-EndsAt total (suc left) first last h =
      elim (Result-cases (attempt_once out cfg url first)) [
        | inl (p, e) ↦ rw e (ends_now first last total _ (omega arith) (inl (p, e, refl)))
        | inr (m, e) ↦ rw e (
            ends_later first last total m _ e
              (attempts_from-EndsAt total left (suc first) last (omega arith)))
      ]

at_least_one-max : (n : ℕ) → at_least_one n ≡ max n 1
at_least_one-max zero = refl
at_least_one-max (suc n) = omega arith

behind_first-max : (n : ℕ) → 1 + behind_first n ≡ max n 1
behind_first-max zero = refl
behind_first-max (suc n) = omega arith

-- With an address of the database, the attempts are those from 1 to the configured number, and one at
-- least: those before the last one fail, each with the computed wait of its number behind it; the last
-- one gives the pool, or it has the greatest number, and its message is returned with that number.
pub try_connect_with_retry-EndsAt :
    {Pool : Type 0} (out : Outside Pool) (db : Db Pool) (url : Str)
    → db.cfg.database_url ≡ some url
    → EndsAt out db.cfg url 1
        (max db.cfg.retry_max_attempts 1)
        (max db.cfg.retry_max_attempts 1)
        (try_connect_with_retry out db)
unfolding try_connect_with_retry
try_connect_with_retry-EndsAt out db url h =
    let n = db.cfg.retry_max_attempts in
    subst (λ o. EndsAt out db.cfg url 1 (max n 1) (max n 1) (connect_to out db.cfg o)) (sym h)
      (subst
        (λ t.
          EndsAt out db.cfg url 1 (max n 1) t
            (attempts_from out db.cfg url (at_least_one n) (behind_first n) 1))
        (at_least_one-max n)
        (attempts_from-EndsAt out db.cfg url (at_least_one n) (behind_first n) 1 (max n 1)
          (behind_first-max n)))
