-- ===== src/Base/Options.antt =====
-- Options as results of fallible steps.
use mathlib.Core.Path.{◌≡◌, refl}
use mathlib.Core.Logic.{◌⊎◌, inl, inr}
use mathlib.Core.Bool.{Bool, true, false}
use mathlib.Core.Option.{Option, none, some}

infixl 5 ◌>>=◌
abbrev pub ◌>>=◌ {ℓ κ} : {A : Type ℓ} {B : Type κ} → Option A → (A → Option B) → Option B
none >>= f = none
some a >>= f = f a

module _ {ℓ} {A : Type ℓ} where
  abbrev pub unwrap_or : Option A → A → A
  unwrap_or none d = d
  unwrap_or (some a) d = a

  abbrev pub is_some : Option A → Bool
  is_some none = false
  is_some (some a) = true

  abbrev pub or : Option A → Option A → Option A
  or none o = o
  or (some a) o = some a

  pub Option-cases : (o : Option A) → (o ≡ none) ⊎ ((a : A) × (o ≡ some a))
  Option-cases none = inl refl
  Option-cases (some a) = inr (a, refl)

  pub eq_of_some : {a b : A} → some a ≡ some b → a ≡ b
  eq_of_some e = cc

  pub none≢some : {a : A} → none ≡ some a → ⊥
  none≢some e = cc

-- A chain that succeeds has a first step that does, and its second step returns the result.
pub >>=-eq-some {ℓ κ} :
    {A : Type ℓ} {B : Type κ} (first : Option A) (next : A → Option B) {y : B}
    → ◌>>=◌ first next ≡ some y
    → (x : A) × (first ≡ some x) × (next x ≡ some y)
>>=-eq-some none next e = cc
>>=-eq-some (some value) next e = (value, refl, e)
