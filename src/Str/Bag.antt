-- ===== src/Str/Bag.antt =====
-- A list of texts as a bag: membership, the removal of one occurrence, and how often a text occurs.
use google_co.Base.{
  ℕ, suc, ◌+◌, ◌≤◌, ◌≡◌, refl, ap, arith, Bool, true, false, List, [], ◌∷◌, ◌++◌, if◌then◌else◌,
  Bool-cases, inl, inr, length,
}
use google_co.Str.Ascii.{Str, eq, eq→≡, eq_refl}

abbrev pub contains : List Str → Str → Bool
contains [] d = false
contains (e ∷ ds) d = if eq e d then true else contains ds d

unfoldable pub remove_first : List Str → Str → List Str
remove_first [] d = []
remove_first (e ∷ ds) d = let rest = e ∷ remove_first ds d in if eq e d then ds else rest

abbrev pub tick : Bool → ℕ
tick true = 1
tick false = 0

unfoldable pub count : List Str → Str → ℕ
count [] d = 0
count (e ∷ ds) d = tick (eq e d) + count ds d

pub count-append : (xs ys : List Str) (d : Str) → count (xs ++ ys) d ≡ count xs d + count ys d
unfolding count
count-append [] ys d = omega arith
count-append (x ∷ xs) ys d = omega (arith, count-append xs ys d)

pub contains-count : (ds : List Str) (d : Str) → contains ds d ≡ true → 1 ≤ count ds d
unfolding count
contains-count [] d = λ h. cc
contains-count (e ∷ ds) d = elim (Bool-cases (eq e d)) [
  | inl a ↦ rw a (λ h. omega arith)
  | inr a ↦ rw a (λ h. omega (arith, contains-count ds d h))
]

pub not_contains-count : (ds : List Str) (d : Str) → contains ds d ≡ false → count ds d ≡ 0
unfolding count
not_contains-count [] d = λ h. refl
not_contains-count (e ∷ ds) d = elim (Bool-cases (eq e d)) [
  | inl a ↦ rw a (λ h. cc)
  | inr a ↦ rw a (λ h. omega (arith, not_contains-count ds d h))
]

pub count-remove_first :
    (ds : List Str) (d x : Str)
    → 1 ≤ count ds d
    → count ds x ≡ tick (eq d x) + count (remove_first ds d) x
unfolding count remove_first
count-remove_first [] d x = λ h. absurd (omega arith)
count-remove_first (e ∷ ds) d x = elim (Bool-cases (eq e d)) [
  | inl a ↦ rw a (λ h. ap (λ t. tick (eq t x) + count ds x) (eq→≡ e d a))
  | inr a ↦ rw a (λ h. omega (arith, count-remove_first ds d x (omega arith)))
]

pub length-remove_first :
    (ds : List Str) (d : Str) → contains ds d ≡ true → length ds ≡ suc (length (remove_first ds d))
unfolding remove_first
length-remove_first [] d = λ h. cc
length-remove_first (e ∷ ds) d = elim (Bool-cases (eq e d)) [
  | inl a ↦ rw a (λ h. refl)
  | inr a ↦ rw a (λ h. ap suc (length-remove_first ds d h))
]

pub contains_head : (ds : List Str) (d : Str) → contains (d ∷ ds) d ≡ true
contains_head ds d = rw (eq_refl d) refl
