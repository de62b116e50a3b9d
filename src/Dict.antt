-- ===== src/Dict.antt =====
-- `HashMap` and `HashSet` with text keys, as association lists. The program never depends on the
-- order of iteration where these are used.
use google_co.Base.{◌≡◌, Option, none, some, List, [], ◌∷◌, arith, if◌then◌else◌}
use google_co.Str.Ascii.{Str, eq, eq_iff}

abbrev pub Dict {ℓ} : Type ℓ → Type ℓ
Dict V = List (Str × V)

module _ {ℓ} {V : Type ℓ} where
  unfoldable pub lookup : Str → Dict V → Option V
  lookup k [] = none
  lookup k ((j, v) ∷ m) = let later = lookup k m in if eq j k then some v else later

  unfoldable pub remove : Str → Dict V → Dict V
  remove k [] = []
  remove k ((j, v) ∷ m) = let rest = remove k m in if eq j k then rest else (j, v) ∷ rest

  unfoldable pub insert : Str → V → Dict V → Dict V
  unfolding remove
  insert k v m = (k, v) ∷ remove k m

  pub lookup-remove :
      (k j : Str) (m : Dict V) → lookup j (remove k m) ≡ (if eq k j then none else lookup j m)
  unfolding lookup remove
  lookup-remove k j [] = ground arith
  lookup-remove k j ((i, v) ∷ m) =
      ground (arith, lookup-remove k j m, eq_iff i k, eq_iff i j, eq_iff k j)

  pub lookup-insert :
      (k j : Str) (v : V) (m : Dict V)
      → lookup j (insert k v m) ≡ (if eq k j then some v else lookup j m)
  unfolding lookup insert
  lookup-insert k j v m = simp lookup-remove (ground arith)

-- A set is a dictionary with nothing to look up.
abbrev pub Set : Type 0
Set = Dict (Unit {0})
