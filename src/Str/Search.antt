-- ===== src/Str/Search.antt =====
-- Prefixes and searches: `starts_with`, `strip_prefix`, `find`, `contains`, `windows(n).any`.
use google_co.Base.{
  ℕ, zero, suc, ◌+◌, ◌-◌, ◌≤◌, ◌<◌, ◌≡◌, ◌≢◌, refl, sym, ap, ◌∙◌, arith, Bool, true, false, ◌&&◌,
  ◌||◌, not, List, [], ◌∷◌, ◌++◌, map, ◌==◌, if◌then◌else◌, length, take, drop, is_some, append-nil,
  Option, none, some, Bool-cases, ◌⊎◌, inl, inr,
}
use google_co.Str.Ascii.{Str}

unfoldable pub starts_with : Str → Str → Bool
starts_with s [] = true
starts_with [] (_ ∷ _) = false
starts_with (c ∷ s) (d ∷ p) = c == d && starts_with s p

unfoldable pub strip_prefix : Str → Str → Option Str
unfolding starts_with
strip_prefix s p = if starts_with s p then some (drop (length p) s) else none

abbrev pub bump : Option ℕ → Option ℕ
bump none = none
bump (some i) = some (suc i)

-- The first position at which `p` occurs.
unfoldable pub find : Str → Str → Option ℕ
unfolding starts_with
find [] p = if starts_with [] p then some 0 else none
find (c ∷ s) p = let rest = bump (find s p) in if starts_with (c ∷ s) p then some 0 else rest

unfoldable pub contains : Str → Str → Bool
unfolding find
contains s p = is_some (find s p)

unfoldable pub find_char : Str → ℕ → Option ℕ
find_char [] b = none
find_char (c ∷ s) b = let rest = bump (find_char s b) in if c == b then some 0 else rest

pub starts_with-append : (p s : Str) → starts_with (p ++ s) p ≡ true
unfolding starts_with
starts_with-append [] s = refl
starts_with-append (c ∷ p) s = ground (arith, starts_with-append p s)

pub starts_with_split : (s p : Str) → starts_with s p ≡ true → s ≡ p ++ drop (length p) s
unfolding starts_with
starts_with_split s [] h = refl
starts_with_split [] (d ∷ p) h = cc
starts_with_split (c ∷ s) (d ∷ p) h = ground (arith, starts_with_split s p)

pub starts_with-length : (s p : Str) → starts_with s p ≡ true → length p ≤ length s
unfolding starts_with
starts_with-length s [] h = omega arith
starts_with-length [] (d ∷ p) h = cc
starts_with-length (c ∷ s) (d ∷ p) h = ground (arith, starts_with-length s p)

-- What is found at `i` stands there, within the text.
pub find-starts_with : (s p : Str) (i : ℕ) → find s p ≡ some i → starts_with (drop i s) p ≡ true
unfolding find
find-starts_with [] p zero h = ground arith
find-starts_with [] p (suc i) h = ground arith
find-starts_with (c ∷ s) p zero h = ground (arith)
find-starts_with (c ∷ s) p (suc i) h = ground (arith, find-starts_with s p i)

pub find-le : (s p : Str) (i : ℕ) → find s p ≡ some i → i + length p ≤ length s
unfolding find
find-le [] p i h = ground (arith, starts_with-length [] p)
find-le (c ∷ s) p zero h = ground (arith, starts_with-length (c ∷ s) p)
find-le (c ∷ s) p (suc i) h = ground (arith, find-le s p i)

-- A text splits at what was found.
pub find_split : (s p : Str) (i : ℕ) → find s p ≡ some i → s ≡ take i s ++ drop i s
find_split s p i h = sym (google_co.Base.take-append-drop i s)

-- Nothing is found before the position that `find` returns.
pub find_first :
    (s p : Str) (i j : ℕ) → find s p ≡ some i → j < i → starts_with (drop j s) p ≡ false
unfolding find
find_first [] p i j h lt = ground arith
find_first (c ∷ s) p zero j h lt = absurd (omega arith)
find_first (c ∷ s) p (suc i) zero h lt = ground arith
find_first (c ∷ s) p (suc i) (suc j) h lt = ground (arith, find_first s p i j)

-- Where nothing is found, `p` starts nowhere.
pub find-none :
    (s p : Str) (j : ℕ) → find s p ≡ none → j ≤ length s → starts_with (drop j s) p ≡ false
unfolding find
find-none [] p zero h le = ground arith
find-none [] p (suc j) h le = absurd (omega arith)
find-none (c ∷ s) p zero h le = ground arith
find-none (c ∷ s) p (suc j) h le = ground (arith, find-none s p j)

-- A text whose first occurrence is at 0.
pub find_here : (s p : Str) → starts_with s p ≡ true → find s p ≡ some 0
unfolding find
find_here [] p h = ground arith
find_here (c ∷ s) p h = ground arith

pub find_char-lt : (s : Str) (b i : ℕ) → find_char s b ≡ some i → i < length s
unfolding find_char
find_char-lt [] b i h = cc
find_char-lt (c ∷ s) b zero h = omega arith
find_char-lt (c ∷ s) b (suc i) h = ground (arith, find_char-lt s b i)

-- A text that ends with `p` contains it.
pub contains_end : (s p : Str) → contains (s ++ p) p ≡ true
unfolding contains
contains_end [] p =
    let here : starts_with p p ≡ true =
      ap (λ q. starts_with q p) (sym (append-nil p)) ∙ starts_with-append p [] in
    rw (find_here p p here) refl
contains_end (c ∷ s) p = behind (starts_with (c ∷ s ++ p) p) (find (s ++ p) p) (contains_end s p)
  where
    behind :
        (b : Bool) (o : Option ℕ) → is_some o ≡ true → is_some (if b then some 0 else bump o) ≡ true
    behind true o h = refl
    behind false none h = cc
    behind false (some i) h = refl
