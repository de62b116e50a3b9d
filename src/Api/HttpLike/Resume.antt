-- ===== src/Api/HttpLike/Resume.antt =====
-- The head loop finds the end of the head although it never searches a byte again, and the body
-- loop collects the bytes behind it, however the bytes are cut into chunks.
use google_co.Base.{
  ℕ, zero, suc, ◌+◌, ◌-◌, ◌≤◌, ◌<◌, ◌≡◌, refl, ap, arith, true, false, inl, inr, [], ◌∷◌, ◌++◌,
  Option, none, some, length, take, drop, length-append, length-drop, Option-cases,
}
use google_co.Str.Ascii.{Bytes}
use google_co.Str.Search.{starts_with, find, bump, find-none, find-le, find_here}
use google_co.Api.Headers.{crlfcrlf}

-- `p` starts nowhere in the first `k` positions: the search may begin at `k`.
pub find-drop :
    (k : ℕ) (s p : Bytes)
    → ((j : ℕ) → j < k → starts_with (drop j s) p ≡ false)
    → k ≤ length s
    → find s p ≡ (elim (find (drop k s) p) [ none ↦ none | some i ↦ some (k + i) ])
unfolding find
find-drop zero s p h le = elim (Option-cases (find s p)) [
  | inl e ↦ rw e refl
  | inr (i, e) ↦ rw e (ap some (omega arith))
]
find-drop (suc k) [] p h le = absurd (omega arith)
find-drop (suc k) (c ∷ s) p h le =
    let here : starts_with (c ∷ s) p ≡ false = h 0 (omega arith) in
    let ih = find-drop k s p (λ j lt. h (suc j) (omega arith)) (omega arith) in
    rw (here, ih) (shifted (find (drop k s) p))
  where
    shifted :
        (o : Option ℕ)
        → bump (elim o [ none ↦ none | some i ↦ some (k + i) ])
          ≡ (elim o [ none ↦ none | some i ↦ some (suc k + i) ])
    shifted none = refl
    shifted (some i) = ap some (omega arith)

-- A text that starts with `p` does so with more bytes behind it.
starts_with_more : (s t p : Bytes) → starts_with s p ≡ true → starts_with (s ++ t) p ≡ true
unfolding starts_with
starts_with_more s t [] h = refl
starts_with_more [] t (d ∷ p) h = cc
starts_with_more (c ∷ s) t (d ∷ p) h = ground (arith, starts_with_more s t p)

-- A text long enough does not start with `p` only because more bytes stand behind it.
starts_with_fewer :
    (s t p : Bytes) → length p ≤ length s → starts_with s p ≡ false → starts_with (s ++ t) p ≡ false
unfolding starts_with
starts_with_fewer s t [] le h = h
starts_with_fewer [] t (d ∷ p) le h = absurd (omega arith)
starts_with_fewer (c ∷ s) t (d ∷ p) le h = ground (arith, starts_with_fewer s t p)

starts_with_nil : (s : Bytes) → starts_with s [] ≡ true
unfolding starts_with
starts_with_nil s = refl

-- An occurrence stays the first one when bytes arrive behind it.
pub find_more : (s t p : Bytes) (i : ℕ) → find s p ≡ some i → find (s ++ t) p ≡ some i
unfolding find
find_more [] t [] i h = rw (find_here t [] (starts_with_nil t)) h
find_more [] t (d ∷ p) i h = ground arith
find_more (c ∷ s) t p zero h = ground (arith, starts_with_more (c ∷ s) t p)
find_more (c ∷ s) t p (suc i) h =
    ground (arith, find_more s t p i, find-le s p i, starts_with_fewer (c ∷ s) t p)

pub drop-append_left : (k : ℕ) (s t : Bytes) → k ≤ length s → drop k (s ++ t) ≡ drop k s ++ t
drop-append_left zero s t h = refl
drop-append_left (suc k) [] t h = absurd (omega arith)
drop-append_left (suc k) (c ∷ s) t h = drop-append_left k s t (omega arith)

pub take-append_left : (k : ℕ) (s t : Bytes) → k ≤ length s → take k (s ++ t) ≡ take k s
take-append_left zero s t h = refl
take-append_left (suc k) [] t h = absurd (omega arith)
take-append_left (suc k) (c ∷ s) t h = ap (◌∷◌ c) (take-append_left k s t (omega arith))

-- Searching the new bytes and the last three of the old ones is searching all bytes.
pub find_resumed :
    (buf new : Bytes)
    → find buf crlfcrlf ≡ none
    → find (buf ++ new) crlfcrlf ≡ (elim (find (drop (length buf - 3) (buf ++ new)) crlfcrlf) [
      | none ↦ none
      | some i ↦ some (length buf - 3 + i)
    ])
find_resumed buf new h =
    find-drop (length buf - 3) (buf ++ new) crlfcrlf
      (λ j lt. rw (drop-append_left j buf new (omega arith)) (
        starts_with_fewer (drop j buf) new crlfcrlf (omega (arith, length-drop j buf))
          (find-none buf crlfcrlf j h (omega arith))))
      (omega (arith, length-append buf new))
