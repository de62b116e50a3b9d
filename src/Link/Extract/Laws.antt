-- ===== src/Link/Extract/Laws.antt =====
-- The scan for links ends, keeps only `gurt://` links, and panics at an open quote.
use mathlib.Core.Path.{subst}
use google_co.Base.{
  ℕ, zero, suc, ◌+◌, ◌≤◌, ◌<◌, ◌≡◌, ◌≢◌, refl, sym, arith, Bool, true, false, ◌==◌, List, [], ◌∷◌,
  ◌++◌, Option, none, some, length, drop, length-drop, Bool-cases, inl, inr, All, All-append, not,
}
use google_co.Str.Ascii.{
  Str, codes, to_ascii_lowercase, lower, is_ascii_whitespace, cons_unless, trim_end_by,
  trim_end_by-append,
}
use google_co.Str.Search.{find, find_char, find_char-lt, starts_with, starts_with_split}
use google_co.Str.Length.{length-to_ascii_lowercase}
use google_co.Link.Extract.{
  span_until, is_backslash, scheme, link_of, Round, stop, panic, next, after_quote, value_at,
  at_equals, at_href, round, Extracted, done, panicked, out_of_fuel, push_links, rounds,
  extract_from, extract_links, is_quote, ends_value,
}

length-span_until : (p : ℕ → Bool) (s : Str) → length (span_until p s).1 ≤ length s
unfolding span_until
length-span_until p [] = omega arith
length-span_until p (c ∷ s) = elim (Bool-cases (p c)) [
  | inl e ↦ rw e (omega arith)
  | inr e ↦ rw e (omega (arith, length-span_until p s))
]

-- A round goes on only with a shorter text.
abbrev Shorter : Round → ℕ → Type 0
Shorter stop n = Unit
Shorter panic n = Unit
Shorter (next us rest) n = length rest < n

after_quote-Shorter : (p : Str × Str) (n : ℕ) → length p.1 ≤ n → Shorter (after_quote p) n
after_quote-Shorter (url, []) n h = tt
after_quote-Shorter (url, c ∷ rest) n h = omega arith

value_at-Shorter : (s : Str) (n : ℕ) → length s < n → Shorter (value_at s) n
value_at-Shorter [] n h = tt
value_at-Shorter (c ∷ s) n h = elim (Bool-cases (is_quote c)) [
  | inl e ↦ rw e (
      after_quote-Shorter (span_until (λ d. d == c) s) n
        (omega (arith, length-span_until (λ d. d == c) s)))
  | inr e ↦ rw e (omega (arith, length-span_until ends_value (c ∷ s)))
]

at_equals-Shorter :
    (s : Str) (o : Option ℕ) (n : ℕ)
    → length s ≤ n
    → ((e : ℕ) → o ≡ some e → e < length s)
    → Shorter (at_equals s o) n
at_equals-Shorter s none n h k = tt
at_equals-Shorter s (some e) n h k =
    let behind = drop (e + 1) s in
    let spaces = span_until (λ c. not (is_ascii_whitespace c)) behind in
    value_at-Shorter (span_until (λ c. not (is_backslash c)) spaces.1).1 n (
      omega (
        arith,
        k e refl,
        length-drop (e + 1) s,
        length-span_until (λ c. not (is_ascii_whitespace c)) behind,
        length-span_until (λ c. not (is_backslash c)) spaces.1,
      ))

at_href-Shorter : (s : Str) (o : Option ℕ) → Shorter (at_href s o) (length s)
at_href-Shorter s none = tt
at_href-Shorter s (some p) =
    at_equals-Shorter (drop p s) (find_char (to_ascii_lowercase (drop p s)) b'=') (length s)
      (omega (arith, length-drop p s))
      (λ e h. omega (
        arith,
        length-to_ascii_lowercase (drop p s),
        find_char-lt (to_ascii_lowercase (drop p s)) b'=' e h,
      ))

round-Shorter : (s : Str) → Shorter (round s) (length s)
unfolding round
round-Shorter s = at_href-Shorter s (find (to_ascii_lowercase s) (codes "href"))

push_links-total : (us : List Str) (e : Extracted) → e ≢ out_of_fuel → push_links us e ≢ out_of_fuel
push_links-total us (done vs) h k = cc
push_links-total us panicked h k = cc
push_links-total us out_of_fuel h k = h refl

rounds-total :
    (later : Str → Extracted) (r : Round) (n : ℕ)
    → Shorter r n
    → ((s : Str) → length s < n → later s ≢ out_of_fuel)
    → rounds later r ≢ out_of_fuel
rounds-total later stop n h k e = cc
rounds-total later panic n h k e = cc
rounds-total later (next us rest) n h k e = push_links-total us (later rest) (k rest h) e

extract_from-total : (f : ℕ) (s : Str) → length s < f → extract_from f s ≢ out_of_fuel
unfolding extract_from
extract_from-total zero s h = absurd (omega arith)
extract_from-total (suc f) s h =
    rounds-total (λ r. extract_from f r) (round s) (length s) (round-Shorter s)
      (λ r k. extract_from-total f r (omega arith))

-- The scan for links ends for every page: it returns the links or panics.
pub extract_links_total : (html : Str) → extract_links html ≢ out_of_fuel
unfolding extract_links
extract_links_total html = extract_from-total (suc (length html)) html (omega arith)

abbrev pub IsAbsolute : Str → Type 0
IsAbsolute u = starts_with u scheme ≡ true

abbrev NextLinks : Round → Type 0
NextLinks stop = Unit
NextLinks panic = Unit
NextLinks (next us rest) = All IsAbsolute us

abbrev pub Links : Extracted → Type 0
Links (done us) = All IsAbsolute us
Links panicked = Unit
Links out_of_fuel = Unit

slash_kept : (p t : Str) → starts_with (p ++ cons_unless false b'/' t) (p ++ b'/' ∷ []) ≡ true
unfolding starts_with
slash_kept [] [] = refl
slash_kept [] (d ∷ t) = refl
slash_kept (c ∷ p) t = ground (arith, slash_kept p t)

scheme_kept : (t : Str) → starts_with (trim_end_by is_backslash (scheme ++ t)) scheme ≡ true
unfolding trim_end_by
scheme_kept t =
    rw (trim_end_by-append is_backslash (codes "gurt:/") b'/' t refl)
      (slash_kept (codes "gurt:/") (trim_end_by is_backslash t))

link_of-IsAbsolute : (u : Str) → All IsAbsolute (link_of u)
link_of-IsAbsolute u = elim (Bool-cases (starts_with u scheme)) [
  | inl e ↦ rw e (
    subst (λ t. IsAbsolute (trim_end_by is_backslash t)) (sym (starts_with_split u scheme e))
        (scheme_kept (drop (length scheme) u)),
    tt,
  )
  | inr e ↦ rw e tt
]

after_quote-Links : (p : Str × Str) → NextLinks (after_quote p)
after_quote-Links (url, []) = tt
after_quote-Links (url, c ∷ rest) = link_of-IsAbsolute url

value_at-Links : (s : Str) → NextLinks (value_at s)
value_at-Links [] = tt
value_at-Links (c ∷ s) = elim (Bool-cases (is_quote c)) [
  | inl e ↦ rw e (after_quote-Links (span_until (λ d. d == c) s))
  | inr e ↦ rw e (link_of-IsAbsolute (span_until ends_value (c ∷ s)).0)
]

at_equals-Links : (s : Str) (o : Option ℕ) → NextLinks (at_equals s o)
at_equals-Links s none = tt
at_equals-Links s (some e) =
    let spaces = span_until (λ c. not (is_ascii_whitespace c)) (drop (e + 1) s) in
    value_at-Links (span_until (λ c. not (is_backslash c)) spaces.1).1

at_href-Links : (s : Str) (o : Option ℕ) → NextLinks (at_href s o)
at_href-Links s none = tt
at_href-Links s (some p) =
    at_equals-Links (drop p s) (find_char (to_ascii_lowercase (drop p s)) b'=')

push_links-Links :
    (us : List Str) (e : Extracted) → All IsAbsolute us → Links e → Links (push_links us e)
push_links-Links us (done vs) h k = All-append IsAbsolute us vs h k
push_links-Links us panicked h k = tt
push_links-Links us out_of_fuel h k = tt

rounds-Links :
    (later : Str → Extracted) (r : Round)
    → NextLinks r
    → ((s : Str) → Links (later s))
    → Links (rounds later r)
rounds-Links later stop h k = tt
rounds-Links later panic h k = tt
rounds-Links later (next us rest) h k = push_links-Links us (later rest) h (k rest)

extract_from-Links : (f : ℕ) (s : Str) → Links (extract_from f s)
unfolding extract_from round
extract_from-Links zero s = tt
extract_from-Links (suc f) s =
    rounds-Links (λ r. extract_from f r) (round s)
      (at_href-Links s (find (to_ascii_lowercase s) (codes "href"))) (extract_from-Links f)

-- Every link that the scan returns begins with `gurt://`.
pub extract_links-Links : (html : Str) → Links (extract_links html)
unfolding extract_links
extract_links-Links html = extract_from-Links (suc (length html)) html

span_until_all : (p : ℕ → Bool) (s : Str) → All (λ c. p c ≡ false) s → span_until p s ≡ (s, [])
unfolding span_until
span_until_all p [] h = refl
span_until_all p (c ∷ s) (h, k) = rw (h, span_until_all p s k) refl

-- A page whose first attribute value in quotes has no closing quote makes the scan panic: the next
-- index is one behind the end of the text.
pub extract_links_open_quote :
    (v : Str) → All (λ c. c == b'"' ≡ false) v → extract_links (codes "<a href=\"" ++ v) ≡ panicked
unfolding extract_links extract_from round find find_char starts_with to_ascii_lowercase lower
    span_until is_ascii_whitespace
extract_links_open_quote v h = rw (span_until_all (λ c. c == b'"') v h) refl
