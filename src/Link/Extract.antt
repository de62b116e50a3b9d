-- ===== src/Link/Extract.antt =====
-- The scan for links in a page. A text that begins at `i` stands for the index `i`.
pub mod Laws
use google_co.Base.{
  ℕ, zero, suc, ◌+◌, Bool, true, false, ◌||◌, not, List, [], ◌∷◌, ◌++◌, if◌then◌else◌, ◌==◌, Option,
  none, some, length, drop,
}
use google_co.Str.Ascii.{Str, codes, to_ascii_lowercase, is_ascii_whitespace, trim_end_by}
use google_co.Str.Search.{find, find_char, starts_with}

-- The characters in front of the first that passes a test, and the rest from there on.
abbrev cons_span : ℕ → Str × Str → Str × Str
cons_span c (a, b) = (c ∷ a, b)

unfoldable pub span_until : (ℕ → Bool) → Str → Str × Str
span_until stop [] = ([], [])
span_until stop (c ∷ s) =
    let rest = cons_span c (span_until stop s) in if stop c then ([], c ∷ s) else rest

abbrev pub is_backslash : ℕ → Bool
is_backslash c = c == 92

abbrev pub scheme : Str
scheme = codes "gurt://"

abbrev pub link_of : Str → List Str
link_of url = if starts_with url scheme then trim_end_by is_backslash url ∷ [] else []

-- One round: the scan stops, panics at an index behind the end, or goes on with a rest.
pub data Round : Type 0 where
  stop panic : Round
  next : List Str → Str → Round

-- A value in quotes. Without a closing quote the next index is one behind the end of the text, and
-- slicing there panics.
abbrev pub after_quote : Str × Str → Round
after_quote (url, []) = panic
after_quote (url, _ ∷ rest) = next (link_of url) rest

abbrev pub after_value : Str × Str → Round
after_value (url, rest) = next (link_of url) rest

abbrev ends_value : ℕ → Bool
ends_value c = is_ascii_whitespace c || c == b'>'

abbrev is_quote : ℕ → Bool
is_quote c = c == b'"' || c == 39

abbrev value_at : Str → Round
value_at [] = stop
value_at (c ∷ s) =
    if is_quote c
    then after_quote (span_until (λ d. d == c) s)
    else after_value (span_until ends_value (c ∷ s))

abbrev at_equals : Str → Option ℕ → Round
at_equals s none = stop
at_equals s (some e) =
    let spaces = span_until (λ c. not (is_ascii_whitespace c)) (drop (e + 1) s) in
    let slashes = span_until (λ c. not (is_backslash c)) spaces.1 in value_at slashes.1

abbrev at_href : Str → Option ℕ → Round
at_href s none = stop
at_href s (some p) =
    let from_href = drop p s in at_equals from_href (find_char (to_ascii_lowercase from_href) b'=')

unfoldable pub round : Str → Round
round s = at_href s (find (to_ascii_lowercase s) (codes "href"))

pub data Extracted : Type 0 where
  done : List Str → Extracted
  panicked out_of_fuel : Extracted

abbrev pub push_links : List Str → Extracted → Extracted
push_links us (done vs) = done (us ++ vs)
push_links us panicked = panicked
push_links us out_of_fuel = out_of_fuel

abbrev pub rounds : (Str → Extracted) → Round → Extracted
rounds later stop = done []
rounds later panic = panicked
rounds later (next us rest) = push_links us (later rest)

unfoldable pub extract_from : ℕ → Str → Extracted
extract_from zero s = out_of_fuel
extract_from (suc f) s = rounds (λ r. extract_from f r) (round s)

unfoldable pub extract_links : Str → Extracted
extract_links html = extract_from (suc (length html)) html
