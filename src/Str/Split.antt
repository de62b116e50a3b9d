-- ===== src/Str/Split.antt =====
-- Cutting texts: `split`, `split_once`, `split_whitespace`, `lines`, `join`.
pub mod Words
use google_co.Base.{
  ℕ, ◌+◌, ◌≡◌, refl, arith, Bool, true, false, ◌&&◌, List, [], ◌∷◌, ◌++◌, ◌==◌, if◌then◌else◌,
  length, Option, none, some, is_empty, All, drop,
}
use google_co.Str.Ascii.{Str, is_whitespace, NoSpace}
use google_co.Str.Search.{starts_with}

-- `split(c)` for a test on characters: the parts between the separators, empty ones included.
-- The head of the result is the part that is still growing.
abbrev cut_head : Bool → ℕ → List Str → List Str
cut_head cuts c [] = []
cut_head cuts c (p ∷ ps) = if cuts then [] ∷ p ∷ ps else (c ∷ p) ∷ ps

unfoldable pub split_by : (ℕ → Bool) → Str → List Str
split_by p [] = [] ∷ []
split_by p (c ∷ s) = cut_head (p c) c (split_by p s)

unfoldable pub split : Str → ℕ → List Str
unfolding split_by
split s b = split_by (λ c. c == b) s

-- The first part of a split, which is never missing.
unfoldable pub first_part : Str → ℕ → Str
first_part [] b = []
first_part (c ∷ s) b = let rest = first_part s b in if c == b then [] else c ∷ rest

abbrev keep : Str → List Str → List Str
keep [] ps = ps
keep (c ∷ s) ps = (c ∷ s) ∷ ps

abbrev keep_all : List Str → List Str
keep_all [] = []
keep_all (p ∷ ps) = keep p (keep_all ps)

-- `split_whitespace`: the parts between whitespace, without the empty ones.
unfoldable pub split_whitespace : Str → List Str
unfolding split_by is_whitespace
split_whitespace s = keep_all (split_by is_whitespace s)

abbrev cons_left : ℕ → Option (Str × Str) → Option (Str × Str)
cons_left c none = none
cons_left c (some (a, b)) = some (c ∷ a, b)

unfoldable pub split_once : Str → ℕ → Option (Str × Str)
split_once [] b = none
split_once (c ∷ s) b =
    let rest = cons_left c (split_once s b) in if c == b then some ([], s) else rest

abbrev push_head : ℕ → List Str → List Str
push_head c [] = (c ∷ []) ∷ []
push_head c (p ∷ ps) = (c ∷ p) ∷ ps

-- `split("\r\n")`
unfoldable pub split_crlf : Str → List Str
split_crlf [] = [] ∷ []
split_crlf (c ∷ []) = (c ∷ []) ∷ []
split_crlf (c ∷ d ∷ s) =
    let cut = [] ∷ split_crlf s in
    let on = push_head c (split_crlf (d ∷ s)) in if c == 13 && d == 10 then cut else on

-- `lines()`: cut at `\n`, without the last part if it is empty, each without one `\r` at its end.
abbrev drop_last_empty : List Str → List Str
drop_last_empty [] = []
drop_last_empty ([] ∷ []) = []
drop_last_empty (p ∷ ps) = p ∷ drop_last_empty ps

abbrev strip_cr : Str → Str
strip_cr [] = []
strip_cr (c ∷ []) = if c == 13 then [] else c ∷ []
strip_cr (c ∷ d ∷ s) = c ∷ strip_cr (d ∷ s)

unfoldable pub lines : Str → List Str
unfolding split split_by
lines s = google_co.Base.map strip_cr (drop_last_empty (split s 10))

unfoldable pub join : List Str → Str → Str
join [] sep = []
join (p ∷ []) sep = p
join (p ∷ q ∷ ps) sep = p ++ (sep ++ join (q ∷ ps) sep)

abbrev pub nth_or_empty : List Str → ℕ → Str
nth_or_empty [] n = []
nth_or_empty (p ∷ ps) ℕ.zero = p
nth_or_empty (p ∷ ps) (ℕ.suc n) = nth_or_empty ps n

keep-NoSpace :
    (p : Str) (ps : List Str)
    → NoSpace p
    → All (λ q. NoSpace q × (is_empty q ≡ false)) ps
    → All (λ q. NoSpace q × (is_empty q ≡ false)) (keep p ps)
keep-NoSpace [] ps h k = k
keep-NoSpace (c ∷ p) ps h k = ((h, refl), k)

keep_all-NoSpace :
    (ps : List Str) → All NoSpace ps → All (λ q. NoSpace q × (is_empty q ≡ false)) (keep_all ps)
keep_all-NoSpace [] h = tt
keep_all-NoSpace (p ∷ ps) (h, k) = keep-NoSpace p (keep_all ps) h (keep_all-NoSpace ps k)

cut_head-NoSpace :
    (b : Bool) (c : ℕ) (ps : List Str)
    → b ≡ is_whitespace c
    → All NoSpace ps
    → All NoSpace (cut_head b c ps)
cut_head-NoSpace b c [] e h = tt
cut_head-NoSpace true c (p ∷ ps) e h = (tt, h)
cut_head-NoSpace false c (p ∷ ps) e (h, k) = ((google_co.Base.sym e, h), k)

split_by-NoSpace : (s : Str) → All NoSpace (split_by is_whitespace s)
unfolding split_by
split_by-NoSpace [] = (tt, tt)
split_by-NoSpace (c ∷ s) =
    cut_head-NoSpace (is_whitespace c) c (split_by is_whitespace s) refl (split_by-NoSpace s)

-- The parts of `split_whitespace` hold no whitespace and none is empty.
pub split_whitespace-NoSpace :
    (s : Str) → All (λ q. NoSpace q × (is_empty q ≡ false)) (split_whitespace s)
unfolding split_whitespace
split_whitespace-NoSpace s = keep_all-NoSpace _ (split_by-NoSpace s)
