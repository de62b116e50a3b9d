-- ===== src/Str/Ascii.antt =====
-- Texts, their equality, ASCII case and trimming (`str::trim`, `to_ascii_lowercase`, ...).
use Prim.Native.Char.{code}
use Prim.Native.String.{String}
use google_co.Base.{
  ℕ, ◌+◌, ◌≡◌, ◌↔◌, refl, arith, Bool, true, false, ◌&&◌, ◌||◌, List, [], ◌∷◌, ◌++◌, map, leb, ◌==◌,
  if◌then◌else◌, All,
}

abbrev pub Str : Type 0
Str = List ℕ

abbrev pub Bytes : Type 0
Bytes = List ℕ

-- The code points of a literal; its bytes, if it is ASCII.
abbrev pub codes : String → Str
codes String.[] = []
codes (String.◌∷◌ c s) = code c ∷ codes s

unfoldable pub eq : Str → Str → Bool
eq [] [] = true
eq [] (_ ∷ _) = false
eq (_ ∷ _) [] = false
eq (c ∷ s) (d ∷ t) = c == d && eq s t

pub eq_refl : (s : Str) → eq s s ≡ true
unfolding eq
eq_refl [] = refl
eq_refl (c ∷ s) = ground (arith, eq_refl s)

pub eq→≡ : (s t : Str) → eq s t ≡ true → s ≡ t
unfolding eq
eq→≡ [] [] h = refl
eq→≡ [] (d ∷ t) h = cc
eq→≡ (c ∷ s) [] h = cc
eq→≡ (c ∷ s) (d ∷ t) h = ground (arith, eq→≡ s t)

pub eq_iff : (s t : Str) → (eq s t ≡ true) ↔ (s ≡ t)
eq_iff s t = (eq→≡ s t, λ e. rw e (eq_refl t))

-- `char::is_whitespace`: the Unicode property White_Space.
unfoldable pub is_whitespace : ℕ → Bool
is_whitespace c =
    (leb 9 c && leb c 13)
    || c == 32
    || c == 0x85
    || c == 0xa0
    || c == 0x1680
    || (leb 0x2000 c && leb c 0x200a)
    || c == 0x2028
    || c == 0x2029
    || c == 0x202f
    || c == 0x205f
    || c == 0x3000

-- `u8::is_ascii_whitespace`
unfoldable pub is_ascii_whitespace : ℕ → Bool
is_ascii_whitespace c = c == 9 || c == 10 || c == 12 || c == 13 || c == 32

unfoldable pub lower : ℕ → ℕ
lower c = if leb 65 c && leb c 90 then c + 32 else c

unfoldable pub to_ascii_lowercase : Str → Str
unfolding lower
to_ascii_lowercase s = map lower s

unfoldable pub eq_ignore_ascii_case : Str → Str → Bool
unfolding eq to_ascii_lowercase
eq_ignore_ascii_case s t = eq (to_ascii_lowercase s) (to_ascii_lowercase t)

unfoldable pub trim_start : Str → Str
unfolding is_whitespace
trim_start [] = []
trim_start (c ∷ s) = let rest = trim_start s in if is_whitespace c then rest else c ∷ s

-- One character at the end of a text that is already trimmed at its end.
abbrev pub cons_unless : Bool → ℕ → Str → Str
cons_unless drops c [] = if drops then [] else c ∷ []
cons_unless drops c (d ∷ s) = c ∷ d ∷ s

-- `trim_end_matches` of the characters that a test accepts.
unfoldable pub trim_end_by : (ℕ → Bool) → Str → Str
trim_end_by p [] = []
trim_end_by p (c ∷ s) = cons_unless (p c) c (trim_end_by p s)

unfoldable pub trim_end : Str → Str
unfolding trim_end_by is_whitespace
trim_end s = trim_end_by is_whitespace s

unfoldable pub trim : Str → Str
unfolding trim_start trim_end
trim s = trim_end (trim_start s)

-- Trimming at the end keeps the characters in front of one that is not trimmed.
pub trim_end_by-append :
    (p : ℕ → Bool) (s : Str) (c : ℕ) (t : Str)
    → p c ≡ false
    → trim_end_by p (s ++ c ∷ t) ≡ s ++ trim_end_by p (c ∷ t)
unfolding trim_end_by
trim_end_by-append p [] c t h = refl
trim_end_by-append p (d ∷ []) c t h = kept (trim_end_by p t)
  where
    kept : (u : Str) → cons_unless (p d) d (cons_unless (p c) c u) ≡ d ∷ cons_unless (p c) c u
    kept [] = rw h
    kept (e ∷ u) = refl
trim_end_by-append p (d ∷ e ∷ s) c t h = rw (trim_end_by-append p (e ∷ s) c t h)

pub lower_idempotent : (c : ℕ) → lower (lower c) ≡ lower c
unfolding lower
lower_idempotent c = ground arith

pub to_ascii_lowercase_idempotent :
    (s : Str) → to_ascii_lowercase (to_ascii_lowercase s) ≡ to_ascii_lowercase s
unfolding to_ascii_lowercase
to_ascii_lowercase_idempotent [] = refl
to_ascii_lowercase_idempotent (c ∷ s) = simp (lower_idempotent, to_ascii_lowercase_idempotent s)

-- No character of a text is whitespace.
abbrev pub NoSpace : Str → Type 0
NoSpace = All (λ c. is_whitespace c ≡ false)
