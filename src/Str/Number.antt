-- ===== src/Str/Number.antt =====
-- Decimal numbers: `parse::<u64>()` and its smaller siblings, and `{}` of a number.
use mathlib.Core.WellFounded.{Acc, WellFounded}
use mathlib.Core.Logic.{dite}
use native.Mathlib.Decide.{dec_lt}
use google_co.Base.{
  ℕ, zero, suc, ◌+◌, ◌-◌, ◌*◌, ◌/◌, ◌%◌, ◌^◌, ◌<◌, ◌≤◌, ◌≡◌, arith, [], ◌∷◌, leb, ◌&&◌, ◌==◌,
  if◌then◌else◌, Option, none, some,
}
use google_co.Str.Ascii.{Str}

abbrev pub u16_max : ℕ
u16_max = 2 ^ 16 - 1

abbrev pub u32_max : ℕ
u32_max = 2 ^ 32 - 1

-- `usize` is 64 bits wide.
abbrev pub u64_max : ℕ
u64_max = 2 ^ 64 - 1

-- The digits of an unsigned number: an overflow, like any other character, is an error.
unfoldable pub scan_digits : ℕ → Str → ℕ → Option ℕ
scan_digits top [] n = some n
scan_digits top (c ∷ s) n =
    let rest = scan_digits top s (n * 10 + (c - b'0')) in
    if leb b'0' c && leb c b'9' && leb (n * 10 + (c - b'0')) top then rest else none

-- One leading plus sign is accepted; no digit at all is an error.
unfoldable pub parse_unsigned : ℕ → Str → Option ℕ
unfolding scan_digits
parse_unsigned top [] = none
parse_unsigned top (c ∷ []) = if c == b'+' then none else scan_digits top (c ∷ []) 0
parse_unsigned top (c ∷ d ∷ s) =
    if c == b'+' then scan_digits top (d ∷ s) 0 else scan_digits top (c ∷ d ∷ s) 0

scan_digits-le : (top : ℕ) (s : Str) (n r : ℕ) → n ≤ top → scan_digits top s n ≡ some r → r ≤ top
unfolding scan_digits
scan_digits-le top [] n r h e = ground arith
scan_digits-le top (c ∷ s) n r h e = ground (arith, scan_digits-le top s (n * 10 + (c - b'0')) r)

-- An accepted number is in the type's range.
pub parse_unsigned-le : (top : ℕ) (s : Str) (r : ℕ) → parse_unsigned top s ≡ some r → r ≤ top
unfolding parse_unsigned
parse_unsigned-le top [] r e = cc
parse_unsigned-le top (c ∷ []) r e = ground (arith, scan_digits-le top (c ∷ []) 0 r (omega arith))
parse_unsigned-le top (c ∷ d ∷ s) r e = ground (
  arith,
  scan_digits-le top (c ∷ d ∷ s) 0 r (omega arith),
  scan_digits-le top (d ∷ s) 0 r (omega arith),
)

Acc-below : (k n : ℕ) → n < k → Acc ◌<◌ n
Acc-below zero n h = elim h [ ]
Acc-below (suc k) n h = Acc.intro n (λ m hm. Acc-below k m (omega arith))

unfoldable pub lt_wf : WellFounded ◌<◌
unfolding Acc-below
lt_wf = record { apply = λ n. Acc-below (suc n) n (omega arith) }

pub tenth_lt : (n : ℕ) → 9 < n → n / 10 < n
tenth_lt n h = omega arith

unfoldable pub digits_onto : (n : ℕ) → Acc ◌<◌ n → Str → Str
unfolding dec_lt
digits_onto n (Acc.intro _ smaller) out =
    dite (dec_lt 9 n)
      (λ h. digits_onto (n / 10) (smaller (n / 10) (tenth_lt n h)) ((b'0' + n % 10) ∷ out))
      (λ _. (b'0' + n % 10) ∷ out)

-- `{}` of an unsigned number
unfoldable pub show : ℕ → Str
unfolding digits_onto lt_wf
show n = digits_onto n (lt_wf.apply n) []
