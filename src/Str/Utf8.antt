-- ===== src/Str/Utf8.antt =====
-- `str::from_utf8`, `String::from_utf8_lossy` and `as_bytes`, as a decoder with one state.
use google_co.Base.{
  ℕ, ◌+◌, ◌-◌, ◌*◌, ◌/◌, ◌%◌, ◌≡◌, refl, arith, Bool, ◌&&◌, List, [], ◌∷◌, ◌++◌, leb, ltb, ◌==◌,
  if◌then◌else◌, Option, none, some, ◌>>=◌, All, ◌<◌, sym, ap, ◌∙◌, append_assoc,
}
use google_co.Str.Ascii.{Str, Bytes}

-- The bytes still missing, the bits read so far, and the range of the next byte.
pub record Pending : Type 0 where
  pub need : ℕ
  pub bits : ℕ
  pub lo : ℕ
  pub hi : ℕ

abbrev pub ready : Pending
ready = record { need = 0; bits = 0; lo = 0x80; hi = 0xbf }

abbrev between : ℕ → ℕ → ℕ → Bool
between lo hi b = leb lo b && leb b hi

abbrev wait : ℕ → ℕ → ℕ → ℕ → Option (Pending × List ℕ)
wait need bits lo hi = some (record { need = need; bits = bits; lo = lo; hi = hi }, [])

-- The first byte of a character.
unfoldable pub lead : ℕ → Option (Pending × List ℕ)
lead b =
    if ltb b 0x80
    then some (ready, b ∷ [])
    else if between 0xc2 0xdf b
    then wait 1 (b - 0xc0) 0x80 0xbf
    else if b == 0xe0
    then wait 2 (b - 0xe0) 0xa0 0xbf
    else if b == 0xed
    then wait 2 (b - 0xe0) 0x80 0x9f
    else if between 0xe1 0xef b
    then wait 2 (b - 0xe0) 0x80 0xbf
    else if b == 0xf0
    then wait 3 (b - 0xf0) 0x90 0xbf
    else if between 0xf1 0xf3 b
    then wait 3 (b - 0xf0) 0x80 0xbf
    else if b == 0xf4
    then wait 3 (b - 0xf0) 0x80 0x8f
    else none

abbrev continued : Pending → ℕ → Option (Pending × List ℕ)
continued p b =
    let bits = p.bits * 64 + (b - 0x80) in
    if p.need == 1 then some (ready, bits ∷ []) else wait (p.need - 1) bits 0x80 0xbf

-- One byte: the characters that it completes, or `none` where it fits nowhere.
unfoldable pub step : Pending → ℕ → Option (Pending × List ℕ)
unfolding lead
step p b = if p.need == 0 then lead b else if between p.lo p.hi b then continued p b else none

unfoldable pub decode : Pending → Bytes → Option Str
unfolding step
decode p [] = if p.need == 0 then some [] else none
decode p (b ∷ bs) = do (q, out) ← step p b; more ← decode q bs; some (out ++ more)

unfoldable pub from_utf8 : Bytes → Option Str
unfolding decode
from_utf8 bs = decode ready bs

abbrev replacement : ℕ
replacement = 0xfffd

abbrev lead_lossy : ℕ → Pending × List ℕ
lead_lossy b = elim (lead b) [ none ↦ (ready, replacement ∷ []) | some r ↦ r ]

abbrev replace_first : Pending × List ℕ → Pending × List ℕ
replace_first (p, out) = (p, replacement ∷ out)

-- A byte that does not continue a character ends it as U+FFFD and is read again as a first byte.
abbrev step_lossy : Pending → ℕ → Pending × List ℕ
step_lossy p b =
    if p.need == 0
    then lead_lossy b
    else elim (step p b) [ none ↦ replace_first (lead_lossy b) | some r ↦ r ]

unfoldable pub decode_lossy : Pending → Bytes → Str
unfolding step
decode_lossy p [] = if p.need == 0 then [] else replacement ∷ []
decode_lossy p (b ∷ bs) = let (q, out) = step_lossy p b in out ++ decode_lossy q bs

unfoldable pub from_utf8_lossy : Bytes → Str
unfolding decode_lossy
from_utf8_lossy bs = decode_lossy ready bs

-- The bytes of one character.
unfoldable pub utf8 : ℕ → Bytes
utf8 c =
    if ltb c 0x80
    then c ∷ []
    else if ltb c 0x800
    then (0xc0 + c / 64) ∷ (0x80 + c % 64) ∷ []
    else if ltb c 0x10000
    then (0xe0 + c / 4096) ∷ (0x80 + c / 64 % 64) ∷ (0x80 + c % 64) ∷ []
    else (0xf0 + c / 262144) ∷ (0x80 + c / 4096 % 64) ∷ (0x80 + c / 64 % 64) ∷ (0x80 + c % 64) ∷ []

unfoldable pub as_bytes : Str → Bytes
unfolding utf8
as_bytes [] = []
as_bytes (c ∷ s) = utf8 c ++ as_bytes s

abbrev pub IsAscii : Bytes → Type 0
IsAscii = All (λ b. b < 0x80)

-- ASCII bytes are their own characters.
pub from_utf8_ascii : (bs : Bytes) → IsAscii bs → from_utf8 bs ≡ some bs
unfolding from_utf8
from_utf8_ascii [] h = refl
from_utf8_ascii (b ∷ bs) (h, k) = ground (arith, from_utf8_ascii bs k)

pub as_bytes-append : (s t : Str) → as_bytes (s ++ t) ≡ as_bytes s ++ as_bytes t
unfolding as_bytes
as_bytes-append [] t = refl
as_bytes-append (c ∷ s) t =
    ap (λ bs. utf8 c ++ bs) (as_bytes-append s t)
    ∙ sym (append_assoc (utf8 c) (as_bytes s) (as_bytes t))
