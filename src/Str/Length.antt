-- ===== src/Str/Length.antt =====
-- `str::len`: the number of bytes. Lengths of texts that an operation keeps.
use google_co.Base.{ℕ, ◌≡◌, refl, ap, suc, [], ◌∷◌, length}
use google_co.Str.Ascii.{Str, to_ascii_lowercase}
use google_co.Str.Utf8.{as_bytes}

unfoldable pub str_len : Str → ℕ
unfolding as_bytes
str_len s = length (as_bytes s)

pub length-to_ascii_lowercase : (s : Str) → length (to_ascii_lowercase s) ≡ length s
unfolding to_ascii_lowercase
length-to_ascii_lowercase [] = refl
length-to_ascii_lowercase (c ∷ s) = ap suc (length-to_ascii_lowercase s)
