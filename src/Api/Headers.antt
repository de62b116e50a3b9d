-- ===== src/Api/Headers.antt =====
-- The head of a message: the header lines behind the first line, and the end of the head.
-- (gurt-api/src/http_like.rs, and the same loop in gurtd/src/crawler/client.rs)
use google_co.Base.{ℕ, ◌≡◌, List, [], ◌∷◌, ◌++◌, if◌then◌else◌, Option, none, some, is_empty, All}
use google_co.Str.Ascii.{
  Str, Bytes, codes, eq, trim, to_ascii_lowercase, to_ascii_lowercase_idempotent,
}
use google_co.Str.Split.{split_once}
use google_co.Str.Number.{parse_unsigned, u64_max}
use google_co.Base.{All-append}

abbrev pub Header : Type 0
Header = Str × Str

abbrev pub crlfcrlf : Bytes
crlfcrlf = 13 ∷ 10 ∷ 13 ∷ 10 ∷ []

pub record Head : Type 0 where
  pub content_length : ℕ
  pub headers : List Header

abbrev new_length : Str → Str → ℕ → ℕ
new_length name value old =
    if eq name (codes "content-length")
    then (elim (parse_unsigned u64_max value) [ none ↦ old | some n ↦ n ])
    else old

abbrev push_header : Option (Str × Str) → Head → Head
push_header none h = h
push_header (some (name_raw, value_raw)) h =
    let name = to_ascii_lowercase (trim name_raw) in
    let value = trim value_raw in
    record {
      content_length = new_length name value h.content_length;
      headers = h.headers ++ (name, value) ∷ [];
    }

-- One round of the loop over the header lines.
unfoldable pub header_line : Str → Head → Head
header_line line h = if is_empty line then h else push_header (split_once line b':') h

unfoldable pub header_lines : List Str → Head → Head
unfolding header_line
header_lines [] h = h
header_lines (line ∷ rest) h = header_lines rest (header_line line h)

abbrev pub no_headers : Head
no_headers = record { content_length = 0; headers = [] }

-- Header names are kept in lower case.
abbrev pub HasLowerNames : List Header → Type 0
HasLowerNames = All (λ h. to_ascii_lowercase h.0 ≡ h.0)

header_line-HasLowerNames :
    (line : Str) (h : Head) → HasLowerNames h.headers → HasLowerNames (header_line line h).headers
unfolding header_line
header_line-HasLowerNames [] h k = k
header_line-HasLowerNames (c ∷ s) h k = pushed (split_once (c ∷ s) b':')
  where
    pushed : (o : Option (Str × Str)) → HasLowerNames (push_header o h).headers
    pushed none = k
    pushed (some (n, v)) = All-append _ h.headers _ k (to_ascii_lowercase_idempotent (trim n), tt)

pub header_lines-HasLowerNames :
    (ls : List Str) (h : Head) → HasLowerNames h.headers → HasLowerNames (header_lines ls h).headers
unfolding header_lines
header_lines-HasLowerNames [] h k = k
header_lines-HasLowerNames (l ∷ ls) h k =
    header_lines-HasLowerNames ls (header_line l h) (header_line-HasLowerNames l h k)
