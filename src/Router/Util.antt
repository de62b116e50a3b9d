-- ===== src/Router/Util.antt =====
-- gurtd/src/router/util.rs: helpers of the handlers.
use google_co.Base.{
  ℕ, ◌≡◌, refl, false, ◌==◌, ◌||◌, List, [], ◌∷◌, ◌++◌, if◌then◌else◌, Option, none, some, All,
  All-append, Bool-cases, inl, inr,
}
use google_co.Str.Ascii.{Str, Bytes, codes, eq_ignore_ascii_case, to_ascii_lowercase}
use google_co.Api.Headers.{Header}
use google_co.Api.Status.{StatusCode}
use google_co.Api.Message.{Response}
use google_co.Api.HttpLike.{Request}

unfoldable pub json_response : StatusCode → Bytes → Response
json_response code body = record {
  code = code;
  headers = (codes "content-type", codes "application/json") ∷ [];
  body = body;
}

abbrev pub empty_response : StatusCode → Response
empty_response code = record { code = code; headers = []; body = [] }

unfoldable pub header_of : List Header → Str → Option Str
header_of [] lname = none
header_of ((k, v) ∷ rest) lname =
    let later = header_of rest lname in if eq_ignore_ascii_case k lname then some v else later

unfoldable pub get_header : Request → Str → Option Str
unfolding header_of
get_header req name = header_of req.headers (to_ascii_lowercase name)

unfoldable pub escape_char : ℕ → Str
escape_char c =
    if c == b'&'
    then codes "&amp;"
    else if c == b'<'
    then codes "&lt;"
    else if c == b'>'
    then codes "&gt;"
    else if c == b'"'
    then codes "&quot;"
    else if c == 39
    then codes "&#39;"
    else c ∷ []

unfoldable pub escape_html : Str → Str
unfolding escape_char
escape_html [] = []
escape_html (c ∷ s) = escape_char c ++ escape_html s

-- A character that neither opens a tag nor ends an attribute value.
abbrev pub IsInert : ℕ → Type 0
IsInert c = (c == b'<') || (c == b'>') || (c == b'"') || (c == 39) ≡ false

escape_char-All : (c : ℕ) → All IsInert (escape_char c)
unfolding escape_char
escape_char-All c = elim (Bool-cases (c == b'&')) [
  | inl a ↦ rw a (refl, (refl, (refl, (refl, (refl, tt)))))
  | inr a ↦ elim (Bool-cases (c == b'<')) [
    | inl b ↦ rw (a, b) (refl, (refl, (refl, (refl, tt))))
    | inr b ↦ elim (Bool-cases (c == b'>')) [
      | inl d ↦ rw (a, b, d) (refl, (refl, (refl, (refl, tt))))
      | inr d ↦ elim (Bool-cases (c == b'"')) [
        | inl e ↦ rw (a, b, d, e) (refl, (refl, (refl, (refl, (refl, (refl, tt))))))
        | inr e ↦ elim (Bool-cases (c == 39)) [
          | inl f ↦ rw (a, b, d, e, f) (refl, (refl, (refl, (refl, (refl, tt)))))
          | inr f ↦ rw (a, b, d, e, f) (rw (b, d, e, f) refl, tt)
        ]
      ]
    ]
  ]
]

-- Text that is escaped has no character that opens or closes a tag or ends an attribute value, for
-- every text.
pub escape_html-All : (s : Str) → All IsInert (escape_html s)
unfolding escape_html
escape_html-All [] = tt
escape_html-All (c ∷ s) =
    All-append IsInert (escape_char c) (escape_html s) (escape_char-All c) (escape_html-All s)
