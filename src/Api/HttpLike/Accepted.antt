-- ===== src/Api/HttpLike/Accepted.antt =====
-- What holds of every request that `read_request` accepts.
use google_co.Base.{
  ℕ, ◌+◌, ◌-◌, ◌++◌, drop, Option-cases, length-drop, ◌%◌, ◌^◌, ◌≤◌, ◌≡◌, arith, false, ◌||◌, inl,
  inr, List, [], ◌∷◌, ltb, is_empty, length, take, length-take, Bool-cases, or-false, ap,
  not_ltb→le,
}
use mathlib.Core.Path.{subst}
use google_co.Base.Results.{Result, ok, >>=-eq-ok, eq_of_ok, err≢ok, ok_or}
use google_co.Str.Ascii.{Str, Bytes}
use google_co.Str.Search.{find}
use google_co.Str.Split.{split_crlf}
use google_co.Str.Utf8.{from_utf8}
use google_co.Api.Status.{StatusCode, bad_request, max_message_bytes}
use google_co.Api.Stream.{got, failed, Stream}
use google_co.Api.Headers.{crlfcrlf, HasLowerNames, no_headers, header_lines-HasLowerNames}
use google_co.Api.HttpLike.{
  Request, Received, Start, Body, read_head, parse_head, read_body, read_request, with_body, finish,
  checked_start, start_of,
}

pub record IsAccepted (r : Request) : Type 0 where
  pub has_method : is_empty r.method ≡ false
  pub has_path : is_empty r.path ≡ false
  pub lower_names : HasLowerNames r.headers
  pub fits : length r.body ≤ max_message_bytes

record IsStart (start : Start) : Type 0 where
  has_method : is_empty start.method ≡ false
  has_path : is_empty start.path ≡ false
  lower_names : HasLowerNames start.head.headers

checked_start-IsStart :
    (m p : Str) (ls : List Str) {start : Start} → checked_start m p ls ≡ ok start → IsStart start
checked_start-IsStart m p ls e = elim (Bool-cases (is_empty m || is_empty p)) [
  | inl bad ↦ absurd (err≢ok (rw bad at e))
  | inr good ↦ rw (← eq_of_ok (rw good at e)) (record {
    has_method = (or-false _ _ good).0;
    has_path = (or-false _ _ good).1;
    lower_names = header_lines-HasLowerNames ls no_headers tt;
  })
]

start_of-IsStart : (ls : List Str) {start : Start} → start_of ls ≡ ok start → IsStart start
start_of-IsStart [] e = cc
start_of-IsStart (l ∷ ls) e = checked_start-IsStart _ _ ls e

finished :
    (start : Start) (body : Bytes) (t : Stream) {req : Request} {s : Stream}
    → IsStart start
    → length body ≤ max_message_bytes
    → finish start body t ≡ ok (req, s)
    → IsAccepted req
finished start body t h le e = rw (← ap (λ p. p.0) (eq_of_ok e)) (record {
  has_method = h.has_method;
  has_path = h.has_path;
  lower_names = h.lower_names;
  fits = le;
})

-- What the loops return is within the limit.
read_head-fits :
    (buf : Bytes) (from : ℕ) (s : Stream) (r : Received)
    → read_head buf from s ≡ ok r
    → length r.buf ≤ max_message_bytes
unfolding read_head
read_head-fits buf from [] r = λ e. absurd (err≢ok e)
read_head-fits buf from (failed ∷ s) r = λ e. absurd (err≢ok e)
read_head-fits buf from (got [] ∷ s) r = λ e. absurd (err≢ok e)
read_head-fits buf from (got (c ∷ cs) ∷ s) r =
    elim (Bool-cases (ltb max_message_bytes (length (buf ++ c ∷ cs)))) [
      | inl a ↦ rw a (λ e. absurd (err≢ok e))
      | inr a ↦ elim (Option-cases (find (drop (from - 3) (buf ++ c ∷ cs)) crlfcrlf)) [
        | inl n ↦ rw (a, n) (read_head-fits (buf ++ c ∷ cs) (length buf + length (c ∷ cs)) s r)
        | inr (rel, f) ↦
            rw (a, f)
              (λ e.
                subst (λ r. length r.buf ≤ max_message_bytes) (eq_of_ok e)
                  (not_ltb→le (length (buf ++ c ∷ cs)) max_message_bytes a))
      ]
    ]

same_fits :
    {b d : Body}
    → length b.bytes ≤ max_message_bytes
    → ◌≡◌ {A = Result StatusCode Body} (ok b) (ok d)
    → length d.bytes ≤ max_message_bytes
same_fits h e = subst (λ b. length b.bytes ≤ max_message_bytes) (eq_of_ok e) h

read_body-fits :
    (at n : ℕ) (body : Bytes) (s : Stream) (b : Body)
    → length body ≤ max_message_bytes
    → read_body at n body s ≡ ok b
    → length b.bytes ≤ max_message_bytes
unfolding read_body
read_body-fits at n body [] b h = same_fits h
read_body-fits at n body (failed ∷ s) b h = elim (Bool-cases (ltb (length body) n)) [
  | inl a ↦ rw a (λ e. absurd (err≢ok e))
  | inr a ↦ rw a (same_fits h)
]
read_body-fits at n body (got [] ∷ s) b h = elim (Bool-cases (ltb (length body) n)) [
  | inl a ↦ rw a (same_fits h)
  | inr a ↦ rw a (same_fits h)
]
read_body-fits at n body (got (c ∷ cs) ∷ s) b h = elim (Bool-cases (ltb (length body) n)) [
  | inr a ↦ rw a (same_fits h)
  | inl a ↦ elim (Bool-cases (ltb max_message_bytes (at + length (body ++ c ∷ cs)))) [
    | inl over ↦ rw (a, over) (λ e. absurd (err≢ok e))
    | inr under ↦
        let small = not_ltb→le (at + length (body ++ c ∷ cs)) max_message_bytes under in
        rw (a, under) (read_body-fits at n (body ++ c ∷ cs) s b (omega (arith, small)))
  ]
]

with_body-IsAccepted :
    (start : Start) (r : Received) (rest : Bytes) {req : Request} {s : Stream}
    → IsStart start
    → length rest ≤ max_message_bytes
    → with_body start r rest ≡ ok (req, s)
    → IsAccepted req
with_body-IsAccepted start r rest h small e = elim (Bool-cases (ltb 0 start.head.content_length)) [
  | inr none_announced ↦ finished start [] r.unread h (omega arith) (rw none_announced at e)
  | inl n ↦
      elim (Bool-cases
        (ltb max_message_bytes ((r.header_end + 4 + start.head.content_length) % 2 ^ 64))) [
          | inl over ↦ absurd (err≢ok (rw (n, over) at e))
          | inr under ↦
              let (b, got_body, e') =
                >>=-eq-ok (read_body (r.header_end + 4) start.head.content_length rest r.unread)
                  (λ b. finish start (take start.head.content_length b.bytes) b.unread)
                  (rw (n, under) at e) in
              finished start (take start.head.content_length b.bytes) b.unread h
                (omega (
                  arith,
                  length-take start.head.content_length b.bytes,
                  read_body-fits (r.header_end + 4) start.head.content_length rest r.unread b small
                      got_body,
                ))
                e'
        ]
]

-- An accepted request has a method and a path, header names in lower case, and a body within the
-- message limit.
pub read_request-IsAccepted :
    (s s' : Stream) (req : Request) → read_request s ≡ ok (req, s') → IsAccepted req
unfolding read_request parse_head
read_request-IsAccepted s s' req e =
    let (r, got_head, e1) = >>=-eq-ok (read_head [] 0 s) _ e in
    let (start, p, e2) = >>=-eq-ok (parse_head (take (r.header_end + 4) r.buf)) _ e1 in
    let (text, _, e3) =
      >>=-eq-ok (ok_or (from_utf8 (take (r.header_end + 4) r.buf)) bad_request)
        (λ t. start_of (split_crlf t)) p in
    with_body-IsAccepted start r _ (start_of-IsStart _ e3)
      (omega (arith, read_head-fits [] 0 s r got_head, length-drop (r.header_end + 4) r.buf)) e2
