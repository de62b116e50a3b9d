-- ===== src/Api/HttpLike/Laws.antt =====
-- What `read_request` returns, as a function of the bytes that arrive.
use google_co.Base.{
  ℕ, ◌+◌, ◌%◌, ◌^◌, ◌≤◌, ◌≡◌, refl, sym, ap, ◌∙◌, arith, inl, inr, List, [], ◌++◌, ltb, none, some,
  length, take, drop, length-drop, Option-cases, Bool-cases,
}
use google_co.Base.Results.{Result, ok, err, ◌>>=◌}
use google_co.Str.Ascii.{Bytes}
use google_co.Str.Search.{find, find-le}
use google_co.Api.Status.{StatusCode, max_message_bytes}
use google_co.Api.Stream.{Stream, chunks, concat, NonEmptyChunks}
use google_co.Api.Headers.{crlfcrlf}
use google_co.Api.HttpLike.{Request, Received, Start, parse_head, read_request, with_body}
use google_co.Api.HttpLike.Resume.{take-append_left, drop-append_left}
use google_co.Api.HttpLike.Chunking.{head_found, head_missing, body_read}
use google_co.Api.HttpLike.Whole.{whole_request, with_length}

-- The request without the stream behind it.
abbrev pub request_only : Result StatusCode (Request × Stream) → Result StatusCode Request
request_only (ok (r, s)) = ok r
request_only (err e) = err e

module _ (r : Received) (later : List Bytes) (all : Bytes) where
  with_body-with_length :
      (start : Start)
      → NonEmptyChunks later
      → r.unread ≡ chunks later
      → drop (r.header_end + 4) r.buf ++ concat later ≡ drop (r.header_end + 4) all
      → (r.header_end + 4) + length (drop (r.header_end + 4) all) ≤ max_message_bytes
      → request_only (with_body start r (drop (r.header_end + 4) r.buf))
        ≡ with_length start start.head.content_length
            (r.header_end + 4)
            (drop (r.header_end + 4) all)
  with_body-with_length start h unread split fits =
      let rest = drop (r.header_end + 4) r.buf in
      let b = body_read later (r.header_end + 4) start.head.content_length rest h (rw split fits) in
      let enough = rw split at b.enough in
      elim (Bool-cases (ltb 0 start.head.content_length)) [
        | inr e ↦ rw e
        | inl e ↦
            elim (Bool-cases
              (ltb max_message_bytes ((r.header_end + 4 + start.head.content_length) % 2 ^ 64))) [
                | inl over ↦ rw (e, over)
                | inr under ↦ rw (e, under, unread, b.is_ok, enough)
              ]
      ]

module _ (r : Received) (rest : Bytes) (n : ℕ) (later : Bytes) where
  bind-request_only :
      (m : Result StatusCode Start)
      → ((start : Start)
          → request_only (with_body start r rest)
            ≡ with_length start start.head.content_length n later)
      → request_only (m >>= λ start. with_body start r rest)
        ≡ (m >>= λ start. with_length start start.head.content_length n later)
  bind-request_only (ok start) same = same start
  bind-request_only (err e) same = refl

find-nil : find [] crlfcrlf ≡ none
unfolding find
find-nil = refl

-- For chunks that are not empty and together within the message limit: however the bytes are cut,
-- and although only new bytes are searched, what is read is the request, or the error, that the
-- parser of all bytes at once returns.
pub read_request-chunks :
    (cs : List Bytes)
    → NonEmptyChunks cs
    → length (concat cs) ≤ max_message_bytes
    → request_only (read_request (chunks cs)) ≡ whole_request (concat cs)
unfolding read_request whole_request
read_request-chunks cs h fits = elim (Option-cases (find (concat cs) crlfcrlf)) [
  | inl e ↦ rw (e, head_missing cs [] h find-nil e fits)
  | inr (i, e) ↦
      let done = head_found cs [] i h find-nil e fits in
      let r = done.received in
      let n = r.header_end + 4 in
      let e' : find (concat cs) crlfcrlf ≡ some r.header_end = e ∙ ap some (sym done.ends_at) in
      let within : n ≤ length r.buf = omega (arith, done.ends_at, done.within) in
      let same_head : take n r.buf ≡ take n (concat cs) =
        sym (take-append_left n r.buf (concat done.later) within) ∙ ap (take n) done.parts in
      let same_rest : drop n r.buf ++ concat done.later ≡ drop n (concat cs) =
        sym (drop-append_left n r.buf (concat done.later) within) ∙ ap (drop n) done.parts in
      let room : n + length (drop n (concat cs)) ≤ max_message_bytes =
        omega (arith, length-drop n (concat cs), find-le (concat cs) crlfcrlf _ e') in
      rw (e', done.is_ok, same_head)
        (bind-request_only r (drop n r.buf) n (drop n (concat cs)) (parse_head (take n (concat cs)))
          λ start.
            with_body-with_length r done.later (concat cs) start done.nonempty done.unread same_rest
              room)
]
