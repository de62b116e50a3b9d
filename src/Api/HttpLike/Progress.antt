-- ===== src/Api/HttpLike/Progress.antt =====
-- Reading a request takes at least one read from the stream.
use mathlib.Core.Path.{subst}
use google_co.Base.{
  ◌%◌, ◌^◌, ℕ, suc, ◌+◌, ◌-◌, ◌≤◌, ◌<◌, ◌≡◌, arith, ltb, [], ◌∷◌, ◌++◌, length, take, drop,
  Bool-cases, Option-cases, inl, inr,
}
use google_co.Base.Results.{ok, >>=-eq-ok, eq_of_ok, err≢ok}
use google_co.Str.Ascii.{Bytes}
use google_co.Str.Search.{find}
use google_co.Api.Stream.{got, failed, Stream}
use google_co.Api.Headers.{crlfcrlf}
use google_co.Api.Status.{max_message_bytes}
use google_co.Api.HttpLike.{
  Request, Received, Start, Body, read_head, read_body, parse_head, with_body, read_request,
}

read_head-shorter :
    (buf : Bytes) (from : ℕ) (s : Stream) (r : Received)
    → read_head buf from s ≡ ok r
    → length r.unread < length s
unfolding read_head
read_head-shorter buf from [] r = λ h. absurd (err≢ok h)
read_head-shorter buf from (failed ∷ s) r = λ h. absurd (err≢ok h)
read_head-shorter buf from (got [] ∷ s) r = λ h. absurd (err≢ok h)
read_head-shorter buf from (got (c ∷ cs) ∷ s) r =
    elim (Bool-cases (ltb max_message_bytes (length (buf ++ c ∷ cs)))) [
      | inl e ↦ rw e (λ h. absurd (err≢ok h))
      | inr e ↦ elim (Option-cases (find (drop (from - 3) (buf ++ c ∷ cs)) crlfcrlf)) [
        | inl k ↦
            rw (e, k)
              (λ h.
                omega
                  (arith, read_head-shorter (buf ++ c ∷ cs) (length buf + length (c ∷ cs)) s r h))
        | inr (rel, k) ↦
            rw (e, k)
              (λ h. subst (λ t. length t.unread < suc (length s)) (eq_of_ok h) (omega arith))
      ]
    ]

read_body-le :
    (header_len n : ℕ) (body : Bytes) (s : Stream) (b : Body)
    → read_body header_len n body s ≡ ok b
    → length b.unread ≤ length s
unfolding read_body
read_body-le header_len n body [] b =
    λ h. subst (λ t. length t.unread ≤ 0) (eq_of_ok h) (omega arith)
read_body-le header_len n body (failed ∷ s) b = elim (Bool-cases (ltb (length body) n)) [
  | inl e ↦ rw e (λ h. absurd (err≢ok h))
  | inr e ↦ rw e (λ h. subst (λ t. length t.unread ≤ suc (length s)) (eq_of_ok h) (omega arith))
]
read_body-le header_len n body (got [] ∷ s) b = elim (Bool-cases (ltb (length body) n)) [
  | inl e ↦ rw e (λ h. subst (λ t. length t.unread ≤ suc (length s)) (eq_of_ok h) (omega arith))
  | inr e ↦ rw e (λ h. subst (λ t. length t.unread ≤ suc (length s)) (eq_of_ok h) (omega arith))
]
read_body-le header_len n body (got (c ∷ cs) ∷ s) b = elim (Bool-cases (ltb (length body) n)) [
  | inr e ↦ rw e (λ h. subst (λ t. length t.unread ≤ suc (length s)) (eq_of_ok h) (omega arith))
  | inl e ↦ elim (Bool-cases (ltb max_message_bytes (header_len + length (body ++ c ∷ cs)))) [
    | inl k ↦ rw (e, k) (λ h. absurd (err≢ok h))
    | inr k ↦ rw (e, k) (λ h. omega (arith, read_body-le header_len n (body ++ c ∷ cs) s b h))
  ]
]

with_body-le :
    (start : Start) (r : Received) (rest : Bytes) (p : Request × Stream)
    → with_body start r rest ≡ ok p
    → length p.1 ≤ length r.unread
with_body-le start r rest p = elim (Bool-cases (ltb 0 start.head.content_length)) [
  | inr e ↦ rw e (λ h. subst (λ t. length t.1 ≤ length r.unread) (eq_of_ok h) (omega arith))
  | inl e ↦
      elim (Bool-cases
        (ltb max_message_bytes ((r.header_end + 4 + start.head.content_length) % 2 ^ 64))) [
          | inl k ↦ rw (e, k) (λ h. absurd (err≢ok h))
          | inr k ↦
              rw (e, k)
                (λ h.
                  let step =
                    >>=-eq-ok (read_body (r.header_end + 4) start.head.content_length rest r.unread)
                      _ h in
                  subst (λ t. length t.1 ≤ length r.unread) (eq_of_ok step.2)
                    (read_body-le (r.header_end + 4) start.head.content_length rest r.unread step.0
                      step.1))
        ]
]

-- A request that is read leaves fewer reads in the stream than there were.
pub read_request-shorter :
    (s : Stream) (p : Request × Stream) → read_request s ≡ ok p → length p.1 < length s
unfolding read_request
read_request-shorter s p h =
    let head = >>=-eq-ok (read_head [] 0 s) _ h in
    let start = >>=-eq-ok (parse_head (take (head.0.header_end + 4) head.0.buf)) _ head.2 in
    omega (
      arith,
      read_head-shorter [] 0 s head.0 head.1,
      with_body-le start.0 head.0 (drop (head.0.header_end + 4) head.0.buf) p start.2,
    )
