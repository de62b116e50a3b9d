-- ===== src/Indexing/Fetch/Bounds.antt =====
-- A response that was read is within the limit on messages, whatever length it announces.
use google_co.Base.{
  ℕ, ◌+◌, ◌≤◌, ◌≡◌, refl, arith, List, [], ◌∷◌, ◌++◌, ltb, Option, none, some, length, take, drop,
  Bool-cases, Option-cases, inl, inr, not_ltb→le, length-take, length-drop,
}
use mathlib.Core.Path.{subst}
use google_co.Base.Results.{Result, ok, >>=-eq-ok, eq_of_ok, err≢ok}
use google_co.Str.Ascii.{Bytes}
use google_co.Str.Search.{find-le}
use google_co.Api.Status.{enforce_max_message_size, max_message_bytes}
use google_co.Api.Headers.{crlfcrlf}
use google_co.Api.Stream.{got, failed}
use google_co.Crawler.Client.{ClientResponse, find_crlfcrlf}
use google_co.Indexing.Fetch.{
  Timed, FetchError, Received, read_head, Head, parse_head, enforce, read_sized, read_until_idle,
  body_of, read_response,
}

abbrev pub AtMost : ℕ → Option ℕ → Type 0
AtMost n none = Unit
AtMost n (some len) = n ≤ len

-- What was read of the response: its head, and a body within the limit.
pub record IsReceived (s : List Timed) (resp : ClientResponse) : Type 0 where
  pub received : Received
  pub head : Head
  pub is_received : read_head [] s ≡ ok received
  pub is_head : parse_head (take (received.header_end + 4) received.buf) ≡ ok head
  pub same_code : resp.code ≡ head.code
  pub same_headers : resp.headers ≡ head.headers
  pub fits : received.header_end + 4 + length resp.body ≤ max_message_bytes
  pub announced : AtMost (length resp.body) head.content_length

abbrev HeadFits : Received → Type 0
HeadFits r = (length r.buf ≤ max_message_bytes) × (r.header_end + 4 ≤ length r.buf)

read_head-HeadFits :
    (buf : Bytes) (s : List Timed) (r : Received) → read_head buf s ≡ ok r → HeadFits r
unfolding read_head find_crlfcrlf
read_head-HeadFits buf [] r = λ e. absurd (err≢ok e)
read_head-HeadFits buf ((t, failed) ∷ s) r = λ e. absurd (err≢ok e)
read_head-HeadFits buf ((t, got []) ∷ s) r = λ e. absurd (err≢ok e)
read_head-HeadFits buf ((t, got (c ∷ cs)) ∷ s) r =
    elim (Bool-cases (ltb max_message_bytes (length (buf ++ c ∷ cs)))) [
      | inl a ↦ rw a (λ e. absurd (err≢ok e))
      | inr a ↦ elim (Option-cases (find_crlfcrlf (buf ++ c ∷ cs))) [
        | inl n ↦ rw (a, n) (read_head-HeadFits (buf ++ c ∷ cs) s r)
        | inr (pos, f) ↦
            rw (a, f)
              (λ e. subst HeadFits (eq_of_ok e) (
                not_ltb→le (length (buf ++ c ∷ cs)) max_message_bytes a,
                find-le (buf ++ c ∷ cs) crlfcrlf pos f,
              ))
      ]
    ]

-- A check that succeeds.
enforce-le : (n : ℕ) (u : Unit {0}) → enforce n ≡ ok u → n ≤ max_message_bytes
unfolding enforce_max_message_size
enforce-le n u = elim (Bool-cases (ltb max_message_bytes n)) [
  | inl a ↦ rw a (λ e. absurd (err≢ok e))
  | inr a ↦ rw a (λ e. not_ltb→le n max_message_bytes a)
]

same_fits :
    (at : ℕ) {body b : Bytes}
    → at + length body ≤ max_message_bytes
    → ◌≡◌ {A = Result FetchError Bytes} (ok body) (ok b)
    → at + length b ≤ max_message_bytes
same_fits at h e = subst (λ b. at + length b ≤ max_message_bytes) (eq_of_ok e) h

read_sized-fits :
    (at len : ℕ) (body : Bytes) (s : List Timed) (b : Bytes)
    → at + length body ≤ max_message_bytes
    → read_sized at len body s ≡ ok b
    → at + length b ≤ max_message_bytes
unfolding read_sized
read_sized-fits at len body [] b h = same_fits at h
read_sized-fits at len body ((t, failed) ∷ s) b h = elim (Bool-cases (ltb (length body) len)) [
  | inl a ↦ rw a (λ e. absurd (err≢ok e))
  | inr a ↦ rw a (same_fits at h)
]
read_sized-fits at len body ((t, got []) ∷ s) b h = same_fits at h
read_sized-fits at len body ((t, got (c ∷ cs)) ∷ s) b h =
    elim (Bool-cases (ltb (length body) len)) [
      | inl a ↦ rw a (λ e.
          let (u, checked, rest) = >>=-eq-ok (enforce (at + length (body ++ c ∷ cs))) _ e in
          read_sized-fits at len (body ++ c ∷ cs) s b (enforce-le _ u checked) rest)
      | inr a ↦ rw a (same_fits at h)
    ]

read_until_idle-fits :
    (idle at : ℕ) (body : Bytes) (s : List Timed) (b : Bytes)
    → at + length body ≤ max_message_bytes
    → read_until_idle idle at body s ≡ ok b
    → at + length b ≤ max_message_bytes
unfolding read_until_idle
read_until_idle-fits idle at body [] b h = same_fits at h
read_until_idle-fits idle at body ((t, failed) ∷ s) b h = same_fits at h
read_until_idle-fits idle at body ((t, got []) ∷ s) b h = same_fits at h
read_until_idle-fits idle at body ((t, got (c ∷ cs)) ∷ s) b h = elim (Bool-cases (ltb idle t)) [
  | inl a ↦ rw a (same_fits at h)
  | inr a ↦ rw a (λ e.
      let (u, checked, rest) = >>=-eq-ok (enforce (at + length (body ++ c ∷ cs))) _ e in
      read_until_idle-fits idle at (body ++ c ∷ cs) s b (enforce-le _ u checked) rest)
]

abbrev BodyFits : ℕ → Option ℕ → Bytes → Type 0
BodyFits at o b = (at + length b ≤ max_message_bytes) × AtMost (length b) o

body_of-BodyFits :
    (idle at : ℕ) (o : Option ℕ) (rest : Bytes) (s : List Timed) (b : Bytes)
    → at + length rest ≤ max_message_bytes
    → body_of idle at o rest s ≡ ok b
    → BodyFits at o b
body_of-BodyFits idle at none rest s b h e = (read_until_idle-fits idle at rest s b h e, tt)
body_of-BodyFits idle at (some len) rest s b h e =
    let (u, checked, later) = >>=-eq-ok (enforce _) _ e in
    let (body, read, cut) = >>=-eq-ok (read_sized at len rest s) _ later in
    subst (BodyFits at (some len)) (eq_of_ok cut) (
      omega (arith, read_sized-fits at len rest s body h read, length-take len body),
      omega (arith, length-take len body),
    )

-- A response that was read has a head that was read and parsed; the head with the body is within the
-- limit on messages, and the body has not more bytes than were announced, whatever number that was.
pub read_response-IsReceived :
    (idle : ℕ) (s : List Timed) (resp : ClientResponse)
    → read_response idle s ≡ ok resp
    → IsReceived s resp
unfolding read_response
read_response-IsReceived idle s resp e =
    let (r, got_head, e1) = >>=-eq-ok (read_head [] s) _ e in
    let (head, parsed, e2) = >>=-eq-ok (parse_head (take (r.header_end + 4) r.buf)) _ e1 in
    let (body, got_body, e3) =
      >>=-eq-ok
        (body_of idle (r.header_end + 4) head.content_length (drop (r.header_end + 4) r.buf)
          r.unread)
        _ e2 in
    let (fits, inside) = read_head-HeadFits [] s r got_head in
    let (total, sized) =
      body_of-BodyFits idle (r.header_end + 4) head.content_length (drop (r.header_end + 4) r.buf)
        r.unread body (omega (arith, fits, inside, length-drop (r.header_end + 4) r.buf))
        got_body in
    subst (IsReceived s) (eq_of_ok e3) (record {
      received = r;
      head = head;
      is_received = got_head;
      is_head = parsed;
      same_code = refl;
      same_headers = refl;
      fits = total;
      announced = sized;
    })
