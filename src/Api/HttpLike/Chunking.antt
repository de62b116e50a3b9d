-- ===== src/Api/HttpLike/Chunking.antt =====
-- The loops of `read_request` against the bytes that arrive.
use google_co.Base.{
  ℕ, ◌+◌, ◌-◌, ◌≤◌, ◌≡◌, refl, sym, ap, ◌∙◌, arith, true, false, inl, inr, List, [], ◌∷◌, ◌++◌,
  append_assoc, append-nil, ltb, none, some, length, take, drop, eq_of_some, none≢some, le→not_ltb,
  length-append, Option-cases, Bool-cases,
}
use google_co.Base.Results.{Result, ok, err}
use google_co.Str.Ascii.{Bytes}
use google_co.Str.Search.{find, find-le}
use google_co.Api.Status.{StatusCode, max_message_bytes, bad_request}
use google_co.Api.Stream.{got, Stream, chunks, concat, NonEmptyChunks}
use google_co.Api.Headers.{crlfcrlf}
use google_co.Api.HttpLike.{Received, read_head, Body, read_body}
use google_co.Api.HttpLike.Resume.{find_resumed, find_more, take-append_left}

module _ (at n : ℕ) (body : Bytes) (c : ℕ) (ds : Bytes) (s : Stream) where
  body_more :
      ltb (length body) n ≡ true
      → at + length (body ++ c ∷ ds) ≤ max_message_bytes
      → read_body at n body (got (c ∷ ds) ∷ s) ≡ read_body at n (body ++ c ∷ ds) s
  unfolding read_body
  body_more more fits = rw (more, le→not_ltb _ _ fits)

  body_full :
      ltb (length body) n ≡ false
      → read_body at n body (got (c ∷ ds) ∷ s)
        ≡ ok (record { bytes = body; unread = got (c ∷ ds) ∷ s })
  unfolding read_body
  body_full full = rw full

-- The head loop has stopped at the end of the head, at `i` in the bytes `all`.
pub record HeadRead (all : Bytes) (i : ℕ) (out : Result StatusCode Received) : Type 0 where
  pub received : Received
  pub later : List Bytes
  pub is_ok : out ≡ ok received
  pub ends_at : received.header_end ≡ i
  pub unread : received.unread ≡ chunks later
  pub parts : received.buf ++ concat later ≡ all
  pub nonempty : NonEmptyChunks later
  pub within : i + 4 ≤ length received.buf

module _ (buf : Bytes) (c : ℕ) (ds : Bytes) (s : Stream) where
  head_hit :
      (rel : ℕ)
      → length (buf ++ c ∷ ds) ≤ max_message_bytes
      → find (drop (length buf - 3) (buf ++ c ∷ ds)) crlfcrlf ≡ some rel
      → read_head buf (length buf) (got (c ∷ ds) ∷ s)
        ≡ ok (record { buf = buf ++ c ∷ ds; header_end = length buf - 3 + rel; unread = s })
  unfolding read_head
  head_hit rel fits e = rw (le→not_ltb _ _ fits, e)

  head_miss :
      length (buf ++ c ∷ ds) ≤ max_message_bytes
      → find (drop (length buf - 3) (buf ++ c ∷ ds)) crlfcrlf ≡ none
      → read_head buf (length buf) (got (c ∷ ds) ∷ s)
        ≡ read_head (buf ++ c ∷ ds) (length (buf ++ c ∷ ds)) s
  unfolding read_head
  head_miss fits e = rw (le→not_ltb _ _ fits, e, length-append buf (c ∷ ds))

-- The end of the head is where a search of all bytes finds it.
pub head_found :
    (cs : List Bytes) (buf : Bytes) (i : ℕ)
    → NonEmptyChunks cs
    → find buf crlfcrlf ≡ none
    → find (buf ++ concat cs) crlfcrlf ≡ some i
    → length (buf ++ concat cs) ≤ max_message_bytes
    → HeadRead (buf ++ concat cs) i (read_head buf (length buf) (chunks cs))
head_found [] buf i h missing at fits =
    absurd (none≢some (sym missing ∙ ap (λ b. find b crlfcrlf) (sym (append-nil buf)) ∙ at))
head_found ([] ∷ cs) buf i h missing at fits = cc h.0
head_found ((c ∷ ds) ∷ cs) buf i h missing at fits =
    let new = c ∷ ds in
    let resumed = find_resumed buf new missing in
    let at' : find ((buf ++ new) ++ concat cs) crlfcrlf ≡ some i =
      rw (append_assoc buf new (concat cs)) at in
    let fits' : length ((buf ++ new) ++ concat cs) ≤ max_message_bytes =
      rw (append_assoc buf new (concat cs)) fits in
    let first : length (buf ++ new) ≤ max_message_bytes =
      omega (arith, length-append (buf ++ new) (concat cs)) in
    elim (Option-cases (find (drop (length buf - 3) (buf ++ new)) crlfcrlf)) [
      | inl e ↦
          rw (← append_assoc buf new (concat cs), head_miss buf c ds (chunks cs) first e)
            (head_found cs (buf ++ new) i h.1 (rw e at resumed) at' fits')
      | inr (rel, e) ↦
          let found : find (buf ++ new) crlfcrlf ≡ some (length buf - 3 + rel) = rw e at resumed in
          let same : length buf - 3 + rel ≡ i =
            eq_of_some (sym (find_more (buf ++ new) (concat cs) crlfcrlf _ found) ∙ at') in
          record {
            received = record {
              buf = buf ++ new;
              header_end = length buf - 3 + rel;
              unread = chunks cs;
            };
            later = cs;
            is_ok = head_hit buf c ds (chunks cs) rel first e;
            ends_at = same;
            unread = refl;
            parts = append_assoc buf new (concat cs);
            nonempty = h.1;
            within = omega (arith, find-le (buf ++ new) crlfcrlf _ found);
          }
    ]

-- Without an end of the head the stream ends first.
pub head_missing :
    (cs : List Bytes) (buf : Bytes)
    → NonEmptyChunks cs
    → find buf crlfcrlf ≡ none
    → find (buf ++ concat cs) crlfcrlf ≡ none
    → length (buf ++ concat cs) ≤ max_message_bytes
    → read_head buf (length buf) (chunks cs) ≡ err bad_request
head_missing [] buf h missing at fits = unfold read_head in refl
head_missing ([] ∷ cs) buf h missing at fits = cc h.0
head_missing ((c ∷ ds) ∷ cs) buf h missing at fits =
    let new = c ∷ ds in
    let resumed = find_resumed buf new missing in
    let at' : find ((buf ++ new) ++ concat cs) crlfcrlf ≡ none =
      rw (append_assoc buf new (concat cs)) at in
    let fits' : length ((buf ++ new) ++ concat cs) ≤ max_message_bytes =
      rw (append_assoc buf new (concat cs)) fits in
    let first : length (buf ++ new) ≤ max_message_bytes =
      omega (arith, length-append (buf ++ new) (concat cs)) in
    elim (Option-cases (find (drop (length buf - 3) (buf ++ new)) crlfcrlf)) [
      | inl e ↦
          head_miss buf c ds (chunks cs) first e
          ∙ head_missing cs (buf ++ new) h.1 (rw e at resumed) at' fits'
      | inr (rel, e) ↦
          absurd
            (none≢some (sym at' ∙ find_more (buf ++ new) (concat cs) crlfcrlf _ (rw e at resumed)))
    ]

-- The body loop has collected enough of the bytes `all`.
pub record BodyRead (n : ℕ) (all : Bytes) (out : Result StatusCode Body) : Type 0 where
  pub body : Body
  pub is_ok : out ≡ ok body
  pub enough : take n body.bytes ≡ take n all

pub body_read :
    (cs : List Bytes) (at n : ℕ) (body : Bytes)
    → NonEmptyChunks cs
    → at + length (body ++ concat cs) ≤ max_message_bytes
    → BodyRead n (body ++ concat cs) (read_body at n body (chunks cs))
body_read [] at n body h fits = record {
  body = record { bytes = body; unread = [] };
  is_ok = unfold read_body in refl;
  enough = rw (append-nil body);
}
body_read ([] ∷ cs) at n body h fits = cc h.0
body_read ((c ∷ ds) ∷ cs) at n body h fits = elim (Bool-cases (ltb (length body) n)) [
  | inl more ↦
      let fits' : at + length ((body ++ c ∷ ds) ++ concat cs) ≤ max_message_bytes =
        rw (append_assoc body (c ∷ ds) (concat cs)) fits in
      rw
        (
          ← append_assoc body (c ∷ ds) (concat cs),
          body_more at n body c ds (chunks cs) more
              (omega (arith, length-append (body ++ c ∷ ds) (concat cs))),
        )
        (body_read cs at n (body ++ c ∷ ds) h.1 fits')
  | inr full ↦ record {
    body = record { bytes = body; unread = got (c ∷ ds) ∷ chunks cs };
    is_ok = body_full at n body c ds (chunks cs) full;
    enough = sym (take-append_left n body _ (ground arith));
  }
]
