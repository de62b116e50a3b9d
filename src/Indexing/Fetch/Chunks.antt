-- ===== src/Indexing/Fetch/Chunks.antt =====
-- A response with an announced length is read the same, however its bytes are cut into reads.
use google_co.Base.{
  ℕ, ◌+◌, ◌≤◌, ◌^◌, ◌%◌, ◌≡◌, refl, sym, ap, ◌∙◌, arith, true, false, inl, inr, List, [], ◌∷◌, ◌++◌,
  append_assoc, append-nil, ltb, none, some, length, take, drop, is_empty, All, eq_of_some,
  none≢some, le→not_ltb, length-append, length-drop, Option-cases, Bool-cases,
}
use google_co.Base.Results.{Result, ok}
use google_co.Str.Ascii.{Bytes}
use google_co.Str.Search.{find, find-le}
use google_co.Api.Status.{max_message_bytes, enforce_max_message_size}
use google_co.Api.Stream.{got}
use google_co.Api.Headers.{crlfcrlf}
use google_co.Api.HttpLike.Resume.{find_more, take-append_left, drop-append_left}
use google_co.Crawler.Client.{find_crlfcrlf}
use google_co.Indexing.Fetch.{
  Timed, FetchError, Received, read_head, Head, parse_head, enforce, read_sized, body_of,
  read_response,
}

-- Reads that return bytes, each with its time, and what they return together.
abbrev pub arriving : List (ℕ × Bytes) → List Timed
arriving [] = []
arriving (c ∷ cs) = (c.0, got c.1) ∷ arriving cs

abbrev pub joined : List (ℕ × Bytes) → Bytes
joined [] = []
joined (c ∷ cs) = c.1 ++ joined cs

abbrev pub NonEmptyReads : List (ℕ × Bytes) → Type 0
NonEmptyReads = All (λ c. is_empty c.1 ≡ false)

-- The head loop has stopped at the end of the head, at `i` in the bytes `all`.
record HeadRead (all : Bytes) (i : ℕ) (out : Result FetchError Received) : Type 0 where
  pub received : Received
  pub later : List (ℕ × Bytes)
  pub is_ok : out ≡ ok received
  pub ends_at : received.header_end ≡ i
  pub unread : received.unread ≡ arriving later
  pub parts : received.buf ++ joined later ≡ all
  pub nonempty : NonEmptyReads later
  pub inside : i + 4 ≤ length received.buf

module _ (buf : Bytes) (t c : ℕ) (ds : Bytes) (s : List Timed) where
  head_hit :
      (i : ℕ)
      → length (buf ++ c ∷ ds) ≤ max_message_bytes
      → find (buf ++ c ∷ ds) crlfcrlf ≡ some i
      → read_head buf ((t, got (c ∷ ds)) ∷ s)
        ≡ ok (record { buf = buf ++ c ∷ ds; header_end = i; unread = s })
  unfolding read_head find_crlfcrlf
  head_hit i fits e = rw (le→not_ltb _ _ fits, e) refl

  head_miss :
      length (buf ++ c ∷ ds) ≤ max_message_bytes
      → find (buf ++ c ∷ ds) crlfcrlf ≡ none
      → read_head buf ((t, got (c ∷ ds)) ∷ s) ≡ read_head (buf ++ c ∷ ds) s
  unfolding read_head find_crlfcrlf
  head_miss fits e = rw (le→not_ltb _ _ fits, e) refl

head_found :
    (cs : List (ℕ × Bytes)) (buf : Bytes) (i : ℕ)
    → NonEmptyReads cs
    → find buf crlfcrlf ≡ none
    → find (buf ++ joined cs) crlfcrlf ≡ some i
    → length (buf ++ joined cs) ≤ max_message_bytes
    → HeadRead (buf ++ joined cs) i (read_head buf (arriving cs))
head_found [] buf i h missing at fits =
    absurd (none≢some (sym missing ∙ ap (λ b. find b crlfcrlf) (sym (append-nil buf)) ∙ at))
head_found ((t, []) ∷ cs) buf i h missing at fits = cc h.0
head_found ((t, c ∷ ds) ∷ cs) buf i h missing at fits =
    let new = c ∷ ds in
    let whole = append_assoc buf new (joined cs) in
    let at' : find ((buf ++ new) ++ joined cs) crlfcrlf ≡ some i = rw whole at in
    let fits' : length ((buf ++ new) ++ joined cs) ≤ max_message_bytes = rw whole fits in
    let first : length (buf ++ new) ≤ max_message_bytes =
      omega (arith, length-append (buf ++ new) (joined cs)) in
    elim (Option-cases (find (buf ++ new) crlfcrlf)) [
      | inl e ↦
          rw (← whole, head_miss buf t c ds (arriving cs) first e)
            (head_found cs (buf ++ new) i h.1 e at' fits')
      | inr (j, e) ↦
          let same : j ≡ i =
            eq_of_some (sym (find_more (buf ++ new) (joined cs) crlfcrlf j e) ∙ at') in
          record {
            received = record { buf = buf ++ new; header_end = j; unread = arriving cs };
            later = cs;
            is_ok = head_hit buf t c ds (arriving cs) j first e;
            ends_at = same;
            unread = refl;
            parts = whole;
            nonempty = h.1;
            inside = omega (arith, find-le (buf ++ new) crlfcrlf j e);
          }
    ]

-- The body loop, then the cut to the announced length.
record BodyRead (n : ℕ) (all : Bytes) (out : Result FetchError Bytes) : Type 0 where
  pub bytes : Bytes
  pub is_ok : out ≡ ok bytes
  pub enough : take n bytes ≡ take n all

enforced : (n : ℕ) → n ≤ max_message_bytes → enforce n ≡ ok tt
unfolding enforce_max_message_size
enforced n h = rw (le→not_ltb n max_message_bytes h) refl

module _ (at n : ℕ) (body : Bytes) (t c : ℕ) (ds : Bytes) (s : List Timed) where
  sized_more :
      ltb (length body) n ≡ true
      → at + length (body ++ c ∷ ds) ≤ max_message_bytes
      → read_sized at n body ((t, got (c ∷ ds)) ∷ s) ≡ read_sized at n (body ++ c ∷ ds) s
  unfolding read_sized
  sized_more more fits = rw (more, enforced (at + length (body ++ c ∷ ds)) fits) refl

  sized_full : ltb (length body) n ≡ false → read_sized at n body ((t, got (c ∷ ds)) ∷ s) ≡ ok body
  unfolding read_sized
  sized_full full = rw full refl

sized_read :
    (cs : List (ℕ × Bytes)) (at n : ℕ) (body : Bytes)
    → NonEmptyReads cs
    → at + length (body ++ joined cs) ≤ max_message_bytes
    → BodyRead n (body ++ joined cs) (read_sized at n body (arriving cs))
sized_read [] at n body h fits = record {
  bytes = body;
  is_ok = unfold read_sized in refl;
  enough = rw (append-nil body) refl;
}
sized_read ((t, []) ∷ cs) at n body h fits = cc h.0
sized_read ((t, c ∷ ds) ∷ cs) at n body h fits =
    let whole = append_assoc body (c ∷ ds) (joined cs) in
    elim (Bool-cases (ltb (length body) n)) [
      | inl more ↦
          let fits' : at + length ((body ++ c ∷ ds) ++ joined cs) ≤ max_message_bytes =
            rw whole fits in
          let first : at + length (body ++ c ∷ ds) ≤ max_message_bytes =
            omega (arith, length-append (body ++ c ∷ ds) (joined cs)) in
          rw (← whole, sized_more at n body t c ds (arriving cs) more first)
            (sized_read cs at n (body ++ c ∷ ds) h.1 fits')
      | inr full ↦ record {
        bytes = body;
        is_ok = sized_full at n body t c ds (arriving cs) full;
        enough = sym (take-append_left n body _ (ground arith));
      }
    ]

-- The body behind a head that announces `n` bytes.
body_of_read :
    (idle at n : ℕ) (rest : Bytes) (cs : List (ℕ × Bytes))
    → NonEmptyReads cs
    → at + length (rest ++ joined cs) ≤ max_message_bytes
    → at + n ≤ max_message_bytes
    → body_of idle at (some n) rest (arriving cs) ≡ ok (take n (rest ++ joined cs))
body_of_read idle at n rest cs h fits room =
    let read = sized_read cs at n rest h fits in
    rw (enforced ((at + n) % 2 ^ 64) (omega arith), read.is_ok) (ap ok read.enough)

-- Reads that together hold a head that parses and announces a length within the limit, and are
-- themselves together within the limit: the response has the status and the headers of the head, and as
-- its body the bytes behind the head, up to the length; whatever the cuts and the times of the reads are.
pub read_response-reads :
    (idle : ℕ) (cs : List (ℕ × Bytes)) (i n : ℕ) (head : Head)
    → NonEmptyReads cs
    → length (joined cs) ≤ max_message_bytes
    → find (joined cs) crlfcrlf ≡ some i
    → parse_head (take (i + 4) (joined cs)) ≡ ok head
    → head.content_length ≡ some n
    → i + 4 + n ≤ max_message_bytes
    → read_response idle (arriving cs)
      ≡ ok (record {
        code = head.code;
        headers = head.headers;
        body = take n (drop (i + 4) (joined cs));
      })
unfolding read_response
read_response-reads idle cs i n head h fits at parsed announced room =
    let done = head_found cs [] i h (unfold find in refl) at fits in
    let r = done.received in
    let m = r.header_end + 4 in
    let same_end : m ≡ i + 4 = ap (λ k. k + 4) done.ends_at in
    let inside : m ≤ length r.buf = omega (arith, done.ends_at, done.inside) in
    let same_head : take m r.buf ≡ take (i + 4) (joined cs) =
      sym (take-append_left m r.buf (joined done.later) inside)
      ∙ ap (take m) done.parts
      ∙ ap (λ k. take k (joined cs)) same_end in
    let same_rest : drop m r.buf ++ joined done.later ≡ drop (i + 4) (joined cs) =
      sym (drop-append_left m r.buf (joined done.later) inside)
      ∙ ap (drop m) done.parts
      ∙ ap (λ k. drop k (joined cs)) same_end in
    let within : m + length (drop m r.buf ++ joined done.later) ≤ max_message_bytes = omega (
      arith,
      done.ends_at,
      ap (λ b. length b) same_rest,
      length-drop (i + 4) (joined cs),
      find-le (joined cs) crlfcrlf i at,
    ) in
    let body : body_of idle m head.content_length (drop m r.buf) r.unread
        ≡ ok (take n (drop (i + 4) (joined cs))) =
      ap (λ o. body_of idle m o (drop m r.buf) r.unread) announced
      ∙ ap (λ u. body_of idle m (some n) (drop m r.buf) u) done.unread
      ∙ body_of_read idle m n (drop m r.buf) done.later done.nonempty within
          (omega (arith, done.ends_at))
      ∙ ap (λ b. ok (take n b)) same_rest in
    rw (done.is_ok, ap parse_head same_head ∙ parsed, body) refl
