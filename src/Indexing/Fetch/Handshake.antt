-- ===== src/Indexing/Fetch/Handshake.antt =====
-- gurtd/src/indexing/fetch.rs: the handshake of the fetcher, and that the server's handshake and it
-- accept each other.
use google_co.Base.{
  ℕ, ◌≤◌, ◌≡◌, refl, Bool, true, false, ◌||◌, not, List, [], ◌∷◌, ◌++◌, if◌then◌else◌, ltb, Option,
  unwrap_or, length, le→not_ltb, ◌==◌, is_empty,
}
use google_co.Base.Results.{Result, ok, err, ◌>>=◌}
use google_co.Str.Ascii.{Str, Bytes, codes, eq}
use google_co.Str.Search.{contains, contains_end}
use google_co.Str.Split.Words.{split_by-cons}
use google_co.Str.Split.{lines, split_whitespace, nth_or_empty, split, split_by}
use google_co.Str.Utf8.{as_bytes, as_bytes-append, utf8, ready, from_utf8_lossy, decode_lossy}
use google_co.Api.Status.{max_message_bytes}
use google_co.Api.Stream.{got, failed, Stream}
use google_co.Api.Headers.{crlfcrlf}
use google_co.Api.Handshake.{
  read_handshake, read_and_respond_handshake, is_start_line, handshake_response,
  max_handshake_bytes, proto_version,
}
use google_co.Indexing.Fetch.{Timed, FetchError}

-- `GURT_USER_AGENT`
unfoldable pub user_agent : Option Str → Str
user_agent var = unwrap_or var (codes "gurtd/0.1")

abbrev request_fields : Str → Str → Str
request_fields host ua =
    codes "HANDSHAKE / GURT/1.0.0"
    ++ (13 ∷ 10 ∷ codes "host: ")
    ++ host
    ++ (13 ∷ 10 ∷ codes "user-agent: ")
    ++ ua

unfoldable pub handshake_request : Str → Str → Str
handshake_request host ua = request_fields host ua ++ crlfcrlf

-- The read loop, up to the first read that completes an empty line.
unfoldable pub read_reply : Bytes → List Timed → Result FetchError (Bytes × List Timed)
read_reply buf [] = err FetchError.handshake_closed
read_reply buf ((t, failed) ∷ s) = err FetchError.io
read_reply buf ((t, got []) ∷ s) = err FetchError.handshake_closed
read_reply buf ((t, got (c ∷ cs)) ∷ s) =
    let buf' = buf ++ c ∷ cs in
    let more = read_reply buf' s in
    if ltb max_message_bytes (length buf')
    then err FetchError.handshake_too_large
    else if contains buf' crlfcrlf
    then ok (buf', s)
    else more

-- The test of the first line: its first two words.
unfoldable pub is_switch : Str → Bool
is_switch first_line =
    let parts = split_whitespace first_line in
    not (
      not (eq (nth_or_empty parts 0) (codes "GURT/1.0.0"))
      || not (eq (nth_or_empty parts 1) (codes "101")))

-- What is sent, and what is left unread behind the reply.
unfoldable pub perform_handshake :
    Str → Option Str → List Timed → Str × Result FetchError (List Timed)
unfolding read_reply is_switch handshake_request user_agent
perform_handshake host ua s = (
  handshake_request host (user_agent ua),
  do
    (buf, s') ← read_reply [] s
    if is_switch (nth_or_empty (lines (from_utf8_lossy buf)) 0)
        then ok s'
        else err FetchError.unexpected_handshake,
)

-- The first lines of the request and of the reply, whatever follows them.
request_line :
    (rest : Bytes)
    → nth_or_empty (lines (from_utf8_lossy (codes "HANDSHAKE / GURT/1.0.0" ++ 13 ∷ 10 ∷ rest))) 0
      ≡ codes "HANDSHAKE / GURT/1.0.0"
unfolding lines split split_by from_utf8_lossy
request_line rest =
    let (q, qs, e) = split_by-cons (λ c. c == 10) (decode_lossy ready rest) in rw e refl

reply_line :
    (rest : Bytes)
    → nth_or_empty
        (lines (from_utf8_lossy (codes "GURT/1.0.0 101 SWITCHING_PROTOCOLS" ++ 13 ∷ 10 ∷ rest)))
        0
      ≡ codes "GURT/1.0.0 101 SWITCHING_PROTOCOLS"
unfolding lines split split_by from_utf8_lossy
reply_line rest =
    let (q, qs, e) = split_by-cons (λ c. c == 10) (decode_lossy ready rest) in rw e refl

request_starts : is_start_line (codes "HANDSHAKE / GURT/1.0.0") ≡ true
unfolding is_start_line split_whitespace split_by eq google_co.Str.Ascii.is_whitespace
request_starts = refl

reply_switches : is_switch (codes "GURT/1.0.0 101 SWITCHING_PROTOCOLS") ≡ true
unfolding is_switch split_whitespace split_by eq google_co.Str.Ascii.is_whitespace
reply_switches = refl

-- A message in one read that ends with an empty line is read whole.
read_handshake_whole :
    (b : Bytes) (s : Stream)
    → is_empty b ≡ false
    → length b ≤ max_handshake_bytes
    → contains b crlfcrlf ≡ true
    → read_handshake [] (got b ∷ s) ≡ ok (b, s)
unfolding read_handshake
read_handshake_whole [] s e h k = cc
read_handshake_whole (c ∷ cs) s e h k =
    rw (le→not_ltb (length (c ∷ cs)) max_handshake_bytes h, k) refl

read_reply_whole :
    (t : ℕ) (b : Bytes) (s : List Timed)
    → is_empty b ≡ false
    → length b ≤ max_message_bytes
    → contains b crlfcrlf ≡ true
    → read_reply [] ((t, got b) ∷ s) ≡ ok (b, s)
unfolding read_reply
read_reply_whole t [] s e h k = cc
read_reply_whole t (c ∷ cs) s e h k = rw (le→not_ltb (length (c ∷ cs)) max_message_bytes h, k) refl

module _ (s : Str) where
  ends_with_crlfcrlf : contains (as_bytes (s ++ crlfcrlf)) crlfcrlf ≡ true
  unfolding as_bytes utf8
  ends_with_crlfcrlf = rw (as_bytes-append s crlfcrlf) (contains_end (as_bytes s) crlfcrlf)

module _ (date host : Str) (ua : Option Str) where
  abbrev sent : Bytes
  sent = as_bytes (handshake_request host (user_agent ua))

  abbrev answered : Bytes
  answered = as_bytes (handshake_response date)

  sent_line : nth_or_empty (lines (from_utf8_lossy sent)) 0 ≡ codes "HANDSHAKE / GURT/1.0.0"
  unfolding handshake_request as_bytes utf8
  sent_line = request_line _

  answered_line :
      nth_or_empty (lines (from_utf8_lossy answered)) 0 ≡ codes "GURT/1.0.0 101 SWITCHING_PROTOCOLS"
  unfolding handshake_response as_bytes utf8
  answered_line = reply_line _

  sent_ends : contains sent crlfcrlf ≡ true
  unfolding handshake_request
  sent_ends = ends_with_crlfcrlf (request_fields host (user_agent ua))

  answered_ends : contains answered crlfcrlf ≡ true
  unfolding handshake_response
  answered_ends = ends_with_crlfcrlf (
      proto_version
      ++ (codes " 101 SWITCHING_PROTOCOLS" ++ 13 ∷ 10 ∷ [])
      ++ (codes "gurt-version: 1.0.0" ++ 13 ∷ 10 ∷ [])
      ++ (codes "encryption: TLS/1.3" ++ 13 ∷ 10 ∷ [])
      ++ (codes "alpn: GURT/1.0" ++ 13 ∷ 10 ∷ [])
      ++ (codes "server: GURT/1.0.0" ++ 13 ∷ 10 ∷ [])
      ++ codes "date: "
      ++ date)

  sent_some : is_empty sent ≡ false
  unfolding handshake_request as_bytes utf8
  sent_some = refl

  answered_some : is_empty answered ≡ false
  unfolding handshake_response as_bytes utf8
  answered_some = refl

  -- The handshake that the fetcher sends, when it arrives in one read of at most 8 KB, is accepted by
  -- the server; and the fetcher accepts the server's answer, when it arrives in one read within the
  -- limit on messages. Both leave the rest of their streams.
  pub handshakes_agree :
      (t : ℕ) (to_server : Stream) (to_fetcher : List Timed)
      → length sent ≤ max_handshake_bytes
      → length answered ≤ max_message_bytes
      → (read_and_respond_handshake date
            (got (as_bytes (perform_handshake host ua []).0) ∷ to_server)
          ≡ ok (handshake_response date, to_server))
        × ((perform_handshake host ua ((t, got answered) ∷ to_fetcher)).1 ≡ ok to_fetcher)
  unfolding read_and_respond_handshake perform_handshake
  handshakes_agree t to_server to_fetcher h k = (
    rw (read_handshake_whole sent to_server sent_some h sent_ends, sent_line, request_starts) refl,
    rw
        (
          read_reply_whole t answered to_fetcher answered_some k answered_ends,
          answered_line,
          reply_switches,
        )
        refl,
  )
