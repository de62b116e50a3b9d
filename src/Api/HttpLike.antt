-- ===== src/Api/HttpLike.antt =====
-- gurt-api/src/http_like.rs: reading a request from a connection.
pub mod Whole
pub mod Resume
pub mod Chunking
pub mod Laws
pub mod Accepted
pub mod Progress
use google_co.Base.{
  ℕ, ◌+◌, ◌-◌, ◌%◌, ◌^◌, ◌≡◌, refl, Bool, true, false, ◌||◌, List, [], ◌∷◌, ◌++◌, if◌then◌else◌,
  ltb, Option, none, some, is_empty, length, take, drop,
}
use google_co.Base.Results.{Result, ok, err, ◌>>=◌, ok_or}
use google_co.Str.Ascii.{Str, Bytes}
use google_co.Str.Search.{find}
use google_co.Str.Split.{split_crlf, split_whitespace, split_once, nth_or_empty}
use google_co.Str.Utf8.{from_utf8}
use google_co.Api.Status.{
  StatusCode, bad_request, request_entity_too_large, internal_server_error, max_message_bytes,
}
use google_co.Api.Stream.{Read, got, failed, Stream}
use google_co.Api.Headers.{Header, Head, header_lines, no_headers, crlfcrlf}

pub record Request : Type 0 where
  pub method : Str
  pub path : Str
  pub headers : List Header
  pub body : Bytes

abbrev second : Option (Str × Str) → Option Str
second none = none
second (some (_, q)) = some q

-- `Request::query`
unfoldable pub query : Request → Option Str
query r = second (split_once r.path b'?')

-- What the head loop leaves: the bytes so far, where the head ends, and the unread stream.
pub record Received : Type 0 where
  pub buf : Bytes
  pub header_end : ℕ
  pub unread : Stream

-- The head loop. Only the new bytes are searched, with the last three of the old ones.
unfoldable pub read_head : Bytes → ℕ → Stream → Result StatusCode Received
read_head buf search_from [] = err bad_request
read_head buf search_from (failed ∷ s) = err internal_server_error
read_head buf search_from (got [] ∷ s) = err bad_request
read_head buf search_from (got (c ∷ cs) ∷ s) =
    let before_len = length buf in
    let buf' = buf ++ c ∷ cs in
    let start = search_from - 3 in
    let more = read_head buf' (before_len + length (c ∷ cs)) s in
    if ltb max_message_bytes (length buf')
    then err request_entity_too_large
    else elim (find (drop start buf') crlfcrlf) [
      | some rel ↦ ok (record { buf = buf'; header_end = start + rel; unread = s })
      | none ↦ more
    ]

pub record Start : Type 0 where
  pub method : Str
  pub path : Str
  pub head : Head

abbrev checked_start : Str → Str → List Str → Result StatusCode Start
checked_start method path lines =
    if is_empty method || is_empty path
    then err bad_request
    else ok (record { method = method; path = path; head = header_lines lines no_headers })

abbrev start_of : List Str → Result StatusCode Start
start_of [] = checked_start [] [] []
start_of (line ∷ lines) =
    let sp = split_whitespace line in checked_start (nth_or_empty sp 0) (nth_or_empty sp 1) lines

-- The start line and the header lines.
unfoldable pub parse_head : Bytes → Result StatusCode Start
parse_head head = do head_str ← ok_or (from_utf8 head) bad_request; start_of (split_crlf head_str)

pub record Body : Type 0 where
  pub bytes : Bytes
  pub unread : Stream

-- The body loop; `header_len` is `header_end + 4`.
unfoldable pub read_body : ℕ → ℕ → Bytes → Stream → Result StatusCode Body
read_body header_len content_length body [] = ok (record { bytes = body; unread = [] })
read_body header_len content_length body (failed ∷ s) =
    if ltb (length body) content_length
    then err internal_server_error
    else ok (record { bytes = body; unread = failed ∷ s })
read_body header_len content_length body (got [] ∷ s) =
    if ltb (length body) content_length
    then ok (record { bytes = body; unread = s })
    else ok (record { bytes = body; unread = got [] ∷ s })
read_body header_len content_length body (got (c ∷ cs) ∷ s) =
    let body' = body ++ c ∷ cs in
    let more = read_body header_len content_length body' s in
    if ltb (length body) content_length
    then (if ltb max_message_bytes (header_len + length body')
        then err request_entity_too_large
        else more)
    else ok (record { bytes = body; unread = got (c ∷ cs) ∷ s })

abbrev pub finish : Start → Bytes → Stream → Result StatusCode (Request × Stream)
finish start body s = ok (
  record { method = start.method; path = start.path; headers = start.head.headers; body = body },
  s,
)

-- The sum with an announced length is of type `usize` and may wrap around.
abbrev pub with_body : Start → Received → Bytes → Result StatusCode (Request × Stream)
with_body start r rest =
    let n = start.head.content_length in
    let header_len = r.header_end + 4 in
    if ltb 0 n
    then (if ltb max_message_bytes ((header_len + n) % 2 ^ 64)
        then err request_entity_too_large
        else do b ← read_body header_len n rest r.unread; finish start (take n b.bytes) b.unread)
    else finish start [] r.unread

-- A request and the stream behind what was read for it. Bytes that were read behind the request
-- are dropped.
unfoldable pub read_request : Stream → Result StatusCode (Request × Stream)
read_request s = do
  r ← read_head [] 0 s
  start ← parse_head (take (r.header_end + 4) r.buf)
  with_body start r (drop (r.header_end + 4) r.buf)
