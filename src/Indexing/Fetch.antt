-- ===== src/Indexing/Fetch.antt =====
-- gurtd/src/indexing/fetch.rs: reading a response, with the limits on its size and on pauses. What the
-- other side sends is the list of the results of successive reads, each with the time it took.
pub mod Bounds
pub mod Title
pub mod Handshake
pub mod Exchange
pub mod Chunks
use google_co.Base.{
  ℕ, zero, suc, ◌+◌, ◌%◌, ◌^◌, ◌≡◌, Bool, true, List, [], ◌∷◌, ◌++◌, if◌then◌else◌, ltb, Option,
  none, some, is_empty, length, take, drop, or,
}
use google_co.Base.Results.{Result, ok, err, ◌>>=◌, ok_or}
use google_co.Str.Ascii.{Str, Bytes, codes, eq, eq_ignore_ascii_case, trim, to_ascii_lowercase}
use google_co.Str.Split.{split_crlf, split_whitespace, split_once}
use google_co.Str.Number.{parse_unsigned, u16_max, u64_max}
use google_co.Str.Utf8.{from_utf8}
use google_co.Api.Status.{enforce_max_message_size, max_message_bytes, LimitError}
use google_co.Api.Headers.{Header}
use google_co.Api.Stream.{Read, got, failed}
use google_co.Crawler.Client.{ClientResponse, find_crlfcrlf}

pub data FetchError : Type 0 where
  bad_url missing_host connect_timeout connect_failed handshake_timeout handshake_closed :
      FetchError
  handshake_too_large unexpected_handshake tls_timeout tls_failed invalid_server_name : FetchError
  response_closed response_too_large not_utf8 missing_status bad_status io fetch_timeout :
      FetchError
  limit : LimitError → FetchError
  status : ℕ → FetchError
  index_failed : FetchError

-- A read and the milliseconds that it took.
abbrev pub Timed : Type 0
Timed = ℕ × Read

abbrev min_read_idle_ms : ℕ
min_read_idle_ms = 100

abbrev max_read_idle_ms : ℕ
max_read_idle_ms = 5000

abbrev default_read_idle_ms : ℕ
default_read_idle_ms = 500

-- `clamp`
abbrev pub clamp : ℕ → ℕ → ℕ → ℕ
clamp n lo hi = if ltb n lo then lo else if ltb hi n then hi else n

abbrev clamped_or : ℕ → ℕ → ℕ → Option ℕ → ℕ
clamped_or lo hi default none = default
clamped_or lo hi default (some n) = clamp n lo hi

abbrev number_in : Option Str → Option ℕ
number_in none = none
number_in (some s) = parse_unsigned u64_max s

-- A number of milliseconds from a variable of the environment.
unfoldable pub env_ms : ℕ → ℕ → ℕ → Option Str → ℕ
env_ms lo hi default var = clamped_or lo hi default (number_in var)

-- `GURT_READ_IDLE_MS`
unfoldable pub read_idle_ms : Option Str → ℕ
unfolding env_ms
read_idle_ms var = env_ms min_read_idle_ms max_read_idle_ms default_read_idle_ms var

pub record Received : Type 0 where
  pub buf : Bytes
  pub header_end : ℕ
  pub unread : List Timed

unfoldable pub read_head : Bytes → List Timed → Result FetchError Received
read_head buf [] = err response_closed
read_head buf ((t, failed) ∷ s) = err io
read_head buf ((t, got []) ∷ s) = err response_closed
read_head buf ((t, got (c ∷ cs)) ∷ s) =
    let buf' = buf ++ c ∷ cs in
    let more = read_head buf' s in
    if ltb max_message_bytes (length buf')
    then err response_too_large
    else elim (find_crlfcrlf buf') [
      | some pos ↦ ok (record { buf = buf'; header_end = pos; unread = s })
      | none ↦ more
    ]

abbrev status_code : List Str → Result FetchError ℕ
status_code [] = err missing_status
status_code (_ ∷ []) = err missing_status
status_code (_ ∷ code ∷ _) = ok_or (parse_unsigned u16_max code) bad_status

-- The status code, the headers and the announced length.
pub record Head : Type 0 where
  pub code : ℕ
  pub headers : List Header
  pub content_length : Option ℕ

abbrev new_length : Str → Str → Option ℕ → Option ℕ
new_length lname val old =
    if eq lname (codes "content-length") then or (parse_unsigned u64_max val) old else old

abbrev push_header : Option (Str × Str) → Head → Head
push_header none h = h
push_header (some (name, value)) h =
    let lname = to_ascii_lowercase (trim name) in
    let val = trim value in
    record {
      code = h.code;
      headers = h.headers ++ (lname, val) ∷ [];
      content_length = new_length lname val h.content_length;
    }

unfoldable pub response_line : Str → Head → Head
response_line line h = if is_empty line then h else push_header (split_once line b':') h

unfoldable pub response_lines : List Str → Head → Head
unfolding response_line
response_lines [] h = h
response_lines (line ∷ rest) h = response_lines rest (response_line line h)

abbrev head_of : List Str → Result FetchError Head
head_of [] = err missing_status
head_of (status_line ∷ lines) = do
  code ← status_code (split_whitespace status_line)
  ok (response_lines lines (record { code = code; headers = []; content_length = none }))

unfoldable pub parse_head : Bytes → Result FetchError Head
unfolding response_lines
parse_head head = do head_str ← ok_or (from_utf8 head) not_utf8; head_of (split_crlf head_str)

abbrev pub within : Result LimitError (Unit {0}) → Result FetchError (Unit {0})
within (ok u) = ok u
within (err e) = err (limit e)

-- `enforce_max_message_size(n)?`
abbrev pub enforce : ℕ → Result FetchError (Unit {0})
enforce n = within (enforce_max_message_size n)

-- The loop `while body.len() < len`; `header_len` is `header_end + 4`.
unfoldable pub read_sized : ℕ → ℕ → Bytes → List Timed → Result FetchError Bytes
unfolding enforce_max_message_size
read_sized header_len len body [] = ok body
read_sized header_len len body ((t, failed) ∷ s) = if ltb (length body) len then err io else ok body
read_sized header_len len body ((t, got []) ∷ s) = ok body
read_sized header_len len body ((t, got (c ∷ cs)) ∷ s) =
    let body' = body ++ c ∷ cs in
    let more = read_sized header_len len body' s in
    if ltb (length body) len then (do _ ← enforce (header_len + length body'); more) else ok body

-- The loop that reads until the end, a failure or a pause.
unfoldable pub read_until_idle : ℕ → ℕ → Bytes → List Timed → Result FetchError Bytes
unfolding enforce_max_message_size
read_until_idle idle header_len body [] = ok body
read_until_idle idle header_len body ((t, failed) ∷ s) = ok body
read_until_idle idle header_len body ((t, got []) ∷ s) = ok body
read_until_idle idle header_len body ((t, got (c ∷ cs)) ∷ s) =
    let body' = body ++ c ∷ cs in
    let more = read_until_idle idle header_len body' s in
    if ltb idle t then ok body else (do _ ← enforce (header_len + length body'); more)

-- The announced length is any `usize`, so that the sum with it may wrap around.
abbrev pub body_of : ℕ → ℕ → Option ℕ → Bytes → List Timed → Result FetchError Bytes
body_of idle header_len none rest s = read_until_idle idle header_len rest s
body_of idle header_len (some len) rest s = do
  _ ← enforce ((header_len + len) % 2 ^ 64)
  body ← read_sized header_len len rest s
  ok (take len body)

unfoldable pub read_response : ℕ → List Timed → Result FetchError ClientResponse
unfolding read_sized read_until_idle enforce_max_message_size
read_response idle s = do
  r ← read_head [] s
  let header_len = r.header_end + 4
  head ← parse_head (take header_len r.buf)
  body ← body_of idle header_len head.content_length (drop header_len r.buf) r.unread
  ok (record { code = head.code; headers = head.headers; body = body })

-- `header_value`: the first header of that name, in either case.
unfoldable pub header_value : List Header → Str → Option Str
header_value [] name = none
header_value ((k, v) ∷ headers) name =
    let later = header_value headers name in if eq_ignore_ascii_case k name then some v else later
