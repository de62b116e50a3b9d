-- ===== src/Crawler/Client.antt =====
-- gurtd/src/crawler/client.rs: fetching an address over a connection, with retries.
pub mod Retries
use google_co.Base.{
  ℕ, zero, suc, ◌+◌, ◌%◌, ◌^◌, Bool, true, false, ◌||◌, List, [], ◌∷◌, ◌++◌, if◌then◌else◌, ltb,
  ◌==◌, Option, none, some, length, take, drop, not, unwrap_or,
}
use google_co.Base.Results.{Result, ok, err, ◌>>=◌, ok_or}
use google_co.Str.Ascii.{Str, Bytes, codes, eq}
use google_co.Str.Search.{find}
use google_co.Str.Split.{split_crlf, split_whitespace}
use google_co.Str.Number.{parse_unsigned, u16_max}
use google_co.Str.Utf8.{from_utf8}
use google_co.Api.Status.{max_message_bytes, enforce_max_message_size, LimitError}
use google_co.Api.Stream.{got, failed, Stream}
use google_co.Api.Headers.{Header, Head, header_lines, no_headers, crlfcrlf}

pub data ClientError : Type 0 where
  invalid_message connection timeout io : ClientError

pub record ClientResponse : Type 0 where
  pub code : ℕ
  pub headers : List Header
  pub body : Bytes

-- The bytes so far, the end of the head in them, and the unread stream.
pub record Received : Type 0 where
  pub buf : Bytes
  pub header_end : ℕ
  pub unread : Stream

unfoldable pub find_crlfcrlf : Bytes → Option ℕ
find_crlfcrlf buf = find buf crlfcrlf

unfoldable pub read_head : Bytes → Stream → Result ClientError Received
read_head buf [] = err connection
read_head buf (failed ∷ s) = err io
read_head buf (got [] ∷ s) = err connection
read_head buf (got (c ∷ cs) ∷ s) =
    let buf' = buf ++ c ∷ cs in
    let more = read_head buf' s in
    if ltb max_message_bytes (length buf') then err io else elim (find_crlfcrlf buf') [
      | some pos ↦ ok (record { buf = buf'; header_end = pos; unread = s })
      | none ↦ more
    ]

abbrev nth_word : List Str → ℕ → Option Str
nth_word [] n = none
nth_word (w ∷ ws) zero = some w
nth_word (w ∷ ws) (suc n) = nth_word ws n

abbrev parsed_code : Option Str → Option ℕ
parsed_code none = none
parsed_code (some c) = parse_unsigned u16_max c

-- The status code and the header lines behind the first line.
abbrev status_of : List Str → Result ClientError (ℕ × Head)
status_of [] = err invalid_message
status_of (status ∷ lines) = do
  code ← ok_or (parsed_code (nth_word (split_whitespace status) 1)) invalid_message
  ok (code, header_lines lines no_headers)

unfoldable pub parse_status : Bytes → Result ClientError (ℕ × Head)
parse_status head = do
  head_str ← ok_or (from_utf8 head) invalid_message
  status_of (split_crlf head_str)

pub record Body : Type 0 where
  pub bytes : Bytes
  pub unread : Stream

unfoldable pub read_body : ℕ → ℕ → Bytes → Stream → Result ClientError Body
read_body header_len content_length body [] = ok (record { bytes = body; unread = [] })
read_body header_len content_length body (failed ∷ s) =
    if ltb (length body) content_length
    then err io
    else ok (record { bytes = body; unread = failed ∷ s })
read_body header_len content_length body (got [] ∷ s) =
    if ltb (length body) content_length
    then ok (record { bytes = body; unread = s })
    else ok (record { bytes = body; unread = got [] ∷ s })
read_body header_len content_length body (got (c ∷ cs) ∷ s) =
    let body' = body ++ c ∷ cs in
    let more = read_body header_len content_length body' s in
    if ltb (length body) content_length
    then (if ltb max_message_bytes (header_len + length body') then err io else more)
    else ok (record { bytes = body; unread = got (c ∷ cs) ∷ s })

abbrev within_limit : Result LimitError (Unit {0}) → Result ClientError (Unit {0})
within_limit (ok u) = ok u
within_limit (err e) = err io

-- The sum with an announced length is of type `usize` and may wrap around.
abbrev with_body : ℕ → Head → Received → Bytes → Result ClientError (ClientResponse × Stream)
with_body code head r rest =
    let n = head.content_length in
    if ltb 0 n
    then (do
      _ ← within_limit (enforce_max_message_size ((r.header_end + 4 + n) % 2 ^ 64))
      b ← read_body (r.header_end + 4) n rest r.unread
      ok (record { code = code; headers = head.headers; body = take n b.bytes }, b.unread))
    else ok (record { code = code; headers = head.headers; body = [] }, r.unread)

-- A response and the stream behind what was read for it.
unfoldable pub read_response_like : Stream → Result ClientError (ClientResponse × Stream)
read_response_like s = do
  r ← read_head [] s
  (code, head) ← parse_status (take (r.header_end + 4) r.buf)
  with_body code head r (drop (r.header_end + 4) r.buf)

-- What `Url::parse` of the crate `url` finds in an address.
pub record Url : Type 0 where
  pub scheme : Str
  pub host : Option Str
  pub port : Option ℕ
  pub path : Str
  pub query : Option Str

-- The connection as the client meets it: how the connector answers within the time limit, whether
-- the two writes take longer than that, and what the other side sends.
pub record Network : Type 0 where
  pub connected : Result ClientError (Unit {0})
  pub connect_late : Bool
  pub handshake_late : Bool
  pub request_late : Bool
  pub input : Stream

abbrev pub default_port : ℕ
default_port = 4878

abbrev in_time : Bool → Result ClientError (Unit {0})
in_time late = if late then err timeout else ok tt

abbrev switched : ClientResponse → Result ClientError (Unit {0})
switched hs = if hs.code == 101 then ok tt else err invalid_message

abbrev query_part : Option Str → Str
query_part none = []
query_part (some q) = b'?' ∷ q

abbrev gurt_scheme : Url → Result ClientError (Unit {0})
gurt_scheme u = if eq u.scheme (codes "gurt") then ok tt else err invalid_message

-- The request line and header that are sent.
unfoldable pub request_text : Url → Str → Str
request_text u host =
    codes "GET "
    ++ (u.path ++ query_part u.query)
    ++ codes " GURT/1.0"
    ++ 13 ∷ 10 ∷ codes "host: "
    ++ host
    ++ crlfcrlf

module _ (parse_url : Str → Option Url) (connect : Str → ℕ → Network) where
  unfoldable pub fetch_once : Str → Result ClientError ClientResponse
  fetch_once url = do
    parsed ← ok_or (parse_url url) invalid_message
    _ ← gurt_scheme parsed
    host ← ok_or parsed.host invalid_message
    let net = connect host (unwrap_or parsed.port default_port)
    _ ← in_time net.connect_late
    _ ← net.connected
    _ ← in_time net.handshake_late
    (hs, behind) ← read_response_like net.input
    _ ← switched hs
    _ ← in_time net.request_late
    (resp, _) ← read_response_like behind
    ok resp

-- What the retry loop has done when it returns.
pub record Fetched : Type 0 where
  pub result : Result ClientError ClientResponse
  pub attempts : ℕ
  pub sleeps : ℕ

abbrev pub is_retryable : ClientError → Bool
is_retryable invalid_message = false
is_retryable connection = true
is_retryable timeout = true
is_retryable io = true

abbrev pub slept : Fetched → Fetched
slept f = record f { sleeps = f.sleeps + 1 }

abbrev pub attempted : Result ClientError ClientResponse → ℕ → Fetched → Fetched
attempted (ok resp) n later = record { result = ok resp; attempts = n; sleeps = 0 }
attempted (err e) n later =
    if is_retryable e then later else record { result = err e; attempts = n; sleeps = 0 }

-- The loop `for attempt in 0..=retries`, from `attempt` on with `left` more behind it. The result
-- of an attempt is that of the network at that time, an argument.
unfoldable pub fetch_from : (ℕ → Result ClientError ClientResponse) → ℕ → ℕ → Fetched
fetch_from fetch attempt zero =
    attempted (fetch attempt) (attempt + 1)
      (record { result = fetch attempt; attempts = attempt + 1; sleeps = 0 })
fetch_from fetch attempt (suc left) =
    let later = fetch_from fetch (attempt + 1) left in
    attempted (fetch attempt) (attempt + 1) (slept later)

unfoldable pub fetch_with_retries : (ℕ → Result ClientError ClientResponse) → ℕ → Fetched
fetch_with_retries fetch retries = fetch_from fetch 0 retries
