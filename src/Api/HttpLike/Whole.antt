-- ===== src/Api/HttpLike/Whole.antt =====
-- A request as a function of the bytes that arrive, whatever the chunks in which they arrive.
use google_co.Base.{ℕ, ◌+◌, ◌%◌, ◌^◌, ltb, if◌then◌else◌, take, drop, Option, none, some, []}
use google_co.Base.Results.{Result, ok, err, ◌>>=◌}
use google_co.Str.Ascii.{Bytes}
use google_co.Str.Search.{find}
use google_co.Api.Status.{StatusCode, bad_request, request_entity_too_large, max_message_bytes}
use google_co.Api.Headers.{crlfcrlf}
use google_co.Api.HttpLike.{Request, Start, parse_head}

abbrev pub request_of : Start → Bytes → Request
request_of start body = record {
  method = start.method;
  path = start.path;
  headers = start.head.headers;
  body = body;
}

abbrev pub with_length : Start → ℕ → ℕ → Bytes → Result StatusCode Request
with_length start n header_len rest =
    if ltb 0 n
    then (if ltb max_message_bytes ((header_len + n) % 2 ^ 64)
        then err request_entity_too_large
        else ok (request_of start (take n rest)))
    else ok (request_of start [])

abbrev pub whole_at : Bytes → Option ℕ → Result StatusCode Request
whole_at bs none = err bad_request
whole_at bs (some i) = do
  start ← parse_head (take (i + 4) bs)
  with_length start start.head.content_length (i + 4) (drop (i + 4) bs)

-- The request at the start of these bytes.
unfoldable pub whole_request : Bytes → Result StatusCode Request
whole_request bs = whole_at bs (find bs crlfcrlf)
