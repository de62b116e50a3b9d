-- ===== src/Tests/Api.antt =====
-- gurt-api, and the loop of a connection.
use google_co.Base.{◌≡◌, refl, arith, List, [], ◌∷◌, ◌++◌}
use google_co.Base.Results.{ok, err}
use google_co.Str.Ascii.{Str, Bytes, codes}
use google_co.Api.Stream.{Stream, got, chunks, concat}
use google_co.Api.Headers.{crlfcrlf}
use google_co.Api.HttpLike.{Request, read_request, query}
use google_co.Api.HttpLike.Whole.{whole_request}
use google_co.Api.HttpLike.Laws.{request_only, read_request-chunks}
use google_co.Api.HttpLike.Accepted.{IsAccepted, read_request-IsAccepted}
use google_co.Api.Handshake.{invalid_start_line, handshake_response, read_and_respond_handshake}
use google_co.Api.Handshake.Opening.{Opened, read_and_respond_handshake-Opened}

abbrev crlf : Str
crlf = 13 ∷ 10 ∷ []

-- A request that arrives in three reads: the empty line is cut, and so is the body.
abbrev three_reads : List Bytes
three_reads =
    (codes "POST /api/sites GURT/1.0.0" ++ crlf ++ codes "Content-Length: 4" ++ crlf ++ 13 ∷ [])
    ∷ (10 ∷ codes "ab")
    ∷ codes "cd"
    ∷ []

abbrev submitted : Request
submitted = record {
  method = codes "POST";
  path = codes "/api/sites";
  headers = (codes "content-length", codes "4") ∷ [];
  body = codes "abcd";
}

read_request_in_three : read_request (chunks three_reads) ≡ ok (submitted, [])
unfolding read_request google_co.Api.HttpLike.read_head google_co.Str.Search.find
    google_co.Api.HttpLike.parse_head google_co.Str.Utf8.from_utf8 google_co.Str.Split.split_crlf
    google_co.Str.Split.split_whitespace google_co.Api.Headers.header_lines
    google_co.Str.Split.split_once google_co.Str.Ascii.eq google_co.Str.Ascii.to_ascii_lowercase
    google_co.Str.Ascii.trim google_co.Str.Number.parse_unsigned google_co.Api.HttpLike.read_body
read_request_in_three = refl

-- Two requests in one read: the second is lost with what was read behind the first.
abbrev get_root : Bytes
get_root = codes "GET / GURT/1.0.0" ++ crlfcrlf

abbrev root_request : Request
root_request = record { method = codes "GET"; path = codes "/"; headers = []; body = [] }

read_request_drops_second :
    read_request (chunks ((get_root ++ get_root) ∷ [])) ≡ ok (root_request, [])
unfolding read_request google_co.Api.HttpLike.read_head google_co.Str.Search.find
    google_co.Api.HttpLike.parse_head google_co.Str.Utf8.from_utf8 google_co.Str.Split.split_crlf
    google_co.Str.Split.split_whitespace google_co.Api.Headers.header_lines
read_request_drops_second = refl

read_request-chunks_example :
    request_only (read_request (chunks three_reads)) ≡ whole_request (concat three_reads)
read_request-chunks_example =
    read_request-chunks three_reads (refl, (refl, (refl, tt))) (omega arith)

read_request-IsAccepted_example : IsAccepted submitted
read_request-IsAccepted_example =
    read_request-IsAccepted (chunks three_reads) [] submitted read_request_in_three

abbrev hello : Stream
hello = chunks ((codes "HANDSHAKE / GURT/1.0.0" ++ crlfcrlf) ∷ codes "tls" ∷ [])

abbrev today : Str
today = codes "Thu, 01 Jan 1970 00:00:00 GMT"

handshake_answered :
    read_and_respond_handshake today hello ≡ ok (handshake_response today, got (codes "tls") ∷ [])
unfolding read_and_respond_handshake google_co.Str.Search.contains google_co.Str.Ascii.eq
    google_co.Str.Split.split_whitespace google_co.Str.Split.lines
    google_co.Str.Utf8.from_utf8_lossy
handshake_answered = refl

read_and_respond_handshake-Opened_example :
    Opened today hello (handshake_response today, got (codes "tls") ∷ [])
read_and_respond_handshake-Opened_example =
    read_and_respond_handshake-Opened today hello (handshake_response today, got (codes "tls") ∷ [])
      handshake_answered

-- The version that the crawler's client sends is not the one that the handshake requires.
abbrev client_hello : Stream
client_hello = chunks ((codes "HANDSHAKE / GURT/1.0" ++ crlfcrlf) ∷ [])

client_refused : read_and_respond_handshake today client_hello ≡ err invalid_start_line
unfolding read_and_respond_handshake google_co.Str.Search.contains google_co.Str.Ascii.eq
    google_co.Str.Split.split_whitespace google_co.Str.Split.lines
    google_co.Str.Utf8.from_utf8_lossy
client_refused = refl
