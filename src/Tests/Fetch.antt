-- ===== src/Tests/Fetch.antt =====
-- gurtd/src/indexing: pages are fetched and indexed.
use google_co.Base.{
  ℕ, ◌+◌, ◌≤◌, ◌≡◌, refl, arith, Bool, true, List, [], ◌∷◌, ◌++◌, none, some, All, leb, ◌==◌, ◌*◌,
  length, take, drop,
}
use mathlib.Core.Path.{subst}
use google_co.Base.Results.{ok, eq_of_ok}
use google_co.Str.Ascii.{Str, Bytes, codes}
use google_co.Str.Utf8.{as_bytes}
use google_co.Api.Stream.{got}
use google_co.Api.Headers.{crlfcrlf}
use google_co.Api.Handshake.{read_and_respond_handshake, handshake_response}
use google_co.Crawler.Client.{ClientResponse, Url}
use google_co.Index.{IndexDocument, IndexEngine}
use google_co.Indexing.Fetch.{Timed, FetchError, env_ms, Head, parse_head, read_response}
use google_co.Indexing.Fetch.Chunks.{arriving, joined, read_response-reads}
use google_co.Str.Search.{find}
use google_co.Indexing.Fetch.Title.{extract_title, IsTitle, extract_title-IsTitle}
use google_co.Indexing.Fetch.Handshake.{
  perform_handshake, handshake_request, user_agent, handshakes_agree,
}
use google_co.Indexing.Fetch.Exchange.{Peer, Outside, fetch_gurt}
use google_co.Indexing.Fetch.Exchange.Laws.{IsFetched, fetch_gurt-IsFetched}
use google_co.Indexing.Process.{Web}
use google_co.Indexing.Process.Laws.{IsPageDocument, IsKept}
use google_co.Indexing.Process.Domain.{Processed, process_domain}
use google_co.Indexing.Process.Ends.{IsProcessed, process_domain-IsProcessed}

abbrev crlf : Str → Str
crlf s = s ++ 13 ∷ 10 ∷ []

-- A response in two reads, the second of them with more than was announced.
abbrev reads : List Timed
reads =
    (3, got (crlf (codes "GURT/1.0.0 200 OK") ++ codes "Content-Le"))
    ∷ (4, got (codes "ngth: 5" ++ crlfcrlf ++ codes "hello!"))
    ∷ []

abbrev received : ClientResponse
received = record {
  code = 200;
  headers = (codes "content-length", codes "5") ∷ [];
  body = codes "hello";
}

is_received : read_response 500 reads ≡ ok received
unfolding read_response google_co.Indexing.Fetch.read_head google_co.Crawler.Client.find_crlfcrlf
    google_co.Str.Search.find google_co.Indexing.Fetch.parse_head google_co.Str.Utf8.from_utf8
    google_co.Str.Split.split_crlf google_co.Str.Split.split_whitespace
    google_co.Str.Number.parse_unsigned google_co.Str.Split.split_once google_co.Str.Ascii.eq
    google_co.Str.Ascii.to_ascii_lowercase google_co.Str.Ascii.trim
is_received = refl

-- The same bytes in other reads.
abbrev parts : List (ℕ × Bytes)
parts =
    (3, crlf (codes "GURT/1.0.0 200 OK") ++ codes "Content-Length: 5" ++ 13 ∷ 10 ∷ [])
    ∷ (4, 13 ∷ 10 ∷ codes "hel")
    ∷ (9, codes "lo!")
    ∷ []

abbrev head : Head
head = record {
  code = 200;
  headers = (codes "content-length", codes "5") ∷ [];
  content_length = some 5;
}

head_ends : find (joined parts) crlfcrlf ≡ some 36
unfolding find
head_ends = refl

head_parsed : parse_head (take (36 + 4) (joined parts)) ≡ ok head
unfolding parse_head google_co.Str.Utf8.from_utf8 google_co.Str.Split.split_crlf
    google_co.Str.Split.split_whitespace google_co.Str.Number.parse_unsigned
    google_co.Str.Split.split_once google_co.Str.Ascii.to_ascii_lowercase google_co.Str.Ascii.trim
    google_co.Str.Ascii.eq
head_parsed = refl

read_response-reads_example :
    read_response 500 (arriving parts)
    ≡ ok (record {
      code = head.code;
      headers = head.headers;
      body = take 5 (drop (36 + 4) (joined parts));
    })
read_response-reads_example =
    read_response-reads 500 parts 36 5 head (refl, (refl, (refl, tt))) (omega arith) head_ends
      head_parsed refl (omega arith)

-- Behind a pause that is longer than the limit nothing is read.
stops_at_pause :
    read_response 500 (
      (3, got (codes "GURT/1.0.0 200 OK" ++ crlfcrlf))
      ∷ (4, got (codes "a"))
      ∷ (501, got (codes "b"))
      ∷ [])
    ≡ ok (record { code = 200; headers = []; body = codes "a" })
unfolding read_response google_co.Indexing.Fetch.read_head google_co.Crawler.Client.find_crlfcrlf
    google_co.Str.Search.find google_co.Indexing.Fetch.parse_head google_co.Str.Utf8.from_utf8
    google_co.Str.Split.split_crlf google_co.Str.Split.split_whitespace
    google_co.Str.Number.parse_unsigned
stops_at_pause = refl

abbrev html : Str
html = codes "<html><TITLE lang=en>  My   page </Title></html>"

has_title : extract_title html ≡ some (codes "My page")
unfolding extract_title google_co.Str.Search.find google_co.Str.Ascii.to_ascii_lowercase
    google_co.Str.Search.find_char google_co.Str.Ascii.trim google_co.Str.Split.join
    google_co.Str.Split.split_whitespace
has_title = refl

extract_title-IsTitle_example : IsTitle (codes "My page")
extract_title-IsTitle_example = extract_title-IsTitle html (codes "My page") has_title

abbrev date : Str
date = codes "Thu, 01 Jan 1970 00:00:00 GMT"

abbrev host : Str
host = codes "a.web"

request_short : length (as_bytes (handshake_request host (user_agent none))) ≤ 8 * 1024
unfolding as_bytes handshake_request user_agent
request_short = omega arith

answer_short : length (as_bytes (handshake_response date)) ≤ 10 * 1024 * 1024
unfolding as_bytes handshake_response
answer_short = omega arith

handshakes_agree_example :
    (read_and_respond_handshake date (got (as_bytes (perform_handshake host none []).0) ∷ [])
      ≡ ok (handshake_response date, []))
    × ((perform_handshake host none ((1, got (as_bytes (handshake_response date))) ∷ [])).1 ≡ ok [])
handshakes_agree_example = handshakes_agree date host none 1 [] [] request_short answer_short

abbrev parsed : Url
parsed = record {
  scheme = codes "gurt";
  host = some host;
  port = none;
  path = codes "/";
  query = none;
}

abbrev peer : Peer
peer = record {
  connect_ms = 20;
  connects = true;
  handshake_ms = 30;
  plain = λ _. (5, got (handshake_response date)) ∷ [];
  tls_ms = 40;
  tls_opens = true;
  request_written = true;
  secure = λ _. reads;
  total_ms = 100;
}

abbrev outside : Outside
outside = record {
  env = λ _. none;
  parse_url = λ _. some parsed;
  parse_ip = λ _. none;
  resolve = λ _. none;
  is_server_name = λ _. true;
  reach = λ _ _. peer;
}

is_fetched : fetch_gurt outside (codes "gurt://a.web/") ≡ ok received
unfolding fetch_gurt handshake_response google_co.Str.Search.contains google_co.Str.Ascii.eq
    google_co.Str.Split.split_whitespace google_co.Str.Split.lines
    google_co.Str.Utf8.from_utf8_lossy google_co.Indexing.Fetch.read_head
    google_co.Crawler.Client.find_crlfcrlf google_co.Indexing.Fetch.parse_head
    google_co.Str.Utf8.from_utf8 google_co.Str.Split.split_crlf google_co.Str.Number.parse_unsigned
    google_co.Str.Split.split_once google_co.Str.Ascii.to_ascii_lowercase google_co.Str.Ascii.trim
is_fetched = refl

fetch_gurt-IsFetched_example : IsFetched outside (codes "gurt://a.web/") received
fetch_gurt-IsFetched_example =
    fetch_gurt-IsFetched outside (codes "gurt://a.web/") received is_fetched

abbrev page : ClientResponse
page = record { code = 200; headers = []; body = codes "<title>A</title>" }

abbrev web : Web
web = record { parse_url = λ _. some parsed; now = 7; fetch = λ _. ok page }

-- An engine that keeps what it is given.
abbrev keeping : IndexEngine (List IndexDocument) ℕ Str
keeping = record {
  engine_name = codes "keeping";
  add = λ d ds. ok (d ∷ ds);
  commit = λ ds. ok ds;
  refresh = λ ds. ok ds;
  search = λ _ _ _ _. ok [];
}

abbrev in_order : Str → Str → Bool
in_order s t = leb (length s) (length t)

keeps : IsKept keeping (All IsPageDocument)
keeps = record {
  adds = λ d s t g h e. subst (All IsPageDocument) (eq_of_ok e) (g, h);
  commits = λ s t h e. subst (All IsPageDocument) (eq_of_ok e) h;
  refreshes = λ s t h e. subst (All IsPageDocument) (eq_of_ok e) h;
}

abbrev second_only : ℕ → Bool
second_only n = n == 2

process_domain-IsProcessed_example :
    (p : Processed (List IndexDocument)) × (process_domain keeping in_order web second_only host []
        []
      ≡ some (ok p))
    × IsProcessed keeping (All IsPageDocument) [] second_only p
process_domain-IsProcessed_example =
    process_domain-IsProcessed keeping (All IsPageDocument) in_order web second_only host [] []
      keeps tt
