-- ===== src/Indexing/Fetch/Exchange.antt =====
-- gurtd/src/indexing/fetch.rs: a whole fetch, from the URL to the response. The parser of URLs and of
-- addresses, the answer of the DNS, and what the other side does are parameters.
pub mod Laws
use google_co.Base.{
  ℕ, ◌+◌, ◌≤◌, ◌≡◌, refl, arith, Bool, true, false, not, List, [], ◌∷◌, ◌++◌, if◌then◌else◌, ltb,
  ◌==◌, Option, none, some, unwrap_or, is_empty, Bool-cases, inl, inr, not_ltb→le,
}
use mathlib.Core.Path.{subst}
use google_co.Base.Results.{Result, ok, err, ◌>>=◌, ok_or, >>=-eq-ok, err≢ok}
use google_co.Str.Ascii.{Str, codes, eq_ignore_ascii_case}
use google_co.Str.Number.{show}
use google_co.Api.Headers.{crlfcrlf}
use google_co.Crawler.Client.{ClientResponse, Url, default_port}
use google_co.Indexing.Dns.{IpAddr}
use google_co.Indexing.Fetch.{Timed, FetchError, env_ms, read_idle_ms, read_response}
use google_co.Indexing.Fetch.Handshake.{perform_handshake}
use google_co.Indexing.Fetch.Bounds.{IsReceived, read_response-IsReceived}

abbrev query_part : Option Str → Str
query_part none = []
query_part (some q) = b'?' ∷ q

unfoldable pub format_request_path : Url → Str
format_request_path u = (if is_empty u.path then b'/' ∷ [] else u.path) ++ query_part u.query

abbrev crlf : Str → Str
crlf s = s ++ 13 ∷ 10 ∷ []

-- The text that `send_request` writes.
unfoldable pub request_text : Str → ℕ → Str → Str
request_text host port path =
    codes "GET "
    ++ path
    ++ crlf (codes " GURT/1.0.0")
    ++ codes "host: "
    ++ (if port == default_port then host else host ++ b':' ∷ show port)
    ++ (13 ∷ 10 ∷ crlf (codes "user-agent: gurtd/0.1"))
    ++ crlf (codes "accept: text/html, */*")
    ++ codes "connection: close"
    ++ crlfcrlf

pub data ConnectTarget : Type 0 where
  ip : IpAddr → ConnectTarget
  host_name : Str → ConnectTarget

-- The time limits, from variables of the environment.
pub record Timeouts : Type 0 where
  pub connect : ℕ
  pub handshake : ℕ
  pub fetch : ℕ
  pub read_idle : ℕ

unfoldable pub timeouts : (Str → Option Str) → Timeouts
unfolding env_ms read_idle_ms
timeouts env = record {
  connect = env_ms 500 60000 10000 (env (codes "GURT_CONNECT_TIMEOUT_MS"));
  handshake = env_ms 200 30000 5000 (env (codes "GURT_HANDSHAKE_TIMEOUT_MS"));
  fetch = env_ms 1000 120000 30000 (env (codes "GURT_FETCH_TIMEOUT_MS"));
  read_idle = read_idle_ms (env (codes "GURT_READ_IDLE_MS"));
}

-- What the other side does: how long each part takes, whether it succeeds, and what arrives for the
-- text that is sent. `total_ms` is the time of all parts, that of the DNS included.
pub record Peer : Type 0 where
  pub connect_ms : ℕ
  pub connects : Bool
  pub handshake_ms : ℕ
  pub plain : Str → List Timed
  pub tls_ms : ℕ
  pub tls_opens : Bool
  pub request_written : Bool
  pub secure : Str → List Timed
  pub total_ms : ℕ

-- What the fetch uses and is not part of it.
pub record Outside : Type 0 where
  pub env : Str → Option Str
  pub parse_url : Str → Option Url
  pub parse_ip : Str → Option IpAddr
  pub resolve : Str → Option IpAddr
  pub is_server_name : Str → Bool
  pub reach : ConnectTarget → ℕ → Peer

abbrev resolved : Str → Option IpAddr → ConnectTarget
resolved host (some a) = ip a
resolved host none = host_name host

abbrev unless_ip : Outside → Str → Option IpAddr → ConnectTarget
unless_ip o host (some a) = ip a
unless_ip o host none =
    if eq_ignore_ascii_case host (codes "localhost")
    then host_name host
    else resolved host (o.resolve host)

unfoldable pub connect_target : Outside → Str → ConnectTarget
connect_target o host = unless_ip o host (o.parse_ip host)

abbrev pub in_time : ℕ → ℕ → FetchError → Result FetchError (Unit {0})
in_time limit ms e = if ltb limit ms then err e else ok tt

abbrev pub succeeds : Bool → FetchError → Result FetchError (Unit {0})
succeeds b e = if b then ok tt else err e

-- The handshake, with what the other side answers to its text.
abbrev pub handshake_with : Outside → Peer → Str → Result FetchError (List Timed)
handshake_with o peer host =
    let ua = o.env (codes "GURT_USER_AGENT") in
    (perform_handshake host ua (peer.plain (perform_handshake host ua []).0)).1

-- The exchange with the other side, in the order of its parts.
unfoldable pub exchange : Outside → Timeouts → Peer → Str → Str → Result FetchError ClientResponse
unfolding perform_handshake read_response
exchange o t peer host text = do
  _ ← in_time t.connect peer.connect_ms FetchError.connect_timeout
  _ ← succeeds peer.connects FetchError.connect_failed
  _ ← in_time t.handshake peer.handshake_ms FetchError.handshake_timeout
  _ ← handshake_with o peer host
  _ ← succeeds (o.is_server_name host) FetchError.invalid_server_name
  _ ← in_time t.handshake peer.tls_ms FetchError.tls_timeout
  _ ← succeeds peer.tls_opens FetchError.tls_failed
  _ ← succeeds peer.request_written FetchError.io
  read_response t.read_idle (peer.secure text)

unfoldable pub fetch_gurt : Outside → Str → Result FetchError ClientResponse
unfolding connect_target exchange request_text format_request_path timeouts
fetch_gurt o url = do
  parsed ← ok_or (o.parse_url url) FetchError.bad_url
  host ← ok_or parsed.host FetchError.missing_host
  let port = unwrap_or parsed.port default_port
  let t = timeouts o.env
  let peer = o.reach (connect_target o host) port
  _ ← in_time t.fetch peer.total_ms FetchError.fetch_timeout
  exchange o t peer host (request_text host port (format_request_path parsed))
