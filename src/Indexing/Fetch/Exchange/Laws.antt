-- ===== src/Indexing/Fetch/Exchange/Laws.antt =====
-- What holds of a fetch that returns a response.
use google_co.Base.{
  ℕ, ◌≤◌, ◌≡◌, refl, List, ltb, Option, none, some, unwrap_or, Bool-cases, inl, inr, not_ltb→le,
}
use google_co.Base.Results.{ok, ok_or, >>=-eq-ok, err≢ok}
use google_co.Str.Ascii.{Str}
use google_co.Crawler.Client.{ClientResponse, Url, default_port}
use google_co.Indexing.Fetch.{Timed, FetchError}
use google_co.Indexing.Fetch.Bounds.{IsReceived, read_response-IsReceived}
use google_co.Indexing.Fetch.Exchange.{
  Timeouts, timeouts, Peer, Outside, connect_target, in_time, succeeds, handshake_with, exchange,
  request_text, format_request_path, fetch_gurt,
}

-- What holds of a fetch that returns a response.
pub record IsFetched (o : Outside) (url : Str) (resp : ClientResponse) : Type 0 where
  pub parsed : Url
  pub host : Str
  pub peer : Peer
  pub text : Str
  pub left : List Timed
  pub is_url : o.parse_url url ≡ some parsed
  pub has_host : parsed.host ≡ some host
  pub is_peer : peer ≡ o.reach (connect_target o host) (unwrap_or parsed.port default_port)
  pub in_limit : peer.total_ms ≤ (timeouts o.env).fetch
  pub shook_hands : handshake_with o peer host ≡ ok left
  pub is_received : IsReceived (peer.secure text) resp

ok_or-eq : {A : Type 0} (o : Option A) (e : FetchError) (a : A) → ok_or o e ≡ ok a → o ≡ some a
ok_or-eq none e a h = cc
ok_or-eq (some b) e a h = cc

in_time-le : (limit ms : ℕ) (e : FetchError) (u : Unit {0}) → in_time limit ms e ≡ ok u → ms ≤ limit
in_time-le limit ms e u = elim (Bool-cases (ltb limit ms)) [
  | inl a ↦ rw a (λ h. absurd (err≢ok h))
  | inr a ↦ rw a (λ h. not_ltb→le ms limit a)
]

abbrev Exchanged : Outside → Timeouts → Peer → Str → Str → ClientResponse → Type 0
Exchanged o t peer host text resp =
    (left : List Timed) × (handshake_with o peer host ≡ ok left)
    × IsReceived (peer.secure text) resp

exchange-Exchanged :
    (o : Outside) (t : Timeouts) (peer : Peer) (host text : Str) (resp : ClientResponse)
    → exchange o t peer host text ≡ ok resp
    → Exchanged o t peer host text resp
unfolding exchange
exchange-Exchanged o t peer host text resp e =
    let (_, _, e1) = >>=-eq-ok (in_time t.connect peer.connect_ms FetchError.connect_timeout) _ e in
    let (_, _, e2) = >>=-eq-ok (succeeds peer.connects FetchError.connect_failed) _ e1 in
    let (_, _, e3) =
      >>=-eq-ok (in_time t.handshake peer.handshake_ms FetchError.handshake_timeout) _ e2 in
    let (left, shook, e4) = >>=-eq-ok (handshake_with o peer host) _ e3 in
    let (_, _, e5) =
      >>=-eq-ok (succeeds (o.is_server_name host) FetchError.invalid_server_name) _ e4 in
    let (_, _, e6) = >>=-eq-ok (in_time t.handshake peer.tls_ms FetchError.tls_timeout) _ e5 in
    let (_, _, e7) = >>=-eq-ok (succeeds peer.tls_opens FetchError.tls_failed) _ e6 in
    let (_, _, e8) = >>=-eq-ok (succeeds peer.request_written FetchError.io) _ e7 in
    (left, shook, read_response-IsReceived t.read_idle (peer.secure text) resp e8)

-- A fetch that returns a response had a URL with a host and was within its time limit; the other side
-- completed the handshake; and the response is one that was received within the limits on its size.
pub fetch_gurt-IsFetched :
    (o : Outside) (url : Str) (resp : ClientResponse)
    → fetch_gurt o url ≡ ok resp
    → IsFetched o url resp
unfolding fetch_gurt
fetch_gurt-IsFetched o url resp e =
    let (parsed, a, e1) = >>=-eq-ok (ok_or (o.parse_url url) FetchError.bad_url) _ e in
    let (host, b, e2) = >>=-eq-ok (ok_or parsed.host FetchError.missing_host) _ e1 in
    let port = unwrap_or parsed.port default_port in
    let t = timeouts o.env in
    let peer = o.reach (connect_target o host) port in
    let (u, c, e3) = >>=-eq-ok (in_time t.fetch peer.total_ms FetchError.fetch_timeout) _ e2 in
    let (left, shook, received) =
      exchange-Exchanged o t peer host (request_text host port (format_request_path parsed)) resp
        e3 in
    record {
      parsed = parsed;
      host = host;
      peer = peer;
      text = request_text host port (format_request_path parsed);
      left = left;
      is_url = ok_or-eq (o.parse_url url) FetchError.bad_url parsed a;
      has_host = ok_or-eq parsed.host FetchError.missing_host host b;
      is_peer = refl;
      in_limit = in_time-le t.fetch peer.total_ms FetchError.fetch_timeout u c;
      shook_hands = shook;
      is_received = received;
    }
