-- ===== src/Connection.antt =====
-- gurtd/src/main.rs: one connection. The handshake comes first, in plain text; then, inside TLS 1.3,
-- the requests are answered one after the other until the stream ends, one fails, a read is late, or
-- the client asks to close. TLS is a parameter, and every write succeeds.
pub mod Laws
pub mod Tls
use google_co.Base.{
  ℕ, zero, suc, ◌+◌, Bool, true, false, List, [], ◌∷◌, ◌++◌, if◌then◌else◌, Option, none, some,
  length,
}
use google_co.Base.Results.{Result, ok, err}
use google_co.Str.Ascii.{Str, Bytes, codes, eq_ignore_ascii_case}
use google_co.Str.Utf8.{as_bytes}
use google_co.Api.Status.{StatusCode}
use google_co.Api.Stream.{Stream}
use google_co.Api.Headers.{Header}
use google_co.Api.Message.{Response, into_bytes, make_empty_response}
use google_co.Api.HttpLike.{Request, read_request}
use google_co.Api.Handshake.{HandshakeError, read_and_respond_handshake}
use google_co.Router.RateLimit.{IpAddr}
use google_co.Router.Dispatch.{App, Server, handle_with_peer}

-- The moments of the connection: the date, the clock, and whether the wait for a request is too
-- long, each by the number of the request.
pub record Clock : Type 0 where
  pub date : ℕ → Str
  pub now : ℕ → ℕ
  pub is_idle : ℕ → Bool

unfoldable pub wants_close : List Header → Bool
wants_close [] = false
wants_close ((k, v) ∷ rest) =
    let later = wants_close rest in
    if eq_ignore_ascii_case k (codes "connection")
    then (if eq_ignore_ascii_case v (codes "close") then true else later)
    else later

-- What was written, the state behind, and whether the loop ended.
pub record Served (Score : Type 0) : Type 0 where
  pub written : Bytes
  pub app : App Score
  pub ended : Bool

module _ {Score : Type 0} where
  abbrev pub write_first : Bytes → Served Score → Served Score
  write_first bytes s = record s { written = bytes ++ s.written }

  abbrev pub closed : Bytes → App Score → Served Score
  closed bytes app = record { written = bytes; app = app; ended = true }

  abbrev pub respond : Bool → Bytes → App Score → (App Score → Served Score) → Served Score
  respond closes bytes app later =
      if closes then closed bytes app else write_first bytes (later app)

  abbrev pub serve_request :
      Server Score
      → Clock
      → Option IpAddr
      → ℕ
      → Request
      → App Score
      → (App Score → Served Score)
      → Served Score
  serve_request server clock peer i req app later =
      let answer = handle_with_peer server (clock.now i) req peer app in
      respond (wants_close req.headers) (into_bytes (clock.date i) answer.0) answer.1 later

  abbrev pub serve_read :
      Server Score
      → Clock
      → Option IpAddr
      → ℕ
      → App Score
      → (Stream → App Score → Served Score)
      → Result StatusCode (Request × Stream)
      → Served Score
  serve_read server clock peer i app later (err code) =
      closed (make_empty_response (clock.date i) code) app
  serve_read server clock peer i app later (ok (req, s)) =
      serve_request server clock peer i req app (later s)

  -- The loop, for a number of requests at most; `i` counts them.
  unfoldable pub serve :
      Server Score → Clock → Option IpAddr → ℕ → ℕ → Stream → App Score → Served Score
  serve server clock peer zero i s app = record { written = []; app = app; ended = false }
  serve server clock peer (suc fuel) i s app =
      if clock.is_idle i
      then closed [] app
      else serve_read server clock peer i app
          (λ s' app'. serve server clock peer fuel (suc i) s' app') (read_request s)

  abbrev pub secured :
      Server Score
      → Clock
      → Option IpAddr
      → App Score
      → Option (Bool × Stream)
      → Option (Served Score)
  secured server clock peer app none = none
  secured server clock peer app (some (is_tls13, s)) =
      if is_tls13 then some (serve server clock peer (suc (length s)) 1 s app) else none

  abbrev pub upgraded :
      Server Score
      → Clock
      → Option IpAddr
      → (Stream → Option (Bool × Stream))
      → App Score
      → Result HandshakeError (Str × Stream)
      → Bytes × Option (Served Score)
  upgraded server clock peer accept app (err e) = ([], none)
  upgraded server clock peer accept app (ok (out, s)) =
      (as_bytes out, secured server clock peer app (accept s))

  -- The connection: what is written in plain text, and what is served inside TLS, if that comes about.
  -- `accept` says whether the version is 1.3, and what is read inside.
  unfoldable pub handle_conn :
      Server Score
      → Clock
      → Option IpAddr
      → (Stream → Option (Bool × Stream))
      → Stream
      → App Score
      → Bytes × Option (Served Score)
  handle_conn server clock peer accept s app =
      upgraded server clock peer accept app (read_and_respond_handshake (clock.date 0) s)
