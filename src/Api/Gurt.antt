-- ===== src/Api/Gurt.antt =====
-- gurt-api/src/gurt.rs: the handshake response as a value.
use google_co.Base.{ℕ, List, [], ◌∷◌, if◌then◌else◌, Option, none, some}
use google_co.Str.Ascii.{Str, codes, eq_ignore_ascii_case}
use google_co.Api.Headers.{Header}

pub record HandshakeResponse : Type 0 where
  pub status : ℕ
  pub reason : Str
  pub headers : List Header

unfoldable pub find_header : List Header → Str → Option Str
find_header [] name = none
find_header ((k, v) ∷ rest) name =
    let later = find_header rest name in if eq_ignore_ascii_case k name then some v else later

unfoldable pub header : HandshakeResponse → Str → Option Str
unfolding find_header
header r name = find_header r.headers name

unfoldable pub perform_handshake : HandshakeResponse
perform_handshake = record {
  status = 101;
  reason = codes "SWITCHING_PROTOCOLS";
  headers =
      (codes "gurt-version", codes "1.0.0")
      ∷ (codes "encryption", codes "TLS/1.3")
      ∷ (codes "alpn", codes "GURT/1.0")
      ∷ (codes "server", codes "GURT/1.0.0")
      ∷ [];
}
