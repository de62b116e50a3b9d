-- ===== src/Indexing/Dns/Request.antt =====
-- gurtd/src/indexing/dns.rs: the service that is asked, and the request to it.
use google_co.Base.{
  ℕ, Bool, List, [], ◌∷◌, ◌++◌, if◌then◌else◌, Option, none, some, unwrap_or, length, any,
}
use google_co.Str.Ascii.{Str, Bytes, codes, eq_ignore_ascii_case}
use google_co.Str.Number.{parse_unsigned, u16_max, show}
use google_co.Str.Utf8.{as_bytes}
use google_co.Api.Headers.{Header}
use google_co.Crawler.Client.{default_port}
use google_co.Indexing.Dns.{IpAddr}

abbrev parsed : {A : Type 0} → (Str → Option A) → Option Str → Option A
parsed parse none = none
parsed parse (some s) = parse s

-- The host, the address if one is configured, and the port, from the variables of the environment.
unfoldable pub dns_service_endpoint :
    (Str → Option IpAddr) → (Str → Option Str) → Str × Option IpAddr × ℕ
dns_service_endpoint parse_ip env = (
  unwrap_or (env (codes "GURT_DNS_HOST")) (codes "dns.web"),
  parsed parse_ip (env (codes "GURT_DNS_ADDR")),
  unwrap_or (parsed (parse_unsigned u16_max) (env (codes "GURT_DNS_PORT"))) default_port,
)

abbrev crlf : Str
crlf = 13 ∷ 10 ∷ []

abbrev header_text : List Header → Str
header_text [] = []
header_text ((k, v) ∷ hs) = (k ++ codes ": " ++ v ++ crlf) ++ header_text hs

abbrev has_length : List Header → Bool
has_length hs = any (λ h. eq_ignore_ascii_case h.0 (codes "content-length")) hs

-- The bytes that `send_request_with_body` writes.
unfoldable pub request_with_body : Str → Str → Str → List Header → Bytes → Bytes
request_with_body host path method extra_headers body =
    as_bytes (
      method
      ++ codes " "
      ++ path
      ++ codes " GURT/1.0.0"
      ++ crlf
      ++ codes "host: "
      ++ host
      ++ crlf
      ++ header_text extra_headers
      ++ (if has_length extra_headers
          then []
          else codes "content-length: " ++ show (length body) ++ crlf)
      ++ crlf)
    ++ body
