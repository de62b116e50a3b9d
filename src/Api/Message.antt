-- ===== src/Api/Message.antt =====
-- gurt-api/src/http_like.rs: the bytes of a response. The date is what `httpdate` prints.
use google_co.Base.{Bool, true, false, List, [], ◌∷◌, ◌++◌, if◌then◌else◌, length}
use google_co.Str.Ascii.{Str, Bytes, codes, eq_ignore_ascii_case}
use google_co.Str.Number.{show}
use google_co.Str.Utf8.{as_bytes}
use google_co.Api.Status.{
  StatusCode, okay, bad_request, too_many_requests, request_entity_too_large, internal_server_error,
  as_u16,
}
use google_co.Api.Headers.{Header}

pub record Response : Type 0 where
  pub code : StatusCode
  pub headers : List Header
  pub body : Bytes

unfoldable pub reason : StatusCode → Str
reason okay = codes "OK"
reason bad_request = codes "BAD_REQUEST"
reason too_many_requests = codes "TOO_MANY_REQUESTS"
reason request_entity_too_large = codes "TOO_LARGE"
reason internal_server_error = codes "INTERNAL_SERVER_ERROR"

abbrev pub crlf : Bytes
crlf = 13 ∷ 10 ∷ []

-- The header loop, with the two flags that it sets.
pub record Written : Type 0 where
  pub out : Bytes
  pub had_ct : Bool
  pub had_cl : Bool

unfoldable pub write_headers : List Header → Written → Written
write_headers [] w = w
write_headers ((k, v) ∷ rest) w = write_headers rest (record {
  out = w.out ++ as_bytes k ++ codes ": " ++ as_bytes v ++ crlf;
  had_ct = if eq_ignore_ascii_case k (codes "content-type") then true else w.had_ct;
  had_cl = if eq_ignore_ascii_case k (codes "content-length") then true else w.had_cl;
})

unfoldable pub status_line : StatusCode → Str → Bytes
unfolding as_u16 reason
status_line code date =
    codes "GURT/1.0.0 "
    ++ show (as_u16 code)
    ++ codes " "
    ++ reason code
    ++ crlf
    ++ codes "server: GURT/1.0.0"
    ++ crlf
    ++ codes "date: "
    ++ as_bytes date
    ++ crlf

unfoldable pub make_response : Str → StatusCode → List Header → Bytes → Bytes
unfolding status_line write_headers
make_response date code headers body =
    let w =
      write_headers headers
        (record { out = status_line code date; had_ct = false; had_cl = false }) in
    w.out
    ++ (if w.had_ct then [] else codes "content-type: application/json" ++ crlf)
    ++ (if w.had_cl then [] else codes "content-length: " ++ show (length body) ++ crlf)
    ++ crlf
    ++ body

unfoldable pub into_bytes : Str → Response → Bytes
unfolding make_response
into_bytes date r = make_response date r.code r.headers r.body

unfoldable pub make_empty_response : Str → StatusCode → Bytes
unfolding make_response
make_empty_response date code = make_response date code [] []
