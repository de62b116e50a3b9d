-- ===== src/Api/Request.antt =====
-- gurt-api/src/request.rs: the minimal request parser with the message limit.
use google_co.Base.{◌||◌, if◌then◌else◌, is_empty, length}
use google_co.Base.Results.{Result, ok, err, ◌>>=◌, ok_or}
use google_co.Str.Ascii.{Str, Bytes}
use google_co.Str.Split.{lines, split_whitespace, nth_or_empty}
use google_co.Str.Utf8.{from_utf8}
use google_co.Api.Status.{
  StatusCode, bad_request, request_entity_too_large, LimitError, enforce_max_message_size,
}

pub record Request : Type 0 where
  pub method : Str
  pub path : Str

abbrev checked : Str → Str → Result StatusCode Request
checked method path =
    if is_empty method || is_empty path
    then err bad_request
    else ok (record { method = method; path = path })

abbrev as_status : Result LimitError (Unit {0}) → Result StatusCode (Unit {0})
as_status (ok u) = ok u
as_status (err e) = err request_entity_too_large

unfoldable pub parse_request : Bytes → Result StatusCode Request
unfolding enforce_max_message_size
parse_request raw = do
  _ ← as_status (enforce_max_message_size (length raw))
  text ← ok_or (from_utf8 raw) bad_request
  let parts = split_whitespace (nth_or_empty (lines text) 0)
  checked (nth_or_empty parts 0) (nth_or_empty parts 1)
