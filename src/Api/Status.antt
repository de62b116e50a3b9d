-- ===== src/Api/Status.antt =====
-- gurt-api/src/status.rs and gurt-api/src/limits.rs
use google_co.Base.{ℕ, ◌*◌, ltb, if◌then◌else◌}
use google_co.Base.Results.{Result, ok, err}

pub data StatusCode : Type 0 where
  okay bad_request too_many_requests request_entity_too_large internal_server_error : StatusCode

unfoldable pub as_u16 : StatusCode → ℕ
as_u16 okay = 200
as_u16 bad_request = 400
as_u16 too_many_requests = 429
as_u16 request_entity_too_large = 413
as_u16 internal_server_error = 500

abbrev pub max_message_bytes : ℕ
max_message_bytes = 10 * 1024 * 1024

pub data LimitError : Type 0 where
  too_large : (max actual : ℕ) → LimitError

unfoldable pub enforce_max_message_size : ℕ → Result LimitError (Unit {0})
enforce_max_message_size len =
    if ltb max_message_bytes len then err (too_large max_message_bytes len) else ok tt
