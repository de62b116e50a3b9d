-- ===== src/Api/Handshake.antt =====
-- gurt-api/src/handshake.rs: the plaintext handshake that opens a connection.
pub mod Opening
use google_co.Base.{
  ℕ, ◌*◌, ◌≤◌, ◌≡◌, refl, Bool, true, ◌||◌, not, [], ◌∷◌, ◌++◌, ltb, if◌then◌else◌, length, inl,
  inr, Bool-cases, not_ltb→le,
}
use mathlib.Core.Path.{subst}
use Prim.Native.String.{String}
use google_co.Base.Results.{Result, ok, err, ◌>>=◌, >>=-eq-ok, eq_of_ok, err≢ok}
use google_co.Str.Ascii.{Str, Bytes, codes, eq}
use google_co.Str.Search.{contains}
use google_co.Str.Split.{lines, split_whitespace, nth_or_empty}
use google_co.Str.Utf8.{from_utf8_lossy}
use google_co.Api.Stream.{got, failed, Stream}
use google_co.Api.Headers.{crlfcrlf}

pub data HandshakeError : Type 0 where
  io connection_closed too_large invalid_start_line : HandshakeError

abbrev pub max_handshake_bytes : ℕ
max_handshake_bytes = 8 * 1024

abbrev pub proto_version : Str
proto_version = codes "GURT/1.0.0"

-- The read loop: the bytes up to the first read that completes an empty line.
unfoldable pub read_handshake : Bytes → Stream → Result HandshakeError (Bytes × Stream)
read_handshake buf [] = err connection_closed
read_handshake buf (failed ∷ s) = err io
read_handshake buf (got [] ∷ s) = err connection_closed
read_handshake buf (got (c ∷ cs) ∷ s) =
    let buf' = buf ++ c ∷ cs in
    let more = read_handshake buf' s in
    if ltb max_handshake_bytes (length buf')
    then err too_large
    else if contains buf' crlfcrlf
    then ok (buf', s)
    else more

-- The test of the first line: its first three words.
unfoldable pub is_start_line : Str → Bool
is_start_line line =
    let parts = split_whitespace line in
    not (
      not (eq (nth_or_empty parts 0) (codes "HANDSHAKE"))
      || not (eq (nth_or_empty parts 1) (codes "/"))
      || not (eq (nth_or_empty parts 2) proto_version))

abbrev line : String → Str
line s = codes s ++ 13 ∷ 10 ∷ []

-- The response, with the date that the clock gives.
unfoldable pub handshake_response : Str → Str
handshake_response date =
    proto_version
    ++ line " 101 SWITCHING_PROTOCOLS"
    ++ line "gurt-version: 1.0.0"
    ++ line "encryption: TLS/1.3"
    ++ line "alpn: GURT/1.0"
    ++ line "server: GURT/1.0.0"
    ++ codes "date: "
    ++ date
    ++ crlfcrlf

-- The bytes that are written back and the stream behind the handshake.
unfoldable pub read_and_respond_handshake : Str → Stream → Result HandshakeError (Str × Stream)
unfolding read_handshake is_start_line handshake_response
read_and_respond_handshake date s = do
  (buf, s') ← read_handshake [] s
  if is_start_line (nth_or_empty (lines (from_utf8_lossy buf)) 0)
      then ok (handshake_response date, s')
      else err invalid_start_line
