-- ===== src/Connection/Tls.antt =====
-- gurtd/src/tls.rs: the certificates and the key of the server. The file system, the reader of PEM files
-- and the set-up of rustls are parameters.
use google_co.Base.{List, [], ◌∷◌, Option, none, some, is_empty, if◌then◌else◌}
use google_co.Base.Results.{Result, ok, err, ◌>>=◌, ok_or}
use google_co.Str.Ascii.{Str, Bytes}

pub data TlsError : Type 0 where
  opening invalid_certs no_certificates invalid_pem no_valid_key refused : TlsError

-- What a PEM file holds.
pub data Item : Type 0 where
  pkcs8 pkcs1 sec1 other : Bytes → Item

-- The file system and the readers: an item that cannot be read is `none`.
pub record Files : Type 0 where
  pub read : Str → Option Bytes
  pub certs : Bytes → Option (List Bytes)
  pub items : Bytes → List (Option Item)

abbrev some_certs : List Bytes → Result TlsError (List Bytes)
some_certs cs = if is_empty cs then err TlsError.no_certificates else ok cs

unfoldable pub load_certs : Files → Str → Result TlsError (List Bytes)
load_certs files path = do
  f ← ok_or (files.read path) TlsError.opening
  cs ← ok_or (files.certs f) TlsError.invalid_certs
  some_certs cs

-- The loop over the items, up to the first supported key.
unfoldable pub first_key : List (Option Item) → Result TlsError Item
first_key [] = err TlsError.no_valid_key
first_key (none ∷ rest) = err TlsError.invalid_pem
first_key (some (pkcs8 k) ∷ rest) = ok (pkcs8 k)
first_key (some (pkcs1 k) ∷ rest) = ok (pkcs1 k)
first_key (some (sec1 k) ∷ rest) = ok (sec1 k)
first_key (some (other b) ∷ rest) = first_key rest

unfoldable pub load_key : Files → Str → Result TlsError Item
unfolding first_key
load_key files path = do f ← ok_or (files.read path) TlsError.opening; first_key (files.items f)

-- `TlsConfig::load`; the set-up takes the certificates, the key and the protocol name.
unfoldable pub load :
    {C : Type 0} → Files → (List Bytes → Item → Option C) → Str → Str → Result TlsError C
unfolding load_certs load_key
load files single_cert cert_path key_path = do
  cs ← load_certs files cert_path
  key ← load_key files key_path
  ok_or (single_cert cs key) TlsError.refused
