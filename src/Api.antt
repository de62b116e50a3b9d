-- ===== src/Api.antt =====
-- The crate gurt-api: message limits, status codes, the handshake, requests and responses.
pub mod Status
pub mod Stream
pub mod Headers
pub mod HttpLike
pub mod Handshake
pub mod Message
pub mod Gurt
pub mod Request
pub mod Tls
