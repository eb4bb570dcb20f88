-- ===== src/Go.antt =====
-- src/go: the port of the crate to Go. Go's strings and byte slices are their bytes; SHA-256, HMAC and
-- AES-GCM are those of `Crypto`, and `encoding/hex` decodes as the crate's `hex_decode` does. Its
-- functions have `go_` before their names.
pub mod Message
pub mod Cache
pub mod Codec
pub mod Verify
pub mod Respond
pub mod Same
pub mod Interop
