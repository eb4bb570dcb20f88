-- ===== src/Canonical.antt =====
-- src/canonical.rs: the strings that the signature covers. SHA-256 is the `sha2` crate's.
pub mod Injective
use sesame_sdk.Prelude.{Option, none, some, [], ◌∷◌, ◌++◌}
use sesame_sdk.Text.{Bytes, codes}
use sesame_sdk.Message.Hex.{hex_encode}

-- `LF as u8`
abbrev pub lf : Bytes
lf = b'\n' ∷ []

-- `body_hash_hex`, over the digest that the crate computes.
unfoldable pub body_hash_hex : (Bytes → Bytes) → Bytes → Bytes
body_hash_hex sha256 body = hex_encode (sha256 body)

-- `if let Some(scope) = scope { s.push(LF); s.push_str(scope); }`
abbrev pub push_scope : Bytes → Option Bytes → Bytes
push_scope s none = s
push_scope s (some scope) = (s ++ lf) ++ scope

-- The buffer `s` after each `push` and `push_str`.
unfoldable pub request_canonical :
    (method path timestamp nonce body_hash : Bytes) (scope : Option Bytes) → Bytes
request_canonical method path timestamp nonce body_hash scope =
    let s = method in
    let s = (s ++ lf) ++ path in
    let s = (s ++ lf) ++ timestamp in
    let s = (s ++ lf) ++ nonce in let s = (s ++ lf) ++ body_hash in push_scope s scope

unfoldable pub response_canonical :
    (correlation timestamp nonce body_hash : Bytes) (scope : Option Bytes) → Bytes
response_canonical correlation timestamp nonce body_hash scope =
    let s = codes "RESPONSE" in
    let s = (s ++ lf) ++ correlation in
    let s = (s ++ lf) ++ timestamp in
    let s = (s ++ lf) ++ nonce in let s = (s ++ lf) ++ body_hash in push_scope s scope
