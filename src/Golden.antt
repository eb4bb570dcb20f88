-- ===== src/Golden.antt =====
-- tools/golden-extractor/src/main.rs, src/vectors.rs and tests/conformance.rs: the makers of the
-- golden vectors, their records, and the checks that the conformance gate runs on one vector. A
-- panic of `unwrap`, `expect` or an assertion is `none`. The JSON between them is the crate serde's.
-- The extractor runs the functions of the deployed program rust-pois, which the repository does not
-- hold: they are the record `Deployed`.
pub mod Laws
pub mod Files
pub mod Conform
pub mod Gate
use mathlib.Core.Option
use sesame_sdk.Prelude.{
  ℕ, Bool, true, ◌&&◌, Option, none, some, [], ◌∷◌, if◌then◌else◌, ◌==◌, eqb, length,
}
use sesame_sdk.Text.{Bytes, codes, bytes_Eq}
use sesame_sdk.Message.Hex.{hex_encode, hex_decode, ◌>>=◌}
use sesame_sdk.Prelude.Result.{Result, ok, err}
use sesame_sdk.Message.{Outcome}
use sesame_sdk.Canonical.{body_hash_hex, request_canonical, response_canonical}
use sesame_sdk.External.{Crypto}
use sesame_sdk.Tier1.{sign}
use sesame_sdk.Tier3.{key_len, iv_len, seal, unseal, aad_for_headers}

abbrev pub signing_key_hex : Bytes
signing_key_hex = codes "0123456789abcdeffedcba98765432100123456789abcdeffedcba9876543210"

abbrev pub enc_key_hex : Bytes
enc_key_hex = codes "000102030405060708090a0b0c0d0e0f101112131415161718191a1b1c1d1e1f"

abbrev pub iv_hex : Bytes
iv_hex = codes "a0a1a2a3a4a5a6a7a8a9aaab"

abbrev pub ts : Bytes
ts = codes "2026-02-24T18:00:00Z"

abbrev pub nonce : Bytes
nonce = codes "a1b2c3d4e5f6a7b8c9d0e1f2a3b4c5d6"

abbrev pub version : Bytes
version = codes "1.0"

abbrev pub key_id : Bytes
key_id = codes "sas-east-01"

abbrev pub correlation : Bytes
correlation = codes "ap-1:sigid-20260224-001"

pub record RequestVector : Type 0 where
  pub name : Bytes
  pub method : Bytes
  pub path : Bytes
  pub timestamp : Bytes
  pub nonce : Bytes
  pub scope : Option Bytes
  pub signing_key_hex : Bytes
  pub body_hex : Bytes
  pub body_utf8 : Option Bytes
  pub body_is_encrypted : Bool
  pub expected_canonical : Bytes
  pub expected_signature_hex : Bytes

pub record ResponseVector : Type 0 where
  pub name : Bytes
  pub correlation : Bytes
  pub timestamp : Bytes
  pub nonce : Bytes
  pub scope : Option Bytes
  pub signing_key_hex : Bytes
  pub body_hex : Bytes
  pub body_utf8 : Option Bytes
  pub expected_canonical : Bytes
  pub expected_signature_hex : Bytes

pub record AeadVector : Type 0 where
  pub name : Bytes
  pub enc_key_hex : Bytes
  pub iv_hex : Bytes
  pub version : Bytes
  pub key_id : Bytes
  pub timestamp : Bytes
  pub nonce : Bytes
  pub scope : Option Bytes
  pub plaintext_hex : Bytes
  pub plaintext_utf8 : Option Bytes
  pub expected_aad_utf8 : Bytes
  pub expected_body_hex : Bytes

-- A decoded text copied to an array of `n` bytes: another length is a panic.
unfoldable pub decode_sized : (Bytes → Option Bytes) → (n : ℕ) (hex : Bytes) → Option Bytes
decode_sized decode n hex = do v ← decode hex; if eqb (length v) n then some v else none

-- `unwrap` of a result.
abbrev pub unwrap : Outcome Bytes → Option Bytes
unwrap (ok a) = some a
unwrap (err e) = none

-- The modules `sesame::{canonical, message, tier1_hmac, tier3_aead}` of rust-pois.
pub record Deployed : Type 0 where
  pub body_hash_hex : (body : Bytes) → Bytes
  pub request_canonical :
      (method path timestamp nonce body_hash : Bytes) (scope : Option Bytes) → Bytes
  pub response_canonical :
      (correlation timestamp nonce body_hash : Bytes) (scope : Option Bytes) → Bytes
  pub hex_encode : Bytes → Bytes
  pub hex_decode : Bytes → Option Bytes
  pub sign : (key canonical : Bytes) → Bytes
  pub aad_for_headers : (version key_id timestamp nonce : Bytes) (scope : Option Bytes) → Bytes
  pub seal : (key iv aad plaintext : Bytes) → Option Bytes

module _ (d : Deployed) where
  unfoldable pub req_vector :
      (name method path : Bytes) (scope : Option Bytes) (body : Bytes) (body_utf8 : Option Bytes)
      (encrypted : Bool)
      → Option RequestVector
  req_vector name method path scope body body_utf8 encrypted = do
    key ← d.hex_decode signing_key_hex
    let bh = d.body_hash_hex body
    let canonical = d.request_canonical method path ts nonce bh scope
    let signature = d.sign key canonical
    some (record {
      name = name;
      method = method;
      path = path;
      timestamp = ts;
      nonce = nonce;
      scope = scope;
      signing_key_hex = signing_key_hex;
      body_hex = d.hex_encode body;
      body_utf8 = body_utf8;
      body_is_encrypted = encrypted;
      expected_canonical = canonical;
      expected_signature_hex = signature;
    })

  unfoldable pub resp_vector :
      (name : Bytes) (scope : Option Bytes) (body body_utf8 : Bytes) → Option ResponseVector
  resp_vector name scope body body_utf8 = do
    key ← d.hex_decode signing_key_hex
    let bh = d.body_hash_hex body
    let canonical = d.response_canonical correlation ts nonce bh scope
    let signature = d.sign key canonical
    some (record {
      name = name;
      correlation = correlation;
      timestamp = ts;
      nonce = nonce;
      scope = scope;
      signing_key_hex = signing_key_hex;
      body_hex = d.hex_encode body;
      body_utf8 = some body_utf8;
      expected_canonical = canonical;
      expected_signature_hex = signature;
    })

  unfoldable pub aead_vector :
      (name : Bytes) (scope : Option Bytes) (plaintext plaintext_utf8 : Bytes) → Option AeadVector
  aead_vector name scope plaintext plaintext_utf8 = do
    let aad = d.aad_for_headers version key_id ts nonce scope
    key ← decode_sized d.hex_decode key_len enc_key_hex
    iv ← decode_sized d.hex_decode iv_len iv_hex
    body ← d.seal key iv aad plaintext
    some (record {
      name = name;
      enc_key_hex = enc_key_hex;
      iv_hex = iv_hex;
      version = version;
      key_id = key_id;
      timestamp = ts;
      nonce = nonce;
      scope = scope;
      plaintext_hex = d.hex_encode plaintext;
      plaintext_utf8 = some plaintext_utf8;
      expected_aad_utf8 = aad;
      expected_body_hex = d.hex_encode body;
    })

module _ (c : Crypto) where
  -- The body of the loop of `tier1_request_vectors_reproduce`.
  unfoldable pub reproduces_request : RequestVector → Option Bool
  reproduces_request v = do
    body ← hex_decode v.body_hex
    let bh = body_hash_hex c.sha256 body
    let canonical = request_canonical v.method v.path v.timestamp v.nonce bh v.scope
    key ← hex_decode v.signing_key_hex
    let signature = sign c key canonical
    some (canonical == v.expected_canonical && signature == v.expected_signature_hex)

  -- The body of the loop of `tier1_response_vectors_reproduce`.
  unfoldable pub reproduces_response : ResponseVector → Option Bool
  reproduces_response v = do
    body ← hex_decode v.body_hex
    let bh = body_hash_hex c.sha256 body
    let canonical = response_canonical v.correlation v.timestamp v.nonce bh v.scope
    key ← hex_decode v.signing_key_hex
    let signature = sign c key canonical
    some (canonical == v.expected_canonical && signature == v.expected_signature_hex)

  -- The body of the loop of `tier3_aead_vectors_reproduce`.
  unfoldable pub reproduces_aead : AeadVector → Option Bool
  reproduces_aead v = do
    let aad = aad_for_headers v.version v.key_id v.timestamp v.nonce v.scope
    key ← decode_sized hex_decode key_len v.enc_key_hex
    iv ← decode_sized hex_decode iv_len v.iv_hex
    plaintext ← hex_decode v.plaintext_hex
    body ← unwrap (seal c key iv aad plaintext)
    recovered ← unwrap (unseal c key iv aad body)
    some (
        aad == v.expected_aad_utf8
        && hex_encode body == v.expected_body_hex
        && recovered == plaintext)
