-- ===== src/Suite/Made.antt =====
-- What the tests' request is for each tier, for any cryptography.
use sesame_sdk.Prelude.{◌≡◌, refl, Bool, true, false, Option, none, some}
use sesame_sdk.Prelude.AssocMap.{get, insert}
use sesame_sdk.Text.{Bytes, codes, bytes_eq}
use sesame_sdk.Message.{SesameHeaders, protocol_version}
use sesame_sdk.Message.Hex.{hex_encode}
use sesame_sdk.Canonical.{body_hash_hex, request_canonical}
use sesame_sdk.External.{Crypto}
use sesame_sdk.Keys.{with_signing_key, with_aead_key, static_provider, primary_signing_key}
use sesame_sdk.Tier.{one, two, three}
use sesame_sdk.Tier1.{sign}
use sesame_sdk.Tier3.{seal, aad_for_headers}
use sesame_sdk.Suite.{suite_body, make_request}
use sesame_sdk.Suite.Data.{
  suite_xml, suite_ts, suite_nonce, suite_client, suite_secret, suite_enc_key_id, suite_directory,
  suite_path, repeated,
}

abbrev pub east_scope : Option Bytes
east_scope = some (codes "channel=SportsFeed-East")

module _ (c : Crypto) where
  abbrev pub suite_signature : (scope : Option Bytes) (body nonce : Bytes) → Bytes
  suite_signature scope body nonce = sign c suite_secret (
      request_canonical (codes "POST") suite_path suite_ts nonce (body_hash_hex c.sha256 body)
        scope)

  abbrev pub suite_headers :
      (scope : Option Bytes) (body : Bytes) (encrypted : Bool) (enc_key_id iv : Option Bytes)
      → SesameHeaders
  suite_headers scope body encrypted enc_key_id iv = record {
    version = some protocol_version;
    key_id = some suite_client;
    timestamp = some suite_ts;
    nonce = some suite_nonce;
    signature = some (suite_signature scope body suite_nonce);
    scope = scope;
    encrypted = encrypted;
    enc_key_id = enc_key_id;
    iv = iv;
  }

  abbrev pub suite_iv : Bytes
  suite_iv = repeated 0 12

  abbrev pub headers_1 : SesameHeaders
  headers_1 = suite_headers none suite_xml false none none

  abbrev pub headers_2 : SesameHeaders
  headers_2 = suite_headers east_scope suite_xml false none none

  abbrev pub headers_3 : (ct : Bytes) → SesameHeaders
  headers_3 ct =
      suite_headers east_scope ct true (some suite_enc_key_id) (some (hex_encode suite_iv))

  -- The cipher seals the request of Tier 3.
  abbrev pub Seals : (ct : Bytes) → Type 0
  Seals ct =
      c.gcm_encrypt (repeated 0x42 32) suite_iv
        (aad_for_headers protocol_version suite_client suite_ts suite_nonce east_scope) suite_xml
      ≡ some ct

  pub made_1 : make_request c one none ≡ some (headers_1, suite_xml)
  unfolding make_request suite_body suite_directory static_provider with_signing_key with_aead_key
      insert get bytes_eq primary_signing_key
  made_1 = refl

  pub made_2 : make_request c two none ≡ some (headers_2, suite_xml)
  unfolding make_request suite_body suite_directory static_provider with_signing_key with_aead_key
      insert get bytes_eq primary_signing_key
  made_2 = refl

  pub made_3 : (ct : Bytes) → Seals ct → make_request c three none ≡ some (headers_3 ct, ct)
  unfolding make_request suite_body suite_directory static_provider with_signing_key with_aead_key
      insert get bytes_eq primary_signing_key seal
  made_3 ct e = rw e refl
