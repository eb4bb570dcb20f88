-- ===== src/Respond.antt =====
-- src/lib.rs: `sign_response`. The operating system's random bytes are arguments: 16 for the nonce
-- and 12 for the IV of Tier 3.
pub mod Headers
pub mod Laws
pub mod Total
use sesame_sdk.Prelude.{ℕ, Option, none, some, List, [], ◌∷◌, ◌++◌, if◌then◌else◌}
use sesame_sdk.Prelude.Result.{ok, ok_or, ◌>>=◌}
use sesame_sdk.Text.{Bytes, codes}
use sesame_sdk.Message.{
  Outcome, h_version, h_key_id, h_timestamp, h_nonce, h_signature, h_scope, h_encrypted,
  h_enc_key_id, h_iv, protocol_version, unknown_key, expired_timestamp, decrypt_failed,
}
use sesame_sdk.Message.Hex.{hex_encode}
use sesame_sdk.Canonical.{body_hash_hex, response_canonical}
use sesame_sdk.External.{Crypto, Clock}
use sesame_sdk.Keys.{KeyProvider, primary_signing_key}
use sesame_sdk.Tier.{Tier, three, tier_ge, SesameConfig}
use sesame_sdk.Tier1.{sign}
use sesame_sdk.Tier3.{seal, aad_for_headers}

pub record ResponseParams : Type 0 where
  pub signing_key_id : Bytes
  pub correlation : Bytes
  pub scope : Option Bytes
  pub tier : Tier
  pub enc_key_id : Option Bytes

abbrev pub Header : Type 0
Header = Bytes × Bytes

pub record SignedResponse : Type 0 where
  pub headers : List Header
  pub body : Bytes
  pub content_type : Bytes

-- The vector `headers` before Tier 3.
abbrev pub scope_header : Option Bytes → List Header
scope_header none = []
scope_header (some scope) = (h_scope, scope) ∷ []

abbrev pub first_headers : ResponseParams → (timestamp nonce : Bytes) → List Header
first_headers params timestamp nonce =
    (h_version, protocol_version)
    ∷ (h_key_id, params.signing_key_id)
    ∷ (h_timestamp, timestamp)
    ∷ (h_nonce, nonce)
    ∷ scope_header params.scope

module _ (c : Crypto) where
  -- The body and its content type, and the headers that this step pushes.
  unfoldable pub respond_body :
      KeyProvider
      → ResponseParams
      → (plaintext_xml timestamp nonce iv : Bytes) → Outcome (Bytes × Bytes × List Header)
  respond_body provider params plaintext_xml timestamp nonce iv =
      if tier_ge params.tier three
      then (do
        enc_key_id ← ok_or params.enc_key_id decrypt_failed
        aead ← ok_or (provider.aead_key enc_key_id) decrypt_failed
        let aad =
            aad_for_headers protocol_version params.signing_key_id timestamp nonce params.scope
        ct ← seal c aead iv aad plaintext_xml
        ok (
          ct,
          codes "application/octet-stream",
          (h_encrypted, codes "true") ∷ (h_enc_key_id, enc_key_id) ∷ (h_iv, hex_encode iv) ∷ [],
        ))
      else ok (plaintext_xml, codes "application/xml", [])

  unfoldable pub sign_response :
      (k : Clock)
      → SesameConfig
      → KeyProvider
      → ResponseParams
      → (plaintext_xml : Bytes) → (now : k.Time) → (random_128 random_iv : Bytes)
      → Outcome SignedResponse
  sign_response k cfg provider params plaintext_xml now random_128 random_iv = do
    signing_key ← ok_or (primary_signing_key provider params.signing_key_id) unknown_key
    timestamp ← ok_or (k.format_rfc3339 now) expired_timestamp
    let nonce = hex_encode random_128
    (body, content_type, tier3_headers) ←
        respond_body provider params plaintext_xml timestamp nonce random_iv
    let body_hash = body_hash_hex c.sha256 body
    let canonical = response_canonical params.correlation timestamp nonce body_hash params.scope
    let signature = sign c signing_key canonical
    ok (record {
      headers =
          first_headers params timestamp nonce ++ tier3_headers ++ (h_signature, signature) ∷ [];
      body = body;
      content_type = content_type;
    })
