-- ===== src/Respond/Headers.antt =====
-- The headers and the body of a signed response, as the peer reads them.
use sesame_sdk.Prelude.{◌≡◌, refl, ap, ◌∙◌, true, false, none, some, List, [], ◌∷◌, ◌++◌}
use sesame_sdk.Prelude.Result.{ok, ok_or, >>=-eq-ok, ok_or-eq-ok}
use sesame_sdk.Prelude.AssocMap.{get}
use sesame_sdk.Text.{Bytes, bytes_Eq, codes}
use sesame_sdk.Message.{
  SesameHeaders, from_lookup, protocol_version, h_signature, h_encrypted, h_enc_key_id, h_iv,
  decrypt_failed,
}
use sesame_sdk.Message.Hex.{hex_encode}
use sesame_sdk.External.{Crypto}
use sesame_sdk.Keys.{KeyProvider}
use sesame_sdk.Tier.{three, tier_ge}
use sesame_sdk.Tier3.{seal, aad_for_headers}
use sesame_sdk.Respond.{ResponseParams, Header, first_headers, respond_body}

-- The headers as the peer reads them.
abbrev pub read : List Header → SesameHeaders
read headers = from_lookup (get headers)

-- The headers that a response of these values carries.
abbrev pub plain_headers : ResponseParams → (timestamp nonce signature : Bytes) → SesameHeaders
plain_headers params timestamp nonce signature = record {
  version = some protocol_version;
  key_id = some params.signing_key_id;
  timestamp = some timestamp;
  nonce = some nonce;
  signature = some signature;
  scope = params.scope;
  encrypted = false;
  enc_key_id = none;
  iv = none;
}

pub read_plain :
    (params : ResponseParams) (timestamp nonce signature : Bytes)
    → read (first_headers params timestamp nonce ++ [] ++ (h_signature, signature) ∷ [])
      ≡ plain_headers params timestamp nonce signature
unfolding from_lookup get
read_plain params timestamp nonce signature =
    elim params.scope
      as (λ s.
        read (
          first_headers (record params { scope = s }) timestamp nonce
          ++ []
          ++ (h_signature, signature) ∷ [])
        ≡ plain_headers (record params { scope = s }) timestamp nonce signature) [
          | none ↦ refl
          | some s ↦ refl
        ]

pub read_sealed :
    (params : ResponseParams) (timestamp nonce signature enc_key_id iv_hex : Bytes)
    → read (
        first_headers params timestamp nonce
        ++ ((h_encrypted, codes "true") ∷ (h_enc_key_id, enc_key_id) ∷ (h_iv, iv_hex) ∷ [])
        ++ (h_signature, signature) ∷ [])
      ≡ record (plain_headers params timestamp nonce signature) {
        encrypted = true;
        enc_key_id = some enc_key_id;
        iv = some iv_hex;
      }
unfolding from_lookup get
read_sealed params timestamp nonce signature enc_key_id iv_hex =
    elim params.scope
      as (λ s.
        read (
          first_headers (record params { scope = s }) timestamp nonce
          ++ ((h_encrypted, codes "true") ∷ (h_enc_key_id, enc_key_id) ∷ (h_iv, iv_hex) ∷ [])
          ++ (h_signature, signature) ∷ [])
        ≡ record (plain_headers (record params { scope = s }) timestamp nonce signature) {
          encrypted = true;
          enc_key_id = some enc_key_id;
          iv = some iv_hex;
        }) [ none ↦ refl | some s ↦ refl ]

-- What the step on the body did.
pub record Sealed (c : Crypto) (provider : KeyProvider) (params : ResponseParams)
    (plaintext_xml timestamp nonce iv body : Bytes) (pushed : List Header) : Type 0 where
  pub enc_key_id : Bytes
  pub aead : Bytes
  pub named : params.enc_key_id ≡ some enc_key_id
  pub has_key : provider.aead_key enc_key_id ≡ some aead
  pub sealed :
      c.gcm_encrypt aead iv
        (aad_for_headers protocol_version params.signing_key_id timestamp nonce params.scope)
        plaintext_xml
      ≡ some body
  pub headers :
      pushed ≡ (h_encrypted, codes "true") ∷ (h_enc_key_id, enc_key_id) ∷ (h_iv, hex_encode iv) ∷ []

pub respond_body-Sealed :
    (c : Crypto) (provider : KeyProvider) (params : ResponseParams)
    (plaintext_xml timestamp nonce iv body content_type : Bytes) (pushed : List Header)
    → tier_ge params.tier three ≡ true
    → respond_body c provider params plaintext_xml timestamp nonce iv
      ≡ ok (body, content_type, pushed)
    → Sealed c provider params plaintext_xml timestamp nonce iv body pushed
unfolding respond_body seal
respond_body-Sealed c provider params x timestamp nonce iv body content_type pushed e h =
    let h₀ = rw (e, respond_body) at h in
    let (enc_key_id, f, h₁) = >>=-eq-ok (ok_or params.enc_key_id decrypt_failed) _ h₀ in
    let (aead, g, h₂) = >>=-eq-ok (ok_or (provider.aead_key enc_key_id) decrypt_failed) _ h₁ in
    let (ct, i, h₃) =
      >>=-eq-ok
        (ok_or
          (c.gcm_encrypt aead iv
            (aad_for_headers protocol_version params.signing_key_id timestamp nonce params.scope) x)
          decrypt_failed)
        _ h₂ in
    let same_body : ct ≡ body = cc in
    record {
      enc_key_id = enc_key_id;
      aead = aead;
      named = ok_or-eq-ok _ _ f;
      has_key = ok_or-eq-ok _ _ g;
      sealed = ok_or-eq-ok _ _ i ∙ ap some same_body;
      headers = cc;
    }

pub respond_body_plain :
    (c : Crypto) (provider : KeyProvider) (params : ResponseParams)
    (plaintext_xml timestamp nonce iv body content_type : Bytes) (pushed : List Header)
    → tier_ge params.tier three ≡ false
    → respond_body c provider params plaintext_xml timestamp nonce iv
      ≡ ok (body, content_type, pushed)
    → (body ≡ plaintext_xml) × (pushed ≡ [])
unfolding respond_body
respond_body_plain c provider params x timestamp nonce iv body content_type pushed e h =
    let h₀ = rw (e, respond_body) at h in (cc, cc)
