-- ===== src/Go/Same/Responses.antt =====
-- The Go port and the crate sign a response alike, and give an error the same status.
use mathlib.Core.List.{append-nil}
use sesame_sdk.Prelude.{
  ◌≡◌, refl, ap, sym, ◌∙◌, Option, none, some, List, [], ◌∷◌, ◌++◌, inl, inr, length, eqb_iff,
  Bool-cases,
}
use sesame_sdk.Prelude.Int.{ℤ}
use sesame_sdk.Prelude.Result.{ok}
use sesame_sdk.Text.{Bytes, bytes_eq, codes}
use sesame_sdk.Message.{
  SesameError, code, http_status, missing_headers, invalid_version, unknown_key, expired_timestamp,
  replay_detected, signature_mismatch, scope_denied, decrypt_failed, key_revoked, protocol_version,
  h_version, h_key_id, h_timestamp, h_nonce,
}
use sesame_sdk.Message.Hex.{hex_encode}
use sesame_sdk.Canonical.{body_hash_hex}
use sesame_sdk.External.{Crypto, Clock}
use sesame_sdk.Keys.{KeyProvider, StaticKeyProvider, static_provider, primary_signing_key}
use sesame_sdk.Respond.{
  ResponseParams, Header, SignedResponse, first_headers, respond_body, sign_response,
}
use sesame_sdk.Tier.{SesameConfig, level, three, tier_ge}
use sesame_sdk.Tier1.{sign}
use sesame_sdk.Tier3.{iv_len, seal, aad_for_headers}
use sesame_sdk.Go.Message.{GoError, go_http_status}
use sesame_sdk.Go.Cache.{go_static_provider}
use sesame_sdk.Go.Codec.{go_body_hash_hex, go_sign, go_seal}
use sesame_sdk.Go.Respond.{GoParams, with_scope, go_response_body, go_sign_response}
use sesame_sdk.Go.Same.Strings.{go_response_canonical_lem, go_aad_for_headers_lem}
use sesame_sdk.Go.Same.Stores.{as_go_provider, go_static_provider_lem}
use sesame_sdk.Go.Same.Grants.{coded_as, bind_same, ok_or_same}

-- Each error has one status in both.
pub go_http_status_lem : (e : SesameError) → go_http_status (code e) ≡ http_status e
unfolding go_http_status code http_status bytes_eq
go_http_status_lem missing_headers = refl
go_http_status_lem invalid_version = refl
go_http_status_lem unknown_key = refl
go_http_status_lem expired_timestamp = refl
go_http_status_lem replay_detected = refl
go_http_status_lem signature_mismatch = refl
go_http_status_lem scope_denied = refl
go_http_status_lem decrypt_failed = refl
go_http_status_lem key_revoked = refl

abbrev pub as_go_params : ResponseParams → GoParams
as_go_params params = record {
  signing_key_id = params.signing_key_id;
  correlation = params.correlation;
  scope = params.scope;
  tier = level params.tier;
  enc_key_id = params.enc_key_id;
}

module _ (c : Crypto) (k : Clock) (format : ℤ → Bytes) (seal_error : GoError) (cfg : SesameConfig)
    (p : KeyProvider) (params : ResponseParams) (plaintext_xml : Bytes) (now : k.Time)
    (nonce_bytes iv : Bytes) (text : Bytes) (written : k.format_rfc3339 now ≡ some text)
    (alike : format (k.unix_timestamp now) ≡ text) (len : length iv ≡ 12)
    (seals : (aead aad : Bytes)
      → (ct : Bytes) × (c.gcm_encrypt aead iv aad plaintext_xml ≡ some ct)) where
  abbrev pushed_on : List Header → Bytes × Bytes × List Header → Bytes × Bytes × List Header
  pushed_on headers (body, content_type, more) = (body, content_type, headers ++ more)

  body_same :
      (headers : List Header)
      → go_response_body c format seal_error
          (as_go_provider p)
          (as_go_params params)
          plaintext_xml
          text
          (hex_encode nonce_bytes)
          iv
          headers
        ≡ coded_as
            (pushed_on headers)
            (respond_body c p params plaintext_xml text (hex_encode nonce_bytes) iv)
  unfolding go_response_body respond_body seal code go_seal
  body_same headers = elim (Bool-cases (tier_ge params.tier three)) [
    | inl e ↦ rw e (
        ok_or_same (pushed_on headers) params.enc_key_id decrypt_failed _ _ (λ enc_key_id.
          ok_or_same (pushed_on headers) (p.aead_key enc_key_id) decrypt_failed _ _ (λ aead.
            rw
              (
                (eqb_iff (length iv) iv_len).1 len,
                go_aad_for_headers_lem,
                (seals aead (
                    aad_for_headers protocol_version params.signing_key_id text
                      (hex_encode nonce_bytes) params.scope)).1,
              )
              refl)))
    | inr e ↦ rw e (
        ap (λ (h : List Header). ok (plaintext_xml, codes "application/xml", h))
          (sym (append-nil headers)))
  ]

  scope_same :
      (scope : Option Bytes)
      → with_scope
          ((h_version, protocol_version)
            ∷ (h_key_id, params.signing_key_id)
            ∷ (h_timestamp, text)
            ∷ (h_nonce, hex_encode nonce_bytes)
            ∷ [])
          scope
        ≡ first_headers (record params { scope = scope }) text (hex_encode nonce_bytes)
  scope_same none = refl
  scope_same (some scope) = refl

  -- The same response.
  sign_same :
      go_sign_response c format seal_error
        (as_go_provider p)
        (as_go_params params)
        plaintext_xml
        (k.unix_timestamp now)
        nonce_bytes
        iv
      ≡ coded_as
          (λ (r : SignedResponse). r)
          (sign_response c k cfg p params plaintext_xml now nonce_bytes iv)
  unfolding go_sign_response sign_response code go_sign sign go_body_hash_hex body_hash_hex
  sign_same =
      ok_or_same (λ r. r) (primary_signing_key p params.signing_key_id) unknown_key _ _
        (λ key.
          rw (written, alike, scope_same params.scope)
            (bind_same (λ r. r) (pushed_on (first_headers params text (hex_encode nonce_bytes)))
              (respond_body c p params plaintext_xml text (hex_encode nonce_bytes) iv) _ _ _
              (body_same (first_headers params text (hex_encode nonce_bytes)))
              (λ b. rw go_response_canonical_lem refl)))

-- The port signs a response as the crate does, with the same headers in the same order, the same body
-- and content type, or the same error: from directories with the same entries, the same random bytes
-- with an IV of 12, a time that both write alike, and a cipher that seals the text under every key.
pub go_sign_response_lem :
    (c : Crypto) (k : Clock) (format : ℤ → Bytes) (seal_error : GoError) (cfg : SesameConfig)
    (d : StaticKeyProvider) (params : ResponseParams) (plaintext_xml : Bytes) (now : k.Time)
    (nonce_bytes iv text : Bytes)
    → k.format_rfc3339 now ≡ some text
    → format (k.unix_timestamp now) ≡ text
    → length iv ≡ 12
    → ((aead aad : Bytes) → (ct : Bytes) × (c.gcm_encrypt aead iv aad plaintext_xml ≡ some ct))
    → go_sign_response c format seal_error
        (go_static_provider d)
        (as_go_params params)
        plaintext_xml
        (k.unix_timestamp now)
        nonce_bytes
        iv
      ≡ coded_as
          (λ (r : SignedResponse). r)
          (sign_response c k cfg (static_provider d) params plaintext_xml now nonce_bytes iv)
go_sign_response_lem c k format seal_error cfg d params plaintext_xml now nonce_bytes iv text
      written alike len seals =
    ap
      (λ provider.
        go_sign_response c format seal_error provider (as_go_params params) plaintext_xml
          (k.unix_timestamp now) nonce_bytes iv)
      (go_static_provider_lem d)
    ∙ sign_same c k format seal_error cfg (static_provider d) params plaintext_xml now nonce_bytes
        iv text written alike len seals
