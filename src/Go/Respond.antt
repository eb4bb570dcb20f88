-- ===== src/Go/Respond.antt =====
-- go/protocol.go: `SignResponse`. What `crypto/rand` fills, and the text of the time, are arguments.
use sesame_sdk.Prelude.{ℕ, Option, none, some, List, [], ◌∷◌, ◌++◌, if◌then◌else◌, leb}
use sesame_sdk.Prelude.Int.{ℤ}
use sesame_sdk.Prelude.Result.{ok, ok_or, ◌>>=◌}
use sesame_sdk.Text.{Bytes, codes}
use sesame_sdk.Message.{
  h_version, h_key_id, h_timestamp, h_nonce, h_signature, h_scope, h_encrypted, h_enc_key_id, h_iv,
  protocol_version,
}
use sesame_sdk.Message.Hex.{hex_encode}
use sesame_sdk.External.{Crypto}
use sesame_sdk.Respond.{SignedResponse}
use sesame_sdk.Go.Message.{GoError, err_unknown_key, err_decrypt_failed}
use sesame_sdk.Go.Cache.{GoKeyProvider}
use sesame_sdk.Go.Codec.{
  go_body_hash_hex, go_sign, go_response_canonical, go_aad_for_headers, go_seal,
}
use sesame_sdk.Go.Verify.{GoResult}

-- `ResponseParams`
pub record GoParams : Type 0 where
  pub signing_key_id : Bytes
  pub correlation : Bytes
  pub scope : Option Bytes
  pub tier : ℕ
  pub enc_key_id : Option Bytes

abbrev pub with_scope : List (Bytes × Bytes) → Option Bytes → List (Bytes × Bytes)
with_scope headers none = headers
with_scope headers (some scope) = headers ++ (h_scope, scope) ∷ []

module _ (c : Crypto) (format : ℤ → Bytes) (seal_error : GoError) where
  -- The branch on the tier: the body, its content type and the headers so far. `seal_error` is the
  -- error of the cipher, which is returned as it is.
  unfoldable pub go_response_body :
      GoKeyProvider
      → GoParams
      → (plaintext_xml timestamp nonce iv : Bytes) (headers : List (Bytes × Bytes))
      → GoResult (Bytes × Bytes × List (Bytes × Bytes))
  go_response_body provider params plaintext_xml timestamp nonce iv headers =
      if leb 3 params.tier
      then (do
        enc_key_id ← ok_or params.enc_key_id err_decrypt_failed
        aead ← ok_or (provider.aead_key enc_key_id) err_decrypt_failed
        let aad =
            go_aad_for_headers protocol_version params.signing_key_id timestamp nonce params.scope
        sealed ← ok_or (go_seal c aead iv aad plaintext_xml) seal_error
        ok (
          sealed,
          codes "application/octet-stream",
          headers
              ++ (h_encrypted, codes "true")
                ∷ (h_enc_key_id, enc_key_id)
                ∷ (h_iv, hex_encode iv)
                ∷ [],
        ))
      else ok (plaintext_xml, codes "application/xml", headers)

  unfoldable pub go_sign_response :
      GoKeyProvider
      → GoParams
      → (plaintext_xml : Bytes) (now_unix : ℤ) (nonce_bytes iv : Bytes) → GoResult SignedResponse
  go_sign_response provider params plaintext_xml now_unix nonce_bytes iv = do
    signing_key ← ok_or (provider.primary_signing_key params.signing_key_id) err_unknown_key
    let timestamp = format now_unix
    let nonce = hex_encode nonce_bytes
    let headers =
        with_scope
          ((h_version, protocol_version)
            ∷ (h_key_id, params.signing_key_id)
            ∷ (h_timestamp, timestamp)
            ∷ (h_nonce, nonce)
            ∷ [])
          params.scope
    (body, content_type, headers) ←
        go_response_body provider params plaintext_xml timestamp nonce iv headers
    let body_hash = go_body_hash_hex c body
    let canon = go_response_canonical params.correlation timestamp nonce body_hash params.scope
    ok (record {
      headers = headers ++ (h_signature, go_sign c signing_key canon) ∷ [];
      body = body;
      content_type = content_type;
    })
