-- ===== src/Suite/Fresh.antt =====
-- src/lib.rs, the tests that a Tier 3 response has an IV of its own. What `random_iv` draws is an
-- argument.
use sesame_sdk.Prelude.{◌≡◌, ◌≢◌, refl, sym, ap, ◌∙◌, Option, none, some, arith}
use sesame_sdk.Prelude.AssocMap.{get, insert}
use sesame_sdk.Text.{Bytes, bytes_Eq, codes, bytes_eq}
use sesame_sdk.Message.{h_iv, protocol_version}
use sesame_sdk.Message.Hex.{hex_encode, hex_decode, ◌>>=◌}
use sesame_sdk.Message.Hex.Laws.{IsBytes, hex_decode-hex_encode}
use sesame_sdk.External.{Crypto, Clock}
use sesame_sdk.Keys.{with_signing_key, with_aead_key, static_provider, primary_signing_key}
use sesame_sdk.Respond.{ResponseParams, sign_response, respond_body}
use sesame_sdk.Tier.{three, default_config}
use sesame_sdk.Tier3.{seal, aad_for_headers}
use sesame_sdk.Suite.{make_request}
use sesame_sdk.Suite.Data.{suite_provider, suite_directory, suite_xml, suite_enc_key_id, repeated}
use sesame_sdk.Suite.Made.{east_scope, suite_iv, Seals, made_3}
use sesame_sdk.Suite.Responses.{pois, unwrap}

-- The parameters of the two tests, for a correlation.
abbrev pub params_3 : (correlation : Bytes) → ResponseParams
params_3 correlation = record {
  signing_key_id = pois;
  correlation = correlation;
  scope = east_scope;
  tier = three;
  enc_key_id = some suite_enc_key_id;
}

module _ (c : Crypto) (k : Clock) (now : k.Time) where
  -- The IV header and the content type of a response.
  unfoldable pub response_iv : (correlation random_128 random_iv : Bytes) → Option (Bytes × Bytes)
  response_iv correlation random_128 random_iv = do
    resp ← unwrap (
        sign_response c k default_config suite_provider (params_3 correlation) suite_xml now
          random_128 random_iv)
    iv ← get resp.headers h_iv
    some (iv, resp.content_type)

  -- The two IVs that `response_iv_differs_from_request_iv` compares.
  unfoldable pub request_and_response_iv : (random_128 random_iv : Bytes) → Option (Bytes × Bytes)
  request_and_response_iv random_128 random_iv = do
    m ← make_request c three none
    req_iv ← m.0.iv
    resp ← response_iv (codes "sig-001") random_128 random_iv
    some (req_iv, resp.0)

  -- The two IVs that `tier3_response_uses_fresh_iv` compares, and the content type of the first
  -- response. The responses draw their own nonces and IVs.
  unfoldable pub two_response_ivs :
      (first_128 first_iv second_128 second_iv : Bytes) → Option (Bytes × Bytes × Bytes)
  two_response_ivs first_128 first_iv second_128 second_iv = do
    r1 ← response_iv (codes "sig-1") first_128 first_iv
    r2 ← response_iv (codes "sig-1") second_128 second_iv
    some (r1.0, r2.0, r1.1)

-- The cipher seals the response with these random bytes.
abbrev SealsResponse : Crypto → (text random_128 random_iv ct : Bytes) → Type 0
SealsResponse c text random_128 random_iv ct =
    c.gcm_encrypt (repeated 0x42 32) random_iv
      (aad_for_headers protocol_version pois text (hex_encode random_128) east_scope) suite_xml
    ≡ some ct

hex_encode_differs : (a b : Bytes) → IsBytes a → IsBytes b → a ≢ b → hex_encode a ≢ hex_encode b
hex_encode_differs a b ha hb differ e =
    let same : some a ≡ some b =
      sym (hex_decode-hex_encode a ha) ∙ ap hex_decode e ∙ hex_decode-hex_encode b hb in
    differ (cc)

module _ (c : Crypto) (k : Clock) (now : k.Time) (text : Bytes)
    (written : k.format_rfc3339 now ≡ some text) where
  response_iv_lem :
      (correlation random_128 random_iv ct : Bytes)
      → SealsResponse c text random_128 random_iv ct
      → response_iv c k now correlation random_128 random_iv
        ≡ some (hex_encode random_iv, codes "application/octet-stream")
  unfolding response_iv sign_response respond_body seal get suite_directory static_provider
      with_signing_key with_aead_key insert bytes_eq primary_signing_key
  response_iv_lem correlation random_128 random_iv ct sealed = rw (written, sealed) refl

  -- Each response carries the IV that it drew: other than the request's, and two responses' differ,
  -- where the drawn IVs do. It is for a cipher that seals the texts.
  pub fresh_iv_lem :
      (first_128 first_iv second_128 second_iv ct first second : Bytes)
      → Seals c ct
      → SealsResponse c text first_128 first_iv first
      → SealsResponse c text second_128 second_iv second
      → IsBytes first_iv
      → IsBytes second_iv
      → first_iv ≢ suite_iv c
      → first_iv ≢ second_iv
      → (iv1 iv2 : Bytes) × (request_and_response_iv c k now first_128 first_iv
          ≡ some (hex_encode (suite_iv c), iv1))
        × (two_response_ivs c k now first_128 first_iv second_128 second_iv
            ≡ some (iv1, iv2, codes "application/octet-stream"))
        × (hex_encode (suite_iv c) ≢ iv1)
        × (iv1 ≢ iv2)
  unfolding request_and_response_iv two_response_ivs
  fresh_iv_lem first_128 first_iv second_128 second_iv ct first second made one two bytes_1 bytes_2
        other_1 other_2 =
      (
        hex_encode first_iv,
        hex_encode second_iv,
        rw (made_3 c ct made, response_iv_lem (codes "sig-001") first_128 first_iv first one) refl,
        rw
            (
              response_iv_lem (codes "sig-1") first_128 first_iv first one,
              response_iv_lem (codes "sig-1") second_128 second_iv second two,
            )
            refl,
        λ e. hex_encode_differs first_iv (suite_iv c) bytes_1 (omega arith) other_1 (sym e),
        hex_encode_differs first_iv second_iv bytes_1 bytes_2 other_2,
      )
