-- ===== src/Respond/Total.antt =====
-- When the signer returns a response, and that the peer accepts it.
use sesame_sdk.Prelude.{
  ◌^◌, ◌≤◌, length, refl, ◌≡◌, ◌⊎◌, inl, inr, false, some, List, Bool-cases, ◌∷◌, [], ◌++◌,
}
use sesame_sdk.Prelude.Result.{ok}
use sesame_sdk.Text.{Bytes, codes}
use sesame_sdk.Message.{protocol_version, h_encrypted, h_enc_key_id, h_iv, h_signature}
use sesame_sdk.Message.Hex.{hex_encode}
use sesame_sdk.Canonical.{body_hash_hex, response_canonical}
use sesame_sdk.Tier1.{sign}
use sesame_sdk.External.{Crypto, Clock, IsLawful, IsGcm, IsCalendar}
use sesame_sdk.Message.Hex.Laws.{IsBytes}
use sesame_sdk.Tier1.Freshness.{Within}
use sesame_sdk.Respond.Laws.{IsAnswer, sign_response-IsAnswer}
use sesame_sdk.Keys.{KeyProvider, primary_signing_key}
use sesame_sdk.Tier.{three, tier_ge, SesameConfig}
use sesame_sdk.Tier3.{seal, aad_for_headers}
use sesame_sdk.Respond.{
  ResponseParams, Header, SignedResponse, first_headers, respond_body, sign_response,
}

-- The encryption key is named and known, and the associated data and the text are within the limits of
-- the cipher.
pub record CanSeal (provider : KeyProvider) (params : ResponseParams)
    (plaintext_xml timestamp nonce : Bytes) : Type 0 where
  pub enc_key_id : Bytes
  pub aead : Bytes
  pub named : params.enc_key_id ≡ some enc_key_id
  pub has_key : provider.aead_key enc_key_id ≡ some aead
  pub length_key : length aead ≡ 32
  pub aad_small :
      length (aad_for_headers protocol_version params.signing_key_id timestamp nonce params.scope)
      ≤ 2 ^ 36
  pub text_small : length plaintext_xml ≤ 2 ^ 36

module _ {c : Crypto} (gcm : IsGcm c) (provider : KeyProvider) (params : ResponseParams)
    (plaintext_xml timestamp nonce iv : Bytes) where
  respond_body_total :
      length iv ≡ 12
      → (tier_ge params.tier three ≡ false) ⊎ CanSeal provider params plaintext_xml timestamp nonce
      → (b : Bytes × Bytes × List Header) × (respond_body c provider params plaintext_xml timestamp
            nonce iv
          ≡ ok b)
  unfolding respond_body seal
  respond_body_total len (inl e) = ((plaintext_xml, codes "application/xml", []), rw e)
  respond_body_total len (inr s) = elim (Bool-cases (tier_ge params.tier three)) [
    | inl e ↦ (
      (
        (let ct = gcm.ctr s.aead iv plaintext_xml in
            ct
            ++ gcm.tag s.aead iv
                (aad_for_headers protocol_version params.signing_key_id timestamp nonce
                  params.scope)
                ct),
        codes "application/octet-stream",
        (h_encrypted, codes "true") ∷ (h_enc_key_id, s.enc_key_id) ∷ (h_iv, hex_encode iv) ∷ [],
      ),
      rw (
        e,
        respond_body,
        s.named,
        s.has_key,
        gcm.encrypts s.aead iv _ plaintext_xml s.length_key len s.aad_small s.text_small,
      ),
    )
    | inr e ↦ ((plaintext_xml, codes "application/xml", []), rw e)
  ]

-- The signer returns a response, and the peer, whose clock is within the window of the signer's, finds
-- it signed by the node's primary key for the correlation, fresh, of the version, key-id and scope that
-- were given, and from Tier 3 on encrypted, with the plaintext. It is for an IV of 12 bytes, a key-id
-- that has a key, a time that can be written, AES-GCM as documented, and a tier below 3 or an encryption
-- key of 32 bytes that is named and known, with associated data and a text within the cipher's limits.
pub sign_response_total :
    {c : Crypto} {k : Clock} (law : IsLawful c) (gcm : IsGcm c) (cal : IsCalendar k)
    (cfg : SesameConfig) (provider : KeyProvider) (params : ResponseParams) (plaintext_xml : Bytes)
    (now peer_now : k.Time) (random_128 random_iv key : Bytes) (more : List Bytes)
    (timestamp : Bytes)
    → IsBytes random_iv
    → length random_iv ≡ 12
    → Within cfg.replay_window_secs (k.unix_timestamp peer_now) (k.unix_timestamp now)
    → provider.signing_keys params.signing_key_id ≡ key ∷ more
    → k.format_rfc3339 now ≡ some timestamp
    → (tier_ge params.tier three ≡ false)
      ⊎ CanSeal provider params plaintext_xml timestamp (hex_encode random_128)
    → (r : SignedResponse) × (sign_response c k cfg provider params plaintext_xml now random_128
          random_iv
        ≡ ok r)
      × IsAnswer c k cfg.replay_window_secs provider params plaintext_xml peer_now r
unfolding sign_response primary_signing_key
sign_response_total {c} {k} law gcm cal cfg provider params plaintext_xml now peer_now random_128
      random_iv key more timestamp bytes len near keys f h =
    let (b, e) =
      respond_body_total gcm provider params plaintext_xml timestamp (hex_encode random_128)
        random_iv len h in
    let r : SignedResponse = record {
      headers =
          first_headers params timestamp (hex_encode random_128)
          ++ b.2
          ++ (
            h_signature,
            sign c key (
                response_canonical params.correlation timestamp (hex_encode random_128)
                  (body_hash_hex c.sha256 b.0) params.scope),
          )
            ∷ [];
      body = b.0;
      content_type = b.1;
    } in
    let signed : sign_response c k cfg provider params plaintext_xml now random_128 random_iv
        ≡ ok r =
      rw (keys, f, e) refl in
    (
      r,
      signed,
      sign_response-IsAnswer law cal cfg provider params plaintext_xml now random_128 random_iv
          peer_now r bytes len near signed,
    )
