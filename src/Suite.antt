-- ===== src/Suite.antt =====
-- src/lib.rs, the tests: the request that they make for a tier, and what each test gives to the
-- verifier, over any cryptography. `none` is the panic of an `unwrap`.
pub mod Data
pub mod Made
pub mod Accepted
pub mod Forged
pub mod Denied
pub mod Responses
pub mod Rejected
pub mod Fresh
use sesame_sdk.Prelude.{
  ℕ, Bool, true, false, Option, none, some, List, [], ◌∷◌, ◌++◌, if◌then◌else◌,
}
use sesame_sdk.Prelude.Int.{pos}
use sesame_sdk.Prelude.Result.{ok, err}
use sesame_sdk.Text.{Bytes, codes}
use sesame_sdk.Message.{Outcome, SesameHeaders, protocol_version}
use sesame_sdk.Message.Hex.{hex_encode, ◌>>=◌}
use sesame_sdk.Canonical.{body_hash_hex, request_canonical}
use sesame_sdk.External.{Crypto, Clock}
use sesame_sdk.Keys.{
  StaticKeyProvider, KeyProvider, new, with_signing_key, with_aead_key, static_provider, list_scope,
  all_scope, primary_signing_key,
}
use sesame_sdk.Replay.{InMemoryReplayCache, in_memory}
use sesame_sdk.Replay
use sesame_sdk.Tier.{Tier, one, two, three, tier_ge, default_config}
use sesame_sdk.Tier1.{sign}
use sesame_sdk.Tier3.{seal, aad_for_headers}
use sesame_sdk.Verify.{VerifiedRequest, RequestContext, verify_request}
use sesame_sdk.Suite.Data.{
  suite_xml, suite_ts, suite_nonce, suite_client, suite_enc_key_id, repeated, suite_provider,
  suite_path, suite_ctx, suite_cache, unwrap_or, key_id_of, iv_of, is_some, unwrap, no_headers,
  drop_last,
}

module _ (c : Crypto) where
  -- The body, and the key-id and IV of an encrypted one.
  unfoldable pub suite_body :
      Tier → (encrypt_with scope : Option Bytes) → Option (Bytes × Option (Bytes × Bytes))
  suite_body tier encrypt_with scope =
      if tier_ge tier three
      then (do
        let enc_key_id = unwrap_or encrypt_with suite_enc_key_id
        aead ← suite_provider.aead_key enc_key_id
        let iv = repeated 0 12
        let aad = aad_for_headers protocol_version suite_client suite_ts suite_nonce scope
        ct ← unwrap (seal c aead iv aad suite_xml)
        some (ct, some (enc_key_id, hex_encode iv)))
      else some (suite_xml, none)

  unfoldable pub make_request :
      Tier → (encrypt_with : Option Bytes) → Option (SesameHeaders × Bytes)
  make_request tier encrypt_with = do
    key ← primary_signing_key suite_provider suite_client
    let scope = if tier_ge tier two then some (codes "channel=SportsFeed-East") else none
    made ← suite_body tier encrypt_with scope
    let body_hash = body_hash_hex c.sha256 made.0
    let canonical = request_canonical (codes "POST") suite_path suite_ts suite_nonce body_hash scope
    let signature = sign c key canonical
    let headers : SesameHeaders = record {
      version = some protocol_version;
      key_id = some suite_client;
      timestamp = some suite_ts;
      nonce = some suite_nonce;
      signature = some signature;
      scope = scope;
      encrypted = is_some made.1;
      enc_key_id = key_id_of made.1;
      iv = iv_of made.1;
    }
    some (headers, made.0)

  module _ (k : Clock) (now : k.Time) where
    -- The call of `verify_request`.
    abbrev pub checked :
        SesameHeaders × Bytes
        → k.Time
        → Tier
        → InMemoryReplayCache
        → Outcome VerifiedRequest × InMemoryReplayCache
    checked m at min_tier cache =
        verify_request c k default_config suite_provider in_memory suite_ctx m.0 m.1 at min_tier
          cache

    -- `tier1_roundtrip`, `tier2_roundtrip` and `tier3_roundtrip_decrypts_to_original_xml`
    unfoldable pub roundtrip : Tier → Option (Outcome VerifiedRequest)
    roundtrip tier = do m ← make_request tier none; some (checked m now tier suite_cache).0

    unfoldable pub tier0_passthrough : Outcome VerifiedRequest
    tier0_passthrough = (checked (no_headers, suite_xml) now Tier.zero suite_cache).0

    unfoldable pub tier0_when_tier1_required : Outcome VerifiedRequest
    tier0_when_tier1_required = (checked (no_headers, suite_xml) now one suite_cache).0

    unfoldable pub tampered_body : Option (Outcome VerifiedRequest)
    tampered_body = do
      m ← make_request one none
      some (checked (m.0, m.1 ++ codes "<!-- injected -->") now one suite_cache).0

    unfoldable pub tampered_signed_header : Option (Outcome VerifiedRequest)
    tampered_signed_header = do
      m ← make_request one none
      let h = record m.0 { nonce = some (codes "ffffffffffffffffffffffffffffffff") }
      some (checked (h, m.1) now one suite_cache).0

    -- The answers to the request and to its replay.
    unfoldable pub replayed_nonce : Option (Outcome VerifiedRequest × Outcome VerifiedRequest)
    replayed_nonce = do
      m ← make_request one none
      let first = checked m now one suite_cache
      some (first.0, (checked m now one first.1).0)

    unfoldable pub stale_timestamp : (later : k.Time) → Option (Outcome VerifiedRequest)
    stale_timestamp later = do m ← make_request one none; some (checked m later one suite_cache).0

    unfoldable pub unknown_key_id : Option (Outcome VerifiedRequest)
    unknown_key_id = do
      m ← make_request one none
      some (checked (record m.0 { key_id = some (codes "ghost") }, m.1) now one suite_cache).0

    unfoldable pub truncated_gcm_tag : Option (Outcome VerifiedRequest)
    truncated_gcm_tag = do
      m ← make_request three none
      some (checked (m.0, drop_last m.1) now three suite_cache).0

    unfoldable pub wrong_version : Option (Outcome VerifiedRequest)
    wrong_version = do
      m ← make_request one none
      some (checked (record m.0 { version = some (codes "2.0") }, m.1) now one suite_cache).0

    -- The request for a channel that the key may not use.
    unfoldable pub unauthorized_channel : Option (Outcome VerifiedRequest)
    unauthorized_channel = do
      key ← primary_signing_key suite_provider suite_client
      let path = codes "/esam?channel=PremiumFeed"
      let scope = codes "channel=PremiumFeed"
      let body_hash = body_hash_hex c.sha256 suite_xml
      let canonical =
          request_canonical (codes "POST") path suite_ts suite_nonce body_hash (some scope)
      let h : SesameHeaders = record {
        version = some protocol_version;
        key_id = some suite_client;
        timestamp = some suite_ts;
        nonce = some suite_nonce;
        signature = some (sign c key canonical);
        scope = some scope;
        encrypted = false;
        enc_key_id = none;
        iv = none;
      }
      let ctx : RequestContext = record {
        method = codes "POST";
        path = path;
        target_channel = some (codes "PremiumFeed");
      }
      some
          (verify_request c k default_config suite_provider in_memory ctx h suite_xml now two
            suite_cache).0
