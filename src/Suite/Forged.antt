-- ===== src/Suite/Forged.antt =====
-- A request of the tests that fails a test of Tier 1, for any cryptography.
use sesame_sdk.Prelude.{◌≡◌, ◌≢◌, refl, ap, sym, ◌∙◌, some, inl, inr}
use sesame_sdk.Prelude.Result.{err}
use sesame_sdk.Prelude.AssocMap.{get, insert}
use sesame_sdk.Text.{Bytes, bytes_eq}
use sesame_sdk.Message.{
  SesameHeaders, Tier1Fields, SesameError, Outcome, protocol_version, signature_mismatch,
}
use sesame_sdk.External.{Crypto, Clock, IsLawful, IsCalendar}
use sesame_sdk.Keys.{with_signing_key, with_aead_key, static_provider}
use sesame_sdk.Replay.{InMemoryReplayCache, in_memory}
use sesame_sdk.Tier.{Tier, default_config}
use sesame_sdk.Tier1.{sign}
use sesame_sdk.Tier1.Laws.{sign-to_lower}
use sesame_sdk.Verify.{VerifiedRequest}
use sesame_sdk.Verify.Spec.{Carries, signing_string}
use sesame_sdk.Verify.Refusal.{Unauthentic, forged, unauthentic, IsSigned, IsFresh}
use sesame_sdk.Verify.Refuse.{verify_request_err_iff}
use sesame_sdk.Load.Accepted.{Within-self}
use sesame_sdk.Suite.{checked}
use sesame_sdk.Suite.Data.{
  suite_ts, suite_client, suite_secret, suite_directory, suite_provider, suite_ctx, suite_cache,
}

module _ {c : Crypto} {k : Clock} (law : IsLawful c) (cal : IsCalendar k) (now : k.Time)
    (parsed : k.parse_rfc3339 suite_ts ≡ some now) where
  -- A request of the client's that fails a test of Tier 1 leaves the cache alone.
  pub fails :
      (headers : SesameHeaders) (body : Bytes) (at : k.Time) (tier : Tier) (t1 : Tier1Fields)
      (e : SesameError)
      → Carries headers t1
      → Unauthentic c k default_config suite_provider suite_ctx headers body at t1 e
      → (checked c k now (headers, body) at tier suite_cache).0 ≡ err e
  fails headers body at tier t1 e carried u =
      ap (λ (p : Outcome VerifiedRequest × InMemoryReplayCache). p.0)
        ((verify_request_err_iff law cal default_config suite_provider in_memory suite_ctx headers
            body at tier suite_cache e suite_cache).1
          (unauthentic t1 carried u refl))

  pub fresh : (t1 : Tier1Fields) → t1.timestamp ≡ suite_ts → IsFresh k default_config now t1
  fresh t1 e = (now, rw e parsed, Within-self (k.unix_timestamp now))

  -- The client's fields, with a signature over a text.
  abbrev pub fields_with : (nonce other : Bytes) → Tier1Fields
  fields_with nonce other = record {
    version = protocol_version;
    key_id = suite_client;
    timestamp = suite_ts;
    nonce = nonce;
    signature = sign c suite_secret other;
  }

  unsigned :
      (headers : SesameHeaders) (body nonce other : Bytes)
      → sign c suite_secret other
        ≢ sign c suite_secret (signing_string c suite_ctx headers body (fields_with nonce other))
      → ¬ IsSigned c suite_provider suite_ctx headers body (fields_with nonce other)
  unfolding suite_directory static_provider with_signing_key with_aead_key insert get bytes_eq
  unsigned headers body nonce other differ (key, inl e, signed) = differ (
      sym (sign-to_lower law suite_secret other)
      ∙ signed
      ∙ ap (λ x. sign c x (signing_string c suite_ctx headers body (fields_with nonce other))) e)
  unsigned headers body nonce other differ (key, inr e, signed) = elim e [ ]

  -- The client signed another text than the verifier reads.
  pub fails_signature :
      (headers : SesameHeaders) (body nonce other : Bytes) (tier : Tier)
      → Carries headers (fields_with nonce other)
      → sign c suite_secret other
        ≢ sign c suite_secret (signing_string c suite_ctx headers body (fields_with nonce other))
      → (checked c k now (headers, body) now tier suite_cache).0 ≡ err signature_mismatch
  unfolding suite_directory static_provider with_signing_key with_aead_key insert get bytes_eq
  fails_signature headers body nonce other tier carried differ =
      fails headers body now tier (fields_with nonce other) signature_mismatch carried (
        forged refl (fresh (fields_with nonce other) refl) refl (λ e. cc)
          (unsigned headers body nonce other differ))
