-- ===== src/Suite/Denied.antt =====
-- The test of a channel that the key may not use, for any cryptography.
use sesame_sdk.Prelude.{◌≡◌, refl, ap, Bool, true, none, some, inl}
use sesame_sdk.Prelude.Result.{err}
use sesame_sdk.Prelude.AssocMap.{get, insert}
use sesame_sdk.Text.{Bytes, codes, bytes_eq}
use sesame_sdk.Message.{SesameHeaders, Outcome, scope_denied}
use sesame_sdk.Canonical.{body_hash_hex, request_canonical}
use sesame_sdk.External.{Crypto, Clock, IsLawful, IsCalendar}
use sesame_sdk.Keys.{with_signing_key, with_aead_key, static_provider, permits}
use sesame_sdk.Replay.{InMemoryReplayCache, in_memory, check_and_remember}
use sesame_sdk.Tier.{two, default_config}
use sesame_sdk.Tier1.{sign}
use sesame_sdk.Tier1.Laws.{sign-to_lower}
use sesame_sdk.Verify.{VerifiedRequest, RequestContext, verify_request}
use sesame_sdk.Verify.Refusal.{PassesScope, ungranted, unscoped}
use sesame_sdk.Verify.Refuse.{verify_request_err_iff}
use sesame_sdk.Load.Accepted.{Within-self}
use sesame_sdk.Suite.Data.{
  suite_xml, suite_ts, suite_nonce, suite_client, suite_secret, suite_directory, suite_provider,
  suite_cache,
}
use sesame_sdk.Suite.Made.{headers_1}
use sesame_sdk.Suite.Accepted.{new_fresh}
use sesame_sdk.Suite.Forged.{fields_with}

module _ {c : Crypto} {k : Clock} (law : IsLawful c) (cal : IsCalendar k) (now : k.Time)
    (parsed : k.parse_rfc3339 suite_ts ≡ some now) where
  abbrev premium_ctx : RequestContext
  premium_ctx = record {
    method = codes "POST";
    path = codes "/esam?channel=PremiumFeed";
    target_channel = some (codes "PremiumFeed");
  }

  abbrev premium_text : Bytes
  premium_text =
      request_canonical (codes "POST") (codes "/esam?channel=PremiumFeed") suite_ts suite_nonce
        (body_hash_hex c.sha256 suite_xml) (some (codes "channel=PremiumFeed"))

  abbrev premium_headers : SesameHeaders
  premium_headers = record (headers_1 c) {
    signature = some (sign c suite_secret premium_text);
    scope = some (codes "channel=PremiumFeed");
  }

  premium_denied :
      ¬ PassesScope suite_provider premium_ctx premium_headers two
        (fields_with law cal now parsed suite_nonce premium_text)
  unfolding suite_directory static_provider with_signing_key with_aead_key insert get bytes_eq
      permits
  premium_denied (_, none, x) = elim x [ ]
  premium_denied (_, some channel, (_, target, allowed)) =
      let f : suite_provider.is_authorized suite_client (codes "PremiumFeed") ≡ true =
        rw target at allowed in
      cc f

  pub premium_refused :
      (verify_request c k default_config suite_provider in_memory premium_ctx premium_headers
        suite_xml now two suite_cache).0
      ≡ err scope_denied
  unfolding suite_directory static_provider with_signing_key with_aead_key insert get bytes_eq
      in_memory
  premium_refused =
      let n = k.unix_timestamp now in
      let s' = (check_and_remember suite_cache suite_client suite_nonce n).1 in
      ap (λ (p : Outcome VerifiedRequest × InMemoryReplayCache). p.0)
        ((verify_request_err_iff law cal default_config suite_provider in_memory premium_ctx
            premium_headers suite_xml now two suite_cache scope_denied s').1
          (ungranted (fields_with law cal now parsed suite_nonce premium_text)
            (record {
              carries = record {
                version = refl;
                key_id = refl;
                timestamp = refl;
                nonce = refl;
                signature = refl;
              };
              speaks = refl;
              time = now;
              parsed = parsed;
              fresh = Within-self n;
              not_revoked = refl;
              key = suite_secret;
              listed = inl refl;
              signed = sign-to_lower law suite_secret premium_text;
            })
            (ap (λ (b : Bool). (b, s')) (new_fresh law cal now parsed suite_client suite_nonce n))
            (unscoped premium_denied)))
