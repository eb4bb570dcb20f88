-- ===== src/Tests/Policies.antt =====
-- Requests under other policies, directories and headers.
use sesame_sdk.Prelude.{◌++◌, ◌≡◌, ◌≢◌, refl, true, false, some, [], ◌∷◌, arith}
use sesame_sdk.Prelude.Int.{add_i64, sub_i64, abs_i64}
use sesame_sdk.Prelude.Result.{ok}
use sesame_sdk.Text.{
  Bytes, codes, bytes_eq, pair_eq, strip_prefix, trim, trim_start, trim_end, trim_by, strip_any,
}
use sesame_sdk.Message.{SesameHeaders, protocol_version, require_tier1, is_absent}
use sesame_sdk.Message.Hex.{hex_encode, hex_decode, decode_pairs, val}
use sesame_sdk.Canonical.{body_hash_hex, request_canonical}
use sesame_sdk.Keys.{with_signing_key, with_aead_key, static_provider, permits, revoke}
use sesame_sdk.Replay.{InMemoryReplayCache, in_memory, check_and_remember, prune, remember}
use sesame_sdk.Prelude.AssocMap.{get, insert, retain}
use sesame_sdk.Replay
use sesame_sdk.Tier.{one, two, three, default_config}
use sesame_sdk.Tier1.{sign, verify_any, try_keys, check_freshness}
use sesame_sdk.Tier2.{authorize, parse_scope_channel}
use sesame_sdk.Verify.{
  VerifiedRequest, verify_request, authenticate, check_tier1, tier2, tier3, grant, replay_then,
  decrypt_body,
}
use sesame_sdk.Tier3.{aad_for_headers, unseal}
use sesame_sdk.Verify.Policy.{lower_tier_accepts, revoked_refused, encrypted_mark_stripped}
use sesame_sdk.Tests.Fixture.{toy, ticks, filled, checksum, toy-IsLawful, ticks-IsCalendar}
use sesame_sdk.Tests.Requests.{
  client, secret, directory, provider, ctx, xml, request, cache, verified, after_first,
  accepted_at_1990,
}

lower_tier_accepts_example :
    verify_request toy ticks default_config provider in_memory ctx
      (request 1990 2000).headers
      xml
      2000
      one
      cache
    ≡ (ok verified, after_first 1990)
unfolding is_absent
lower_tier_accepts_example =
    lower_tier_accepts toy-IsLawful ticks-IsCalendar default_config in_memory ctx
      (request 1990 2000).headers xml 2000 cache (after_first 1990) provider verified two one
      (omega arith) refl accepted_at_1990

revoked_refused_example :
    verify_request toy ticks default_config
      (static_provider (revoke directory client))
      in_memory
      ctx
      (request 1990 2000).headers
      xml
      2000
      two
      cache
    ≢ (ok verified, cache)
unfolding get insert with_signing_key with_aead_key bytes_eq
revoked_refused_example =
    revoked_refused toy-IsLawful ticks-IsCalendar default_config in_memory ctx
      (request 1990 2000).headers xml 2000 cache cache directory client two refl refl verified

-- The body under the toy cipher, and its request of Tier 3.
abbrev sealed_body : Bytes
sealed_body =
    checksum (
      codes "aead"
      ++ filled 12 5
      ++ aad_for_headers protocol_version client (1990 ∷ []) (codes "n1")
          (some (codes "channel=East")))
    ∷ xml

abbrev sealed_headers : SesameHeaders
sealed_headers = record {
  version = some protocol_version;
  key_id = some client;
  timestamp = some (1990 ∷ []);
  nonce = some (codes "n1");
  signature = some (
      sign toy secret (
        request_canonical ctx.method ctx.path (1990 ∷ []) (codes "n1")
          (body_hash_hex toy.sha256 sealed_body) (some (codes "channel=East"))));
  scope = some (codes "channel=East");
  encrypted = true;
  enc_key_id = some (codes "enc-1");
  iv = some (codes "050505050505050505050505");
}

abbrev decrypted : VerifiedRequest
decrypted = record verified { achieved_tier = three }

abbrev after_sealed : InMemoryReplayCache
after_sealed =
    (verify_request toy ticks default_config provider in_memory ctx sealed_headers sealed_body 2000
      two cache).1

sealed_accepted :
    verify_request toy ticks default_config provider in_memory ctx sealed_headers sealed_body 2000
      two cache
    ≡ (ok decrypted, after_sealed)
unfolding filled checksum sign request_canonical body_hash_hex hex_encode hex_decode decode_pairs
    val verify_any try_keys check_freshness sub_i64 abs_i64 add_i64 authenticate check_tier1
    require_tier1 is_absent tier2 tier3 grant replay_then verify_request authorize
    parse_scope_channel strip_prefix trim trim_start trim_end trim_by strip_any permits
    static_provider with_signing_key with_aead_key get insert retain in_memory check_and_remember
    prune remember Replay.new bytes_eq pair_eq decrypt_body unseal aad_for_headers
sealed_accepted = refl

encrypted_mark_stripped_example :
    verify_request toy ticks default_config provider in_memory ctx
      (record sealed_headers { encrypted = false })
      sealed_body
      2000
      two
      cache
    ≡ (ok (record decrypted { plaintext = sealed_body; achieved_tier = two }), after_sealed)
unfolding is_absent
encrypted_mark_stripped_example =
    encrypted_mark_stripped toy-IsLawful ticks-IsCalendar default_config in_memory ctx
      sealed_headers sealed_body 2000 cache after_sealed provider decrypted two refl refl
      (omega arith) sealed_accepted
