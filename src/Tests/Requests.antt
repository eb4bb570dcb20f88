-- ===== src/Tests/Requests.antt =====
-- Whole requests against a directory of one client key and one AEAD key.
use sesame_sdk.Prelude.{ℕ, ◌≡◌, ◌%◌, ◌^◌, ◌≢◌, ◌⊎◌, refl, false, Option, none, some, [], ◌∷◌, arith}
use sesame_sdk.Prelude.Int.{◌+ℤ◌, add_i64, sub_i64, abs_i64, pos}
use sesame_sdk.Prelude.Result.{ok}
use sesame_sdk.Text.{
  Bytes, codes, bytes_eq, pair_eq, strip_prefix, trim, trim_start, trim_end, trim_by, strip_any,
}
use sesame_sdk.Message.{Tier1Fields, protocol_version, require_tier1, is_absent}
use sesame_sdk.Message.Hex.{hex_encode, hex_decode, decode_pairs, val}
use sesame_sdk.Canonical.{body_hash_hex, request_canonical}
use sesame_sdk.Keys.{
  KeyProvider, StaticKeyProvider, new, with_signing_key, with_aead_key, static_provider, list_scope,
  permits,
}
use sesame_sdk.Replay.{InMemoryReplayCache, in_memory, check_and_remember, prune, remember}
use sesame_sdk.Prelude.AssocMap.{get, insert, retain}
use sesame_sdk.Replay
use sesame_sdk.Tier.{two, default_config}
use sesame_sdk.Tier1.{sign, verify_any, try_keys, check_freshness}
use sesame_sdk.Tier2.{authorize, parse_scope_channel}
use sesame_sdk.Verify.{
  VerifiedRequest, RequestContext, verify_request, authenticate, check_tier1, tier2, tier3, grant,
  replay_then,
}
use sesame_sdk.Verify.Replays.{Request, handle, handle_cache, serve_requests}
use sesame_sdk.Verify.Replayed.{
  replayed_request_refused, stamped_before_refused, stamped_after_accepted_again,
}
use sesame_sdk.Verify.Accept.{PassesThrough, IsAdmitted, verify_request_iff}
use sesame_sdk.Verify.Spec.{IsAuthentic}
use sesame_sdk.Replay.Step.{IsWindow}
use sesame_sdk.Tests.Fixture.{toy, ticks, filled, checksum, toy-IsLawful, ticks-IsCalendar}

abbrev pub client : Bytes
client = codes "sas-east-01"

abbrev pub secret : Bytes
secret = codes "client-secret"

abbrev pub directory : StaticKeyProvider
directory =
    with_aead_key (with_signing_key new client secret (list_scope (codes "East" ∷ [])))
      (codes "enc-1") (codes "aead")

abbrev pub provider : KeyProvider
provider = static_provider directory

abbrev pub ctx : RequestContext
ctx = record { method = codes "POST"; path = codes "/esam?channel=East"; target_channel = none }

abbrev pub xml : Bytes
xml = codes "<x/>"

abbrev pub signature : (timestamp : ℕ) (scope : Option Bytes) → Bytes
signature timestamp scope = sign toy secret (
    request_canonical ctx.method ctx.path (timestamp ∷ []) (codes "n1")
      (body_hash_hex toy.sha256 xml) scope)

-- A request of Tier 2, stamped and received at the given seconds.
abbrev pub request : (timestamp now : ℕ) → Request ticks
request timestamp now = record {
  ctx = ctx;
  headers = record {
    version = some protocol_version;
    key_id = some client;
    timestamp = some (timestamp ∷ []);
    nonce = some (codes "n1");
    signature = some (signature timestamp (some (codes "channel=East")));
    scope = some (codes "channel=East");
    encrypted = false;
    enc_key_id = none;
    iv = none;
  };
  raw_body = xml;
  now = now;
  min_tier = two;
}

abbrev pub cache : InMemoryReplayCache
cache = Replay.new (pos 300)

abbrev pub verified : VerifiedRequest
verified = record {
  plaintext = xml;
  key_id = client;
  scope_channel = some (codes "East");
  achieved_tier = two;
}

abbrev pub after_first : (timestamp : ℕ) → InMemoryReplayCache
after_first timestamp =
    (handle toy ticks default_config provider in_memory (request timestamp 2000) cache).1

pub accepted_at_1990 :
    handle toy ticks default_config provider in_memory (request 1990 2000) cache
    ≡ (ok verified, after_first 1990)
unfolding filled checksum sign request_canonical body_hash_hex hex_encode hex_decode decode_pairs
    val verify_any try_keys check_freshness sub_i64 abs_i64 add_i64 authenticate check_tier1
    require_tier1 is_absent tier2 tier3 grant replay_then verify_request authorize
    parse_scope_channel strip_prefix trim trim_start trim_end trim_by strip_any permits
    static_provider with_signing_key with_aead_key get insert retain in_memory check_and_remember
    prune remember Replay.new bytes_eq pair_eq
accepted_at_1990 = refl

accepted_at_2000 :
    handle toy ticks default_config provider in_memory (request 2000 2000) cache
    ≡ (ok verified, after_first 2000)
unfolding filled checksum sign request_canonical body_hash_hex hex_encode hex_decode decode_pairs
    val verify_any try_keys check_freshness sub_i64 abs_i64 add_i64 authenticate check_tier1
    require_tier1 is_absent tier2 tier3 grant replay_then verify_request authorize
    parse_scope_channel strip_prefix trim trim_start trim_end trim_by strip_any permits
    static_provider with_signing_key with_aead_key get insert retain in_memory check_and_remember
    prune remember Replay.new bytes_eq pair_eq
accepted_at_2000 = refl

stamp_lem :
    (t u : ℕ) (text : Bytes) → some (t ∷ []) ≡ some text → ticks.parse_rfc3339 text ≡ some u → u ≡ t
stamp_lem t u [] e f = cc
stamp_lem t u (x ∷ []) e f = cc
stamp_lem t u (x ∷ y ∷ r) e f = cc

pub is_window : IsWindow (pos 300)
is_window = (omega arith, omega arith)

verify_request_iff_example :
    (PassesThrough (request 1990 2000).headers xml two verified × (after_first 1990 ≡ cache))
    ⊎ IsAdmitted toy ticks default_config provider in_memory ctx
        (request 1990 2000).headers
        xml
        2000
        two
        cache
        verified
        (after_first 1990)
verify_request_iff_example =
    (verify_request_iff toy-IsLawful ticks-IsCalendar default_config provider in_memory ctx
        (request 1990 2000).headers xml 2000 two cache verified (after_first 1990)).0
      accepted_at_1990

replayed_request_refused_example :
    handle toy ticks default_config provider in_memory (request 1990 2100) (
      serve_requests toy ticks default_config provider in_memory
        (request 1990 2050 ∷ [])
        (after_first 1990))
    ≢ (ok verified, after_first 1990)
unfolding Replay.new is_absent ◌+ℤ◌
replayed_request_refused_example =
    replayed_request_refused toy-IsLawful ticks-IsCalendar default_config provider
      (request 1990 2000) (request 1990 2100) (request 1990 2050 ∷ []) cache (after_first 1990)
      verified tt is_window refl accepted_at_1990 (omega arith, tt) refl refl refl (omega arith)
      verified (after_first 1990)

stamped_before_refused_example :
    handle toy ticks default_config provider in_memory (request 1990 2290) (
      serve_requests toy ticks default_config provider in_memory
        (request 1990 2050 ∷ [])
        (after_first 1990))
    ≢ (ok verified, after_first 1990)
unfolding Replay.new is_absent ◌+ℤ◌
stamped_before_refused_example =
    stamped_before_refused toy-IsLawful ticks-IsCalendar default_config provider (request 1990 2000)
      (request 1990 2290) (request 1990 2050 ∷ []) cache (after_first 1990) verified tt is_window
      refl refl accepted_at_1990 (λ ts text e f. rw (stamp_lem 1990 ts text e f) (omega arith))
      (omega arith, tt) refl refl refl refl verified (after_first 1990)

stamped_after_accepted_again_example :
    (s'' : InMemoryReplayCache) × (handle toy ticks default_config provider in_memory
        (request 2000 2300)
        (after_first 2000)
      ≡ (ok verified, s''))
unfolding Replay.new is_absent ◌+ℤ◌
stamped_after_accepted_again_example =
    stamped_after_accepted_again toy-IsLawful ticks-IsCalendar default_config provider
      (request 2000 2000) cache (after_first 2000) verified 2300 tt is_window refl (omega arith)
      refl accepted_at_2000 (omega arith)
      (λ ts text e f. rw (stamp_lem 2000 ts text e f) (omega arith))

handle_cache_example :
    ((handle toy ticks default_config provider in_memory (request 1990 2000) cache).1 ≡ cache)
    ⊎ ((t1 : Tier1Fields) × IsAuthentic toy ticks default_config provider ctx
          (request 1990 2000).headers
          xml
          2000
          t1
        × ((handle toy ticks default_config provider in_memory (request 1990 2000) cache).1
            ≡ (in_memory.check_and_remember cache t1.key_id t1.nonce (pos (2000 % 2 ^ 45))).1))
handle_cache_example =
    handle_cache toy-IsLawful ticks-IsCalendar default_config provider in_memory (request 1990 2000)
      cache
