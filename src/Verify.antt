-- ===== src/Verify.antt =====
-- src/lib.rs: `verify_request`, in the stages of its body. The replay cache is a state that the call
-- takes and returns; no other part of the call writes to it.
pub mod Spec
pub mod Authentic
pub mod Stages
pub mod Accept
pub mod Replays
pub mod Replayed
pub mod Binding
pub mod Policy
pub mod Refusal
pub mod Refuse
pub mod Threads
use mathlib.Core.List.{head?}
use sesame_sdk.Prelude.{
  Bool, true, false, not, Option, none, some, List, [], ◌∷◌, if◌then◌else◌, ◌==◌, length, eqb,
}
use sesame_sdk.Prelude.Result.{Result, ok, err, ok_or, guard, ◌>>=◌, ◌>>◌}
use sesame_sdk.Text.{Bytes, bytes_Eq}
use sesame_sdk.Message.{
  Outcome, SesameHeaders, Tier1Fields, is_absent, require_tier1, protocol_version, missing_headers,
  invalid_version, key_revoked, unknown_key, replay_detected, scope_denied, decrypt_failed,
}
use sesame_sdk.Message.Hex.{hex_decode}
use sesame_sdk.Canonical.{body_hash_hex, request_canonical}
use sesame_sdk.External.{Crypto, Clock}
use sesame_sdk.Keys.{KeyProvider}
use sesame_sdk.Replay.{ReplayCache}
use sesame_sdk.Tier.{Tier, one, two, three, tier_eq, tier_lt, tier_ge, SesameConfig}
use sesame_sdk.Tier1.{verify_any, check_freshness}
use sesame_sdk.Tier2.{authorize}
use sesame_sdk.Tier3.{iv_len, unseal, aad_for_headers}

pub record VerifiedRequest : Type 0 where
  pub plaintext : Bytes
  pub key_id : Bytes
  pub scope_channel : Option Bytes
  pub achieved_tier : Tier

pub record RequestContext : Type 0 where
  pub method : Bytes
  pub path : Bytes
  pub target_channel : Option Bytes

abbrev pub is_empty : List Bytes → Bool
is_empty [] = true
is_empty (x ∷ xs) = false

-- The passthrough of Tier 0.
abbrev pub unauthenticated : Bytes → Tier → Outcome VerifiedRequest
unauthenticated raw_body min_tier =
    if tier_eq min_tier Tier.zero
    then ok (record {
      plaintext = raw_body;
      key_id = [];
      scope_channel = none;
      achieved_tier = Tier.zero;
    })
    else err missing_headers

-- Tier 2: the scope channel and the tier so far.
unfoldable pub tier2 :
    KeyProvider
    → RequestContext
    → (key_id : Bytes) (scope : Option Bytes) (min_tier : Tier) → Outcome (Option Bytes × Tier)
tier2 provider ctx key_id (some scope) min_tier = do
  channel ← authorize provider key_id scope ctx.target_channel
  ok (some channel, two)
tier2 provider ctx key_id none min_tier =
    if tier_ge min_tier two then err scope_denied else ok (none, one)

module _ (c : Crypto) where
  -- The body of `if headers.encrypted`.
  unfoldable pub decrypt_body :
      KeyProvider → Tier1Fields → SesameHeaders → (raw_body : Bytes) → Outcome Bytes
  decrypt_body provider t1 headers raw_body = do
    enc_key_id ← ok_or headers.enc_key_id decrypt_failed
    iv_hex ← ok_or headers.iv decrypt_failed
    iv ← ok_or (hex_decode iv_hex) decrypt_failed
    guard (eqb (length iv) iv_len) decrypt_failed
    aead ← ok_or (provider.aead_key enc_key_id) decrypt_failed
    let aad = aad_for_headers t1.version t1.key_id t1.timestamp t1.nonce headers.scope
    unseal c aead iv aad raw_body

  -- Tier 3: the plaintext and the tier achieved.
  unfoldable pub tier3 :
      KeyProvider
      → Tier1Fields
      → SesameHeaders
      → (raw_body : Bytes) (min_tier achieved : Tier) → Outcome (Bytes × Tier)
  tier3 provider t1 headers raw_body min_tier achieved =
      if headers.encrypted
      then (do pt ← decrypt_body provider t1 headers raw_body; ok (pt, three))
      else if tier_ge min_tier three
      then err decrypt_failed
      else ok (raw_body, achieved)

  -- All that follows the replay check.
  unfoldable pub grant :
      KeyProvider
      → RequestContext
      → SesameHeaders
      → (raw_body : Bytes) (min_tier : Tier) → Tier1Fields
      → Outcome VerifiedRequest
  grant provider ctx headers raw_body min_tier t1 = do
    (scope_channel, achieved) ← tier2 provider ctx t1.key_id headers.scope min_tier
    (plaintext, achieved) ← tier3 provider t1 headers raw_body min_tier achieved
    guard (not (tier_lt achieved min_tier)) missing_headers
    ok (record {
      plaintext = plaintext;
      key_id = t1.key_id;
      scope_channel = scope_channel;
      achieved_tier = achieved;
    })

module _ (c : Crypto) (k : Clock) where
  -- The tests of Tier 1 on headers that are there, up to the valid signature.
  unfoldable pub check_tier1 :
      SesameConfig
      → KeyProvider
      → RequestContext
      → (scope : Option Bytes) (raw_body : Bytes) → k.Time
      → Tier1Fields
      → Outcome Tier1Fields
  check_tier1 cfg provider ctx scope raw_body now t1 = do
    guard (t1.version == protocol_version) invalid_version
    check_freshness k t1.timestamp now cfg.replay_window_secs
    guard (not (provider.is_revoked t1.key_id)) key_revoked
    let signing_keys = provider.signing_keys t1.key_id
    guard (not (is_empty signing_keys)) unknown_key
    let body_hash = body_hash_hex c.sha256 raw_body
    let canonical = request_canonical ctx.method ctx.path t1.timestamp t1.nonce body_hash scope
    verify_any c signing_keys canonical t1.signature
    ok t1

  -- Tier 1.
  unfoldable pub authenticate :
      SesameConfig
      → KeyProvider
      → RequestContext
      → SesameHeaders
      → (raw_body : Bytes) → k.Time
      → Outcome Tier1Fields
  authenticate cfg provider ctx headers raw_body now = do
    t1 ← require_tier1 headers
    check_tier1 cfg provider ctx headers.scope raw_body now t1

  -- The replay check, and what follows it.
  unfoldable pub replay_then :
      {S : Type 0} → Bool × S → Outcome VerifiedRequest → Outcome VerifiedRequest × S
  replay_then (fresh, s) granted = (if fresh then granted else err replay_detected, s)

  unfoldable pub verify_request :
      {S : Type 0}
      → SesameConfig
      → KeyProvider
      → ReplayCache S
      → RequestContext
      → SesameHeaders
      → (raw_body : Bytes) → (now : k.Time) → (min_tier : Tier) → S
      → Outcome VerifiedRequest × S
  verify_request cfg provider replay ctx headers raw_body now min_tier s =
      if is_absent headers
      then (unauthenticated raw_body min_tier, s)
      else elim (authenticate cfg provider ctx headers raw_body now) [
        | err e ↦ (err e, s)
        | ok t1 ↦
            replay_then (replay.check_and_remember s t1.key_id t1.nonce (k.unix_timestamp now))
              (grant c provider ctx headers raw_body min_tier t1)
      ]
