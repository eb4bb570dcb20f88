-- ===== src/Verify/Refusal.antt =====
-- When a request is refused, and with which error: the tests in their order, each with the earlier
-- ones passed.
use sesame_sdk.Prelude.{◌≡◌, ◌≢◌, ◌⊎◌, true, false, Option, none, some, [], In, map}
use sesame_sdk.Text.{Bytes, to_lower}
use sesame_sdk.Message.{
  SesameHeaders, SesameError, Tier1Fields, is_absent, protocol_version, missing_headers,
  invalid_version, unknown_key, expired_timestamp, replay_detected, signature_mismatch,
  scope_denied, decrypt_failed, key_revoked,
}
use sesame_sdk.External.{Crypto, Clock}
use sesame_sdk.Keys.{KeyProvider}
use sesame_sdk.Replay.{ReplayCache}
use sesame_sdk.Tier.{Tier, level, SesameConfig}
use sesame_sdk.Tier1.{sign}
use sesame_sdk.Tier1.Freshness.{Within}
use sesame_sdk.Verify.{RequestContext}
use sesame_sdk.Verify.Spec.{Carries, signing_string, IsAuthentic, ScopeGranted, Decrypts, HasScope}

-- One of the five headers of Tier 1 is missing.
abbrev pub Lacks : SesameHeaders → Type 0
Lacks h =
    (h.version ≡ none)
    ⊎ (h.key_id ≡ none)
    ⊎ (h.timestamp ≡ none)
    ⊎ (h.nonce ≡ none)
    ⊎ (h.signature ≡ none)

-- The timestamp is a time within the window.
abbrev pub IsFresh : (k : Clock) → SesameConfig → (now : k.Time) → Tier1Fields → Type 0
IsFresh k cfg now t1 =
    (time : k.Time) × (k.parse_rfc3339 t1.timestamp ≡ some time)
    × Within cfg.replay_window_secs (k.unix_timestamp now) (k.unix_timestamp time)

-- One of the key-id's keys makes the signature.
abbrev pub IsSigned :
    Crypto
    → KeyProvider
    → RequestContext
    → SesameHeaders
    → (raw_body : Bytes) → Tier1Fields
    → Type 0
IsSigned c provider ctx headers raw_body t1 =
    (key : Bytes) × In key (provider.signing_keys t1.key_id)
    × (map to_lower t1.signature ≡ sign c key (signing_string c ctx headers raw_body t1))

pub data Unauthentic (c : Crypto) (k : Clock) (cfg : SesameConfig) (provider : KeyProvider)
    (ctx : RequestContext) (headers : SesameHeaders) (raw_body : Bytes) (now : k.Time)
    (t1 : Tier1Fields) : SesameError → Type 0 where
  other_version :
      t1.version ≢ protocol_version
      → Unauthentic c k cfg provider ctx headers raw_body now t1 invalid_version
  stale :
      t1.version ≡ protocol_version
      → ¬ IsFresh k cfg now t1
      → Unauthentic c k cfg provider ctx headers raw_body now t1 expired_timestamp
  revoked :
      t1.version ≡ protocol_version
      → IsFresh k cfg now t1
      → provider.is_revoked t1.key_id ≡ true
      → Unauthentic c k cfg provider ctx headers raw_body now t1 key_revoked
  unknown :
      t1.version ≡ protocol_version
      → IsFresh k cfg now t1
      → provider.is_revoked t1.key_id ≡ false
      → provider.signing_keys t1.key_id ≡ []
      → Unauthentic c k cfg provider ctx headers raw_body now t1 unknown_key
  forged :
      t1.version ≡ protocol_version
      → IsFresh k cfg now t1
      → provider.is_revoked t1.key_id ≡ false
      → provider.signing_keys t1.key_id ≢ []
      → ¬ IsSigned c provider ctx headers raw_body t1
      → Unauthentic c k cfg provider ctx headers raw_body now t1 signature_mismatch

-- Tier 2 lets the request pass.
abbrev pub PassesScope :
    KeyProvider → RequestContext → SesameHeaders → (min_tier : Tier) → Tier1Fields → Type 0
PassesScope provider ctx headers min_tier t1 =
    HasScope headers.scope min_tier
    × (channel : Option Bytes) × ScopeGranted provider ctx t1.key_id headers.scope channel

pub data Ungranted (c : Crypto) (provider : KeyProvider) (ctx : RequestContext)
    (headers : SesameHeaders) (raw_body : Bytes) (min_tier : Tier) (t1 : Tier1Fields)
    : SesameError → Type 0 where
  unscoped :
      ¬ PassesScope provider ctx headers min_tier t1
      → Ungranted c provider ctx headers raw_body min_tier t1 scope_denied
  undecryptable :
      PassesScope provider ctx headers min_tier t1
      → headers.encrypted ≡ true
      → ((plaintext : Bytes) → ¬ Decrypts c provider headers t1 raw_body plaintext)
      → Ungranted c provider ctx headers raw_body min_tier t1 decrypt_failed
  unencrypted :
      PassesScope provider ctx headers min_tier t1
      → headers.encrypted ≡ false
      → level min_tier ≡ 3
      → Ungranted c provider ctx headers raw_body min_tier t1 decrypt_failed

-- A request is refused with an error, and leaves a state of the cache.
pub data Refused (c : Crypto) (k : Clock) {S : Type 0} (cfg : SesameConfig) (provider : KeyProvider)
    (replay : ReplayCache S) (ctx : RequestContext) (headers : SesameHeaders) (raw_body : Bytes)
    (now : k.Time) (min_tier : Tier) (s : S) (e : SesameError) (s' : S) : Type 0 where
  absent :
      is_absent headers ≡ true
      → min_tier ≢ Tier.zero
      → e ≡ missing_headers
      → s' ≡ s
      → Refused c k cfg provider replay ctx headers raw_body now min_tier s e s'
  incomplete :
      is_absent headers ≡ false
      → Lacks headers
      → e ≡ missing_headers
      → s' ≡ s
      → Refused c k cfg provider replay ctx headers raw_body now min_tier s e s'
  unauthentic :
      (t1 : Tier1Fields)
      → Carries headers t1
      → Unauthentic c k cfg provider ctx headers raw_body now t1 e
      → s' ≡ s
      → Refused c k cfg provider replay ctx headers raw_body now min_tier s e s'
  replayed :
      (t1 : Tier1Fields)
      → IsAuthentic c k cfg provider ctx headers raw_body now t1
      → replay.check_and_remember s t1.key_id t1.nonce (k.unix_timestamp now) ≡ (false, s')
      → e ≡ replay_detected
      → Refused c k cfg provider replay ctx headers raw_body now min_tier s e s'
  ungranted :
      (t1 : Tier1Fields)
      → IsAuthentic c k cfg provider ctx headers raw_body now t1
      → replay.check_and_remember s t1.key_id t1.nonce (k.unix_timestamp now) ≡ (true, s')
      → Ungranted c provider ctx headers raw_body min_tier t1 e
      → Refused c k cfg provider replay ctx headers raw_body now min_tier s e s'
