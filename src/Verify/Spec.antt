-- ===== src/Verify/Spec.antt =====
-- When a request is accepted, stated of the request and not of the stages of the code.
use sesame_sdk.Prelude.{◌≡◌, ◌≤◌, Bool, true, false, Option, none, some, In, map, length}
use sesame_sdk.Text.{Bytes, to_lower}
use sesame_sdk.Message.{SesameHeaders, Tier1Fields, protocol_version}
use sesame_sdk.Message.Hex.{hex_decode}
use sesame_sdk.Canonical.{body_hash_hex, request_canonical}
use sesame_sdk.External.{Crypto, Clock}
use sesame_sdk.Keys.{KeyProvider}
use sesame_sdk.Tier.{Tier, one, two, three, level, SesameConfig}
use sesame_sdk.Tier1.{sign}
use sesame_sdk.Tier1.Freshness.{Within}
use sesame_sdk.Tier2.Laws.{Declares, Targets}
use sesame_sdk.Tier3.{aad_for_headers}
use sesame_sdk.Verify.{VerifiedRequest, RequestContext}

-- The five headers of Tier 1 are there, with these values.
pub record Carries (headers : SesameHeaders) (t1 : Tier1Fields) : Type 0 where
  pub version : headers.version ≡ some t1.version
  pub key_id : headers.key_id ≡ some t1.key_id
  pub timestamp : headers.timestamp ≡ some t1.timestamp
  pub nonce : headers.nonce ≡ some t1.nonce
  pub signature : headers.signature ≡ some t1.signature

-- The string that the client signed.
abbrev pub signing_string :
    Crypto → RequestContext → SesameHeaders → (raw_body : Bytes) → Tier1Fields → Bytes
signing_string c ctx headers raw_body t1 =
    request_canonical ctx.method ctx.path t1.timestamp t1.nonce (body_hash_hex c.sha256 raw_body)
      headers.scope

module _ (c : Crypto) (k : Clock) where
  -- The request is of a holder of a key, is recent, and its key-id is not revoked.
  pub record IsAuthentic (cfg : SesameConfig) (provider : KeyProvider) (ctx : RequestContext)
      (headers : SesameHeaders) (raw_body : Bytes) (now : k.Time) (t1 : Tier1Fields) : Type 0 where
    pub carries : Carries headers t1
    pub speaks : t1.version ≡ protocol_version
    pub time : k.Time
    pub parsed : k.parse_rfc3339 t1.timestamp ≡ some time
    pub fresh : Within cfg.replay_window_secs (k.unix_timestamp now) (k.unix_timestamp time)
    pub not_revoked : provider.is_revoked t1.key_id ≡ false
    pub key : Bytes
    pub listed : In key (provider.signing_keys t1.key_id)
    pub signed : map to_lower t1.signature ≡ sign c key (signing_string c ctx headers raw_body t1)

-- The scope channel that the request is granted.
abbrev pub ScopeGranted :
    KeyProvider → RequestContext → (key_id : Bytes) → Option Bytes → Option Bytes → Type 0
ScopeGranted provider ctx key_id none none = Unit
ScopeGranted provider ctx key_id (some scope) (some channel) =
    Declares scope channel
    × Targets ctx.target_channel channel
    × (provider.is_authorized key_id channel ≡ true)
ScopeGranted provider ctx key_id _ _ = ⊥

-- The body decrypts to the plaintext under the named key and IV, with the headers as data.
pub record Decrypts (c : Crypto) (provider : KeyProvider) (headers : SesameHeaders)
    (t1 : Tier1Fields) (raw_body plaintext : Bytes) : Type 0 where
  pub enc_key_id : Bytes
  pub iv_hex : Bytes
  pub iv : Bytes
  pub aead : Bytes
  pub has_key_id : headers.enc_key_id ≡ some enc_key_id
  pub has_iv : headers.iv ≡ some iv_hex
  pub decoded : hex_decode iv_hex ≡ some iv
  pub iv_length : length iv ≡ 12
  pub has_key : provider.aead_key enc_key_id ≡ some aead
  pub opened :
      c.gcm_decrypt aead iv
        (aad_for_headers t1.version t1.key_id t1.timestamp t1.nonce headers.scope)
        raw_body
      ≡ some plaintext

-- The plaintext is the body, or what the body decrypts to.
abbrev pub PlaintextOf :
    Crypto → KeyProvider → SesameHeaders → Tier1Fields → Bytes → Bytes → Bool → Type 0
PlaintextOf c provider headers t1 raw_body plaintext false = plaintext ≡ raw_body
PlaintextOf c provider headers t1 raw_body plaintext true =
    Decrypts c provider headers t1 raw_body plaintext

-- The tier that the headers ask for.
abbrev pub tier_of : (encrypted : Bool) (scope : Option Bytes) → Tier
tier_of true scope = three
tier_of false (some scope) = two
tier_of false none = one

-- The demands of the channel's policy beyond the tier: a scope from Tier 2 on.
abbrev pub HasScope : Option Bytes → Tier → Type 0
HasScope none min_tier = level min_tier ≤ 1
HasScope (some scope) min_tier = Unit

module _ (c : Crypto) where
  pub record IsGranted (provider : KeyProvider) (ctx : RequestContext) (headers : SesameHeaders)
      (raw_body : Bytes) (min_tier : Tier) (t1 : Tier1Fields) (v : VerifiedRequest) : Type 0 where
    pub scope_granted : ScopeGranted provider ctx t1.key_id headers.scope v.scope_channel
    pub plaintext_of : PlaintextOf c provider headers t1 raw_body v.plaintext headers.encrypted
    pub key_id : v.key_id ≡ t1.key_id
    pub achieved : v.achieved_tier ≡ tier_of headers.encrypted headers.scope
    pub has_scope : HasScope headers.scope min_tier
    pub enough : level min_tier ≤ level v.achieved_tier
