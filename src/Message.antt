-- ===== src/Message.antt =====
-- src/message.rs: header names, the error taxonomy and the parsed header view.
pub mod Hex
use sesame_sdk.Prelude.{ℕ, Bool, true, false, ◌&&◌, Option, none, some}
use sesame_sdk.Prelude.Result.{Result, ok, err}
use sesame_sdk.Text.{Bytes, codes, eq_ignore_ascii_case}

abbrev pub h_version : Bytes
h_version = codes "X-SESAME-Version"

abbrev pub h_key_id : Bytes
h_key_id = codes "X-SESAME-KeyId"

abbrev pub h_timestamp : Bytes
h_timestamp = codes "X-SESAME-Timestamp"

abbrev pub h_nonce : Bytes
h_nonce = codes "X-SESAME-Nonce"

abbrev pub h_signature : Bytes
h_signature = codes "X-SESAME-Signature"

abbrev pub h_scope : Bytes
h_scope = codes "X-SESAME-Scope"

abbrev pub h_encrypted : Bytes
h_encrypted = codes "X-SESAME-Encrypted"

abbrev pub h_enc_key_id : Bytes
h_enc_key_id = codes "X-SESAME-EncKeyId"

abbrev pub h_iv : Bytes
h_iv = codes "X-SESAME-IV"

abbrev pub protocol_version : Bytes
protocol_version = codes "1.0"

pub data SesameError : Type 0 where
  missing_headers invalid_version unknown_key expired_timestamp replay_detected : SesameError
  signature_mismatch scope_denied decrypt_failed key_revoked : SesameError

-- `Result<A, SesameError>`
abbrev pub Outcome : Type 0 → Type 0
Outcome A = Result SesameError A

-- `SesameError::code`, which `Display` prints.
unfoldable pub code : SesameError → Bytes
code missing_headers = codes "sesame_missing_headers"
code invalid_version = codes "sesame_invalid_version"
code unknown_key = codes "sesame_unknown_key"
code expired_timestamp = codes "sesame_expired_timestamp"
code replay_detected = codes "sesame_replay_detected"
code signature_mismatch = codes "sesame_signature_mismatch"
code scope_denied = codes "sesame_scope_denied"
code decrypt_failed = codes "sesame_decrypt_failed"
code key_revoked = codes "sesame_key_revoked"

-- `SesameError::http_status`
unfoldable pub http_status : SesameError → ℕ
http_status invalid_version = 400
http_status decrypt_failed = 400
http_status scope_denied = 403
http_status _ = 401

pub record SesameHeaders : Type 0 where
  pub version : Option Bytes
  pub key_id : Option Bytes
  pub timestamp : Option Bytes
  pub nonce : Option Bytes
  pub signature : Option Bytes
  pub scope : Option Bytes
  pub encrypted : Bool
  pub enc_key_id : Option Bytes
  pub iv : Option Bytes

abbrev pub is_none {ℓ} : {A : Type ℓ} → Option A → Bool
is_none none = true
is_none (some a) = false

-- `SesameHeaders::is_absent`
unfoldable pub is_absent : SesameHeaders → Bool
is_absent h =
    is_none h.version
    && is_none h.key_id
    && is_none h.timestamp
    && is_none h.nonce
    && is_none h.signature

-- `get(H_ENCRYPTED).map(|v| v.eq_ignore_ascii_case("true")).unwrap_or(false)`
unfoldable pub says_true : Option Bytes → Bool
unfolding eq_ignore_ascii_case
says_true none = false
says_true (some v) = eq_ignore_ascii_case v (codes "true")

-- `SesameHeaders::from_lookup`
unfoldable pub from_lookup : (Bytes → Option Bytes) → SesameHeaders
unfolding says_true
from_lookup get = record {
  version = get h_version;
  key_id = get h_key_id;
  timestamp = get h_timestamp;
  nonce = get h_nonce;
  signature = get h_signature;
  scope = get h_scope;
  encrypted = says_true (get h_encrypted);
  enc_key_id = get h_enc_key_id;
  iv = get h_iv;
}

pub record Tier1Fields : Type 0 where
  pub version : Bytes
  pub key_id : Bytes
  pub timestamp : Bytes
  pub nonce : Bytes
  pub signature : Bytes

-- The `match` on the five fields.
abbrev tier1_fields :
    Option Bytes → Option Bytes → Option Bytes → Option Bytes → Option Bytes → Outcome Tier1Fields
tier1_fields (some v) (some k) (some t) (some n) (some s) =
    ok (record { version = v; key_id = k; timestamp = t; nonce = n; signature = s })
tier1_fields _ _ _ _ _ = err missing_headers

-- `SesameHeaders::require_tier1`
unfoldable pub require_tier1 : SesameHeaders → Outcome Tier1Fields
require_tier1 h = tier1_fields h.version h.key_id h.timestamp h.nonce h.signature
