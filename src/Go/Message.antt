-- ===== src/Go/Message.antt =====
-- go/message.go: headers, in which the empty string means that a header is absent, and the errors.
use sesame_sdk.Prelude.{ℕ, Bool, true, false, ◌&&◌, ◌||◌, [], ◌∷◌, ◌==◌, if◌then◌else◌}
use sesame_sdk.Text.{Bytes, bytes_Eq, bytes_eq, codes, eq_ignore_ascii_case}
use sesame_sdk.Message.{
  h_version, h_key_id, h_timestamp, h_nonce, h_signature, h_scope, h_encrypted, h_enc_key_id, h_iv,
}

-- `SesameError`, with its field `Code`.
abbrev pub GoError : Type 0
GoError = Bytes

abbrev pub err_missing_headers : GoError
err_missing_headers = codes "sesame_missing_headers"

abbrev pub err_invalid_version : GoError
err_invalid_version = codes "sesame_invalid_version"

abbrev pub err_unknown_key : GoError
err_unknown_key = codes "sesame_unknown_key"

abbrev pub err_expired_timestamp : GoError
err_expired_timestamp = codes "sesame_expired_timestamp"

abbrev pub err_replay_detected : GoError
err_replay_detected = codes "sesame_replay_detected"

abbrev pub err_signature_mismatch : GoError
err_signature_mismatch = codes "sesame_signature_mismatch"

abbrev pub err_scope_denied : GoError
err_scope_denied = codes "sesame_scope_denied"

abbrev pub err_decrypt_failed : GoError
err_decrypt_failed = codes "sesame_decrypt_failed"

abbrev pub err_key_revoked : GoError
err_key_revoked = codes "sesame_key_revoked"

-- `HTTPStatus`
unfoldable pub go_http_status : GoError → ℕ
unfolding bytes_eq
go_http_status e =
    if e == err_invalid_version || e == err_decrypt_failed
    then 400
    else if e == err_scope_denied
    then 403
    else 401

pub record GoHeaders : Type 0 where
  pub version : Bytes
  pub key_id : Bytes
  pub timestamp : Bytes
  pub nonce : Bytes
  pub signature : Bytes
  pub scope : Bytes
  pub encrypted : Bool
  pub enc_key_id : Bytes
  pub iv : Bytes

-- `s == ""`
abbrev pub is_blank : Bytes → Bool
is_blank [] = true
is_blank (b ∷ s) = false

-- `IsAbsent`
unfoldable pub go_is_absent : GoHeaders → Bool
go_is_absent h =
    is_blank h.version
    && is_blank h.key_id
    && is_blank h.timestamp
    && is_blank h.nonce
    && is_blank h.signature

-- `HeadersFromLookup`. The characters of "true" have no case variants but the ASCII ones, so that
-- `EqualFold` with it is the comparison without ASCII case.
unfoldable pub go_headers_from_lookup : (Bytes → Bytes) → GoHeaders
unfolding eq_ignore_ascii_case
go_headers_from_lookup get = record {
  version = get h_version;
  key_id = get h_key_id;
  timestamp = get h_timestamp;
  nonce = get h_nonce;
  signature = get h_signature;
  scope = get h_scope;
  encrypted = eq_ignore_ascii_case (get h_encrypted) (codes "true");
  enc_key_id = get h_enc_key_id;
  iv = get h_iv;
}
