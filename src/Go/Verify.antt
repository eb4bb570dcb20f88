-- ===== src/Go/Verify.antt =====
-- go/protocol.go: `VerifyRequest`, in the stages of its body. A tier is its number.
use sesame_sdk.Prelude.{
  ℕ, Bool, true, false, not, ◌||◌, Option, none, some, List, [], ◌∷◌, ◌==◌, if◌then◌else◌, eqb, leb,
  ltb, length,
}
use mathlib.Core.Option
use sesame_sdk.Prelude.Int.{ℤ}
use sesame_sdk.Prelude.Result.{Result, ok, err, ok_or, guard, ◌>>=◌, ◌>>◌}
use sesame_sdk.Text.{Bytes, bytes_Eq, bytes_eq, codes, strip_prefix, trim}
use sesame_sdk.Message.{protocol_version}
use sesame_sdk.Message.Hex.{hex_decode}
use sesame_sdk.External.{Crypto}
use sesame_sdk.Replay.{ReplayCache}
use sesame_sdk.Tier3.{iv_len}
use sesame_sdk.Verify.{RequestContext}
use sesame_sdk.Go.Message.{
  GoError, GoHeaders, is_blank, go_is_absent, err_missing_headers, err_invalid_version,
  err_unknown_key, err_expired_timestamp, err_replay_detected, err_signature_mismatch,
  err_scope_denied, err_decrypt_failed, err_key_revoked,
}
use sesame_sdk.Go.Cache.{GoKeyProvider}
use sesame_sdk.Go.Codec.{
  go_check_freshness, go_body_hash_hex, go_request_canonical, go_verify_any, go_aad_for_headers,
  go_open,
}

pub record GoVerified : Type 0 where
  pub plaintext : Bytes
  pub key_id : Bytes
  pub scope_channel : Option Bytes
  pub achieved_tier : ℕ

-- A result and an `error`.
abbrev pub GoResult : Type 0 → Type 0
GoResult A = Result GoError A

-- `ParseScopeChannel`
unfoldable pub go_parse_scope_channel : (scope : Bytes) → Option Bytes
go_parse_scope_channel scope = Option.map trim (strip_prefix (codes "channel=") scope)

-- The Tier 0 passthrough.
abbrev pub go_passthrough : (raw_body : Bytes) (min_tier : ℕ) → GoResult GoVerified
go_passthrough raw_body min_tier =
    if eqb min_tier 0
    then ok (record { plaintext = raw_body; key_id = []; scope_channel = none; achieved_tier = 0 })
    else err err_missing_headers

-- `var scope *string`
abbrev pub scope_pointer : Bytes → Option Bytes
scope_pointer [] = none
scope_pointer (b ∷ s) = some (b ∷ s)

-- `len(signingKeys) == 0`
abbrev pub no_keys : List Bytes → Bool
no_keys [] = true
no_keys (k ∷ ks) = false

-- `ctx.TargetChannel != nil && *ctx.TargetChannel != declared`
abbrev pub misses_target : Option Bytes → Bytes → Bool
misses_target none declared = false
misses_target (some target) declared = not (target == declared)

-- The tests on the scope: the channel and the tier so far.
unfoldable pub go_tier2 :
    GoKeyProvider
    → RequestContext
    → (key_id : Bytes) (scope : Option Bytes) (min_tier : ℕ) → GoResult (Option Bytes × ℕ)
unfolding go_parse_scope_channel
go_tier2 provider ctx key_id (some scope) min_tier = do
  declared ← ok_or (go_parse_scope_channel scope) err_scope_denied
  guard (not (misses_target ctx.target_channel declared)) err_scope_denied
  guard (provider.is_authorized key_id declared) err_scope_denied
  ok (some declared, 2)
go_tier2 provider ctx key_id none min_tier =
    if leb 2 min_tier then err err_scope_denied else ok (none, 1)

module _ (c : Crypto) where
  -- The body of `if headers.Encrypted`.
  unfoldable pub go_decrypt :
      GoKeyProvider → GoHeaders → (scope : Option Bytes) (raw_body : Bytes) → GoResult Bytes
  go_decrypt provider headers scope raw_body = do
    guard (not (is_blank headers.enc_key_id || is_blank headers.iv)) err_decrypt_failed
    iv ← ok_or (hex_decode headers.iv) err_decrypt_failed
    guard (eqb (length iv) iv_len) err_decrypt_failed
    aead ← ok_or (provider.aead_key headers.enc_key_id) err_decrypt_failed
    let aad =
        go_aad_for_headers headers.version headers.key_id headers.timestamp headers.nonce scope
    ok_or (go_open c aead iv aad raw_body) err_decrypt_failed

  -- The plaintext and the tier achieved.
  unfoldable pub go_tier3 :
      GoKeyProvider
      → GoHeaders
      → (scope : Option Bytes) (raw_body : Bytes) (min_tier achieved : ℕ) → GoResult (Bytes × ℕ)
  go_tier3 provider headers scope raw_body min_tier achieved =
      if headers.encrypted
      then (do pt ← go_decrypt provider headers scope raw_body; ok (pt, 3))
      else if leb 3 min_tier
      then err err_decrypt_failed
      else ok (raw_body, achieved)

  -- What follows the replay check.
  unfoldable pub go_grant :
      GoKeyProvider
      → RequestContext
      → GoHeaders
      → (scope : Option Bytes) (raw_body : Bytes) (min_tier : ℕ) → GoResult GoVerified
  go_grant provider ctx headers scope raw_body min_tier = do
    (scope_channel, achieved) ← go_tier2 provider ctx headers.key_id scope min_tier
    (plaintext, achieved) ← go_tier3 provider headers scope raw_body min_tier achieved
    guard (not (ltb achieved min_tier)) err_missing_headers
    ok (record {
      plaintext = plaintext;
      key_id = headers.key_id;
      scope_channel = scope_channel;
      achieved_tier = achieved;
    })

  -- The tests before the replay check, over `ParseRFC3339UTC`.
  unfoldable pub go_authenticate :
      (parse : Bytes → Option ℤ)
      → (replay_window_secs : ℤ) → GoKeyProvider
      → RequestContext
      → GoHeaders
      → (scope : Option Bytes) (raw_body : Bytes) (now_unix : ℤ) → GoResult (Unit {0})
  unfolding bytes_eq
  go_authenticate parse replay_window_secs provider ctx headers scope raw_body now_unix = do
    guard
        (not (
          is_blank headers.version
          || is_blank headers.key_id
          || is_blank headers.timestamp
          || is_blank headers.nonce
          || is_blank headers.signature))
        err_missing_headers
    guard (headers.version == protocol_version) err_invalid_version
    guard (go_check_freshness parse headers.timestamp now_unix replay_window_secs)
        err_expired_timestamp
    guard (not (provider.is_revoked headers.key_id)) err_key_revoked
    let signing_keys = provider.signing_keys headers.key_id
    guard (not (no_keys signing_keys)) err_unknown_key
    let body_hash = go_body_hash_hex c raw_body
    let canon =
        go_request_canonical ctx.method ctx.path headers.timestamp headers.nonce body_hash scope
    guard (go_verify_any c false signing_keys canon headers.signature) err_signature_mismatch
    ok tt

  abbrev pub go_replay_then :
      {S : Type 0} → Bool × S → GoResult GoVerified → GoResult GoVerified × S
  go_replay_then (fresh, s) granted = (if fresh then granted else err err_replay_detected, s)

  -- `VerifyRequest`
  unfoldable pub go_verify_request :
      {S : Type 0}
      → (parse : Bytes → Option ℤ) → (replay_window_secs : ℤ) → GoKeyProvider
      → ReplayCache S
      → RequestContext
      → GoHeaders
      → (raw_body : Bytes) (now_unix : ℤ) (min_tier : ℕ) → S
      → GoResult GoVerified × S
  go_verify_request parse replay_window_secs provider replay ctx headers raw_body now_unix min_tier
        s =
      let scope = scope_pointer headers.scope in
      if go_is_absent headers
      then (go_passthrough raw_body min_tier, s)
      else elim (go_authenticate parse replay_window_secs provider ctx headers scope raw_body
          now_unix) [
            | err e ↦ (err e, s)
            | ok _ ↦
                go_replay_then (replay.check_and_remember s headers.key_id headers.nonce now_unix)
                  (go_grant provider ctx headers scope raw_body min_tier)
          ]
