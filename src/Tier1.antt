-- ===== src/Tier1.antt =====
-- src/tier1_hmac.rs: signatures and the freshness of timestamps.
pub mod Laws
pub mod Freshness
use sesame_sdk.Prelude.{Bool, true, false, none, some, List, [], ◌∷◌, if◌then◌else◌}
use sesame_sdk.Prelude.Int.{ℤ, leb_ℤ, sub_i64, abs_i64}
use sesame_sdk.Prelude.Result.{ok, err, ok_or, ◌>>=◌}
use sesame_sdk.Text.{Bytes}
use sesame_sdk.Message.{Outcome, signature_mismatch, expired_timestamp}
use sesame_sdk.Message.Hex.{hex_encode, hex_decode}
use sesame_sdk.External.{Crypto, Clock}

module _ (c : Crypto) where
  unfoldable pub sign : (key canonical : Bytes) → Bytes
  sign key canonical = hex_encode (c.hmac_sha256 key canonical)

  unfoldable pub verify : (key canonical provided_hex : Bytes) → Outcome Unit
  verify key canonical provided_hex = do
    provided ← ok_or (hex_decode provided_hex) signature_mismatch
    if c.verify_slice key canonical provided then ok tt else err signature_mismatch

  -- The `for` loop over the candidate keys, with its variable `ok`.
  unfoldable pub try_keys : (matched : Bool) (keys : List Bytes) (canonical provided : Bytes) → Bool
  try_keys matched [] canonical provided = matched
  try_keys matched (key ∷ keys) canonical provided =
      try_keys (if c.verify_slice key canonical provided then true else matched) keys canonical
        provided

  unfoldable pub verify_any : (keys : List Bytes) (canonical provided_hex : Bytes) → Outcome Unit
  unfolding try_keys
  verify_any keys canonical provided_hex = elim (hex_decode provided_hex) [
    | none ↦ err signature_mismatch
    | some provided ↦
        if try_keys false keys canonical provided then ok tt else err signature_mismatch
  ]

module _ (k : Clock) where
  unfoldable pub check_freshness :
      (timestamp_iso : Bytes) (now : k.Time) (window_secs : ℤ) → Outcome Unit
  check_freshness timestamp_iso now window_secs = do
    ts ← ok_or (k.parse_rfc3339 timestamp_iso) expired_timestamp
    let delta = sub_i64 (k.unix_timestamp now) (k.unix_timestamp ts)
    if leb_ℤ (abs_i64 delta) window_secs then ok tt else err expired_timestamp
