-- ===== src/External.antt =====
-- What the program calls and the repository does not hold: the crates `sha2`, `hmac` and `aes-gcm`
-- as one record, with their documented behaviour as laws, and the crate `time` as another.
use sesame_sdk.Prelude.{◌^◌, ◌≤◌, ◌≡◌, ◌≢◌, ◌↔◌, Bool, true, Option, none, some, ◌++◌, length}
use sesame_sdk.Prelude.Int.{ℤ, pos, negsuc, ◌≤ℤ◌}
use sesame_sdk.Text.{Bytes}
use sesame_sdk.Message.Hex.Laws.{IsBytes}

pub record Crypto : Type 0 where
  -- `Sha256::digest`
  pub sha256 : Bytes → Bytes
  -- `new_from_slice(key)`, `update(message)`, `finalize().into_bytes()`
  pub hmac_sha256 : (key message : Bytes) → Bytes
  -- `verify_slice(tag).is_ok()` after the same two calls
  pub verify_slice : (key message tag : Bytes) → Bool
  -- `Aes256Gcm::encrypt` and `decrypt`; `none` is the crate's opaque error
  pub gcm_encrypt : (key iv aad message : Bytes) → Option Bytes
  pub gcm_decrypt : (key iv aad message : Bytes) → Option Bytes

pub record IsLawful (c : Crypto) : Type 0 where
  pub sha256_bytes : (m : Bytes) → IsBytes (c.sha256 m)
  pub hmac_bytes : (k m : Bytes) → IsBytes (c.hmac_sha256 k m)
  pub length-hmac : (k m : Bytes) → length (c.hmac_sha256 k m) ≡ 32
  pub verify_slice_iff : (k m t : Bytes) → (c.verify_slice k m t ≡ true) ↔ (t ≡ c.hmac_sha256 k m)
  pub decrypt-encrypt :
      (k iv aad m ct : Bytes)
      → c.gcm_encrypt k iv aad m ≡ some ct
      → c.gcm_decrypt k iv aad ct ≡ some m

-- AES-256-GCM of a key of 32 bytes and an IV of 12: the text in counter mode, and a tag of 16 bytes
-- over the IV, the associated data and that; another tag does not open. `aes-gcm` takes texts and
-- associated data of 2 ^ 36 bytes at most.
pub record IsGcm (c : Crypto) : Type 0 where
  pub ctr : (key iv m : Bytes) → Bytes
  pub tag : (key iv aad ct : Bytes) → Bytes
  pub length-ctr : (key iv m : Bytes) → length (ctr key iv m) ≡ length m
  pub ctr_bytes : (key iv m : Bytes) → IsBytes m → IsBytes (ctr key iv m)
  pub length-tag : (key iv aad ct : Bytes) → length (tag key iv aad ct) ≡ 16
  pub tag_bytes : (key iv aad ct : Bytes) → IsBytes (tag key iv aad ct)
  pub encrypts :
      (key iv aad m : Bytes)
      → length key ≡ 32
      → length iv ≡ 12
      → length aad ≤ 2 ^ 36
      → length m ≤ 2 ^ 36
      → c.gcm_encrypt key iv aad m ≡ some (ctr key iv m ++ tag key iv aad (ctr key iv m))
  pub rejects :
      (key iv aad ct t : Bytes)
      → length key ≡ 32
      → length iv ≡ 12
      → length t ≡ 16
      → t ≢ tag key iv aad ct
      → c.gcm_decrypt key iv aad (ct ++ t) ≡ none

pub record Clock : Type 1 where
  -- `OffsetDateTime`
  pub Time : Type 0
  pub unix_timestamp : Time → ℤ
  -- `OffsetDateTime::parse` and `format` with `Rfc3339`
  pub parse_rfc3339 : Bytes → Option Time
  pub format_rfc3339 : Time → Option Bytes

-- The seconds of a date of the crate: its years have at most six digits.
abbrev pub IsDate : ℤ → Type 0
IsDate a = (negsuc 35184372088831 ≤ℤ a) × (a ≤ℤ pos 35184372088832)

pub record IsCalendar (k : Clock) : Type 0 where
  pub dates : (t : k.Time) → IsDate (k.unix_timestamp t)
  -- What `format` writes `parse` reads, to the second.
  pub parse-format :
      (t : k.Time) (s : Bytes)
      → k.format_rfc3339 t ≡ some s
      → (u : k.Time) × (k.parse_rfc3339 s ≡ some u) × (k.unix_timestamp u ≡ k.unix_timestamp t)
