-- ===== src/Tier3.antt =====
-- src/tier3_aead.rs: AES-256-GCM over the crate `aes-gcm`, and the associated data.
pub mod Laws
use sesame_sdk.Prelude.{ℕ, Option, ◌++◌}
use sesame_sdk.Prelude.Result.{ok_or}
use sesame_sdk.Text.{Bytes}
use sesame_sdk.Message.{Outcome, decrypt_failed}
use sesame_sdk.Canonical.{lf, push_scope}
use sesame_sdk.External.{Crypto}

abbrev pub key_len : ℕ
key_len = 32

abbrev pub iv_len : ℕ
iv_len = 12

module _ (c : Crypto) where
  -- Named `open` in the source, as `seal` is.
  unfoldable pub seal : (key iv aad plaintext : Bytes) → Outcome Bytes
  seal key iv aad plaintext = ok_or (c.gcm_encrypt key iv aad plaintext) decrypt_failed

  unfoldable pub unseal : (key iv aad ciphertext : Bytes) → Outcome Bytes
  unseal key iv aad ciphertext = ok_or (c.gcm_decrypt key iv aad ciphertext) decrypt_failed

unfoldable pub aad_for_headers :
    (version key_id timestamp nonce : Bytes) (scope : Option Bytes) → Bytes
aad_for_headers version key_id timestamp nonce scope =
    let s = version in
    let s = (s ++ lf) ++ key_id in
    let s = (s ++ lf) ++ timestamp in let s = (s ++ lf) ++ nonce in push_scope s scope
