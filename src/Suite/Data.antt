-- ===== src/Suite/Data.antt =====
-- src/lib.rs, the tests: their keys, their context and their texts.
use sesame_sdk.Prelude.{ℕ, Bool, true, false, Option, none, some, [], ◌∷◌}
use sesame_sdk.Prelude.Int.{pos}
use sesame_sdk.Prelude.Result.{ok, err}
use sesame_sdk.Text.{Bytes, codes}
use sesame_sdk.Message.{Outcome, SesameHeaders}
use sesame_sdk.Keys.{
  StaticKeyProvider, KeyProvider, new, with_signing_key, with_aead_key, static_provider, list_scope,
  all_scope,
}
use sesame_sdk.Replay.{InMemoryReplayCache, in_memory}
use sesame_sdk.Replay
use sesame_sdk.Verify.{RequestContext}

abbrev pub suite_xml : Bytes
suite_xml = codes "<?xml version=\"1.0\"?><SignalProcessingEvent/>"

abbrev pub suite_ts : Bytes
suite_ts = codes "2026-02-24T18:00:00Z"

abbrev pub suite_nonce : Bytes
suite_nonce = codes "a1b2c3d4e5f6a7b8c9d0e1f2a3b4c5d6"

abbrev pub suite_client : Bytes
suite_client = codes "sas-east-01"

abbrev pub suite_secret : Bytes
suite_secret = codes "client-secret"

abbrev pub suite_enc_key_id : Bytes
suite_enc_key_id = codes "enc-sportsfeed-2026q1"

-- `[b; n]`
abbrev pub repeated : (b n : ℕ) → Bytes
repeated b ℕ.zero = []
repeated b (ℕ.suc n) = b ∷ repeated b n

unfoldable pub suite_directory : StaticKeyProvider
suite_directory =
    with_aead_key
      (with_signing_key
        (with_signing_key new suite_client suite_secret (list_scope (codes "SportsFeed-East" ∷ [])))
        (codes "pois-primary") (codes "pois-secret") all_scope)
      suite_enc_key_id (repeated 0x42 32)

abbrev pub suite_provider : KeyProvider
suite_provider = static_provider suite_directory

abbrev pub suite_path : Bytes
suite_path = codes "/esam?channel=SportsFeed-East"

abbrev pub suite_ctx : RequestContext
suite_ctx = record {
  method = codes "POST";
  path = suite_path;
  target_channel = some (codes "SportsFeed-East");
}

abbrev pub suite_cache : InMemoryReplayCache
suite_cache = Replay.new (pos 300)

-- `encrypt_with.unwrap_or(...)`
abbrev pub unwrap_or : Option Bytes → Bytes → Bytes
unwrap_or none default = default
unwrap_or (some a) default = a

abbrev pub key_id_of : Option (Bytes × Bytes) → Option Bytes
key_id_of none = none
key_id_of (some p) = some p.0

abbrev pub iv_of : Option (Bytes × Bytes) → Option Bytes
iv_of none = none
iv_of (some p) = some p.1

abbrev pub is_some : Option (Bytes × Bytes) → Bool
is_some none = false
is_some (some p) = true

abbrev pub unwrap : Outcome Bytes → Option Bytes
unwrap (ok a) = some a
unwrap (err e) = none

-- `SesameHeaders::default()`
abbrev pub no_headers : SesameHeaders
no_headers = record {
  version = none;
  key_id = none;
  timestamp = none;
  nonce = none;
  signature = none;
  scope = none;
  encrypted = false;
  enc_key_id = none;
  iv = none;
}

-- `body.truncate(body.len() - 1)`
abbrev pub drop_last : Bytes → Bytes
drop_last [] = []
drop_last (b ∷ []) = []
drop_last (b ∷ d ∷ s) = b ∷ drop_last (d ∷ s)
