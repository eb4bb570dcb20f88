-- ===== src/Go/Cache.antt =====
-- go/replay.go and go/keys.go: the replay cache, and the key directory, whose maps hold what the
-- crate's hold.
use mathlib.Core.List.{head?}
use sesame_sdk.Prelude.{
  Bool, true, false, not, ◌&&◌, Option, none, some, List, [], ◌∷◌, ◌++◌, if◌then◌else◌,
}
use sesame_sdk.Prelude.Int.{ℤ, ltb_ℤ, leb_ℤ, add_i64, min_i64}
use sesame_sdk.Prelude.AssocMap.{AssocMap, get, insert}
use sesame_sdk.Text.{Bytes, bytes_Eq, pair_Eq}
use sesame_sdk.Keys.{StaticKeyProvider, SigningEntry, permits}
use sesame_sdk.Replay.{InMemoryReplayCache}

-- `NewInMemoryReplayCache`
unfoldable pub go_new_cache : (window_secs : ℤ) → InMemoryReplayCache
go_new_cache window_secs = record {
  window_secs = window_secs;
  seen = record { map = []; last_prune_unix = min_i64 };
}

-- The `for` loop over the map, with its `delete`.
unfoldable pub go_sweep : (now_unix : ℤ) → AssocMap (Bytes × Bytes) ℤ → AssocMap (Bytes × Bytes) ℤ
go_sweep now_unix [] = []
go_sweep now_unix ((key, exp) ∷ seen) =
    let rest = go_sweep now_unix seen in if leb_ℤ exp now_unix then rest else (key, exp) ∷ rest

-- The lookup, and the two returns.
unfoldable pub go_remember :
    InMemoryReplayCache → (key : Bytes × Bytes) (now_unix : ℤ) → Bool × InMemoryReplayCache
go_remember c key now_unix = elim (get c.seen.map key) [
  | some _ ↦ (false, c)
  | none ↦ (
    true,
    record c {
      seen = record c.seen { map = insert c.seen.map key (add_i64 now_unix c.window_secs) };
    },
  )
]

-- `CheckAndRemember`
unfoldable pub go_check_and_remember :
    InMemoryReplayCache → (key_id nonce : Bytes) (now_unix : ℤ) → Bool × InMemoryReplayCache
unfolding go_sweep go_remember
go_check_and_remember c key_id nonce now_unix =
    let swept : InMemoryReplayCache =
      if ltb_ℤ c.seen.last_prune_unix now_unix
      then record c {
        seen = record { map = go_sweep now_unix c.seen.map; last_prune_unix = now_unix };
      }
      else c in
    go_remember swept (key_id, nonce) now_unix

-- The interface `KeyProvider`.
pub record GoKeyProvider : Type 0 where
  pub signing_keys : (key_id : Bytes) → List Bytes
  pub primary_signing_key : (key_id : Bytes) → Option Bytes
  pub aead_key : (enc_key_id : Bytes) → Option Bytes
  pub is_authorized : (key_id channel : Bytes) → Bool
  pub is_revoked : (key_id : Bytes) → Bool

-- `AddOverlapKey`
unfoldable pub go_add_overlap_key : StaticKeyProvider → (key_id key : Bytes) → StaticKeyProvider
go_add_overlap_key p key_id key = elim (get p.signing key_id) [
  | none ↦ p
  | some e ↦ record p { signing = insert p.signing key_id (record e { keys = e.keys ++ key ∷ [] }) }
]

-- The methods of `StaticKeyProvider`.
abbrev pub entry_primary : Option SigningEntry → Option Bytes
entry_primary none = none
entry_primary (some e) = head? e.keys

abbrev entry_allows : Option SigningEntry → Bytes → Bool
unfolding permits
entry_allows none channel = false
entry_allows (some e) channel = not e.revoked && permits e.scope channel

abbrev entry_is_revoked : Option SigningEntry → Bool
entry_is_revoked none = false
entry_is_revoked (some e) = e.revoked

abbrev entry_signing : Option SigningEntry → List Bytes
entry_signing none = []
entry_signing (some e) = e.keys

unfoldable pub go_static_provider : StaticKeyProvider → GoKeyProvider
unfolding permits
go_static_provider p = record {
  signing_keys = λ key_id. entry_signing (get p.signing key_id);
  primary_signing_key = λ key_id. entry_primary (get p.signing key_id);
  aead_key = λ enc_key_id. get p.aead enc_key_id;
  is_authorized = λ key_id channel. entry_allows (get p.signing key_id) channel;
  is_revoked = λ key_id. entry_is_revoked (get p.signing key_id);
}
