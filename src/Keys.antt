-- ===== src/Keys.antt =====
-- src/keys.rs: key material, channel scopes and the key directory.
pub mod Laws
use mathlib.Core.List.{head?}
use sesame_sdk.Prelude.{
  Bool, true, false, not, ◌&&◌, ◌||◌, Option, none, some, List, [], ◌∷◌, ◌++◌, ◌==◌, any,
}
use sesame_sdk.Prelude.AssocMap.{AssocMap, get, insert}
use sesame_sdk.Text.{Bytes, bytes_Eq, bytes_eq}

abbrev pub HmacKey : Type 0
HmacKey = Bytes

-- 32 bytes
abbrev pub AeadKey : Type 0
AeadKey = Bytes

pub record ChannelScope : Type 0 where
  pub allow_all : Bool
  pub channels : List Bytes

-- `ChannelScope::list`; a `HashSet` is read by `contains` alone.
abbrev pub list_scope : List Bytes → ChannelScope
list_scope channels = record { allow_all = false; channels = channels }

-- `ChannelScope::all`
abbrev pub all_scope : ChannelScope
all_scope = record { allow_all = true; channels = [] }

-- `ChannelScope::default`
abbrev pub default_scope : ChannelScope
default_scope = record { allow_all = false; channels = [] }

unfoldable pub permits : ChannelScope → Bytes → Bool
unfolding bytes_eq
permits s channel = s.allow_all || any (λ c. c == channel) s.channels

-- The trait `KeyProvider`.
pub record KeyProvider : Type 0 where
  pub signing_keys : (key_id : Bytes) → List HmacKey
  pub aead_key : (enc_key_id : Bytes) → Option AeadKey
  pub is_authorized : (key_id channel : Bytes) → Bool
  pub is_revoked : (key_id : Bytes) → Bool

-- The trait's default method.
unfoldable pub primary_signing_key : KeyProvider → (key_id : Bytes) → Option HmacKey
primary_signing_key p key_id = head? (p.signing_keys key_id)

pub record SigningEntry : Type 0 where
  pub keys : List HmacKey
  pub scope : ChannelScope
  pub revoked : Bool

abbrev pub default_entry : SigningEntry
default_entry = record { keys = []; scope = default_scope; revoked = false }

pub record StaticKeyProvider : Type 0 where
  pub signing : AssocMap Bytes SigningEntry
  pub aead : AssocMap Bytes AeadKey

abbrev pub new : StaticKeyProvider
new = record { signing = []; aead = [] }

unfoldable pub with_signing_key :
    StaticKeyProvider → (key_id : Bytes) → HmacKey → ChannelScope → StaticKeyProvider
with_signing_key p key_id key scope = record p {
  signing = insert p.signing key_id (record { keys = key ∷ []; scope = scope; revoked = false });
}

-- `.or_default()`
abbrev pub or_default : Option SigningEntry → SigningEntry
or_default none = default_entry
or_default (some e) = e

unfoldable pub add_overlap_key : StaticKeyProvider → (key_id : Bytes) → HmacKey → StaticKeyProvider
add_overlap_key p key_id key =
    let e = or_default (get p.signing key_id) in
    record p { signing = insert p.signing key_id (record e { keys = e.keys ++ key ∷ [] }) }

unfoldable pub revoke : StaticKeyProvider → (key_id : Bytes) → StaticKeyProvider
revoke p key_id = elim (get p.signing key_id) [
  | none ↦ p
  | some e ↦ record p { signing = insert p.signing key_id (record e { revoked = true }) }
]

unfoldable pub with_aead_key :
    StaticKeyProvider → (enc_key_id : Bytes) → AeadKey → StaticKeyProvider
with_aead_key p enc_key_id key = record p { aead = insert p.aead enc_key_id key }

-- What the four methods read of the entry of a key-id.
abbrev pub entry_keys : Option SigningEntry → List HmacKey
entry_keys none = []
entry_keys (some e) = e.keys

abbrev pub entry_permits : Option SigningEntry → Bytes → Bool
unfolding permits
entry_permits none channel = false
entry_permits (some e) channel = not e.revoked && permits e.scope channel

abbrev pub entry_revoked : Option SigningEntry → Bool
entry_revoked none = false
entry_revoked (some e) = e.revoked

-- `impl KeyProvider for StaticKeyProvider`
unfoldable pub static_provider : StaticKeyProvider → KeyProvider
unfolding permits
static_provider p = record {
  signing_keys = λ key_id. entry_keys (get p.signing key_id);
  aead_key = λ enc_key_id. get p.aead enc_key_id;
  is_authorized = λ key_id channel. entry_permits (get p.signing key_id) channel;
  is_revoked = λ key_id. entry_revoked (get p.signing key_id);
}
