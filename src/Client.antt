-- ===== src/Client.antt =====
-- examples/sign_request.rs: the request that the client builds for a tier, the directory of its
-- self-check, and the self-check. The time's text, the IV and the XML are arguments.
pub mod Own
pub mod Laws
pub mod Total
pub mod Send
pub mod ReadBack
pub mod Deliver
pub mod KeyFile
pub mod Stamp
pub mod Run
pub mod Rounds
pub mod Post
pub mod Reader
pub mod Lines
pub mod Answer
pub mod Marks
use sesame_sdk.Prelude.{
  ℕ, ◌+◌, Bool, true, false, Option, none, some, [], ◌∷◌, ◌++◌, if◌then◌else◌, leb, eqb,
}
use sesame_sdk.Prelude.Result.{ok, ◌>>=◌}
use sesame_sdk.Text.{Bytes, codes}
use sesame_sdk.Message.{Outcome, SesameHeaders, protocol_version}
use sesame_sdk.Message.Hex.{hex_encode}
use sesame_sdk.Canonical.{body_hash_hex, request_canonical}
use sesame_sdk.External.{Crypto, Clock}
use sesame_sdk.Keys.{
  StaticKeyProvider, new, with_signing_key, with_aead_key, static_provider, all_scope,
}
use sesame_sdk.Replay.{InMemoryReplayCache, in_memory}
use sesame_sdk.Replay
use sesame_sdk.Tier.{Tier, SesameConfig}
use sesame_sdk.Tier1.{sign}
use sesame_sdk.Tier3.{seal, aad_for_headers}
use sesame_sdk.Verify.{VerifiedRequest, RequestContext, verify_request}

-- The client's settings.
pub record Settings : Type 0 where
  pub key_id : Bytes
  pub signing : Bytes
  pub enc_key_id : Bytes
  pub enc_key : Bytes
  pub channel : Bytes

unfoldable pub client_provider : Settings → StaticKeyProvider
client_provider s =
    with_aead_key (with_signing_key new s.key_id s.signing all_scope) s.enc_key_id s.enc_key

abbrev pub path_of : Settings → Bytes
path_of s = codes "/esam?channel=" ++ s.channel

-- `format!("ex-{tier}-{}", hex_encode(&iv))`, for a tier of one digit.
abbrev pub nonce_of : (tier : ℕ) (iv : Bytes) → Bytes
nonce_of tier iv = codes "ex-" ++ (b'0' + tier) ∷ (codes "-" ++ hex_encode iv)

abbrev pub scope_of : Settings → (tier : ℕ) → Option Bytes
scope_of s tier = if leb 2 tier then some (codes "channel=" ++ s.channel) else none

-- The body as it goes over the wire, and what the headers say of it.
pub record Wire : Type 0 where
  pub wire : Bytes
  pub encrypted : Bool
  pub iv_hex : Option Bytes

module _ (c : Crypto) where
  -- An error is the panic of `expect`.
  unfoldable pub seal_body :
      Settings
      → (tier : ℕ) (ts nonce : Bytes) (scope : Option Bytes) (iv plaintext : Bytes) → Outcome Wire
  seal_body s tier ts nonce scope iv plaintext =
      if eqb tier 3
      then (do
        let aad = aad_for_headers protocol_version s.key_id ts nonce scope
        ct ← seal c s.enc_key iv aad plaintext
        ok (record { wire = ct; encrypted = true; iv_hex = some (hex_encode iv) }))
      else ok (record { wire = plaintext; encrypted = false; iv_hex = none })

  unfoldable pub build_request :
      Settings → (tier : ℕ) (ts iv plaintext : Bytes) → Outcome (SesameHeaders × Bytes)
  build_request s tier ts iv plaintext = do
    let nonce = nonce_of tier iv
    let scope = scope_of s tier
    w ← seal_body s tier ts nonce scope iv plaintext
    let body_hash = body_hash_hex c.sha256 w.wire
    let canonical = request_canonical (codes "POST") (path_of s) ts nonce body_hash scope
    let signature = sign c s.signing canonical
    let headers : SesameHeaders = record {
      version = some protocol_version;
      key_id = some s.key_id;
      timestamp = some ts;
      nonce = some nonce;
      signature = some signature;
      scope = scope;
      encrypted = w.encrypted;
      enc_key_id = if eqb tier 3 then some s.enc_key_id else none;
      iv = w.iv_hex;
    }
    ok (headers, w.wire)

  -- The call of the verifier before sending.
  unfoldable pub self_check :
      (k : Clock)
      → SesameConfig
      → Settings
      → SesameHeaders × Bytes
      → (now : k.Time) → Outcome VerifiedRequest × InMemoryReplayCache
  self_check k cfg s (headers, wire) now =
      verify_request c k cfg (static_provider (client_provider s)) in_memory
        (record { method = codes "POST"; path = path_of s; target_channel = none }) headers wire now
        Tier.zero (Replay.new cfg.replay_window_secs)
