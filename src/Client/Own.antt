-- ===== src/Client/Own.antt =====
-- A request of the client's is authentic, and accepted if it is granted.
use sesame_sdk.Prelude.{
  ◌≡◌, refl, ap, ◌∙◌, Bool, true, false, Option, none, some, [], ◌∷◌, arith, inl, inr, ==_refl,
  Option-cases,
}
use sesame_sdk.Prelude.Result.{ok, err}
use sesame_sdk.Prelude.Int.{ℤ}
use sesame_sdk.Prelude.AssocMap.{get, insert}
use sesame_sdk.Text.{Bytes, bytes_Eq, codes}
use sesame_sdk.Message.{SesameHeaders, Tier1Fields, protocol_version, decrypt_failed}
use sesame_sdk.Canonical.{body_hash_hex, request_canonical}
use sesame_sdk.External.{Crypto, Clock, IsLawful, IsCalendar}
use sesame_sdk.Keys.{with_signing_key, with_aead_key, static_provider, permits}
use sesame_sdk.Replay.{InMemoryReplayCache, in_memory, check_and_remember, prune, remember}
use sesame_sdk.Replay
use sesame_sdk.Replay.Step.{check_answer}
use sesame_sdk.Tier.{Tier, SesameConfig}
use sesame_sdk.Tier1.{sign}
use sesame_sdk.Tier1.Laws.{sign-to_lower}
use sesame_sdk.Tier1.Freshness.{Within}
use sesame_sdk.Verify.{VerifiedRequest, RequestContext}
use sesame_sdk.Verify.Spec.{IsAuthentic, IsGranted}
use sesame_sdk.Verify.Accept.{verify_request_iff}
use sesame_sdk.Client.{
  Settings, client_provider, path_of, nonce_of, scope_of, seal_body, build_request, self_check,
}
use sesame_sdk.Tier3.{seal, aad_for_headers}
use sesame_sdk.Message.Hex.{hex_encode}

-- What the directory of the self-check says of the client's own keys.
pub record Mirrors (s : Settings) : Type 0 where
  pub live : (static_provider (client_provider s)).is_revoked s.key_id ≡ false
  pub keys : (static_provider (client_provider s)).signing_keys s.key_id ≡ s.signing ∷ []
  pub aead : (static_provider (client_provider s)).aead_key s.enc_key_id ≡ some s.enc_key
  pub allowed :
      (channel : Bytes)
      → (static_provider (client_provider s)).is_authorized s.key_id channel ≡ true

pub client_provider-Mirrors : (s : Settings) → Mirrors s
unfolding client_provider static_provider with_signing_key with_aead_key insert get permits
client_provider-Mirrors s = record {
  live = rw (==_refl s.key_id);
  keys = rw (==_refl s.key_id);
  aead = rw (==_refl s.enc_key_id);
  allowed = λ channel. rw (==_refl s.key_id);
}

module _ {c : Crypto} {k : Clock} (law : IsLawful c) (cal : IsCalendar k) (cfg : SesameConfig)
    (s : Settings) where
  abbrev pub own_ctx : RequestContext
  own_ctx = record { method = codes "POST"; path = path_of s; target_channel = none }

  -- The headers over a body.
  abbrev pub own_headers :
      (scope : Option Bytes) (ts nonce wire : Bytes) (encrypted : Bool)
      (enc_key_id iv_hex : Option Bytes)
      → SesameHeaders
  own_headers scope ts nonce wire encrypted enc_key_id iv_hex = record {
    version = some protocol_version;
    key_id = some s.key_id;
    timestamp = some ts;
    nonce = some nonce;
    signature = some (
        sign c s.signing (
          request_canonical (codes "POST") (path_of s) ts nonce (body_hash_hex c.sha256 wire)
            scope));
    scope = scope;
    encrypted = encrypted;
    enc_key_id = enc_key_id;
    iv = iv_hex;
  }

  abbrev pub own_fields : (scope : Option Bytes) (ts nonce wire : Bytes) → Tier1Fields
  own_fields scope ts nonce wire = record {
    version = protocol_version;
    key_id = s.key_id;
    timestamp = ts;
    nonce = nonce;
    signature =
        sign c s.signing (
          request_canonical (codes "POST") (path_of s) ts nonce (body_hash_hex c.sha256 wire)
            scope);
  }

  pub own-IsAuthentic :
      (scope : Option Bytes) (ts nonce wire : Bytes) (encrypted : Bool)
      (enc_key_id iv_hex : Option Bytes) (now t : k.Time)
      → k.parse_rfc3339 ts ≡ some t
      → Within cfg.replay_window_secs (k.unix_timestamp now) (k.unix_timestamp t)
      → IsAuthentic c k cfg
          (static_provider (client_provider s))
          own_ctx
          (own_headers scope ts nonce wire encrypted enc_key_id iv_hex)
          wire
          now
          (own_fields scope ts nonce wire)
  own-IsAuthentic scope ts nonce wire encrypted enc_key_id iv_hex now t parsed near =
      let m = client_provider-Mirrors s in
      record {
        carries = record {
          version = refl;
          key_id = refl;
          timestamp = refl;
          nonce = refl;
          signature = refl;
        };
        speaks = refl;
        time = t;
        parsed = parsed;
        fresh = near;
        not_revoked = m.live;
        key = s.signing;
        listed = rw m.keys (inl refl);
        signed = sign-to_lower law s.signing _;
      }

  -- A new cache finds every pair fresh.
  pub new_fresh :
      (key_id nonce : Bytes) (now : ℤ)
      → (check_and_remember (Replay.new cfg.replay_window_secs) key_id nonce now).0 ≡ true
  unfolding Replay.new get
  new_fresh key_id nonce now =
      check_answer (Replay.new cfg.replay_window_secs) key_id nonce now (unfold Replay.new in tt)
      ∙ ground arith

  -- A granted request of the client's is accepted.
  pub passes :
      (scope : Option Bytes) (ts nonce wire : Bytes) (encrypted : Bool)
      (enc_key_id iv_hex : Option Bytes) (now t : k.Time) (v : VerifiedRequest)
      → k.parse_rfc3339 ts ≡ some t
      → Within cfg.replay_window_secs (k.unix_timestamp now) (k.unix_timestamp t)
      → IsGranted c
          (static_provider (client_provider s))
          own_ctx
          (own_headers scope ts nonce wire encrypted enc_key_id iv_hex)
          wire
          Tier.zero
          (own_fields scope ts nonce wire)
          v
      → self_check c k cfg s (own_headers scope ts nonce wire encrypted enc_key_id iv_hex, wire) now
        ≡ (
          ok v,
          (check_and_remember
              (Replay.new cfg.replay_window_secs)
              s.key_id
              nonce
              (k.unix_timestamp now)).1,
        )
  unfolding self_check in_memory
  passes scope ts nonce wire encrypted enc_key_id iv_hex now t v parsed near granted =
      (verify_request_iff law cal cfg (static_provider (client_provider s)) in_memory own_ctx
          (own_headers scope ts nonce wire encrypted enc_key_id iv_hex) wire now Tier.zero
          (Replay.new cfg.replay_window_secs) v _).1
        (inr (record {
          t1 = own_fields scope ts nonce wire;
          authentic =
              own-IsAuthentic scope ts nonce wire encrypted enc_key_id iv_hex now t parsed near;
          unseen =
              ap
                (λ (b : Bool). (
                  b,
                  (check_and_remember (Replay.new cfg.replay_window_secs) s.key_id nonce
                      (k.unix_timestamp now)).1,
                ))
                (new_fresh s.key_id nonce (k.unix_timestamp now));
          granted = granted;
        }))

  -- What a Tier 3 build is: the text sealed, and the headers over it.
  pub built_3 :
      (ts iv plaintext : Bytes) (m : SesameHeaders × Bytes)
      → build_request c s 3 ts iv plaintext ≡ ok m
      → (ct : Bytes) × (c.gcm_encrypt s.enc_key iv
            (aad_for_headers protocol_version s.key_id ts (nonce_of 3 iv) (scope_of s 3))
            plaintext
          ≡ some ct)
        × (m ≡ (
          own_headers
              (scope_of s 3)
              ts
              (nonce_of 3 iv)
              ct
              true
              (some s.enc_key_id)
              (some (hex_encode iv)),
          ct,
        ))
  unfolding build_request seal_body seal
  built_3 ts iv plaintext m h =
      elim (Option-cases (
        c.gcm_encrypt s.enc_key iv
          (aad_for_headers protocol_version s.key_id ts (nonce_of 3 iv) (scope_of s 3))
          plaintext)) [
            | inl e ↦
                let failed : build_request c s 3 ts iv plaintext ≡ err decrypt_failed = rw e in cc
            | inr (ct, e) ↦
                let built : build_request c s 3 ts iv plaintext
                    ≡ ok (
                      own_headers (scope_of s 3) ts (nonce_of 3 iv) ct true (some s.enc_key_id)
                          (some (hex_encode iv)),
                      ct,
                    ) =
                  rw e in
                (ct, e, cc)
          ]
