-- ===== src/Client/Laws.antt =====
-- The client's requests pass the verifier.
use sesame_sdk.Prelude.{ℕ, suc, ◌≤◌, ◌≡◌, refl, sym, subst, true, false, none, some, arith, length}
use sesame_sdk.Prelude.Result.{ok}
use sesame_sdk.Text.{Bytes, bytes_Eq, trim}
use sesame_sdk.Message.{SesameHeaders}
use sesame_sdk.Message.Hex.{hex_encode}
use sesame_sdk.Message.Hex.Laws.{IsBytes, hex_decode-hex_encode}
use sesame_sdk.External.{Crypto, Clock, IsLawful, IsCalendar}
use sesame_sdk.Replay.{InMemoryReplayCache}
use sesame_sdk.Tier.{one, two, three, from_u8, SesameConfig}
use sesame_sdk.Tier1.Freshness.{Within}
use sesame_sdk.Verify.{VerifiedRequest}
use sesame_sdk.Client.{Settings, nonce_of, scope_of, seal_body, build_request, self_check}
use sesame_sdk.Client.Own.{client_provider-Mirrors, passes, built_3}

-- The self-check accepts, and finds the plaintext and the key-id at the tier asked for.
pub record IsVerified (c : Crypto) (k : Clock) (cfg : SesameConfig) (s : Settings) (tier : ℕ)
    (plaintext : Bytes) (now : k.Time) (m : SesameHeaders × Bytes) : Type 0 where
  pub v : VerifiedRequest
  pub cache : InMemoryReplayCache
  pub accepted : self_check c k cfg s m now ≡ (ok v, cache)
  pub achieved : v.achieved_tier ≡ from_u8 tier
  pub recovered : v.plaintext ≡ plaintext
  pub by : v.key_id ≡ s.key_id

module _ {c : Crypto} {k : Clock} (law : IsLawful c) (cal : IsCalendar k) (cfg : SesameConfig)
    (s : Settings) where
  module _ (ts iv plaintext : Bytes) (now t : k.Time) (parsed : k.parse_rfc3339 ts ≡ some t)
      (near : Within cfg.replay_window_secs (k.unix_timestamp now) (k.unix_timestamp t)) where
    tier_1-IsVerified :
        (m : SesameHeaders × Bytes)
        → build_request c s 1 ts iv plaintext ≡ ok m
        → IsVerified c k cfg s 1 plaintext now m
    unfolding build_request seal_body from_u8
    tier_1-IsVerified m h = subst (IsVerified c k cfg s 1 plaintext now) (cc) (record {
      v = record {
        plaintext = plaintext;
        key_id = s.key_id;
        scope_channel = none;
        achieved_tier = one;
      };
      cache = _;
      accepted =
          passes law cal cfg s none ts (nonce_of 1 iv) plaintext false none none now t _ parsed near
            (record {
              scope_granted = tt;
              plaintext_of = refl;
              key_id = refl;
              achieved = refl;
              has_scope = omega arith;
              enough = omega arith;
            });
      achieved = refl;
      recovered = refl;
      by = refl;
    })

    tier_2-IsVerified :
        trim s.channel ≡ s.channel
        → (m : SesameHeaders × Bytes) → build_request c s 2 ts iv plaintext ≡ ok m
        → IsVerified c k cfg s 2 plaintext now m
    unfolding build_request seal_body from_u8
    tier_2-IsVerified trimmed m h =
        let mirrors = client_provider-Mirrors s in
        subst (IsVerified c k cfg s 2 plaintext now) (cc) (record {
          v = record {
            plaintext = plaintext;
            key_id = s.key_id;
            scope_channel = some s.channel;
            achieved_tier = two;
          };
          cache = _;
          accepted =
              passes law cal cfg s (scope_of s 2) ts (nonce_of 2 iv) plaintext false none none now t
                _ parsed near
                (record {
                  scope_granted = ((s.channel, refl, sym trimmed), tt, mirrors.allowed s.channel);
                  plaintext_of = refl;
                  key_id = refl;
                  achieved = refl;
                  has_scope = tt;
                  enough = omega arith;
                });
          achieved = refl;
          recovered = refl;
          by = refl;
        })

    tier_3-IsVerified :
        trim s.channel ≡ s.channel
        → IsBytes iv
        → length iv ≡ 12
        → (m : SesameHeaders × Bytes) → build_request c s 3 ts iv plaintext ≡ ok m
        → IsVerified c k cfg s 3 plaintext now m
    unfolding from_u8
    tier_3-IsVerified trimmed bytes len m h =
        let mirrors = client_provider-Mirrors s in
        let (ct, sealed, same) = built_3 law cal cfg s ts iv plaintext m h in
        subst (IsVerified c k cfg s 3 plaintext now) (sym same) (record {
          v = record {
            plaintext = plaintext;
            key_id = s.key_id;
            scope_channel = some s.channel;
            achieved_tier = three;
          };
          cache = _;
          accepted =
              passes law cal cfg s (scope_of s 3) ts (nonce_of 3 iv) ct true (some s.enc_key_id)
                (some (hex_encode iv)) now t _ parsed near
                (record {
                  scope_granted = ((s.channel, refl, sym trimmed), tt, mirrors.allowed s.channel);
                  plaintext_of = record {
                    enc_key_id = s.enc_key_id;
                    iv_hex = hex_encode iv;
                    iv = iv;
                    aead = s.enc_key;
                    has_key_id = refl;
                    has_iv = refl;
                    decoded = hex_decode-hex_encode iv bytes;
                    iv_length = len;
                    has_key = mirrors.aead;
                    opened = law.decrypt-encrypt s.enc_key iv _ plaintext ct sealed;
                  };
                  key_id = refl;
                  achieved = refl;
                  has_scope = tt;
                  enough = omega arith;
                });
          achieved = refl;
          recovered = refl;
          by = refl;
        })

  -- A request that the client builds for Tier 1, 2 or 3 passes its self-check at that tier, which
  -- returns the plaintext and the client's key-id: for a channel without white space at its ends, an
  -- IV of 12 bytes, and a timestamp that parses to a time within the window of the check.
  pub build_request-IsVerified :
      (tier : ℕ) (ts iv plaintext : Bytes) (now t : k.Time) (m : SesameHeaders × Bytes)
      → 1 ≤ tier
      → tier ≤ 3
      → trim s.channel ≡ s.channel
      → IsBytes iv
      → length iv ≡ 12
      → k.parse_rfc3339 ts ≡ some t
      → Within cfg.replay_window_secs (k.unix_timestamp now) (k.unix_timestamp t)
      → build_request c s tier ts iv plaintext ≡ ok m
      → IsVerified c k cfg s tier plaintext now m
  build_request-IsVerified ℕ.zero ts iv plaintext now t m low high trimmed bytes len parsed near h =
      absurd (omega arith)
  build_request-IsVerified (suc ℕ.zero) ts iv plaintext now t m low high trimmed bytes len parsed
        near h =
      tier_1-IsVerified ts iv plaintext now t parsed near m h
  build_request-IsVerified (suc (suc ℕ.zero)) ts iv plaintext now t m low high trimmed bytes len
        parsed near h =
      tier_2-IsVerified ts iv plaintext now t parsed near trimmed m h
  build_request-IsVerified (suc (suc (suc ℕ.zero))) ts iv plaintext now t m low high trimmed bytes
        len parsed near h =
      tier_3-IsVerified ts iv plaintext now t parsed near trimmed bytes len m h
  build_request-IsVerified (suc (suc (suc (suc n)))) ts iv plaintext now t m low high trimmed bytes
        len parsed near h =
      absurd (omega arith)
