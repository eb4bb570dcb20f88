-- ===== src/Suite/Accepted.antt =====
-- The tests that expect an acceptance, for any cryptography as documented.
use sesame_sdk.Prelude.{
  ◌≡◌, refl, ap, ◌∙◌, Bool, true, false, Option, none, some, [], arith, inl, inr,
}
use sesame_sdk.Prelude.Int.{ℤ}
use sesame_sdk.Prelude.Result.{ok, err}
use sesame_sdk.Prelude.AssocMap.{get, insert}
use sesame_sdk.Text.{
  Bytes, codes, bytes_eq, trim, trim_start, trim_end, trim_by, strip_any, strip_prefix,
}
use sesame_sdk.Message.{Tier1Fields, protocol_version, is_absent, missing_headers}
use sesame_sdk.Message.Hex.{hex_encode}
use sesame_sdk.Message.Hex.Laws.{hex_decode-hex_encode}
use sesame_sdk.External.{Crypto, Clock, IsLawful, IsCalendar}
use sesame_sdk.Keys.{with_signing_key, with_aead_key, static_provider, permits}
use sesame_sdk.Replay.{InMemoryReplayCache, in_memory, check_and_remember}
use sesame_sdk.Replay
use sesame_sdk.Replay.Step.{check_answer}
use sesame_sdk.Tier.{Tier, one, two, three, default_config}
use sesame_sdk.Tier1.Laws.{sign-to_lower}
use sesame_sdk.Verify.{VerifiedRequest, verify_request}
use sesame_sdk.Verify.Spec.{IsAuthentic, IsGranted, ScopeGranted}
use sesame_sdk.Verify.Accept.{verify_request_iff}
use sesame_sdk.Load.Accepted.{Within-self}
use sesame_sdk.Suite.{checked, roundtrip, tier0_passthrough, tier0_when_tier1_required}
use sesame_sdk.Suite.Data.{
  suite_xml, suite_ts, suite_nonce, suite_client, suite_secret, suite_enc_key_id, suite_directory,
  suite_provider, suite_ctx, suite_cache, repeated,
}
use sesame_sdk.Suite.Made.{
  east_scope, suite_signature, suite_headers, suite_iv, headers_1, headers_2, headers_3, Seals,
  made_1, made_2, made_3,
}

module _ {c : Crypto} {k : Clock} (law : IsLawful c) (cal : IsCalendar k) (now : k.Time)
    (parsed : k.parse_rfc3339 suite_ts ≡ some now) where
  pub new_fresh :
      (key_id nonce : Bytes) (at : ℤ) → (check_and_remember suite_cache key_id nonce at).0 ≡ true
  unfolding Replay.new get
  new_fresh key_id nonce at =
      check_answer suite_cache key_id nonce at (unfold Replay.new in tt) ∙ ground arith

  abbrev pub suite_fields : (scope : Option Bytes) (body : Bytes) → Tier1Fields
  suite_fields scope body = record {
    version = protocol_version;
    key_id = suite_client;
    timestamp = suite_ts;
    nonce = suite_nonce;
    signature = suite_signature c scope body suite_nonce;
  }

  pub suite-IsAuthentic :
      (scope : Option Bytes) (body : Bytes) (encrypted : Bool) (enc_key_id iv : Option Bytes)
      → IsAuthentic c k default_config suite_provider suite_ctx
          (suite_headers c scope body encrypted enc_key_id iv)
          body
          now
          (suite_fields scope body)
  unfolding suite_directory static_provider with_signing_key with_aead_key insert get bytes_eq
  suite-IsAuthentic scope body encrypted enc_key_id iv = record {
    carries = record {
      version = refl;
      key_id = refl;
      timestamp = refl;
      nonce = refl;
      signature = refl;
    };
    speaks = refl;
    time = now;
    parsed = parsed;
    fresh = Within-self (k.unix_timestamp now);
    not_revoked = refl;
    key = suite_secret;
    listed = inl refl;
    signed = sign-to_lower law suite_secret _;
  }

  -- A granted request of the tests is accepted.
  suite_passes :
      (scope : Option Bytes) (body : Bytes) (encrypted : Bool) (enc_key_id iv : Option Bytes)
      (tier : Tier) (v : VerifiedRequest)
      → IsGranted c suite_provider suite_ctx
          (suite_headers c scope body encrypted enc_key_id iv)
          body
          tier
          (suite_fields scope body)
          v
      → checked c k now
          (suite_headers c scope body encrypted enc_key_id iv, body)
          now
          tier
          suite_cache
        ≡ (ok v, (check_and_remember suite_cache suite_client suite_nonce (k.unix_timestamp now)).1)
  unfolding in_memory
  suite_passes scope body encrypted enc_key_id iv tier v granted =
      let s' = (check_and_remember suite_cache suite_client suite_nonce (k.unix_timestamp now)).1 in
      (verify_request_iff law cal default_config suite_provider in_memory suite_ctx
          (suite_headers c scope body encrypted enc_key_id iv) body now tier suite_cache v s').1
        (inr (record {
          t1 = suite_fields scope body;
          authentic = suite-IsAuthentic scope body encrypted enc_key_id iv;
          unseen =
              ap (λ (b : Bool). (b, s'))
                (new_fresh suite_client suite_nonce (k.unix_timestamp now));
          granted = granted;
        }))

  abbrev pub verified_at : (channel : Option Bytes) → Tier → VerifiedRequest
  verified_at channel tier = record {
    plaintext = suite_xml;
    key_id = suite_client;
    scope_channel = channel;
    achieved_tier = tier;
  }

  pub passes_1 : checked c k now (headers_1 c, suite_xml) now one suite_cache ≡ (
    ok (verified_at none one),
    (check_and_remember suite_cache suite_client suite_nonce (k.unix_timestamp now)).1,
  )
  passes_1 = suite_passes none suite_xml false none none one (verified_at none one) (record {
    scope_granted = tt;
    plaintext_of = refl;
    key_id = refl;
    achieved = refl;
    has_scope = omega arith;
    enough = omega arith;
  })

  east_granted :
      ScopeGranted suite_provider suite_ctx suite_client east_scope (some (codes "SportsFeed-East"))
  unfolding trim trim_start trim_end trim_by strip_any strip_prefix bytes_eq suite_directory
      static_provider with_signing_key with_aead_key insert get permits
  east_granted = ((_, refl, refl), refl, refl)

  passes_2 :
      (checked c k now (headers_2 c, suite_xml) now two suite_cache).0
      ≡ ok (verified_at (some (codes "SportsFeed-East")) two)
  passes_2 =
      ap (λ p. p.0)
        (suite_passes east_scope suite_xml false none none two
          (verified_at (some (codes "SportsFeed-East")) two)
          (record {
            scope_granted = east_granted;
            plaintext_of = refl;
            key_id = refl;
            achieved = refl;
            has_scope = tt;
            enough = omega arith;
          }))

  passes_3 :
      (ct : Bytes)
      → Seals c ct
      → (checked c k now (headers_3 c ct, ct) now three suite_cache).0
        ≡ ok (verified_at (some (codes "SportsFeed-East")) three)
  unfolding suite_directory static_provider with_signing_key with_aead_key insert get bytes_eq
  passes_3 ct sealed =
      ap (λ p. p.0)
        (suite_passes east_scope ct true (some suite_enc_key_id) (some (hex_encode (suite_iv c)))
          three (verified_at (some (codes "SportsFeed-East")) three)
          (record {
            scope_granted = east_granted;
            plaintext_of = record {
              enc_key_id = suite_enc_key_id;
              iv_hex = hex_encode (suite_iv c);
              iv = suite_iv c;
              aead = repeated 0x42 32;
              has_key_id = refl;
              has_iv = refl;
              decoded = hex_decode-hex_encode (suite_iv c) (omega arith);
              iv_length = refl;
              has_key = refl;
              opened = law.decrypt-encrypt (repeated 0x42 32) (suite_iv c) _ suite_xml ct sealed;
            };
            key_id = refl;
            achieved = refl;
            has_scope = tt;
            enough = omega arith;
          }))

  -- The tests that expect an acceptance, and that of Tier 0 without headers under a minimum.
  pub record AcceptanceVerdicts : Type 0 where
    pub tier1 : roundtrip c k now one ≡ some (ok (verified_at none one))
    pub tier2 : roundtrip c k now two ≡ some (ok (verified_at (some (codes "SportsFeed-East")) two))
    pub tier3 :
        roundtrip c k now three ≡ some (ok (verified_at (some (codes "SportsFeed-East")) three))
    pub passthrough :
        tier0_passthrough c k now
        ≡ ok (record {
          plaintext = suite_xml;
          key_id = [];
          scope_channel = none;
          achieved_tier = Tier.zero;
        })
    pub tier0 : tier0_when_tier1_required c k now ≡ err missing_headers

  pub acceptance_lem : (ct : Bytes) → Seals c ct → AcceptanceVerdicts
  unfolding roundtrip tier0_passthrough tier0_when_tier1_required verify_request is_absent
  acceptance_lem ct sealed = record {
    tier1 = rw (made_1 c) (ap (λ p. some p.0) passes_1);
    tier2 = rw (made_2 c) (ap some passes_2);
    tier3 = rw (made_3 c ct sealed) (ap some (passes_3 ct sealed));
    passthrough = refl;
    tier0 = refl;
  }
