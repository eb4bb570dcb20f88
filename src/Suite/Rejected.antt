-- ===== src/Suite/Rejected.antt =====
-- The tests that expect a rejection, for any cryptography as documented in which the texts that they
-- tamper with have tags of their own.
use sesame_sdk.Prelude.{◌≡◌, ◌≢◌, refl, ap, ◌∙◌, Bool, true, false, Option, none, some, ◌++◌, arith}
use sesame_sdk.Prelude.Int.{pos, ◌+ℤ◌, ◌≤ℤ◌, +ℤ_parts}
use sesame_sdk.Prelude.Result.{ok, err}
use sesame_sdk.Prelude.AssocMap.{get, insert}
use sesame_sdk.Text.{Bytes, codes, bytes_eq, bytes_eq_iff}
use sesame_sdk.Message.{
  Tier1Fields, Outcome, protocol_version, signature_mismatch, replay_detected, expired_timestamp,
  unknown_key, invalid_version, scope_denied,
}
use sesame_sdk.Canonical.{body_hash_hex, request_canonical}
use sesame_sdk.External.{Crypto, Clock, IsLawful, IsCalendar}
use sesame_sdk.Keys.{with_signing_key, with_aead_key, static_provider, primary_signing_key}
use sesame_sdk.Replay.{InMemoryReplayCache, in_memory, check_and_remember}
use sesame_sdk.Replay
use sesame_sdk.Replay.Step.{IsWindow, HasUniqueKeys, check-HasUniqueKeys}
use sesame_sdk.Replay.Window.{Call, after, answer_recorded, expiry_fresh}
use sesame_sdk.Tier.{one, three, default_config}
use sesame_sdk.Tier1.{sign}
use sesame_sdk.Verify.{VerifiedRequest}
use sesame_sdk.Verify.Spec.{Carries}
use sesame_sdk.Verify.Refusal.{other_version, stale, unknown, replayed, IsFresh}
use sesame_sdk.Verify.Refuse.{verify_request_err_iff}
use sesame_sdk.Suite.{
  checked, tampered_body, tampered_signed_header, replayed_nonce, stale_timestamp, unknown_key_id,
  truncated_gcm_tag, wrong_version, unauthorized_channel,
}
use sesame_sdk.Suite.Data.{
  suite_xml, suite_ts, suite_nonce, suite_client, suite_secret, suite_directory, suite_provider,
  suite_path, suite_ctx, suite_cache, drop_last,
}
use sesame_sdk.Suite.Made.{Seals, headers_1, headers_3, suite_signature, made_1, made_3, east_scope}
use sesame_sdk.Suite.Accepted.{
  suite_fields, suite-IsAuthentic, new_fresh, passes_1, verified_at, AcceptanceVerdicts,
  acceptance_lem,
}
use sesame_sdk.Suite.Forged.{fails, fresh, fields_with, fails_signature}
use sesame_sdk.Suite.Responses.{TellsForged, ResponseVerdicts, response_lem}
use sesame_sdk.Suite.Denied.{premium_refused}

module _ {c : Crypto} {k : Clock} (law : IsLawful c) (cal : IsCalendar k) (now : k.Time)
    (parsed : k.parse_rfc3339 suite_ts ≡ some now) where
  -- The tampered texts of three tests have tags that differ from those of the client's texts.
  pub record Separates (ct : Bytes) : Type 0 where
    pub body :
        suite_signature c none suite_xml suite_nonce
        ≢ suite_signature c none (suite_xml ++ codes "<!-- injected -->") suite_nonce
    pub nonce :
        suite_signature c none suite_xml suite_nonce
        ≢ suite_signature c none suite_xml (codes "ffffffffffffffffffffffffffffffff")
    pub truncated :
        suite_signature c east_scope ct suite_nonce
        ≢ suite_signature c east_scope (drop_last ct) suite_nonce

  -- The text that the client signs.
  abbrev text_of : (scope : Option Bytes) (body nonce : Bytes) → Bytes
  text_of scope body nonce =
      request_canonical (codes "POST") suite_path suite_ts nonce (body_hash_hex c.sha256 body) scope

  abbrev given_nonce : Bytes
  given_nonce = codes "ffffffffffffffffffffffffffffffff"

  -- The second of two equal requests is seen.
  replay_answer :
      (checked c k now
        (headers_1 c, suite_xml)
        now
        one
        (check_and_remember suite_cache suite_client suite_nonce (k.unix_timestamp now)).1).0
      ≡ err replay_detected
  unfolding in_memory
  replay_answer =
      let n = k.unix_timestamp now in
      let call : Call = record { key_id = suite_client; nonce = suite_nonce; now = n } in
      let u : HasUniqueKeys suite_cache = unfold Replay.new in tt in
      let s' = after suite_cache call in
      let w : IsWindow (pos 300) = (omega arith, omega arith) in
      let kept =
        expiry_fresh suite_cache u call (new_fresh law cal now parsed suite_client suite_nonce n)
          (cal.dates now) (unfold Replay.new in w) in
      let seen =
        answer_recorded s' (check-HasUniqueKeys suite_cache suite_client suite_nonce n u) call _
          kept (unfold Replay.new in omega (arith, +ℤ_parts n (pos 300))) in
      ap (λ (p : Outcome VerifiedRequest × InMemoryReplayCache). p.0)
        ((verify_request_err_iff law cal default_config suite_provider in_memory suite_ctx
            (headers_1 c) suite_xml now one s' replay_detected (after s' call)).1
          (replayed (suite_fields law cal now parsed none suite_xml)
            (suite-IsAuthentic law cal now parsed none suite_xml false none none)
            (ap (λ (b : Bool). (b, after s' call)) seen) refl))

  version_differs : codes "2.0" ≢ protocol_version
  unfolding bytes_eq
  version_differs e =
      let f : bytes_eq (codes "2.0") protocol_version ≡ true =
        (bytes_eq_iff (codes "2.0") protocol_version).1 e in
      cc f

  late_stale :
      (later : k.Time) (t1 : Tier1Fields)
      → t1.timestamp ≡ suite_ts
      → k.unix_timestamp now +ℤ pos 600 ≤ℤ k.unix_timestamp later
      → ¬ IsFresh k default_config later t1
  late_stale later t1 e late (t, read, (p, q)) =
      let same : t ≡ now = cc (read, parsed, ap k.parse_rfc3339 e) in
      let r : k.unix_timestamp later ≤ℤ k.unix_timestamp now +ℤ pos 300 = rw (← same) p in
      omega (
        arith,
        +ℤ_parts (k.unix_timestamp now) (pos 300),
        +ℤ_parts (k.unix_timestamp now) (pos 600),
      )

  carried_1 :
      (nonce other : Bytes)
      → Carries
          (record (headers_1 c) {
            nonce = some nonce;
            signature = some (sign c suite_secret other);
          })
          (fields_with law cal now parsed nonce other)
  carried_1 nonce other = record {
    version = refl;
    key_id = refl;
    timestamp = refl;
    nonce = refl;
    signature = refl;
  }

  -- What the tests that tamper with a request, or give it late, expect.
  pub record RejectionVerdicts (later : k.Time) : Type 0 where
    pub tampered : tampered_body c k now ≡ some (err signature_mismatch)
    pub tampered_header : tampered_signed_header c k now ≡ some (err signature_mismatch)
    pub replay :
        replayed_nonce c k now
        ≡ some (ok (verified_at law cal now parsed none one), err replay_detected)
    pub late : stale_timestamp c k now later ≡ some (err expired_timestamp)
    pub ghost : unknown_key_id c k now ≡ some (err unknown_key)
    pub premium : unauthorized_channel c k now ≡ some (err scope_denied)
    pub truncated : truncated_gcm_tag c k now ≡ some (err signature_mismatch)
    pub version : wrong_version c k now ≡ some (err invalid_version)

  rejection_lem :
      (ct : Bytes) (later : k.Time)
      → Seals c ct
      → Separates ct
      → k.unix_timestamp now +ℤ pos 600 ≤ℤ k.unix_timestamp later
      → RejectionVerdicts later
  unfolding tampered_body tampered_signed_header replayed_nonce stale_timestamp unknown_key_id
      truncated_gcm_tag wrong_version unauthorized_channel primary_signing_key suite_directory
      static_provider with_signing_key with_aead_key insert get bytes_eq
  rejection_lem ct later sealed apart late =
      let signed = text_of none suite_xml suite_nonce in
      record {
        tampered = rw (made_1 c) (
            ap some (
              fails_signature law cal now parsed (headers_1 c)
                (suite_xml ++ codes "<!-- injected -->") suite_nonce signed one
                (carried_1 suite_nonce signed) apart.body));
        tampered_header = rw (made_1 c) (
            ap some (
              fails_signature law cal now parsed (record (headers_1 c) { nonce = some given_nonce })
                suite_xml given_nonce signed one (carried_1 given_nonce signed) apart.nonce));
        replay = rw (made_1 c) (
            ap
              (λ (first : Outcome VerifiedRequest × InMemoryReplayCache).
                some (first.0, (checked c k now (headers_1 c, suite_xml) now one first.1).0))
              (passes_1 law cal now parsed)
            ∙ ap
                (λ (o : Outcome VerifiedRequest).
                  some (ok (verified_at law cal now parsed none one), o))
                replay_answer);
        late = rw (made_1 c) (
            ap some (
              fails law cal now parsed (headers_1 c) suite_xml later one
                (fields_with law cal now parsed suite_nonce signed) expired_timestamp
                (carried_1 suite_nonce signed)
                (stale refl (
                  late_stale later (fields_with law cal now parsed suite_nonce signed) refl
                    late))));
        ghost = rw (made_1 c) (
            ap some (
              fails law cal now parsed (record (headers_1 c) { key_id = some (codes "ghost") })
                suite_xml now one
                (record (fields_with law cal now parsed suite_nonce signed) {
                  key_id = codes "ghost";
                })
                unknown_key
                (record {
                  version = refl;
                  key_id = refl;
                  timestamp = refl;
                  nonce = refl;
                  signature = refl;
                })
                (unknown refl
                  (fresh law cal now parsed
                    (record (fields_with law cal now parsed suite_nonce signed) {
                      key_id = codes "ghost";
                    })
                    refl)
                  refl refl)));
        premium = ap some (premium_refused law cal now parsed);
        truncated = rw (made_3 c ct sealed) (
            ap some (
              fails_signature law cal now parsed (headers_3 c ct) (drop_last ct) suite_nonce
                (text_of east_scope ct suite_nonce) three
                (record {
                  version = refl;
                  key_id = refl;
                  timestamp = refl;
                  nonce = refl;
                  signature = refl;
                })
                apart.truncated));
        version = rw (made_1 c) (
            ap some (
              fails law cal now parsed (record (headers_1 c) { version = some (codes "2.0") })
                suite_xml now one
                (record (fields_with law cal now parsed suite_nonce signed) {
                  version = codes "2.0";
                })
                invalid_version
                (record {
                  version = refl;
                  key_id = refl;
                  timestamp = refl;
                  nonce = refl;
                  signature = refl;
                })
                (other_version version_differs)));
      }

  -- Fifteen of the crate's tests get the result that they expect: of requests with headers of each
  -- tier, without headers, tampered with, replayed, late or for another channel, and of a response
  -- that the client verifies, and does not verify over a forged body. It is for any cryptography as
  -- documented that seals the text of Tier 3 and whose tags tell the tampered texts from the signed
  -- ones, a late time of 600 seconds after the first or more, and a time that can be written.
  pub suite_lem :
      (ct text random_128 random_iv : Bytes) (later : k.Time)
      → Seals c ct
      → Separates ct
      → k.unix_timestamp now +ℤ pos 600 ≤ℤ k.unix_timestamp later
      → k.format_rfc3339 now ≡ some text
      → TellsForged c text random_128
      → AcceptanceVerdicts law cal now parsed
        × RejectionVerdicts later
        × ResponseVerdicts c k now random_128 random_iv
  suite_lem ct text random_128 random_iv later sealed apart late written forged_differs = (
    acceptance_lem law cal now parsed ct sealed,
    rejection_lem ct later sealed apart late,
    response_lem law now text random_128 random_iv written forged_differs,
  )
