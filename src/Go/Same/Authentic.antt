-- ===== src/Go/Same/Authentic.antt =====
-- The Go port and the crate authenticate a request alike.
use mathlib.Core.Option
use sesame_sdk.Prelude.{◌≡◌, refl, ◌⊎◌, Bool, true, false, not, Option, List, [], ◌∷◌, inl, inr}
use sesame_sdk.Prelude.Int.{ℤ}
use sesame_sdk.Prelude.Result.{ok, err, guard, ◌>>◌}
use sesame_sdk.Text.{Bytes, bytes_Eq, bytes_eq}
use sesame_sdk.Message.{
  SesameError, Tier1Fields, Outcome, code, require_tier1, missing_headers, invalid_version,
  key_revoked, unknown_key, expired_timestamp, signature_mismatch, protocol_version,
}
use sesame_sdk.Message.Hex.{hex_encode}
use sesame_sdk.Canonical.{body_hash_hex, request_canonical}
use sesame_sdk.External.{Crypto, Clock, IsLawful}
use sesame_sdk.Keys.{KeyProvider}
use sesame_sdk.Tier.{SesameConfig}
use sesame_sdk.Verify.{RequestContext, check_tier1, authenticate, is_empty}
use sesame_sdk.Go.Message.{GoHeaders}
use sesame_sdk.Go.Codec.{go_body_hash_hex, go_verify_any, go_check_freshness, go_request_canonical}
use sesame_sdk.Go.Verify.{GoResult, scope_pointer, no_keys, go_authenticate}
use sesame_sdk.Go.Same.Strings.{go_request_canonical_lem}
use sesame_sdk.Go.Same.Signatures.{verify_any-eq-guard, check_freshness-eq-guard}
use sesame_sdk.Go.Same.Stores.{as_go_provider}
use sesame_sdk.Go.Same.Grants.{as_headers, as_fields}

no_keys_same : (keys : List Bytes) → no_keys keys ≡ is_empty keys
no_keys_same [] = refl
no_keys_same (k ∷ keys) = refl

-- Both tests fail, the port's with the code of the error, or both pass, the crate's with these fields.
abbrev pub PassesAlike : GoResult (Unit {0}) → Outcome Tier1Fields → Tier1Fields → Type 0
PassesAlike n m t =
    ((e : SesameError) × (m ≡ err e) × (n ≡ err (code e))) ⊎ ((m ≡ ok t) × (n ≡ ok tt))

guard_alike :
    (b : Bool) (e : SesameError) (n : GoResult (Unit {0})) (m : Outcome Tier1Fields)
    (t : Tier1Fields)
    → PassesAlike n m t
    → PassesAlike (guard b (code e) >> n) (guard b e >> m) t
guard_alike true e n m t h = h
guard_alike false e n m t h = inl (e, refl, refl)

module _ {c : Crypto} (law : IsLawful c) (k : Clock) (parse : Bytes → Option ℤ) (cfg : SesameConfig)
    (p : KeyProvider) (ctx : RequestContext) where
  -- The port's tests on fields that are there.
  abbrev go_checks : (g : GoHeaders) (raw_body : Bytes) (now_unix : ℤ) → GoResult (Unit {0})
  go_checks g raw_body now_unix =
      guard (bytes_eq g.version protocol_version) (code invalid_version)
      >> (guard (go_check_freshness parse g.timestamp now_unix cfg.replay_window_secs)
            (code expired_timestamp)
          >> (guard (not (p.is_revoked g.key_id)) (code key_revoked)
              >> (guard (not (no_keys (p.signing_keys g.key_id))) (code unknown_key)
                  >> (guard
                        (go_verify_any c false (p.signing_keys g.key_id)
                          (go_request_canonical ctx.method ctx.path g.timestamp g.nonce
                            (go_body_hash_hex c raw_body) (scope_pointer g.scope))
                          g.signature)
                        (code signature_mismatch)
                      >> ok tt))))

  checks_alike :
      (g : GoHeaders) (raw_body : Bytes) (now : k.Time)
      → parse g.timestamp ≡ Option.map k.unix_timestamp (k.parse_rfc3339 g.timestamp)
      → PassesAlike
          (go_checks g raw_body (k.unix_timestamp now))
          (check_tier1 c k cfg p ctx (scope_pointer g.scope) raw_body now (as_fields g))
          (as_fields g)
  unfolding check_tier1 body_hash_hex go_body_hash_hex
  checks_alike g raw_body now same =
      rw
        (
          check_freshness-eq-guard k parse g.timestamp now cfg.replay_window_secs same,
          verify_any-eq-guard law,
          go_request_canonical_lem,
          no_keys_same,
        )
        (guard_alike (bytes_eq g.version protocol_version) invalid_version _ _ (as_fields g) (
          guard_alike
            (go_check_freshness parse g.timestamp (k.unix_timestamp now) cfg.replay_window_secs)
            expired_timestamp _ _ (as_fields g)
            (guard_alike (not (p.is_revoked g.key_id)) key_revoked _ _ (as_fields g) (
              guard_alike (not (is_empty (p.signing_keys g.key_id))) unknown_key _ _ (as_fields g) (
                guard_alike
                  (go_verify_any c false (p.signing_keys g.key_id)
                    (request_canonical ctx.method ctx.path g.timestamp g.nonce
                      (hex_encode (c.sha256 raw_body)) (scope_pointer g.scope))
                    g.signature)
                  signature_mismatch (ok tt) (ok (as_fields g)) (as_fields g)
                  (inr (refl, refl)))))))

  abbrev pub AuthenticatesAlike : (g : GoHeaders) (raw_body : Bytes) (now : k.Time) → Type 0
  AuthenticatesAlike g raw_body now =
      parse g.timestamp ≡ Option.map k.unix_timestamp (k.parse_rfc3339 g.timestamp)
      → PassesAlike
          (go_authenticate c parse cfg.replay_window_secs (as_go_provider p) ctx g
            (scope_pointer g.scope) raw_body (k.unix_timestamp now))
          (authenticate c k cfg p ctx (as_headers g) raw_body now) (as_fields g)

  -- The headers of these values.
  abbrev pub of_fields : (v i t n s scope : Bytes) (encrypted : Bool) (e iv : Bytes) → GoHeaders
  of_fields v i t n s scope encrypted e iv = record {
    version = v;
    key_id = i;
    timestamp = t;
    nonce = n;
    signature = s;
    scope = scope;
    encrypted = encrypted;
    enc_key_id = e;
    iv = iv;
  }

  pub authenticate_alike :
      (v i t n s scope : Bytes) (encrypted : Bool) (e iv : Bytes) (raw_body : Bytes) (now : k.Time)
      → AuthenticatesAlike (of_fields v i t n s scope encrypted e iv) raw_body now
  unfolding go_authenticate authenticate require_tier1 code
  authenticate_alike [] i t n s scope encrypted e iv raw_body now same =
      inl (missing_headers, refl, refl)
  authenticate_alike (_ ∷ _) [] t n s scope encrypted e iv raw_body now same =
      inl (missing_headers, refl, refl)
  authenticate_alike (_ ∷ _) (_ ∷ _) [] n s scope encrypted e iv raw_body now same =
      inl (missing_headers, refl, refl)
  authenticate_alike (_ ∷ _) (_ ∷ _) (_ ∷ _) [] s scope encrypted e iv raw_body now same =
      inl (missing_headers, refl, refl)
  authenticate_alike (_ ∷ _) (_ ∷ _) (_ ∷ _) (_ ∷ _) [] scope encrypted e iv raw_body now same =
      inl (missing_headers, refl, refl)
  authenticate_alike (a ∷ v) (b ∷ i) (d ∷ t) (f ∷ n) (h ∷ s) scope encrypted e iv raw_body now
        same =
      checks_alike (of_fields (a ∷ v) (b ∷ i) (d ∷ t) (f ∷ n) (h ∷ s) scope encrypted e iv) raw_body
        now same
