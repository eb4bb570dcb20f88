-- ===== src/Suite/Responses.antt =====
-- src/lib.rs, the tests of responses: the calls of the signer, and what the client's side reads.
use sesame_sdk.Prelude.{◌≡◌, ◌≢◌, refl, sym, ◌∙◌, Bool, true, false, Option, none, some}
use sesame_sdk.Prelude.Result.{ok, err}
use sesame_sdk.Prelude.AssocMap.{get, insert}
use sesame_sdk.Text.{Bytes, bytes_Eq, codes, bytes_eq}
use sesame_sdk.Message.{Outcome, h_timestamp, h_nonce, h_signature}
use sesame_sdk.Message.Hex.{hex_encode, ◌>>=◌}
use sesame_sdk.Canonical.{body_hash_hex, response_canonical}
use sesame_sdk.External.{Crypto, Clock, IsLawful}
use sesame_sdk.Keys.{with_signing_key, with_aead_key, static_provider, primary_signing_key}
use sesame_sdk.Respond.{ResponseParams, SignedResponse, sign_response, respond_body}
use sesame_sdk.Tier.{one, two, default_config}
use sesame_sdk.Tier1.{sign, verify}
use sesame_sdk.Tier1.Laws.{verify_iff, sign-to_lower}
use sesame_sdk.Suite.Data.{suite_provider, suite_directory, suite_xml}
use sesame_sdk.Suite.Made.{east_scope}

abbrev pub pois : Bytes
pois = codes "pois-primary"

abbrev pub pois_secret : Bytes
pois_secret = codes "pois-secret"

abbrev pub params_2 : ResponseParams
params_2 = record {
  signing_key_id = pois;
  correlation = codes "sig-20260224-001";
  scope = east_scope;
  tier = two;
  enc_key_id = none;
}

abbrev pub params_1 : ResponseParams
params_1 = record {
  signing_key_id = pois;
  correlation = codes "sig-1";
  scope = none;
  tier = one;
  enc_key_id = none;
}

abbrev pub forged_body : Bytes
forged_body = codes "<SignalProcessingNotification action=\"blackout\"/>"

abbrev pub unwrap : Outcome SignedResponse → Option SignedResponse
unwrap (ok a) = some a
unwrap (err e) = none

abbrev is_ok : Outcome (Unit {0}) → Bool
is_ok (ok a) = true
is_ok (err e) = false

module _ (c : Crypto) (k : Clock) (now : k.Time) where
  -- Whether the response's own signature verifies over a body under a correlation.
  unfoldable pub signature_verifies :
      SignedResponse → (correlation body : Bytes) → (scope : Option Bytes) → Option Bool
  signature_verifies resp correlation body scope = do
    ts ← get resp.headers h_timestamp
    nonce ← get resp.headers h_nonce
    sig ← get resp.headers h_signature
    let canonical = response_canonical correlation ts nonce (body_hash_hex c.sha256 body) scope
    key ← primary_signing_key suite_provider pois
    some (is_ok (verify c key canonical sig))

  module _ (random_128 random_iv : Bytes) where
    unfoldable pub response_roundtrip : Option Bool
    response_roundtrip = do
      resp ← unwrap (
          sign_response c k default_config suite_provider params_2 suite_xml now random_128
            random_iv)
      signature_verifies resp (codes "sig-20260224-001") resp.body east_scope

    unfoldable pub forged_response : Option Bool
    forged_response = do
      resp ← unwrap (
          sign_response c k default_config suite_provider params_1 suite_xml now random_128
            random_iv)
      signature_verifies resp (codes "sig-1") forged_body none

own_verifies :
    {c : Crypto} (law : IsLawful c) (s : Bytes)
    → verify c pois_secret s (sign c pois_secret s) ≡ ok tt
own_verifies {c} law s =
    (verify_iff law pois_secret s (sign c pois_secret s)).1 (sign-to_lower law pois_secret s)

other_fails :
    {c : Crypto} (law : IsLawful c) (s u : Bytes)
    → sign c pois_secret s ≢ sign c pois_secret u
    → is_ok (verify c pois_secret u (sign c pois_secret s)) ≡ false
other_fails {c} law s u differ = refused (verify c pois_secret u (sign c pois_secret s)) refl
  where
    refused :
        (r : Outcome (Unit {0}))
        → verify c pois_secret u (sign c pois_secret s) ≡ r
        → is_ok r ≡ false
    refused (err e) h = refl
    refused (ok tt) h = absurd (
        differ (
          sym (sign-to_lower law pois_secret s)
          ∙ (verify_iff law pois_secret u (sign c pois_secret s)).0 h))

-- The answer to a decision verifies at the client, and not over another body.
pub record ResponseVerdicts (c : Crypto) (k : Clock) (now : k.Time) (random_128 random_iv : Bytes)
    : Type 0 where
  pub verified : response_roundtrip c k now random_128 random_iv ≡ some true
  pub forged : forged_response c k now random_128 random_iv ≡ some false

-- The tag of the forged body is another.
abbrev pub TellsForged : Crypto → (text random_128 : Bytes) → Type 0
TellsForged c text random_128 =
    sign c pois_secret (
      response_canonical (codes "sig-1") text (hex_encode random_128)
        (body_hash_hex c.sha256 suite_xml) none)
    ≢ sign c pois_secret (
        response_canonical (codes "sig-1") text (hex_encode random_128)
          (body_hash_hex c.sha256 forged_body) none)

pub response_lem :
    {c : Crypto} {k : Clock} (law : IsLawful c) (now : k.Time) (text random_128 random_iv : Bytes)
    → k.format_rfc3339 now ≡ some text
    → TellsForged c text random_128
    → ResponseVerdicts c k now random_128 random_iv
unfolding response_roundtrip forged_response signature_verifies sign_response respond_body get
    suite_directory static_provider with_signing_key with_aead_key insert bytes_eq
    primary_signing_key
response_lem {c} {k} law now text random_128 random_iv written differ = record {
  verified =
      rw
        (
          written,
          own_verifies law (
              response_canonical (codes "sig-20260224-001") text (hex_encode random_128)
                (body_hash_hex c.sha256 suite_xml) east_scope),
        )
        refl;
  forged = rw (written, other_fails law _ _ differ) refl;
}
