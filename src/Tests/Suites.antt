-- ===== src/Tests/Suites.antt =====
-- The crate's tests with concrete cryptography.
use sesame_sdk.Prelude.{
  ℕ, ◌+◌, ◌%◌, ◌^◌, ◌≡◌, ◌≢◌, refl, false, Option, none, some, ◌++◌, ◌∷◌, arith, if◌then◌else◌,
  ◌==◌, ==_refl,
}
use sesame_sdk.Prelude.Int.{pos, ◌+ℤ◌}
use sesame_sdk.Text.{Bytes, bytes_Eq, bytes_eq, bytes_eq_iff, codes}
use sesame_sdk.Message.{protocol_version}
use sesame_sdk.Message.Hex.{hex_encode}
use sesame_sdk.Canonical.{body_hash_hex, request_canonical, response_canonical}
use sesame_sdk.External.{Clock, IsCalendar}
use sesame_sdk.Tier1.{sign}
use sesame_sdk.Tier3.{aad_for_headers}
use sesame_sdk.Suite.Data.{suite_ts, suite_xml, suite_client, suite_nonce, repeated, drop_last}
use sesame_sdk.Suite.Made.{east_scope, suite_iv, suite_signature}
use sesame_sdk.Suite.Accepted.{AcceptanceVerdicts}
use sesame_sdk.Suite.Responses.{TellsForged, ResponseVerdicts, pois_secret, forged_body}
use sesame_sdk.Suite.Rejected.{Separates, RejectionVerdicts, suite_lem}
use sesame_sdk.Tests.Fixture.{toy, toy-IsLawful, filled, checksum}

abbrev text_at : ℕ → Option Bytes
text_at ℕ.zero = some suite_ts
text_at (ℕ.suc t) = none

-- Seconds since the tests' time.
abbrev stopwatch : Clock
stopwatch = record {
  Time = ℕ;
  unix_timestamp = λ t. pos (1771956000 + t % 2 ^ 30);
  parse_rfc3339 = λ s. if s == suite_ts then some 0 else none;
  format_rfc3339 = text_at;
}

formats :
    (t : ℕ) (s : Bytes)
    → stopwatch.format_rfc3339 t ≡ some s
    → (u : ℕ) × (stopwatch.parse_rfc3339 s ≡ some u)
      × (stopwatch.unix_timestamp u ≡ stopwatch.unix_timestamp t)
formats ℕ.zero s h = let e : suite_ts ≡ s = cc in (0, rw (← e, ==_refl suite_ts), refl)
formats (ℕ.suc t) s h = cc

stopwatch-IsCalendar : IsCalendar stopwatch
stopwatch-IsCalendar = record { dates = λ t. (omega arith, omega arith); parse-format = formats }

at_zero : stopwatch.parse_rfc3339 suite_ts ≡ some 0
at_zero = rw (==_refl suite_ts)

differ : (a b : Bytes) → bytes_eq a b ≡ false → a ≢ b
differ a b h e = let f = (bytes_eq_iff a b).1 e in cc

abbrev sealed_xml : Bytes
sealed_xml =
    checksum (
      repeated 0x42 32
      ++ suite_iv toy
      ++ aad_for_headers protocol_version suite_client suite_ts suite_nonce east_scope)
    ∷ suite_xml

separates : Separates toy-IsLawful stopwatch-IsCalendar 0 at_zero sealed_xml
unfolding sign request_canonical body_hash_hex hex_encode filled checksum bytes_eq aad_for_headers
separates = record {
  body =
      differ (suite_signature toy none suite_xml suite_nonce)
        (suite_signature toy none (suite_xml ++ codes "<!-- injected -->") suite_nonce) refl;
  nonce =
      differ (suite_signature toy none suite_xml suite_nonce)
        (suite_signature toy none suite_xml (codes "ffffffffffffffffffffffffffffffff")) refl;
  truncated =
      differ (suite_signature toy east_scope sealed_xml suite_nonce)
        (suite_signature toy east_scope (drop_last sealed_xml) suite_nonce) refl;
}

tells_forged : TellsForged toy suite_ts (repeated 1 16)
unfolding sign response_canonical body_hash_hex hex_encode filled checksum bytes_eq
tells_forged =
    differ
      (sign toy pois_secret (
        response_canonical (codes "sig-1") suite_ts (hex_encode (repeated 1 16))
          (body_hash_hex toy.sha256 suite_xml) none))
      (sign toy pois_secret (
        response_canonical (codes "sig-1") suite_ts (hex_encode (repeated 1 16))
          (body_hash_hex toy.sha256 forged_body) none))
      refl

suite_lem_example :
    AcceptanceVerdicts toy-IsLawful stopwatch-IsCalendar 0 at_zero
    × RejectionVerdicts toy-IsLawful stopwatch-IsCalendar 0 at_zero 600
    × ResponseVerdicts toy stopwatch 0 (repeated 1 16) (repeated 2 12)
unfolding ◌+ℤ◌
suite_lem_example =
    suite_lem toy-IsLawful stopwatch-IsCalendar 0 at_zero sealed_xml suite_ts (repeated 1 16)
      (repeated 2 12) 600 refl separates (omega arith) refl tells_forged
