-- ===== src/Tests/Ciphers.antt =====
-- The unit tests with a cipher whose tag covers the text, and a clock of the tests' times.
use sesame_sdk.Prelude.{
  ℕ, ◌≤◌, Bool-cases, inl, inr, arith, ◌≡◌, ◌≢◌, refl, false, Option, none, some, ◌∷◌,
  if◌then◌else◌, ◌==◌, eqb, eqb_iff,
}
use sesame_sdk.Prelude.Int.{pos}
use sesame_sdk.Text.{Bytes, bytes_Eq, bytes_eq, bytes_eq_iff, codes}
use sesame_sdk.External.{Clock}
use sesame_sdk.Units.Ciphers.{Distinguishes, Tells, CipherVerdicts, TimeVerdicts, units_lem}
use sesame_sdk.Tests.Fixture.{filled, checksum}
use sesame_sdk.Tests.Gcm.{tag_of, tags_apart, stamped, stamped-IsLawful, stamped_gcm}
use sesame_sdk.Suite.Data.{repeated}

abbrev texts : Bytes → Option ℕ
texts s =
    if s == codes "2026-02-24T17:59:59Z"
    then some 1771955999
    else if s == codes "2026-02-24T18:00:00Z"
    then some 1771956000
    else if s == codes "2026-02-24T18:05:00Z"
    then some 1771956300
    else if s == codes "2026-02-24T18:10:01Z"
    then some 1771956601
    else none

abbrev test_clock : Clock
test_clock = record {
  Time = ℕ;
  unix_timestamp = pos;
  parse_rfc3339 = texts;
  format_rfc3339 = λ t. none;
}

begins_with_two : (b : ℕ) (s : Bytes) (t : ℕ) → texts (b ∷ s) ≡ some t → (b'0' ≤ b) × (b ≤ b'9')
unfolding bytes_eq
begins_with_two b s t h = elim (Bool-cases (eqb b b'2')) [
  | inl e ↦ omega (arith, (eqb_iff b b'2').0 e)
  | inr e ↦ let g : texts (b ∷ s) ≡ none = rw e refl in cc
]

tells : Tells test_clock
unfolding bytes_eq
tells = record {
  early = 1771955999;
  edge = 1771956000;
  now = 1771956300;
  late = 1771956601;
  parses_early = refl;
  parses_edge = refl;
  parses_now = refl;
  parses_late = refl;
  begins = begins_with_two;
  second_early = refl;
  second_edge = refl;
  second_now = refl;
  second_late = refl;
}

apart : (a b : Bytes) → bytes_eq a b ≡ false → a ≢ b
apart a b h e = let f = (bytes_eq_iff a b).1 e in cc

distinguishes : Distinguishes stamped_gcm (filled 12 5)
unfolding filled checksum bytes_eq
distinguishes = record {
  keys =
      apart (stamped.hmac_sha256 (codes "k1") (codes "c"))
        (stamped.hmac_sha256 (codes "k2") (codes "c")) refl;
  texts =
      apart (stamped.hmac_sha256 (codes "k") (codes "original"))
        (stamped.hmac_sha256 (codes "k") (codes "tampered")) refl;
  aads =
      tags_apart (repeated 2 32) (filled 12 5) (codes "headers-A") (codes "headers-B") (codes "x") (
        apart (tag_of (repeated 2 32) (filled 12 5) (codes "headers-A") (codes "x"))
          (tag_of (repeated 2 32) (filled 12 5) (codes "headers-B") (codes "x")) refl);
}

units_lem_example : CipherVerdicts stamped (filled 12 5) × TimeVerdicts test_clock
unfolding filled
units_lem_example = units_lem stamped-IsLawful stamped_gcm (filled 12 5) refl distinguishes tells
