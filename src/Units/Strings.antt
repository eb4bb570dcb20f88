-- ===== src/Units/Strings.antt =====
-- The tests of src/message.rs and src/canonical.rs.
use mathlib.Core.List.{reverse}
use sesame_sdk.Prelude.{
  ℕ, ◌≡◌, refl, Bool, true, false, Option, none, some, List, [], ◌∷◌, eqb, if◌then◌else◌,
}
use sesame_sdk.Text.{Bytes, codes, strip_prefix}
use sesame_sdk.Message.{
  is_absent, code, http_status, scope_denied, decrypt_failed, invalid_version, replay_detected,
}
use sesame_sdk.Message.Hex.{hex_encode, hex_decode}
use sesame_sdk.Canonical.{request_canonical, response_canonical}
use sesame_sdk.Suite.Data.{no_headers}

abbrev hex_data : Bytes
hex_data = 0x00 ∷ 0x0f ∷ 0xa1 ∷ 0xff ∷ 0x10 ∷ []

unfoldable hex_roundtrip : Bytes × Option Bytes
unfolding hex_encode hex_decode
hex_roundtrip = (hex_encode hex_data, hex_decode (codes "000fa1ff10"))

hex_roundtrip_lem : hex_roundtrip ≡ (codes "000fa1ff10", some hex_data)
unfolding hex_roundtrip hex_encode hex_decode
hex_roundtrip_lem = refl

unfoldable hex_decode_rejects : Option Bytes × Option Bytes
unfolding hex_decode
hex_decode_rejects = (hex_decode (codes "abc"), hex_decode (codes "zz"))

hex_decode_rejects_lem : hex_decode_rejects ≡ (none, none)
unfolding hex_decode_rejects hex_decode
hex_decode_rejects_lem = refl

unfoldable absent_headers : Bool
unfolding is_absent
absent_headers = is_absent no_headers

absent_headers_lem : absent_headers ≡ true
unfolding absent_headers is_absent
absent_headers_lem = refl

unfoldable codes_and_statuses : Bytes × List ℕ
unfolding code http_status
codes_and_statuses = (
  code scope_denied,
  http_status scope_denied
      ∷ http_status decrypt_failed
      ∷ http_status invalid_version
      ∷ http_status replay_detected
      ∷ [],
)

codes_and_statuses_lem :
    codes_and_statuses ≡ (codes "sesame_scope_denied", 403 ∷ 400 ∷ 400 ∷ 401 ∷ [])
unfolding codes_and_statuses code http_status
codes_and_statuses_lem = refl

unfoldable worked_example : Bytes
unfolding request_canonical
worked_example =
    request_canonical (codes "POST") (codes "/esam?channel=SportsFeed-East")
      (codes "2026-02-24T18:00:00Z") (codes "a1b2c3d4e5f6a7b8c9d0e1f2a3b4c5d6") (codes "deadbeef")
      none

worked_example_lem :
    worked_example
    ≡ codes
        "POST\n/esam?channel=SportsFeed-East\n2026-02-24T18:00:00Z\na1b2c3d4e5f6a7b8c9d0e1f2a3b4c5d6\ndeadbeef"
unfolding worked_example request_canonical
worked_example_lem = refl

abbrev is_some : Option Bytes → Bool
is_some none = false
is_some (some a) = true

-- `str::starts_with` and `str::ends_with`
abbrev starts_with : (s prefix : Bytes) → Bool
unfolding strip_prefix
starts_with s prefix = is_some (strip_prefix prefix s)

abbrev ends_with : (s suffix : Bytes) → Bool
unfolding strip_prefix
ends_with s suffix = is_some (strip_prefix (reverse suffix) (reverse s))

-- `s.lines().count()`: a last line need not end.
abbrev count_lines : Bytes → ℕ
count_lines [] = 0
count_lines (b ∷ []) = 1
count_lines (b ∷ d ∷ s) = if eqb b b'\n' then ℕ.suc (count_lines (d ∷ s)) else count_lines (d ∷ s)

unfoldable tier2_scope_line : Bool × ℕ
unfolding request_canonical
tier2_scope_line =
    let c =
      request_canonical (codes "POST") (codes "/esam") (codes "2026-02-24T18:00:00Z") (codes "aa")
        (codes "bb") (some (codes "channel=SportsFeed-East")) in
    (ends_with c (codes "\nchannel=SportsFeed-East"), count_lines c)

tier2_scope_line_lem : tier2_scope_line ≡ (true, 6)
unfolding tier2_scope_line request_canonical strip_prefix
tier2_scope_line_lem = refl

unfoldable binds_correlation : Bool
unfolding response_canonical
binds_correlation =
    starts_with
      (response_canonical (codes "sig-20260224-001") (codes "2026-02-24T18:00:00Z") (codes "bb")
        (codes "cc") none)
      (codes "RESPONSE\nsig-20260224-001\n")

binds_correlation_lem : binds_correlation ≡ true
unfolding binds_correlation response_canonical strip_prefix
binds_correlation_lem = refl
