-- ===== src/Tests/Parts.antt =====
-- The parts of the library at concrete inputs.
use sesame_sdk.Prelude.{
  ◌≡◌, ◌%◌, ◌≢◌, ◌↔◌, refl, inl, inr, none, some, [], ◌∷◌, arith, All, map, length,
}
use sesame_sdk.Prelude.Int.{pos, ◌+ℤ◌}
use sesame_sdk.Prelude.Result.{ok}
use sesame_sdk.Text.{codes, to_lower}
use sesame_sdk.Message.{protocol_version}
use sesame_sdk.Message.Hex.{hex_encode, hex_decode, decode_pairs, val}
use sesame_sdk.Message.Hex.Laws.{IsHexDigit, hex_encode-hex_decode, hex_decode_iff, IsBytes}
use sesame_sdk.Canonical.{response_canonical}
use sesame_sdk.Canonical.Injective.{
  Signed, IsLines, canonical_of, request_canonical_injective,
  request_canonical-ne-response_canonical,
}
use sesame_sdk.Replay.{InMemoryReplayCache, check_and_remember, prune, remember}
use sesame_sdk.Replay
use sesame_sdk.Replay.Step.{IsWindow}
use sesame_sdk.Replay.Window.{Call, serve, IsBounded, serve-IsBounded}
use sesame_sdk.Replay.Refines.{answers, spec_answers, answers-eq-spec_answers}
use sesame_sdk.Tier1.{sign, verify, verify_any, check_freshness}
use sesame_sdk.Tier1.Laws.{verify_iff, verify_any_iff}
use sesame_sdk.Tier1.Freshness.{check_freshness_iff}
use sesame_sdk.Tier3.Laws.{HeaderSet}
use sesame_sdk.Tests.Fixture.{toy, ticks, filled, checksum, toy-IsLawful, ticks-IsCalendar}

decodes_upper : hex_decode (codes "FF1a") ≡ some (255 ∷ 26 ∷ [])
unfolding hex_decode decode_pairs val
decodes_upper = refl

hex_encode-hex_decode_example :
    IsBytes (255 ∷ 26 ∷ []) × (hex_encode (255 ∷ 26 ∷ []) ≡ map to_lower (codes "FF1a"))
hex_encode-hex_decode_example = hex_encode-hex_decode (codes "FF1a") (255 ∷ 26 ∷ []) decodes_upper

hex_decode_iff_example : (length (codes "FF1a") % 2 ≡ 0) × All IsHexDigit (codes "FF1a")
hex_decode_iff_example = (hex_decode_iff (codes "FF1a")).0 (255 ∷ 26 ∷ [], decodes_upper)

-- Three lines, of which two are one letter.
abbrev signed : Signed
signed = record {
  method = codes "GET";
  path = codes "/";
  timestamp = codes "t";
  nonce = codes "n";
  body_hash = codes "h";
  scope = some (codes "s");
}

signed-IsLines : IsLines signed
signed-IsLines = record {
  method = omega arith;
  path = omega arith;
  timestamp = omega arith;
  nonce = omega arith;
  body_hash = omega arith;
  scope = omega arith;
}

request_canonical_injective_example : signed ≡ signed
request_canonical_injective_example =
    request_canonical_injective signed signed signed-IsLines signed-IsLines refl

request_canonical-ne-response_canonical_example :
    canonical_of signed ≢ response_canonical (codes "c") (codes "t") (codes "n") (codes "h") none
request_canonical-ne-response_canonical_example =
    request_canonical-ne-response_canonical signed (codes "c") (codes "t") (codes "n") (codes "h")
      none signed-IsLines (λ e. cc) (omega arith) tt

abbrev header_set : HeaderSet
header_set = record {
  version = protocol_version;
  key_id = codes "k";
  timestamp = codes "t";
  nonce = codes "n";
  scope = none;
}

verify_iff_example :
    (verify toy (codes "k") (codes "m") (codes "AB") ≡ ok tt)
    ↔ (map to_lower (codes "AB") ≡ sign toy (codes "k") (codes "m"))
verify_iff_example = verify_iff toy-IsLawful (codes "k") (codes "m") (codes "AB")

verify_any_iff_example :
    verify_any toy (codes "old" ∷ codes "k" ∷ []) (codes "m") (sign toy (codes "k") (codes "m"))
    ≡ ok tt
unfolding sign filled checksum hex_encode
verify_any_iff_example =
    (verify_any_iff toy-IsLawful (codes "old" ∷ codes "k" ∷ []) (codes "m")
        (sign toy (codes "k") (codes "m"))).1
      (codes "k", inr (inl refl), refl)

check_freshness_iff_example : check_freshness ticks (1990 ∷ []) 2000 (pos 300) ≡ ok tt
unfolding ◌+ℤ◌
check_freshness_iff_example =
    (check_freshness_iff ticks-IsCalendar (1990 ∷ []) 2000 (pos 300)).1
      (1990, refl, (omega arith, omega arith))

abbrev first : Call
first = record { key_id = codes "k"; nonce = codes "n"; now = pos 1000 }

abbrev other : Call
other = record { key_id = codes "k"; nonce = codes "m"; now = pos 1200 }

abbrev again : Call
again = record first { now = pos 1299 }

is_window : IsWindow (pos 300)
is_window = (omega arith, omega arith)

serve-IsBounded_example : IsBounded (serve (Replay.new (pos 300)) (first ∷ other ∷ again ∷ []))
serve-IsBounded_example =
    serve-IsBounded (pos 300) (first ∷ other ∷ again ∷ []) is_window
      ((omega arith, omega arith), ((omega arith, omega arith), ((omega arith, omega arith), tt)))

answers-eq-spec_answers_example :
    answers (Replay.new (pos 300)) (first ∷ other ∷ again ∷ [])
    ≡ spec_answers (pos 300) (λ _. none) (first ∷ other ∷ again ∷ [])
answers-eq-spec_answers_example =
    answers-eq-spec_answers (pos 300) (first ∷ other ∷ again ∷ []) is_window (
      omega arith,
      (omega arith, omega arith),
      (omega arith, (omega arith, omega arith), (omega arith, (omega arith, omega arith), tt)),
    )
