-- ===== src/Tests/Runs.antt =====
-- The client's loop, the bytes that it writes and what it makes of a response, at concrete inputs.
use sesame_sdk.Prelude.{
  ℕ, ◌≡◌, refl, true, not, ◌||◌, none, some, List, [], ◌∷◌, ◌++◌, if◌then◌else◌, arith, ◌==◌,
  ==_refl,
}
use sesame_sdk.Prelude.Int.{pos, ◌+ℤ◌}
use sesame_sdk.Prelude.AssocMap.{get, insert}
use sesame_sdk.Text.{
  Bytes, bytes_Eq, bytes_eq, codes, trim, trim_start, trim_end, trim_by, strip_any, strip_prefix,
}
use sesame_sdk.Text.Decimal.{fixed}
use sesame_sdk.Message.{protocol_version}
use sesame_sdk.External.{Clock, IsCalendar}
use sesame_sdk.Keys.{static_provider, with_signing_key, with_aead_key, primary_signing_key}
use sesame_sdk.Respond.{sign_response, respond_body}
use sesame_sdk.Tier.{three, tier_ge, default_config}
use sesame_sdk.Tier3.{seal, aad_for_headers}
use sesame_sdk.Client.{nonce_of, scope_of}
use sesame_sdk.Client.Send.{url_parts, split_at}
use sesame_sdk.Client.Stamp.{Fields, IsCivil, rfc3339, utc_text}
use sesame_sdk.Client.Run.{Draw, Sent, done, xml_of, main_run}
use sesame_sdk.Client.Rounds.{IsUsable, IsDelivered, main_run-IsDelivered}
use sesame_sdk.Client.Post.{request_text, status_of, response_marks}
use sesame_sdk.Client.Lines.{own_fields, read_request-request_text, lacks_sound, literal-IsField}
use sesame_sdk.Client.Reader.{read_request}
use sesame_sdk.Client.Marks.{response_text, signed_response_seen}
use sesame_sdk.Tests.Fixture.{toy, filled, checksum, pois_directory, toy-IsLawful, ticks-IsCalendar}
use sesame_sdk.Tests.Tools.{settings}
use sesame_sdk.Tests.Messages.{params, answered}

-- A clock that stands still.
abbrev the_fields : Fields
the_fields = record { year = pos 2026; month = 2; day = 24; hour = 18; minute = 0; second = 0 }

abbrev the_text : Bytes
unfolding fixed
the_text = utc_text 2026 the_fields

abbrev moment : Clock
moment = record {
  Time = Unit;
  unix_timestamp = λ t. pos 1771956000;
  parse_rfc3339 = λ s. if s == the_text then some tt else none;
  format_rfc3339 = λ t. some the_text;
}

moment-IsCalendar : IsCalendar moment
moment-IsCalendar = record {
  dates = λ t. (omega arith, omega arith);
  parse-format = λ t s h. (tt, let e : the_text ≡ s = cc in rw (← e, ==_refl the_text), refl);
}

moment-IsCivil : IsCivil moment (λ t. the_fields) (λ t. true)
unfolding fixed bytes_eq
moment-IsCivil = record {
  month_small = λ t. omega arith;
  day_small = λ t. omega arith;
  hour_small = λ t. omega arith;
  minute_small = λ t. omega arith;
  second_small = λ t. omega arith;
  parses = λ t y utc e lt. (tt, let f : 2026 ≡ y = cc in rw (← f) refl, refl);
}

abbrev draw : Draw moment
draw = record { stamped_at = tt; checked_at = tt; iv = filled 12 5 }

usable : (tier : ℕ) → IsUsable toy moment (λ t. the_fields) (λ t. true) settings tier draw
unfolding filled ◌+ℤ◌
usable tier = record {
  utc = refl;
  year = 2026;
  has_year = refl;
  year_small = omega arith;
  iv_bytes = omega arith;
  iv_length = refl;
  near = (omega arith, omega arith);
  ct =
      checksum (
        codes "aead"
        ++ filled 12 5
        ++ aad_for_headers protocol_version settings.key_id (rfc3339 the_fields)
            (nonce_of tier (filled 12 5)) (scope_of settings tier))
      ∷ xml_of tier;
  encrypts = refl;
}

main_run-IsDelivered_example :
    (a b d : Sent) × (main_run toy moment
        (λ t. the_fields)
        settings
        (codes "http://" ++ codes "h:1")
        draw
        draw
        draw
      ≡ (a ∷ b ∷ d ∷ [], done))
    × IsDelivered toy moment settings (codes "h:1") 1 draw a
    × IsDelivered toy moment settings (codes "h:1") 2 draw b
    × IsDelivered toy moment settings (codes "h:1") 3 draw d
unfolding trim trim_start trim_end trim_by strip_any strip_prefix
main_run-IsDelivered_example =
    main_run-IsDelivered toy-IsLawful moment-IsCalendar (λ t. the_fields) (λ t. true) moment-IsCivil
      settings (codes "h:1") refl
      (λ e. omega (arith, e), (λ e. omega (arith, e), (λ e. omega (arith, e), tt))) draw draw draw
      (usable 1) (usable 2) (usable 3)

abbrev sent : List (Bytes × Bytes)
sent = (codes "X-SESAME-KeyId", codes "k") ∷ []

read_request-request_text_example :
    read_request (request_text (codes "http://h:1/esam?a=1") sent (codes "<x/>"))
    ≡ some (record {
      request_line = codes "POST /esam?a=1 HTTP/1.1";
      fields = own_fields (codes "h") (codes "<x/>") ++ sent;
      body = codes "<x/>";
    })
unfolding url_parts split_at strip_prefix
read_request-request_text_example =
    read_request-request_text (codes "http://h:1/esam?a=1") (codes "h:1") (codes "/esam?a=1") sent
      (codes "<x/>") refl (lacks_sound 13 (codes "/esam?a=1") refl)
      (lacks_sound 13 (codes "h") refl)
      (
        literal-IsField b'X' (codes "-SESAME-KeyId") (codes "k") refl refl
            (lacks_sound 13 (codes "k") refl),
        tt,
      )

signed_response_seen_example :
    (status_of (response_text b'H' (codes "TTP/1.1") 200 (codes "OK") answered (codes "\r\n<x/>"))
      ≡ 200)
    × ((response_marks
          (response_text b'H' (codes "TTP/1.1") 200 (codes "OK") answered (codes "\r\n<x/>"))).0
        ≡ true)
    × ((not (tier_ge params.tier three)
          || (response_marks (
              response_text b'H' (codes "TTP/1.1") 200 (codes "OK") answered (codes "\r\n<x/>"))).1)
        ≡ true)
unfolding filled checksum sign_response respond_body primary_signing_key static_provider
    with_signing_key with_aead_key get insert bytes_eq seal aad_for_headers
signed_response_seen_example =
    signed_response_seen toy-IsLawful ticks-IsCalendar default_config
      (static_provider pois_directory) params (codes "<x/>") 1990 (filled 16 171) (filled 12 5)
      answered b'H' (codes "TTP/1.1") 200 (codes "OK") (codes "\r\n<x/>") refl (omega arith)
      (omega arith)
