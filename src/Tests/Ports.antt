-- ===== src/Tests/Ports.antt =====
-- The Go port and the crate on one request and one response.
use sesame_sdk.Prelude.{
  ◌%◌, ◌^◌, ◌≡◌, refl, Option, none, some, [], ◌∷◌, if◌then◌else◌, ◌==◌, All, inl, inr, Bool-cases,
  List, arith,
}
use sesame_sdk.Prelude.Int.{ℤ, pos, negsuc, ◌+ℤ◌}
use sesame_sdk.Text.{
  Bytes, bytes_Eq, bytes_eq, codes, eq_ignore_ascii_case, trim, trim_start, trim_end, trim_by,
  strip_any, strip_prefix,
}
use sesame_sdk.Message.{
  from_lookup, h_version, h_key_id, h_timestamp, h_nonce, h_signature, h_scope, protocol_version,
}
use sesame_sdk.Canonical.{body_hash_hex, request_canonical, response_canonical}
use sesame_sdk.Keys.{static_provider, with_aead_key, with_signing_key}
use sesame_sdk.Replay.{InMemoryReplayCache, in_memory}
use sesame_sdk.Replay
use sesame_sdk.Respond.{SignedResponse, sign_response}
use sesame_sdk.Tier.{one, default_config}
use sesame_sdk.Tier1.{sign}
use sesame_sdk.Verify.{RequestContext, verify_request}
use sesame_sdk.Go.Message.{go_headers_from_lookup}
use sesame_sdk.Go.Cache.{go_static_provider}
use sesame_sdk.Go.Verify.{scope_pointer, go_verify_request}
use sesame_sdk.Go.Respond.{go_sign_response, go_response_body}
use sesame_sdk.Go.Same.Grants.{coded_as, as_go_verified}
use sesame_sdk.Go.Same.Requests.{go_in_memory, go_server_lem}
use sesame_sdk.Go.Same.Responses.{as_go_params, go_sign_response_lem}
use sesame_sdk.Tests.Fixture.{toy, ticks, filled, pois_directory, toy-IsLawful, ticks-IsCalendar}
use sesame_sdk.Tests.Messages.{params, answered}
use sesame_sdk.Tests.Tools.{settings, ciphertext, built}
use sesame_sdk.Tests.Delivery.{sent, sent_signature}
use sesame_sdk.Client.{seal_body, build_request}
use sesame_sdk.Client.Send.{sent_headers}
use sesame_sdk.Client.ReadBack.{first_value}
use sesame_sdk.Tier3.{seal, aad_for_headers}
use sesame_sdk.Message.Hex.{hex_encode}
use sesame_sdk.Prelude.AssocMap.{get, insert}
use sesame_sdk.Go.Codec.{
  go_seal, go_sign, go_aad_for_headers, go_response_canonical, go_body_hash_hex,
}
use sesame_sdk.Respond.Laws.{IsAnswer}
use sesame_sdk.Go.Interop.{
  Gets, IsGoVerified, build_request-IsGoVerified, go_sign_response-IsAnswer,
}

-- A request for the channel East, for Tier 2.
abbrev the_ctx : RequestContext
the_ctx = record { method = codes "POST"; path = codes "/esam"; target_channel = none }

abbrev the_scope : Bytes
the_scope = codes "channel=East"

abbrev the_signature : Bytes
the_signature = sign toy (codes "s") (
    request_canonical (codes "POST") (codes "/esam") (1990 ∷ []) (codes "n")
      (body_hash_hex toy.sha256 (codes "<x/>")) (some the_scope))

abbrev header : (name : Bytes) → Bytes
header name =
    if name == h_version
    then protocol_version
    else if name == h_key_id
    then codes "k"
    else if name == h_timestamp
    then 1990 ∷ []
    else if name == h_nonce
    then codes "n"
    else if name == h_signature
    then the_signature
    else if name == h_scope
    then the_scope
    else []

-- The port's parser and printer of times, of one code.
abbrev parsed : Bytes → Option ℤ
parsed (t ∷ []) = some (pos (t % 2 ^ 45))
parsed _ = none

abbrev printed : ℤ → Bytes
printed (pos t) = t ∷ []
printed (negsuc t) = []

go_server_lem_example :
    go_verify_request toy parsed
      (pos 300)
      (go_static_provider pois_directory)
      go_in_memory
      the_ctx
      (go_headers_from_lookup header)
      (codes "<x/>")
      (pos 2000)
      1
      (Replay.new (pos 300))
    ≡ (let answer =
          verify_request toy ticks default_config
            (static_provider pois_directory)
            in_memory
            the_ctx
            (from_lookup (λ name. scope_pointer (header name)))
            (codes "<x/>")
            2000
            one
            (Replay.new (pos 300)) in
        (coded_as as_go_verified answer.0, answer.1))
unfolding bytes_eq
go_server_lem_example =
    go_server_lem toy-IsLawful ticks parsed default_config pois_directory the_ctx header
      (codes "<x/>") 2000 one (Replay.new (pos 300)) refl

go_sign_response_lem_example :
    go_sign_response toy printed
      (codes "seal")
      (go_static_provider pois_directory)
      (as_go_params params)
      (codes "<x/>")
      (pos 1990)
      (filled 16 171)
      (filled 12 5)
    ≡ coded_as
        (λ (r : SignedResponse). r)
        (sign_response toy ticks default_config
          (static_provider pois_directory)
          params
          (codes "<x/>")
          1990
          (filled 16 171)
          (filled 12 5))
unfolding filled
go_sign_response_lem_example =
    go_sign_response_lem toy ticks printed (codes "seal") default_config pois_directory params
      (codes "<x/>") 1990 (filled 16 171) (filled 12 5) (1990 ∷ []) refl refl refl
      (λ aead aad. (_, refl))

-- The texts of the headers that were sent.
abbrev text_of : Option Bytes → Bytes
text_of none = []
text_of (some v) = v

abbrev of_sent : (name : Bytes) → Bytes
of_sent name = text_of (first_value sent name)

Gets-first_value :
    (hdrs : List (Bytes × Bytes))
    → All (λ (h : Bytes × Bytes). scope_pointer h.1 ≡ some h.1) hdrs
    → Gets (λ name. text_of (first_value hdrs name)) hdrs
unfolding first_value
Gets-first_value [] h name = refl
Gets-first_value ((n, v) ∷ hdrs) (p, h) name = elim (Bool-cases (eq_ignore_ascii_case n name)) [
  | inl e ↦ rw e p
  | inr e ↦ rw e (Gets-first_value hdrs h name)
]

build_request-IsGoVerified_example :
    IsGoVerified toy parsed (pos 300) (pos 2000) settings 3 (codes "<x/>") of_sent ciphertext
unfolding filled build_request seal_body seal trim trim_start trim_end trim_by strip_any
    strip_prefix ◌+ℤ◌ sent_headers hex_encode sign
build_request-IsGoVerified_example =
    build_request-IsGoVerified toy-IsLawful ticks-IsCalendar default_config settings (1990 ∷ [])
      (filled 12 5) (codes "<x/>") parsed 3 sent_signature ciphertext built.0 2000 1990 sent of_sent
      (omega arith) (omega arith) refl (omega arith) refl refl refl (omega arith, omega arith) refl
      refl refl
      (Gets-first_value sent
        (refl, (refl, (refl, (refl, (refl, (refl, (refl, (refl, (refl, (refl, tt)))))))))))

go_sign_response-IsAnswer_example :
    IsAnswer toy ticks
      (pos 300)
      (static_provider pois_directory)
      params
      (codes "<x/>")
      2020
      answered
unfolding filled ◌+ℤ◌ go_sign_response go_static_provider get with_aead_key with_signing_key insert
    go_response_body go_seal sign go_sign aad_for_headers go_aad_for_headers response_canonical
    go_response_canonical hex_encode body_hash_hex go_body_hash_hex
go_sign_response-IsAnswer_example =
    go_sign_response-IsAnswer toy-IsLawful ticks-IsCalendar printed (codes "seal") default_config
      pois_directory params (codes "<x/>") 1990 2020 (filled 16 171) (filled 12 5) (1990 ∷ [])
      answered refl refl (omega arith) refl (λ aead aad. (_, refl)) (omega arith, omega arith) refl
