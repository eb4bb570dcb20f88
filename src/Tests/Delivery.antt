-- ===== src/Tests/Delivery.antt =====
-- A request of the client's, delivered over HTTP.
use sesame_sdk.Prelude.{◌≡◌, refl, Option, none, some, List, [], ◌∷◌, arith}
use sesame_sdk.Prelude.Int.{◌+ℤ◌}
use sesame_sdk.Text.{Bytes, codes, trim, trim_start, trim_end, trim_by, strip_any, strip_prefix}
use sesame_sdk.Message.{
  protocol_version, h_version, h_key_id, h_timestamp, h_nonce, h_signature, h_scope, h_encrypted,
  h_enc_key_id, h_iv,
}
use sesame_sdk.Message.Hex.{hex_encode}
use sesame_sdk.Canonical.{body_hash_hex, request_canonical}
use sesame_sdk.Adapter.{Http, header_text, headers_from_map, request_target}
use sesame_sdk.Tier.{default_config}
use sesame_sdk.Tier1.{sign}
use sesame_sdk.Tier3.{seal}
use sesame_sdk.Client.{path_of, nonce_of, scope_of, seal_body, build_request}
use sesame_sdk.Client.Laws.{IsVerified}
use sesame_sdk.Client.Send.{sent_headers, url_parts, split_at}
use sesame_sdk.Client.Deliver.{delivered-IsVerified}
use sesame_sdk.Client.ReadBack.{first_value}
use sesame_sdk.Tests.Fixture.{toy, ticks, filled, toy-IsLawful, ticks-IsCalendar}
use sesame_sdk.Tests.Tools.{settings, ciphertext, built}

-- A map is the list of its headers, and a URI is its target.
abbrev plain_http : Http
plain_http = record {
  HeaderMap = List (Bytes × Bytes);
  HeaderValue = Bytes;
  PathAndQuery = Bytes;
  Uri = Bytes;
  get = first_value;
  to_str = some;
  path_and_query = some;
  as_str = λ pq. pq;
  path = λ uri. uri;
}

holds :
    (hdrs : List (Bytes × Bytes)) (name : Bytes)
    → header_text plain_http hdrs name ≡ first_value hdrs name
unfolding header_text
holds hdrs name = same (first_value hdrs name)
  where
    same : (o : Option Bytes) → elim o [ none ↦ none | some v ↦ some v ] ≡ o
    same none = refl
    same (some v) = refl

abbrev pub sent_signature : Bytes
sent_signature = sign toy (codes "secret") (
    request_canonical (codes "POST") (path_of settings) (1990 ∷ []) (nonce_of 3 (filled 12 5))
      (body_hash_hex toy.sha256 ciphertext) (scope_of settings 3))

abbrev pub sent : List (Bytes × Bytes)
sent =
    (codes "Content-Type", codes "application/octet-stream")
    ∷ (h_version, protocol_version)
    ∷ (h_key_id, codes "sas-east-01")
    ∷ (h_timestamp, 1990 ∷ [])
    ∷ (h_nonce, nonce_of 3 (filled 12 5))
    ∷ (h_signature, sent_signature)
    ∷ (h_scope, codes "channel=default")
    ∷ (h_encrypted, codes "true")
    ∷ (h_enc_key_id, codes "enc-2026q1")
    ∷ (h_iv, hex_encode (filled 12 5))
    ∷ []

delivered-IsVerified_example :
    (request_target plain_http (path_of settings) ≡ path_of settings)
    × IsVerified toy ticks default_config settings 3
        (codes "<x/>")
        2000
        (headers_from_map plain_http sent, ciphertext)
unfolding filled build_request seal_body seal trim trim_start trim_end trim_by strip_any
    strip_prefix ◌+ℤ◌ sent_headers url_parts split_at
delivered-IsVerified_example =
    delivered-IsVerified toy-IsLawful ticks-IsCalendar default_config settings plain_http 3
      (1990 ∷ []) (filled 12 5) (codes "<x/>") (codes "h:1") sent_signature ciphertext built.0 2000
      1990 sent sent (path_of settings) (path_of settings) (omega arith) (omega arith) refl
      (omega arith) refl refl (omega arith, omega arith) refl refl refl (holds sent)
      (λ e. omega (arith, e), (λ e. omega (arith, e), (λ e. omega (arith, e), tt))) refl refl
