-- ===== src/Tests/Messages.antt =====
-- The directory's updates, a signed response, and two messages with one signature.
use sesame_sdk.Prelude.{
  ℕ, leb, if◌then◌else◌, ◌-◌, ◌++◌, ◌≡◌, refl, true, false, none, some, [], ◌∷◌, arith, map,
}
use sesame_sdk.Prelude.Int.{pos, ◌+ℤ◌}
use sesame_sdk.Prelude.AssocMap.{get, insert}
use sesame_sdk.Text.{Bytes, codes, bytes_eq}
use sesame_sdk.Message.{protocol_version, h_encrypted, h_enc_key_id, h_iv, h_signature}
use sesame_sdk.Message.Hex.{hex_encode}
use sesame_sdk.Canonical.{body_hash_hex, request_canonical, response_canonical}
use sesame_sdk.Keys.{
  with_signing_key, with_aead_key, add_overlap_key, revoke, static_provider, primary_signing_key,
}
use sesame_sdk.Keys.Laws.{revoke_lem, add_overlap_key_lem}
use sesame_sdk.Tier.{default_config, three}
use sesame_sdk.Tier1.{sign}
use sesame_sdk.Tier3.{aad_for_headers, seal}
use sesame_sdk.Verify.Binding.{Message, IsClean, SameRequest, signature_binds}
use sesame_sdk.Respond.{ResponseParams, SignedResponse, sign_response, respond_body, first_headers}
use sesame_sdk.Respond.Laws.{IsAnswer, sign_response-IsAnswer}
use sesame_sdk.Tests.Fixture.{
  toy, ticks, filled, checksum, pois_directory, toy-IsLawful, ticks-IsCalendar,
}

revoke_lem_example :
    let after = static_provider (revoke pois_directory (codes "k")) in
    (after.is_revoked (codes "k") ≡ true)
    × (after.is_authorized (codes "k") (codes "East") ≡ false)
    × (after.signing_keys (codes "k") ≡ codes "s" ∷ [])
    × (after.aead_key (codes "enc-1") ≡ (static_provider pois_directory).aead_key (codes "enc-1"))
unfolding static_provider with_signing_key with_aead_key get insert bytes_eq
revoke_lem_example =
    let r = revoke_lem pois_directory (codes "k") (codes "k") (codes "East") in
    let other_key = revoke_lem pois_directory (codes "k") (codes "enc-1") (codes "East") in
    (r.0, r.1, r.2, other_key.3)

add_overlap_key_lem_example :
    (static_provider (add_overlap_key pois_directory (codes "k") (codes "next"))).signing_keys
      (codes "k")
    ≡ codes "s" ∷ codes "next" ∷ []
unfolding static_provider with_signing_key with_aead_key get insert bytes_eq
add_overlap_key_lem_example =
    (add_overlap_key_lem pois_directory (codes "k") (codes "k") (codes "East") (codes "next")).0

-- A response of Tier 3, and the peer half a minute later.
abbrev pub params : ResponseParams
params = record {
  signing_key_id = codes "pois";
  correlation = codes "signal-1";
  scope = some (codes "channel=East");
  tier = three;
  enc_key_id = some (codes "enc-1");
}

abbrev sealed_answer : Bytes
sealed_answer =
    checksum (
      codes "aead"
      ++ filled 12 5
      ++ aad_for_headers protocol_version (codes "pois") (1990 ∷ []) (hex_encode (filled 16 171))
          (some (codes "channel=East")))
    ∷ codes "<x/>"

abbrev pub answered : SignedResponse
answered = record {
  headers =
      first_headers params (1990 ∷ []) (hex_encode (filled 16 171))
      ++ ((h_encrypted, codes "true")
          ∷ (h_enc_key_id, codes "enc-1")
          ∷ (h_iv, hex_encode (filled 12 5))
          ∷ [])
      ++ (
        h_signature,
        sign toy (codes "p") (
            response_canonical (codes "signal-1") (1990 ∷ []) (hex_encode (filled 16 171))
              (body_hash_hex toy.sha256 sealed_answer) (some (codes "channel=East"))),
      )
        ∷ [];
  body = sealed_answer;
  content_type = codes "application/octet-stream";
}

sign_response-IsAnswer_example :
    IsAnswer toy ticks
      (pos 300)
      (static_provider pois_directory)
      params
      (codes "<x/>")
      2020
      answered
unfolding filled checksum sign_response respond_body primary_signing_key static_provider
    with_signing_key with_aead_key get insert bytes_eq seal aad_for_headers ◌+ℤ◌
sign_response-IsAnswer_example =
    sign_response-IsAnswer toy-IsLawful ticks-IsCalendar default_config
      (static_provider pois_directory) params (codes "<x/>") 1990 (filled 16 171) (filled 12 5) 2020
      answered (omega arith) refl (omega arith, omega arith) refl

-- One message, signed, and the same message with its signature in upper case.
abbrev message : (Bytes → Bytes) → Message
message upper =
    let signature = upper (
      sign toy (codes "s") (
        request_canonical (codes "POST") (codes "/esam") (codes "t") (codes "n")
          (body_hash_hex toy.sha256 (codes "<x/>")) none)) in
    record {
      ctx = record { method = codes "POST"; path = codes "/esam"; target_channel = none };
      headers = record {
        version = some protocol_version;
        key_id = some (codes "k");
        timestamp = some (codes "t");
        nonce = some (codes "n");
        signature = some signature;
        scope = none;
        encrypted = false;
        enc_key_id = none;
        iv = none;
      };
      raw_body = codes "<x/>";
      t1 = record {
        version = protocol_version;
        key_id = codes "k";
        timestamp = codes "t";
        nonce = codes "n";
        signature = signature;
      };
    }

-- The capital of a lower-case letter.
abbrev capital : ℕ → ℕ
capital c = if leb b'a' c then c - 32 else c

message-IsClean : (upper : Bytes → Bytes) → IsClean (message upper)
message-IsClean upper = record {
  method = omega arith;
  path = omega arith;
  timestamp = omega arith;
  nonce = omega arith;
  scope = tt;
}

signature_binds_example : SameRequest (message (λ s. s)) (message (map capital))
unfolding sign filled checksum hex_encode request_canonical body_hash_hex
signature_binds_example =
    signature_binds toy-IsLawful (codes "s") (message (λ s. s)) (message (map capital))
      (message-IsClean (λ s. s)) (message-IsClean (map capital))
      (record { hmac = λ e. refl; sha = λ e. refl }) refl refl refl
