-- ===== src/Tests/Responses.antt =====
-- A response of Tier 3 that the signer makes and the peer accepts.
use sesame_sdk.Prelude.{◌≡◌, refl, [], ◌∷◌, arith, inr}
use sesame_sdk.Prelude.Int.{pos, ◌+ℤ◌}
use sesame_sdk.Prelude.AssocMap.{get, insert}
use sesame_sdk.Prelude.Result.{ok}
use sesame_sdk.Text.{codes, bytes_eq}
use sesame_sdk.Message.Hex.{hex_encode}
use sesame_sdk.Keys.{
  StaticKeyProvider, with_signing_key, with_aead_key, static_provider, new, all_scope,
}
use sesame_sdk.Respond.{SignedResponse, sign_response}
use sesame_sdk.Respond.Laws.{IsAnswer}
use sesame_sdk.Respond.Total.{sign_response_total}
use sesame_sdk.Tier.{default_config}
use sesame_sdk.Tier3.{aad_for_headers}
use sesame_sdk.Tests.Fixture.{ticks, ticks-IsCalendar, filled}
use sesame_sdk.Tests.Messages.{params}
use sesame_sdk.Tests.Gcm.{stamped, stamped-IsLawful, stamped_gcm}

-- A directory of a node and an encryption key of 32 bytes.
abbrev node_directory : StaticKeyProvider
node_directory =
    with_aead_key (with_signing_key new (codes "pois") (codes "p") all_scope) (codes "enc-1")
      (filled 32 9)

sign_response_total_example :
    (r : SignedResponse) × (sign_response stamped ticks default_config
        (static_provider node_directory)
        params
        (codes "<x/>")
        1990
        (filled 16 171)
        (filled 12 5)
      ≡ ok r)
    × IsAnswer stamped ticks (pos 300) (static_provider node_directory) params (codes "<x/>") 2020 r
unfolding static_provider with_signing_key with_aead_key get insert bytes_eq filled ◌+ℤ◌
    aad_for_headers hex_encode
sign_response_total_example =
    sign_response_total stamped-IsLawful stamped_gcm ticks-IsCalendar default_config
      (static_provider node_directory) params (codes "<x/>") 1990 2020 (filled 16 171) (filled 12 5)
      (codes "p") [] (1990 ∷ []) (omega arith) refl (omega arith, omega arith) refl refl
      (inr (record {
        enc_key_id = codes "enc-1";
        aead = filled 32 9;
        named = refl;
        has_key = refl;
        length_key = refl;
        aad_small = omega arith;
        text_small = omega arith;
      }))
