-- ===== src/Tests/Tools.antt =====
-- The client and the golden vectors at concrete inputs.
use sesame_sdk.Prelude.{refl, true, some, [], ◌∷◌, ◌++◌, arith}
use sesame_sdk.Prelude.Int.{◌+ℤ◌}
use sesame_sdk.Text.{Bytes, codes, trim, trim_start, trim_end, trim_by, strip_any, strip_prefix}
use sesame_sdk.Message.{SesameHeaders, protocol_version}
use sesame_sdk.Message.Hex.{hex_encode}
use sesame_sdk.Canonical.{body_hash_hex, request_canonical}
use sesame_sdk.Tier.{default_config}
use sesame_sdk.Tier1.{sign}
use sesame_sdk.Tier3.{seal, aad_for_headers}
use sesame_sdk.Client.{Settings, path_of, nonce_of, scope_of, seal_body, build_request}
use sesame_sdk.Client.Laws.{IsVerified, build_request-IsVerified}
use sesame_sdk.Tests.Fixture.{toy, ticks, filled, checksum, toy-IsLawful, ticks-IsCalendar}

abbrev pub settings : Settings
settings = record {
  key_id = codes "sas-east-01";
  signing = codes "secret";
  enc_key_id = codes "enc-2026q1";
  enc_key = codes "aead";
  channel = codes "default";
}

abbrev pub ciphertext : Bytes
ciphertext =
    checksum (
      codes "aead"
      ++ filled 12 5
      ++ aad_for_headers protocol_version (codes "sas-east-01") (1990 ∷ [])
          (nonce_of 3 (filled 12 5)) (scope_of settings 3))
    ∷ codes "<x/>"

abbrev pub built : SesameHeaders × Bytes
built = (
  record {
    version = some protocol_version;
    key_id = some (codes "sas-east-01");
    timestamp = some (1990 ∷ []);
    nonce = some (nonce_of 3 (filled 12 5));
    signature = some (
        sign toy (codes "secret") (
          request_canonical (codes "POST") (path_of settings) (1990 ∷ []) (nonce_of 3 (filled 12 5))
            (body_hash_hex toy.sha256 ciphertext) (scope_of settings 3)));
    scope = scope_of settings 3;
    encrypted = true;
    enc_key_id = some (codes "enc-2026q1");
    iv = some (hex_encode (filled 12 5));
  },
  ciphertext,
)

build_request-IsVerified_example :
    IsVerified toy ticks default_config settings 3 (codes "<x/>") 2000 built
unfolding filled build_request seal_body seal trim trim_start trim_end trim_by strip_any
    strip_prefix ◌+ℤ◌
build_request-IsVerified_example =
    build_request-IsVerified toy-IsLawful ticks-IsCalendar default_config settings 3 (1990 ∷ [])
      (filled 12 5) (codes "<x/>") 2000 1990 built (omega arith) (omega arith) refl (omega arith)
      refl refl (omega arith, omega arith) refl
