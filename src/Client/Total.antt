-- ===== src/Client/Total.antt =====
-- When the client builds a request.
use sesame_sdk.Prelude.{ℕ, ◌≡◌, true, false, none, some, eqb, inl, inr, Bool-cases, if◌then◌else◌}
use sesame_sdk.Prelude.Result.{ok}
use sesame_sdk.Text.{Bytes, codes}
use sesame_sdk.Message.{SesameHeaders, protocol_version}
use sesame_sdk.Message.Hex.{hex_encode}
use sesame_sdk.Canonical.{body_hash_hex, request_canonical}
use sesame_sdk.External.{Crypto}
use sesame_sdk.Tier1.{sign}
use sesame_sdk.Tier3.{seal, aad_for_headers}
use sesame_sdk.Client.{Settings, path_of, nonce_of, scope_of, Wire, seal_body, build_request}

module _ (c : Crypto) (s : Settings) (tier : ℕ) (ts iv plaintext ct : Bytes)
    (e : c.gcm_encrypt s.enc_key iv
        (aad_for_headers protocol_version s.key_id ts (nonce_of tier iv) (scope_of s tier))
        plaintext
      ≡ some ct) where
  seal_body_total :
      (w : Wire) × (seal_body c s tier ts (nonce_of tier iv) (scope_of s tier) iv plaintext ≡ ok w)
  unfolding seal_body seal
  seal_body_total = elim (Bool-cases (eqb tier 3)) [
    | inl three ↦ (
      record { wire = ct; encrypted = true; iv_hex = some (hex_encode iv) },
      rw (three, seal_body, e),
    )
    | inr below ↦ (record { wire = plaintext; encrypted = false; iv_hex = none }, rw below)
  ]

  -- The client builds a request for each tier, where the cipher encrypts the text.
  pub build_request_total :
      (m : SesameHeaders × Bytes) × (build_request c s tier ts iv plaintext ≡ ok m)
  unfolding build_request
  build_request_total =
      let (w, sealed) = seal_body_total in
      (
        (
          record {
            version = some protocol_version;
            key_id = some s.key_id;
            timestamp = some ts;
            nonce = some (nonce_of tier iv);
            signature = some (
                sign c s.signing (
                  request_canonical (codes "POST") (path_of s) ts (nonce_of tier iv)
                    (body_hash_hex c.sha256 w.wire) (scope_of s tier)));
            scope = scope_of s tier;
            encrypted = w.encrypted;
            enc_key_id = if eqb tier 3 then some s.enc_key_id else none;
            iv = w.iv_hex;
          },
          w.wire,
        ),
        rw sealed,
      )
