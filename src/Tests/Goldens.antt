-- ===== src/Tests/Goldens.antt =====
-- The files of a deployed program that is the Go port, at the gate.
use sesame_sdk.Prelude.{◌≡◌, ◌↔◌, refl, true, Option, none, some, ◌++◌, arith}
use sesame_sdk.Text.{Bytes}
use sesame_sdk.Message.Hex.{◌>>=◌, hex_encode, hex_decode}
use sesame_sdk.Message.Hex.Laws.{IsBytes}
use sesame_sdk.Golden.{
  Deployed, version, key_id, ts, nonce, reproduces_request, reproduces_response, reproduces_aead,
}
use sesame_sdk.Golden.Laws.{enc_key, fixed_iv, fixed_iv_length}
use sesame_sdk.Golden.Files.{golden_xml, golden_requests, golden_responses, golden_aeads, gate}
use sesame_sdk.Golden.Gate.{append_bytes, golden_gate_iff}
use sesame_sdk.Golden.Conform.{IsRunnable, Conforms}
use sesame_sdk.Go.Codec.{
  go_body_hash_hex, go_request_canonical, go_response_canonical, go_sign, go_aad_for_headers,
  go_seal,
}
use sesame_sdk.Tests.Gcm.{tag_of, tag_of-IsBytes, stamped, stamped-IsLawful, stamped_gcm}

abbrev port : Deployed
port = record {
  body_hash_hex = go_body_hash_hex stamped;
  request_canonical = go_request_canonical;
  response_canonical = go_response_canonical;
  hex_encode = hex_encode;
  hex_decode = hex_decode;
  sign = go_sign stamped;
  aad_for_headers = go_aad_for_headers;
  seal = go_seal stamped;
}

abbrev sealed : (scope : Option Bytes) (text : Bytes) → Bytes
sealed scope text =
    text ++ tag_of enc_key.0 fixed_iv.0 (go_aad_for_headers version key_id ts nonce scope) text

sealed-IsBytes : (scope : Option Bytes) (text : Bytes) → IsBytes text → IsBytes (sealed scope text)
sealed-IsBytes scope text h =
    append_bytes text (tag_of enc_key.0 fixed_iv.0 _ text) h
      (tag_of-IsBytes enc_key.0 fixed_iv.0 _ text)

seals :
    (scope : Option Bytes) (text : Bytes)
    → go_seal stamped enc_key.0 fixed_iv.0 (go_aad_for_headers version key_id ts nonce scope) text
      ≡ some (sealed scope text)
unfolding go_seal
seals scope text = rw fixed_iv_length refl

runs : IsRunnable port
runs = record {
  encodes = λ b h. refl;
  reads_signing_key = refl;
  reads_enc_key = refl;
  reads_iv = refl;
  seals = λ scope text h small. (sealed scope text, sealed-IsBytes scope text h, seals scope text);
}

golden_gate_iff_example :
    (((golden_requests port >>= gate (reproduces_request stamped)) ≡ some true)
      × ((golden_responses port >>= gate (reproduces_response stamped)) ≡ some true)
      × ((golden_aeads port >>= gate (reproduces_aead stamped)) ≡ some true))
    ↔ Conforms stamped port (sealed none golden_xml)
golden_gate_iff_example =
    golden_gate_iff stamped-IsLawful stamped_gcm runs (sealed none golden_xml)
      (sealed-IsBytes none golden_xml (omega arith)) (seals none golden_xml)
