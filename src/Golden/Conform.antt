-- ===== src/Golden/Conform.antt =====
-- What it is for a deployed program to run, and to do as the crate does on the inputs of the golden
-- vectors.
use sesame_sdk.Prelude.{◌^◌, ◌≤◌, ◌≡◌, Option, none, some, [], length}
use sesame_sdk.Text.{Bytes, codes}
use sesame_sdk.Message.Hex.{hex_encode, hex_decode}
use sesame_sdk.Message.Hex.Laws.{IsBytes}
use sesame_sdk.Canonical.{body_hash_hex, request_canonical, response_canonical}
use sesame_sdk.External.{Crypto}
use sesame_sdk.Tier1.{sign}
use sesame_sdk.Tier3.{aad_for_headers}
use sesame_sdk.Golden.{
  signing_key_hex, enc_key_hex, iv_hex, correlation, Deployed, version, key_id, ts, nonce,
}
use sesame_sdk.Golden.Laws.{signing_key, enc_key, fixed_iv}
use sesame_sdk.Golden.Files.{golden_scope, golden_xml, golden_resp_xml}

-- The deployed program writes bytes and reads the fixed keys in hexadecimal as the crate does, and its
-- cipher encrypts texts to bytes under the fixed key and IV.
pub record IsRunnable (d : Deployed) : Type 0 where
  pub encodes : (b : Bytes) → IsBytes b → d.hex_encode b ≡ hex_encode b
  pub reads_signing_key : d.hex_decode signing_key_hex ≡ hex_decode signing_key_hex
  pub reads_enc_key : d.hex_decode enc_key_hex ≡ hex_decode enc_key_hex
  pub reads_iv : d.hex_decode iv_hex ≡ hex_decode iv_hex
  pub seals :
      (scope : Option Bytes) (text : Bytes)
      → IsBytes text
      → length text ≤ 2 ^ 36
      → (ct : Bytes) × IsBytes ct
        × (d.seal enc_key.0 fixed_iv.0 (d.aad_for_headers version key_id ts nonce scope) text
            ≡ some ct)

module _ (c : Crypto) (d : Deployed) where
  -- The two programs sign the same string of a request, with the same signature.
  abbrev pub SignsRequest : (method path : Bytes) (scope : Option Bytes) (body : Bytes) → Type 0
  SignsRequest method path scope body =
      let ours = request_canonical method path ts nonce (body_hash_hex c.sha256 body) scope in
      let theirs = d.request_canonical method path ts nonce (d.body_hash_hex body) scope in
      (ours ≡ theirs) × (sign c signing_key.0 ours ≡ d.sign signing_key.0 theirs)

  abbrev pub SignsResponse : (scope : Option Bytes) (body : Bytes) → Type 0
  SignsResponse scope body =
      let ours = response_canonical correlation ts nonce (body_hash_hex c.sha256 body) scope in
      let theirs = d.response_canonical correlation ts nonce (d.body_hash_hex body) scope in
      (ours ≡ theirs) × (sign c signing_key.0 ours ≡ d.sign signing_key.0 theirs)

  -- The two programs have the same associated data, and encrypt a text alike.
  abbrev pub Seals : (scope : Option Bytes) (text : Bytes) → Type 0
  Seals scope text =
      let ours = aad_for_headers version key_id ts nonce scope in
      let theirs = d.aad_for_headers version key_id ts nonce scope in
      (ours ≡ theirs)
      × (c.gcm_encrypt enc_key.0 fixed_iv.0 ours text ≡ d.seal enc_key.0 fixed_iv.0 theirs text)

  -- What the two programs do alike on the inputs of the files, where `ct` is the encrypted body.
  pub record Conforms (ct : Bytes) : Type 0 where
    pub plain : SignsRequest (codes "POST") (codes "/esam") none golden_xml
    pub scoped :
        SignsRequest
          (codes "POST")
          (codes "/esam?channel=SportsFeed-East")
          (some golden_scope)
          golden_xml
    pub query :
        SignsRequest
          (codes "POST")
          (codes "/esam?channel=SportsFeed-East&priority=high")
          none
          golden_xml
    pub empty : SignsRequest (codes "POST") (codes "/esam") none []
    pub encrypted : SignsRequest (codes "POST") (codes "/esam") none ct
    pub response : SignsResponse none golden_resp_xml
    pub scoped_response : SignsResponse (some golden_scope) golden_resp_xml
    pub seals : Seals none golden_xml
    pub seals_scoped : Seals (some golden_scope) golden_xml
    pub seals_empty : Seals none []
