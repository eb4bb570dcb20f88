-- ===== src/Golden/Laws.antt =====
-- The vectors that the extractor makes pass the conformance gate.
use sesame_sdk.Prelude.{
  length, ◌≡◌, ◌↔◌, ◌&&◌, arith, refl, Bool, true, Option, some, ==_refl, ◌==◌,
}
use sesame_sdk.Text.{Bytes, bytes_Eq, bytes_eq_iff}
use sesame_sdk.Message.Hex.{◌>>=◌, hex_encode, hex_decode, decode_pairs, val}
use sesame_sdk.Message.Hex.Laws.{IsBytes, hex_decode-hex_encode}
use sesame_sdk.Canonical.{body_hash_hex, request_canonical, response_canonical}
use sesame_sdk.External.{Crypto, IsLawful}
use sesame_sdk.Tier1.{sign}
use sesame_sdk.Tier3.{seal, unseal, aad_for_headers, key_len, iv_len}
use sesame_sdk.Golden.{
  req_vector, resp_vector, aead_vector, signing_key_hex, enc_key_hex, iv_hex, correlation, Deployed,
  version, key_id, ts, nonce, decode_sized, reproduces_request, reproduces_response,
  reproduces_aead,
}

pub signing_key : (key : Bytes) × (hex_decode signing_key_hex ≡ some key)
unfolding hex_decode decode_pairs val
signing_key = (_, refl)

pub enc_key : (key : Bytes) × (decode_sized hex_decode key_len enc_key_hex ≡ some key)
unfolding decode_sized hex_decode decode_pairs val
enc_key = (_, refl)

pub fixed_iv : (iv : Bytes) × (decode_sized hex_decode iv_len iv_hex ≡ some iv)
unfolding decode_sized hex_decode decode_pairs val
fixed_iv = (_, refl)

pub enc_key_length : length enc_key.0 ≡ 32
unfolding enc_key
enc_key_length = refl

pub fixed_iv_length : length fixed_iv.0 ≡ 12
unfolding fixed_iv
fixed_iv_length = refl

both_iff : (a b u v : Bytes) → (some (a == b && u == v) ≡ some true) ↔ ((a ≡ b) × (u ≡ v))
both_iff a b u v = ground (arith, bytes_eq_iff a b, bytes_eq_iff u v)

three_iff :
    (a b u v x : Bytes) → (some (a == b && u == v && x == x) ≡ some true) ↔ ((a ≡ b) × (u ≡ v))
three_iff a b u v x = rw (==_refl x) (ground (arith, bytes_eq_iff a b, bytes_eq_iff u v))

-- The deployed program encodes the text and decodes the fixed keys as the crate does.
pub record SharesHex (d : Deployed) (text : Bytes) : Type 0 where
  pub encodes : d.hex_encode text ≡ hex_encode text
  pub signing_key : d.hex_decode signing_key_hex ≡ hex_decode signing_key_hex
  pub enc_key : d.hex_decode enc_key_hex ≡ hex_decode enc_key_hex
  pub iv : d.hex_decode iv_hex ≡ hex_decode iv_hex

module _ (c : Crypto) (d : Deployed) where
  -- The conformance gate passes a request vector that the deployed program made of a body of bytes
  -- exactly when the crate's signing string and signature are the deployed program's.
  pub req_vector_iff :
      (name method path : Bytes) (scope : Option Bytes) (body : Bytes) (body_utf8 : Option Bytes)
      (encrypted : Bool) (key : Bytes)
      → IsBytes body
      → SharesHex d body
      → hex_decode signing_key_hex ≡ some key
      → (let ours = request_canonical method path ts nonce (body_hash_hex c.sha256 body) scope in
          let theirs = d.request_canonical method path ts nonce (d.body_hash_hex body) scope in
          ((req_vector d name method path scope body body_utf8 encrypted >>= reproduces_request c)
            ≡ some true)
          ↔ ((ours ≡ theirs) × (sign c key ours ≡ d.sign key theirs)))
  unfolding req_vector reproduces_request
  req_vector_iff name method path scope body body_utf8 encrypted key b shares e =
      rw (shares.signing_key, e, shares.encodes, hex_decode-hex_encode body b, e) (both_iff _ _ _ _)

  -- The conformance gate passes a response vector that the deployed program made of a body of bytes
  -- exactly when the crate's signing string and signature are the deployed program's.
  pub resp_vector_iff :
      (name : Bytes) (scope : Option Bytes) (body body_utf8 key : Bytes)
      → IsBytes body
      → SharesHex d body
      → hex_decode signing_key_hex ≡ some key
      → (let ours = response_canonical correlation ts nonce (body_hash_hex c.sha256 body) scope in
          let theirs = d.response_canonical correlation ts nonce (d.body_hash_hex body) scope in
          ((resp_vector d name scope body body_utf8 >>= reproduces_response c) ≡ some true)
          ↔ ((ours ≡ theirs) × (sign c key ours ≡ d.sign key theirs)))
  unfolding resp_vector reproduces_response
  resp_vector_iff name scope body body_utf8 key b shares e =
      rw (shares.signing_key, e, shares.encodes, hex_decode-hex_encode body b, e) (both_iff _ _ _ _)

  -- The conformance gate passes an AEAD vector that the deployed program made of a plaintext of bytes
  -- exactly when the crate's associated data and encoded ciphertext are the deployed program's: where
  -- both ciphers encrypt the plaintext under the fixed key and IV.
  pub aead_vector_iff :
      IsLawful c
      → (name : Bytes) (scope : Option Bytes) (plaintext plaintext_utf8 key iv ours theirs : Bytes)
      → IsBytes plaintext
      → SharesHex d plaintext
      → decode_sized hex_decode key_len enc_key_hex ≡ some key
      → decode_sized hex_decode iv_len iv_hex ≡ some iv
      → c.gcm_encrypt key iv (aad_for_headers version key_id ts nonce scope) plaintext ≡ some ours
      → d.seal key iv (d.aad_for_headers version key_id ts nonce scope) plaintext ≡ some theirs
      → ((aead_vector d name scope plaintext plaintext_utf8 >>= reproduces_aead c) ≡ some true) ↔ (
          (aad_for_headers version key_id ts nonce scope
            ≡ d.aad_for_headers version key_id ts nonce scope)
          × (hex_encode ours ≡ d.hex_encode theirs))
  unfolding aead_vector reproduces_aead seal unseal decode_sized
  aead_vector_iff law name scope plaintext plaintext_utf8 key iv ours theirs b shares e f g h =
      rw
        (
          shares.enc_key,
          e,
          shares.iv,
          f,
          h,
          e,
          f,
          shares.encodes,
          hex_decode-hex_encode plaintext b,
          g,
          law.decrypt-encrypt key iv (aad_for_headers version key_id ts nonce scope) plaintext ours
              g,
        )
        (three_iff _ _ _ _ _)
