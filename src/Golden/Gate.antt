-- ===== src/Golden/Gate.antt =====
-- The conformance gate on the files of a deployed program.
use sesame_sdk.Prelude.{
  ℕ, ◌^◌, ◌≤◌, ◌≡◌, ◌↔◌, refl, sym, ap, ◌∙◌, Bool, true, Option, none, some, [], ◌∷◌, ◌++◌, length,
  arith,
}
use sesame_sdk.Text.{Bytes, codes}
use sesame_sdk.Message.Hex.{◌>>=◌, hex_encode, hex_decode}
use sesame_sdk.Message.Hex.Laws.{IsBytes, hex_decode-hex_encode}
use sesame_sdk.External.{Crypto, IsLawful, IsGcm}
use sesame_sdk.Tier3.{aad_for_headers, key_len, iv_len}
use sesame_sdk.Golden.{
  req_vector, resp_vector, aead_vector, enc_key_hex, iv_hex, Deployed, version, key_id, ts, nonce,
  decode_sized, reproduces_request, reproduces_response, reproduces_aead,
}
use sesame_sdk.Golden.Laws.{
  SharesHex, signing_key, enc_key, fixed_iv, enc_key_length, fixed_iv_length, req_vector_iff,
  resp_vector_iff, aead_vector_iff,
}
use sesame_sdk.Golden.Files.{
  golden_scope, golden_xml, golden_resp_xml, golden_ciphertext, golden_requests, golden_responses,
  golden_aeads, golden_request_list, golden_response_list, golden_aead_list, gate, gate_iff,
}
use sesame_sdk.Golden.Conform.{IsRunnable, SignsRequest, SignsResponse, Seals, Conforms}

same_decoded :
    (f g : Bytes → Option Bytes) (n : ℕ) (hex : Bytes)
    → f hex ≡ g hex
    → decode_sized f n hex ≡ decode_sized g n hex
unfolding decode_sized
same_decoded f g n hex e = rw e refl

hex_encode_injective : (a b : Bytes) → IsBytes a → IsBytes b → hex_encode a ≡ hex_encode b → a ≡ b
hex_encode_injective a b i j e =
    let f : some a ≡ some b =
      sym (hex_decode-hex_encode a i) ∙ ap hex_decode e ∙ hex_decode-hex_encode b j in
    cc

-- Where both ciphers encrypt to bytes, the encoded ciphertexts agree as the ciphertexts do.
sealed_iff :
    (o p : Option Bytes) (a b : Bytes)
    → IsBytes a
    → IsBytes b
    → o ≡ some a
    → p ≡ some b
    → (hex_encode a ≡ hex_encode b) ↔ (o ≡ p)
sealed_iff o p a b i j e f = (
  (λ h. let g : a ≡ b = hex_encode_injective a b i j h in cc),
  (λ h. let g : a ≡ b = cc in ap hex_encode g),
)

pub append_bytes : (a b : Bytes) → IsBytes a → IsBytes b → IsBytes (a ++ b)
append_bytes [] b h i = i
append_bytes (x ∷ a) b (small, h) i = (small, append_bytes a b h i)

iff_trans : {A B C : Type 0} → A ↔ B → B ↔ C → A ↔ C
iff_trans f g = ((λ a. g.0 (f.0 a)), (λ c. f.1 (g.1 c)))

pair_iff : {A B C D : Type 0} → A ↔ B → C ↔ D → (A × C) ↔ (B × D)
pair_iff f g = ((λ h. (f.0 h.0, g.0 h.1)), (λ h. (f.1 h.0, g.1 h.1)))

end_iff : Unit {0} ↔ Unit {0}
end_iff = ((λ h. h), (λ h. h))

module _ {c : Crypto} {d : Deployed} (law : IsLawful c) (gcm : IsGcm c) (runs : IsRunnable d) where
  shares : (text : Bytes) → IsBytes text → SharesHex d text
  shares text b = record {
    encodes = runs.encodes text b;
    signing_key = runs.reads_signing_key;
    enc_key = runs.reads_enc_key;
    iv = runs.reads_iv;
  }

  request_iff :
      (name method path : Bytes) (scope : Option Bytes) (body : Bytes) (body_utf8 : Option Bytes)
      (encrypted : Bool)
      → IsBytes body
      → ((req_vector d name method path scope body body_utf8 encrypted >>= reproduces_request c)
          ≡ some true)
        ↔ SignsRequest c d method path scope body
  request_iff name method path scope body body_utf8 encrypted b =
      req_vector_iff c d name method path scope body body_utf8 encrypted signing_key.0 b
        (shares body b) signing_key.1

  response_iff :
      (name : Bytes) (scope : Option Bytes) (body body_utf8 : Bytes)
      → IsBytes body
      → ((resp_vector d name scope body body_utf8 >>= reproduces_response c) ≡ some true)
        ↔ SignsResponse c d scope body
  response_iff name scope body body_utf8 b =
      resp_vector_iff c d name scope body body_utf8 signing_key.0 b (shares body b) signing_key.1

  aead_iff :
      (name : Bytes) (scope : Option Bytes) (text utf8 : Bytes)
      → IsBytes text
      → length text ≤ 2 ^ 36
      → length (aad_for_headers version key_id ts nonce scope) ≤ 2 ^ 36
      → ((aead_vector d name scope text utf8 >>= reproduces_aead c) ≡ some true)
        ↔ Seals c d scope text
  aead_iff name scope text utf8 b small aad_small =
      let aad = aad_for_headers version key_id ts nonce scope in
      let ct = gcm.ctr enc_key.0 fixed_iv.0 text in
      let e =
        gcm.encrypts enc_key.0 fixed_iv.0 aad text enc_key_length fixed_iv_length aad_small small in
      let ours_bytes =
        append_bytes ct (gcm.tag enc_key.0 fixed_iv.0 aad ct)
          (gcm.ctr_bytes enc_key.0 fixed_iv.0 text b) (gcm.tag_bytes enc_key.0 fixed_iv.0 aad ct) in
      let (theirs, theirs_bytes, f) = runs.seals scope text b small in
      let vector =
        aead_vector_iff c d law name scope text utf8 enc_key.0 fixed_iv.0 _ theirs b (shares text b)
          enc_key.1 fixed_iv.1 e f in
      let sealed = sealed_iff _ _ _ theirs ours_bytes theirs_bytes e f in
      (
        (λ h.
            let (same, hex) = vector.0 h in
            (same, sealed.0 (hex ∙ runs.encodes theirs theirs_bytes))),
        (λ h. vector.1 (h.0, sealed.1 h.1 ∙ sym (runs.encodes theirs theirs_bytes))),
      )

  sealed_body :
      (ct : Bytes)
      → d.seal enc_key.0 fixed_iv.0 (d.aad_for_headers version key_id ts nonce none) golden_xml
        ≡ some ct
      → golden_ciphertext d ≡ some ct
  unfolding golden_ciphertext
  sealed_body ct e =
      rw
        (
          same_decoded d.hex_decode hex_decode key_len enc_key_hex runs.reads_enc_key ∙ enc_key.1,
          same_decoded d.hex_decode hex_decode iv_len iv_hex runs.reads_iv ∙ fixed_iv.1,
        )
        e

  requests_iff :
      (ct : Bytes)
      → IsBytes ct
      → d.seal enc_key.0 fixed_iv.0 (d.aad_for_headers version key_id ts nonce none) golden_xml
        ≡ some ct
      → ((golden_requests d >>= gate (reproduces_request c)) ≡ some true) ↔ (
          SignsRequest c d (codes "POST") (codes "/esam") none golden_xml
          × (SignsRequest c d
                (codes "POST")
                (codes "/esam?channel=SportsFeed-East")
                (some golden_scope)
                golden_xml
              × (SignsRequest c d
                    (codes "POST")
                    (codes "/esam?channel=SportsFeed-East&priority=high")
                    none
                    golden_xml
                  × (SignsRequest c d (codes "POST") (codes "/esam") none []
                      × (SignsRequest c d (codes "POST") (codes "/esam") none ct × Unit {0})))))
  unfolding golden_requests
  requests_iff ct b e =
      let xml : IsBytes golden_xml = omega arith in
      rw (sealed_body ct e) (
        iff_trans (gate_iff (reproduces_request c) (golden_request_list d ct) (λ e. cc)) (
          pair_iff (request_iff _ _ _ none golden_xml _ _ xml) (
            pair_iff (request_iff _ _ _ (some golden_scope) golden_xml _ _ xml) (
              pair_iff (request_iff _ _ _ none golden_xml _ _ xml) (
                pair_iff (request_iff _ _ _ none [] _ _ tt)
                  (pair_iff (request_iff _ _ _ none ct _ _ b) end_iff))))))

  responses_iff : ((golden_responses d >>= gate (reproduces_response c)) ≡ some true) ↔ (
      SignsResponse c d none golden_resp_xml
      × (SignsResponse c d (some golden_scope) golden_resp_xml × Unit {0}))
  unfolding golden_responses
  responses_iff =
      let resp : IsBytes golden_resp_xml = omega arith in
      iff_trans (gate_iff (reproduces_response c) (golden_response_list d) (λ e. cc)) (
        pair_iff (response_iff _ none golden_resp_xml golden_resp_xml resp) (
          pair_iff (response_iff _ (some golden_scope) golden_resp_xml golden_resp_xml resp)
            end_iff))

  aeads_iff : ((golden_aeads d >>= gate (reproduces_aead c)) ≡ some true) ↔ (
      Seals c d none golden_xml
      × (Seals c d (some golden_scope) golden_xml × (Seals c d none [] × Unit {0})))
  unfolding golden_aeads aad_for_headers
  aeads_iff =
      let xml : IsBytes golden_xml = omega arith in
      iff_trans (gate_iff (reproduces_aead c) (golden_aead_list d) (λ e. cc)) (
        pair_iff (aead_iff _ none golden_xml golden_xml xml (omega arith) (omega arith)) (
          pair_iff
            (aead_iff _ (some golden_scope) golden_xml golden_xml xml (omega arith) (omega arith))
            (pair_iff (aead_iff _ none [] [] tt (omega arith) (omega arith)) end_iff)))

  -- The conformance gate passes the three files that the extractor makes with a deployed program
  -- exactly when this program conforms: on every input of the files it signs the crate's string with
  -- the crate's signature, and has the crate's associated data and ciphertext. It is for a deployed
  -- program that writes hexadecimal and reads the fixed keys as the crate does and whose cipher
  -- encrypts, with `ct` the ciphertext that is the body of the last request, and for AES-GCM as
  -- documented.
  pub golden_gate_iff :
      (ct : Bytes)
      → IsBytes ct
      → d.seal enc_key.0 fixed_iv.0 (d.aad_for_headers version key_id ts nonce none) golden_xml
        ≡ some ct
      → (((golden_requests d >>= gate (reproduces_request c)) ≡ some true)
          × ((golden_responses d >>= gate (reproduces_response c)) ≡ some true)
          × ((golden_aeads d >>= gate (reproduces_aead c)) ≡ some true))
        ↔ Conforms c d ct
  golden_gate_iff ct b e = (
    (λ h.
        let (q1, (q2, (q3, (q4, (q5, _))))) = (requests_iff ct b e).0 h.0 in
        let (r1, (r2, _)) = responses_iff.0 h.1 in
        let (a1, (a2, (a3, _))) = aeads_iff.0 h.2 in
        record {
          plain = q1;
          scoped = q2;
          query = q3;
          empty = q4;
          encrypted = q5;
          response = r1;
          scoped_response = r2;
          seals = a1;
          seals_scoped = a2;
          seals_empty = a3;
        }),
    (λ h. (
      (requests_iff ct b e).1 (h.plain, (h.scoped, (h.query, (h.empty, (h.encrypted, tt))))),
      responses_iff.1 (h.response, (h.scoped_response, tt)),
      aeads_iff.1 (h.seals, (h.seals_scoped, (h.seals_empty, tt))),
    )),
  )
