-- ===== src/Respond/Laws.antt =====
-- What the peer makes of a signed response.
use sesame_sdk.Prelude.{
  ◌≡◌, refl, sym, subst, true, false, some, List, [], ◌∷◌, ◌++◌, length, inl, inr, Bool-cases,
}
use sesame_sdk.Prelude.Int.{ℤ}
use sesame_sdk.Prelude.Result.{ok, ok_or, >>=-eq-ok, ok_or-eq-ok}
use sesame_sdk.Text.{Bytes, bytes_Eq}
use sesame_sdk.Message.{
  SesameHeaders, Tier1Fields, protocol_version, h_signature, unknown_key, expired_timestamp,
}
use sesame_sdk.Message.Hex.{hex_encode}
use sesame_sdk.Message.Hex.Laws.{IsBytes, hex_decode-hex_encode}
use sesame_sdk.Canonical.{body_hash_hex, response_canonical}
use sesame_sdk.External.{Crypto, Clock, IsLawful, IsCalendar}
use sesame_sdk.Keys.{KeyProvider, primary_signing_key}
use sesame_sdk.Tier.{three, tier_ge, SesameConfig}
use sesame_sdk.Tier1.{sign, verify, check_freshness}
use sesame_sdk.Tier1.Freshness.{Within, check_freshness_iff}
use sesame_sdk.Verify.Spec.{Carries, PlaintextOf}
use sesame_sdk.Respond.{
  ResponseParams, Header, SignedResponse, first_headers, respond_body, sign_response,
}
use sesame_sdk.Tier1.Laws.{verify_iff, sign-to_lower}
use sesame_sdk.Respond.Headers.{
  read, plain_headers, read_plain, read_sealed, Sealed, respond_body-Sealed, respond_body_plain,
}

-- What the peer finds in a response: it is signed by the node's primary key over the correlation that
-- was asked for, is recent, and its body is or decrypts to the plaintext.
pub record IsAnswer (c : Crypto) (k : Clock) (window : ℤ) (provider : KeyProvider)
    (params : ResponseParams) (plaintext_xml : Bytes) (peer_now : k.Time) (r : SignedResponse)
    : Type 0 where
  pub t1 : Tier1Fields
  pub carries : Carries (read r.headers) t1
  pub speaks : t1.version ≡ protocol_version
  pub of_key : t1.key_id ≡ params.signing_key_id
  pub scope : (read r.headers).scope ≡ params.scope
  pub recent : check_freshness k t1.timestamp peer_now window ≡ ok tt
  pub key : Bytes
  pub primary : primary_signing_key provider t1.key_id ≡ some key
  pub verifies :
      verify c key
        (response_canonical params.correlation t1.timestamp t1.nonce
          (body_hash_hex c.sha256 r.body)
          (read r.headers).scope)
        t1.signature
      ≡ ok tt
  pub encrypted : (read r.headers).encrypted ≡ tier_ge params.tier three
  pub plaintext :
      PlaintextOf c provider (read r.headers) t1 r.body plaintext_xml (tier_ge params.tier three)

module _ {c : Crypto} {k : Clock} (law : IsLawful c) (cal : IsCalendar k) (cfg : SesameConfig)
    (provider : KeyProvider) (params : ResponseParams) (plaintext_xml : Bytes) (now : k.Time)
    (random_128 random_iv : Bytes) where
  -- The parts of a response that was signed.
  pub record Parts (r : SignedResponse) : Type 0 where
    pub key : Bytes
    pub timestamp : Bytes
    pub pushed : List Header
    pub primary : primary_signing_key provider params.signing_key_id ≡ some key
    pub stamped : k.format_rfc3339 now ≡ some timestamp
    pub responded :
        respond_body c provider params plaintext_xml timestamp (hex_encode random_128) random_iv
        ≡ ok (r.body, r.content_type, pushed)
    pub headers :
        r.headers
        ≡ first_headers params timestamp (hex_encode random_128)
          ++ pushed
          ++ (
            h_signature,
            sign c key (
                response_canonical params.correlation timestamp
                  (hex_encode random_128)
                  (body_hash_hex c.sha256 r.body)
                  params.scope),
          )
            ∷ []

  pub sign_response-Parts :
      (r : SignedResponse)
      → sign_response c k cfg provider params plaintext_xml now random_128 random_iv ≡ ok r
      → Parts r
  unfolding sign_response
  sign_response-Parts r h =
      let (key, e, h₁) =
        >>=-eq-ok (ok_or (primary_signing_key provider params.signing_key_id) unknown_key) _ h in
      let (timestamp, f, h₂) = >>=-eq-ok (ok_or (k.format_rfc3339 now) expired_timestamp) _ h₁ in
      let (b, g, h₃) =
        >>=-eq-ok
          (respond_body c provider params plaintext_xml timestamp (hex_encode random_128) random_iv)
          _ h₂ in
      parts key timestamp b.0 b.1 b.2 (ok_or-eq-ok _ _ e) (ok_or-eq-ok _ _ f) g (cc)
    where
      parts :
          (key timestamp body content_type : Bytes) (pushed : List Header)
          → primary_signing_key provider params.signing_key_id ≡ some key
          → k.format_rfc3339 now ≡ some timestamp
          → respond_body c provider params plaintext_xml timestamp (hex_encode random_128) random_iv
            ≡ ok (body, content_type, pushed)
          → ◌≡◌ {A = SignedResponse}
              (record {
                headers =
                    first_headers params timestamp (hex_encode random_128)
                    ++ pushed
                    ++ (
                      h_signature,
                      sign c key (
                          response_canonical params.correlation timestamp
                            (hex_encode random_128)
                            (body_hash_hex c.sha256 body)
                            params.scope),
                    )
                      ∷ [];
                body = body;
                content_type = content_type;
              })
              r
          → Parts r
      parts key timestamp body content_type pushed e f g same = subst Parts same (record {
        key = key;
        timestamp = timestamp;
        pushed = pushed;
        primary = e;
        stamped = f;
        responded = g;
        headers = refl;
      })

  -- A response that is signed reaches the peer, whose clock is within the window of the signer's, as
  -- one that the peer finds signed by the node's primary key for the correlation, fresh, of the
  -- version, key-id and scope that were given, and from Tier 3 on encrypted, with the plaintext.
  pub sign_response-IsAnswer :
      (peer_now : k.Time) (r : SignedResponse)
      → IsBytes random_iv
      → length random_iv ≡ 12
      → Within cfg.replay_window_secs (k.unix_timestamp peer_now) (k.unix_timestamp now)
      → sign_response c k cfg provider params plaintext_xml now random_128 random_iv ≡ ok r
      → IsAnswer c k cfg.replay_window_secs provider params plaintext_xml peer_now r
  sign_response-IsAnswer peer_now r b l near h =
      let p = sign_response-Parts r h in
      elim (Bool-cases (tier_ge params.tier three)) [
        | inl e ↦ sealed_answer p e (
            respond_body-Sealed c provider params plaintext_xml p.timestamp (hex_encode random_128)
              random_iv r.body r.content_type p.pushed e p.responded)
        | inr e ↦ plain_answer p e (
            respond_body_plain c provider params plaintext_xml p.timestamp (hex_encode random_128)
              random_iv r.body r.content_type p.pushed e p.responded)
      ]
    where
      fields : Parts r → Tier1Fields
      fields p = record {
        version = protocol_version;
        key_id = params.signing_key_id;
        timestamp = p.timestamp;
        nonce = hex_encode random_128;
        signature = sign c p.key (
            response_canonical params.correlation p.timestamp (hex_encode random_128)
              (body_hash_hex c.sha256 r.body) params.scope);
      }

      fresh : (p : Parts r) → check_freshness k p.timestamp peer_now cfg.replay_window_secs ≡ ok tt
      fresh p =
          let (u, parsed, same) = cal.parse-format now p.timestamp p.stamped in
          (check_freshness_iff cal p.timestamp peer_now cfg.replay_window_secs).1
            (u, parsed, rw same near)

      answer :
          (p : Parts r) (headers : SesameHeaders)
          → read r.headers ≡ headers
          → Carries headers (fields p)
          → headers.scope ≡ params.scope
          → headers.encrypted ≡ tier_ge params.tier three
          → PlaintextOf c provider headers
              (fields p)
              r.body
              plaintext_xml
              (tier_ge params.tier three)
          → IsAnswer c k cfg.replay_window_secs provider params plaintext_xml peer_now r
      answer p headers same carries scope encrypted plaintext = record {
        t1 = fields p;
        carries = rw same carries;
        speaks = refl;
        of_key = refl;
        scope = rw same scope;
        recent = fresh p;
        key = p.key;
        primary = p.primary;
        verifies = rw (same, scope) ((verify_iff law p.key _ _).1 (sign-to_lower law p.key _));
        encrypted = rw same encrypted;
        plaintext = rw same plaintext;
      }

      plain_answer :
          (p : Parts r)
          → tier_ge params.tier three ≡ false
          → (r.body ≡ plaintext_xml) × (p.pushed ≡ [])
          → IsAnswer c k cfg.replay_window_secs provider params plaintext_xml peer_now r
      plain_answer p e (same, none_pushed) =
          answer p (plain_headers params p.timestamp (hex_encode random_128) (fields p).signature)
            (rw (p.headers, none_pushed) (read_plain params p.timestamp (hex_encode random_128) _))
            (record {
              version = refl;
              key_id = refl;
              timestamp = refl;
              nonce = refl;
              signature = refl;
            })
            refl (sym e) (rw e (sym same))

      sealed_answer :
          (p : Parts r)
          → tier_ge params.tier three ≡ true
          → Sealed c provider params plaintext_xml p.timestamp
              (hex_encode random_128)
              random_iv
              r.body
              p.pushed
          → IsAnswer c k cfg.replay_window_secs provider params plaintext_xml peer_now r
      sealed_answer p e q =
          answer p
            (record (plain_headers params p.timestamp (hex_encode random_128)
              (fields p).signature) {
                encrypted = true;
                enc_key_id = some q.enc_key_id;
                iv = some (hex_encode random_iv);
              })
            (rw (p.headers, q.headers)
              (read_sealed params p.timestamp (hex_encode random_128) _ q.enc_key_id
                (hex_encode random_iv)))
            (record {
              version = refl;
              key_id = refl;
              timestamp = refl;
              nonce = refl;
              signature = refl;
            })
            refl (sym e)
            (rw e (record {
              enc_key_id = q.enc_key_id;
              iv_hex = hex_encode random_iv;
              iv = random_iv;
              aead = q.aead;
              has_key_id = refl;
              has_iv = refl;
              decoded = hex_decode-hex_encode random_iv b;
              iv_length = l;
              has_key = q.has_key;
              opened = law.decrypt-encrypt q.aead random_iv _ plaintext_xml r.body q.sealed;
            }))
