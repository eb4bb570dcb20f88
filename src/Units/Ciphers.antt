-- ===== src/Units/Ciphers.antt =====
-- The tests of src/tier1_hmac.rs and src/tier3_aead.rs get the results that they expect, over any
-- cryptography and any clock.
use sesame_sdk.Prelude.{
  ℕ, ◌+◌, ◌≤◌, ◌++◌, ◌≡◌, ◌≢◌, refl, sym, ap, ◌∙◌, none, some, [], ◌∷◌, length, arith, inl, inr,
  ap₂, In, length-append, Option-cases, Bool-cases,
}
use sesame_sdk.Prelude.Int.{pos, ◌-ℤ◌, sub_i64, abs_i64, wrap64}
use sesame_sdk.Prelude.Result.{ok, err}
use sesame_sdk.Text.{Bytes, codes}
use sesame_sdk.Message.{Outcome, signature_mismatch, expired_timestamp, decrypt_failed}
use sesame_sdk.Message.Hex.{hex_decode}
use sesame_sdk.Message.Hex.Laws.{length-hex_encode, hex_decode-hex_encode}
use sesame_sdk.Units.Tags.{flip_last, flip_last-append, length-flip_last, flip_last_differs}
use sesame_sdk.External.{Crypto, Clock, IsLawful, IsGcm}
use sesame_sdk.Tier1.{sign, verify, verify_any, check_freshness}
use sesame_sdk.Tier1.Laws.{verify_iff, verify_any_iff, sign-to_lower}
use sesame_sdk.Tier3.{seal, unseal}
use sesame_sdk.Suite.Data.{repeated}
use sesame_sdk.Units.Primitives.{
  sign_then_verify, wrong_key, tampered_canonical, old_or_new_key, seal_open, tampered_tag,
  wrong_aad, freshness_window, unparseable_timestamp,
}

-- The tags of the tests differ where their keys, texts or data do: the crates' functions have no
-- collision there.
pub record Distinguishes {c : Crypto} (gcm : IsGcm c) (iv : Bytes) : Type 0 where
  pub keys : c.hmac_sha256 (codes "k1") (codes "c") ≢ c.hmac_sha256 (codes "k2") (codes "c")
  pub texts :
      c.hmac_sha256 (codes "k") (codes "original") ≢ c.hmac_sha256 (codes "k") (codes "tampered")
  pub aads :
      (let ct = gcm.ctr (repeated 2 32) iv (codes "x") in
        gcm.tag (repeated 2 32) iv (codes "headers-A") ct
        ≢ gcm.tag (repeated 2 32) iv (codes "headers-B") ct)

-- What the tests rely on of the crate `time`: the times that their texts are, and that what it parses
-- begins with a digit.
pub record Tells (k : Clock) : Type 0 where
  pub early : k.Time
  pub edge : k.Time
  pub now : k.Time
  pub late : k.Time
  pub parses_early : k.parse_rfc3339 (codes "2026-02-24T17:59:59Z") ≡ some early
  pub parses_edge : k.parse_rfc3339 (codes "2026-02-24T18:00:00Z") ≡ some edge
  pub parses_now : k.parse_rfc3339 (codes "2026-02-24T18:05:00Z") ≡ some now
  pub parses_late : k.parse_rfc3339 (codes "2026-02-24T18:10:01Z") ≡ some late
  pub begins :
      (b : ℕ) (s : Bytes) (t : k.Time) → k.parse_rfc3339 (b ∷ s) ≡ some t → (b'0' ≤ b) × (b ≤ b'9')
  pub second_early : k.unix_timestamp early ≡ pos 1771955999
  pub second_edge : k.unix_timestamp edge ≡ pos 1771956000
  pub second_now : k.unix_timestamp now ≡ pos 1771956300
  pub second_late : k.unix_timestamp late ≡ pos 1771956601

-- What the assertions of the tests expect.
pub record CipherVerdicts (c : Crypto) (iv : Bytes) : Type 0 where
  pub signed : sign_then_verify c ≡ (64, ok tt)
  pub other_key : wrong_key c ≡ err signature_mismatch
  pub tampered : tampered_canonical c ≡ err signature_mismatch
  pub overlap : old_or_new_key c ≡ (ok tt, ok tt)
  pub ct : Bytes
  pub opened : seal_open c iv ≡ some (ct, ok (codes "<SignalProcessingEvent/>"))
  pub encrypted : ct ≢ codes "<SignalProcessingEvent/>"
  pub longer : length ct ≡ length (codes "<SignalProcessingEvent/>") + 16
  pub bad_tag : tampered_tag c iv ≡ some (err decrypt_failed)
  pub bad_aad : wrong_aad c iv ≡ some (err decrypt_failed)

pub record TimeVerdicts (k : Clock) : Type 0 where
  pub window :
      freshness_window k ≡ some (ok tt ∷ err expired_timestamp ∷ err expired_timestamp ∷ [])
  pub no_time : unparseable_timestamp k ≡ some (err expired_timestamp)

module _ {c : Crypto} (law : IsLawful c) where
  own_verifies : (key s : Bytes) → verify c key s (sign c key s) ≡ ok tt
  own_verifies key s = (verify_iff law key s (sign c key s)).1 (sign-to_lower law key s)

  other_fails :
      (k1 s1 k2 s2 : Bytes)
      → sign c k1 s1 ≢ sign c k2 s2
      → verify c k2 s2 (sign c k1 s1) ≡ err signature_mismatch
  unfolding verify
  other_fails k1 s1 k2 s2 differ = elim (Option-cases (hex_decode (sign c k1 s1))) [
    | inl e ↦ rw (e, verify) refl
    | inr (tag, e) ↦ elim (Bool-cases (c.verify_slice k2 s2 tag)) [
      | inr f ↦ rw (e, verify, f) refl
      | inl f ↦
          let accepted : verify c k2 s2 (sign c k1 s1) ≡ ok tt = rw (e, verify, f) refl in
          absurd (
            differ
              (sym (sign-to_lower law k1 s1) ∙ (verify_iff law k2 s2 (sign c k1 s1)).0 accepted))
    ]
  ]

  length-sign : (key s : Bytes) → length (sign c key s) ≡ 64
  unfolding sign
  length-sign key s = omega (arith, length-hex_encode (c.hmac_sha256 key s), law.length-hmac key s)

  one_of :
      (key : Bytes)
      → In key (codes "old-key" ∷ codes "new-key" ∷ [])
      → verify_any c (codes "old-key" ∷ codes "new-key" ∷ []) (codes "c") (sign c key (codes "c"))
        ≡ ok tt
  one_of key m =
      (verify_any_iff law (codes "old-key" ∷ codes "new-key" ∷ []) (codes "c")
          (sign c key (codes "c"))).1
        (key, m, sign-to_lower law key (codes "c"))

  sign_differs :
      (k1 s1 k2 s2 : Bytes)
      → c.hmac_sha256 k1 s1 ≢ c.hmac_sha256 k2 s2
      → sign c k1 s1 ≢ sign c k2 s2
  unfolding sign
  sign_differs k1 s1 k2 s2 differ e =
      let f : some (c.hmac_sha256 k1 s1) ≡ some (c.hmac_sha256 k2 s2) =
        sym (hex_decode-hex_encode (c.hmac_sha256 k1 s1) (law.hmac_bytes k1 s1))
        ∙ ap hex_decode e
        ∙ hex_decode-hex_encode (c.hmac_sha256 k2 s2) (law.hmac_bytes k2 s2) in
      differ (cc)

  -- What the cipher makes of a text.
  abbrev sealed : (gcm : IsGcm c) (key iv aad m : Bytes) → Bytes
  sealed gcm key iv aad m = gcm.ctr key iv m ++ gcm.tag key iv aad (gcm.ctr key iv m)

  length-sealed :
      (gcm : IsGcm c) (key iv aad m : Bytes) → length (sealed gcm key iv aad m) ≡ length m + 16
  length-sealed gcm key iv aad m = omega (
    arith,
    length-append (gcm.ctr key iv m) (gcm.tag key iv aad (gcm.ctr key iv m)),
    gcm.length-ctr key iv m,
    gcm.length-tag key iv aad (gcm.ctr key iv m),
  )

  flipped_rejected :
      (gcm : IsGcm c) (key iv aad m : Bytes)
      → length key ≡ 32
      → length iv ≡ 12
      → c.gcm_decrypt key iv aad (flip_last (sealed gcm key iv aad m)) ≡ none
  flipped_rejected gcm key iv aad m len_key len_iv =
      let tag = gcm.tag key iv aad (gcm.ctr key iv m) in
      let len : length tag ≡ 16 = gcm.length-tag key iv aad (gcm.ctr key iv m) in
      let some_byte : tag ≢ [] = λ e. omega (arith, len, ap (λ (s : Bytes). length s) e) in
      rw (flip_last-append (gcm.ctr key iv m) tag some_byte) (
        gcm.rejects key iv aad (gcm.ctr key iv m) (flip_last tag) len_key len_iv
          (length-flip_last tag ∙ len)
          (flip_last_differs tag (gcm.tag_bytes key iv aad (gcm.ctr key iv m)) some_byte))

  cipher_lem :
      (gcm : IsGcm c) (iv : Bytes) → length iv ≡ 12 → Distinguishes gcm iv → CipherVerdicts c iv
  unfolding sign_then_verify wrong_key tampered_canonical old_or_new_key seal_open tampered_tag
      wrong_aad seal unseal
  cipher_lem gcm iv len d =
      let text = codes "<SignalProcessingEvent/>" in
      let seals =
        gcm.encrypts (repeated 7 32) iv (codes "aad") text refl len (omega arith) (omega arith) in
      let long = length-sealed gcm (repeated 7 32) iv (codes "aad") text in
      record {
        signed =
            rw
              (
                length-sign (codes "shared-secret") (codes "canonical-string"),
                own_verifies (codes "shared-secret") (codes "canonical-string"),
              )
              refl;
        other_key =
            other_fails (codes "k1") (codes "c") (codes "k2") (codes "c")
              (sign_differs (codes "k1") (codes "c") (codes "k2") (codes "c") d.keys);
        tampered =
            other_fails (codes "k") (codes "original") (codes "k") (codes "tampered")
              (sign_differs (codes "k") (codes "original") (codes "k") (codes "tampered") d.texts);
        overlap =
            ap₂ (λ (a b : Outcome Unit). (a, b)) (one_of (codes "old-key") (inl refl))
              (one_of (codes "new-key") (inr (inl refl)));
        ct = sealed gcm (repeated 7 32) iv (codes "aad") text;
        opened = rw (seals, law.decrypt-encrypt (repeated 7 32) iv (codes "aad") text _ seals) refl;
        encrypted = λ e. omega (arith, long, ap (λ (s : Bytes). length s) e);
        longer = long;
        bad_tag =
            rw
              (
                gcm.encrypts (repeated 1 32) iv [] (codes "hello") refl len (omega arith)
                    (omega arith),
                flipped_rejected gcm (repeated 1 32) iv [] (codes "hello") refl len,
              )
              refl;
        bad_aad =
            rw
              (
                gcm.encrypts (repeated 2 32) iv (codes "headers-A") (codes "x") refl len
                    (omega arith) (omega arith),
                gcm.rejects (repeated 2 32) iv (codes "headers-B") _ _ refl len
                    (gcm.length-tag (repeated 2 32) iv (codes "headers-A") _) d.aads,
              )
              refl;
      }

-- A text that begins with a letter is no time.
undated : {k : Clock} → Tells k → k.parse_rfc3339 (codes "not-a-date") ≡ none
undated {k} t = elim (Option-cases (k.parse_rfc3339 (codes "not-a-date"))) [
  | inl e ↦ e
  | inr (u, e) ↦ absurd (omega (arith, t.begins b'n' (codes "ot-a-date") u e))
]

time_lem : {k : Clock} → Tells k → TimeVerdicts k
unfolding freshness_window unparseable_timestamp check_freshness sub_i64 abs_i64 wrap64 ◌-ℤ◌
time_lem t = record {
  window =
      rw
        (
          t.parses_now, t.parses_edge, t.parses_early, t.parses_late, t.second_now, t.second_edge,
          t.second_early, t.second_late,
        )
        refl;
  no_time = rw (t.parses_edge, undated t) refl;
}

-- The tests of Tier 1 and Tier 3 that run over other keys, texts, data and times get the results that
-- they expect, for HMAC and AES-GCM as documented, an IV of 12 bytes, and a clock on which the texts of
-- the tests are the times that they say and which parses nothing that begins with a letter. The tags of
-- the tests of another key, text or associated data must not collide.
pub units_lem :
    {c : Crypto} {k : Clock} (law : IsLawful c) (gcm : IsGcm c) (iv : Bytes)
    → length iv ≡ 12
    → Distinguishes gcm iv
    → Tells k
    → CipherVerdicts c iv × TimeVerdicts k
units_lem law gcm iv len d t = (cipher_lem law gcm iv len d, time_lem t)
