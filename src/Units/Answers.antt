-- ===== src/Units/Answers.antt =====
-- The tests of src/canonical.rs, src/tier1_hmac.rs and src/tier3_aead.rs against published answers.
use sesame_sdk.Prelude.{
  ℕ, ◌≡◌, refl, ap, Bool, true, Option, none, some, [], length, eqb, ◌==◌, ==_refl, if◌then◌else◌,
}
use sesame_sdk.Text.{Bytes, bytes_Eq, codes}
use sesame_sdk.Message.Hex.{hex_encode, hex_decode, ◌>>=◌}
use sesame_sdk.Canonical.{body_hash_hex}
use sesame_sdk.External.{Crypto}
use sesame_sdk.Tier1.{sign}
use sesame_sdk.Tier3.{seal, key_len, iv_len}
use sesame_sdk.Units.Primitives.{unwrap}

abbrev sha256_answer : Bytes
sha256_answer = codes "e3b0c44298fc1c149afbf4c8996fb92427ae41e4649b934ca495991b7852b855"

abbrev hmac_answer : Bytes
hmac_answer = codes "5bdcc146bf60754e6a042426089575c75a003f089d2739839dec58b964ec3843"

abbrev nist_key : Bytes
nist_key = codes "feffe9928665731c6d6a8f9467308308feffe9928665731c6d6a8f9467308308"

abbrev nist_iv : Bytes
nist_iv = codes "cafebabefacedbaddecaf888"

abbrev nist_aad : Bytes
nist_aad = codes "feedfacedeadbeeffeedfacedeadbeefabaddad2"

abbrev nist_text : Bytes
nist_text =
    codes
      "d9313225f88406e5a55909c5aff5269a86a7a9531534f7da2e4c303d8a318a721c3c0c95956809532fcf0e2449a6b525b16aedf5aa0de657ba637b39"

abbrev nist_sealed : Bytes
nist_sealed =
    codes
      "522dc1f099567d07f47f37a32a84427d643a8cdcbfe5c0c97598a2bd2555d1aa8cb08e48590dbb3da7b08b1056828838c5f61e6393ba7a0abcc9f66276fc6ece0f4e1768cddf8853bb2d551b"

-- `copy_from_slice`, which panics on another length.
abbrev sized : (n : ℕ) → Bytes → Option Bytes
sized n s = if eqb (length s) n then some s else none

module _ (c : Crypto) where
  unfoldable empty_body_hash : Bytes
  empty_body_hash = body_hash_hex c.sha256 []

  unfoldable rfc2104_answer : Bytes
  rfc2104_answer = sign c (codes "Jefe") (codes "what do ya want for nothing?")

  -- Whether the sealed text is the published one.
  unfoldable nist_gcm_answer : Option Bool
  unfolding hex_decode
  nist_gcm_answer = do
    key ← hex_decode nist_key
    k ← sized key_len key
    iv ← hex_decode nist_iv
    nonce ← sized iv_len iv
    pt ← hex_decode nist_text
    aad ← hex_decode nist_aad
    expected ← hex_decode nist_sealed
    ct ← unwrap (seal c k nonce aad pt)
    some (ct == expected)

abbrev or_empty : Option Bytes → Bytes
or_empty none = []
or_empty (some s) = s

abbrev bytes_of : (hex : Bytes) → Bytes
unfolding hex_decode
bytes_of hex = or_empty (hex_decode hex)

-- The answers that FIPS 180-4, RFC 4231 and NIST SP 800-38D publish, as bytes.
record Publishes (c : Crypto) : Type 0 where
  sha : c.sha256 [] ≡ bytes_of sha256_answer
  hmac : c.hmac_sha256 (codes "Jefe") (codes "what do ya want for nothing?") ≡ bytes_of hmac_answer
  gcm :
      c.gcm_encrypt (bytes_of nist_key) (bytes_of nist_iv) (bytes_of nist_aad) (bytes_of nist_text)
      ≡ some (bytes_of nist_sealed)

-- The hexadecimal answers of the code are the published ones, and its text seals to the published one.
answers_lem :
    (c : Crypto)
    → Publishes c
    → (empty_body_hash c ≡ sha256_answer)
      × (rfc2104_answer c ≡ hmac_answer)
      × (nist_gcm_answer c ≡ some true)
unfolding empty_body_hash rfc2104_answer nist_gcm_answer body_hash_hex sign seal hex_encode
    hex_decode
answers_lem c p =
    (rw p.sha refl, rw p.hmac refl, rw p.gcm (ap some (==_refl (bytes_of nist_sealed))))
