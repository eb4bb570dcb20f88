-- ===== src/Tests/Gcm.antt =====
-- A cipher with the shape that AES-GCM documents: the text, and a tag after it. It is for evaluation
-- only: the tag is fifteen zeros and a checksum of all that is sealed.
use sesame_sdk.Prelude.{
  ℕ, ◌<◌, ◌≡◌, ◌≢◌, refl, ◌∙◌, Option, none, some, [], ◌∷◌, ◌++◌, if◌then◌else◌, eqb, eqb_iff,
  length, length-append, arith, inl, inr, Bool-cases,
}
use sesame_sdk.Text.{Bytes, bytes_eq, bytes_eq_iff}
use sesame_sdk.Message.Hex.Laws.{IsBytes}
use sesame_sdk.External.{Crypto, IsLawful, IsGcm}
use sesame_sdk.Tests.Fixture.{toy, toy-IsLawful, checksum, checksum_small}
use mathlib.Core.List.{append_assoc, append-nil}

abbrev pub tag_of : (key iv aad m : Bytes) → Bytes
tag_of key iv aad m =
    0
    ∷ 0
    ∷ 0
    ∷ 0
    ∷ 0
    ∷ 0
    ∷ 0
    ∷ 0
    ∷ 0
    ∷ 0
    ∷ 0
    ∷ 0
    ∷ 0
    ∷ 0
    ∷ 0
    ∷ checksum (key ++ iv ++ aad ++ m)
    ∷ []

-- The last 16 bytes are the tag of what stands before them, of which `m` was read.
abbrev untagged : (key iv aad m s : Bytes) → Option Bytes
untagged key iv aad m [] = none
untagged key iv aad m (b ∷ s) =
    let longer = untagged key iv aad (m ++ b ∷ []) s in
    if eqb (length s) 15
    then (if bytes_eq (b ∷ s) (tag_of key iv aad m) then some m else none)
    else longer

abbrev pub stamped : Crypto
stamped = record toy {
  gcm_encrypt = λ key iv aad m. some (m ++ tag_of key iv aad m);
  gcm_decrypt = λ key iv aad ct. untagged key iv aad [] ct;
}

untagged_lem :
    (key iv aad m text t : Bytes)
    → length t ≡ 16
    → untagged key iv aad m (text ++ t)
      ≡ (if bytes_eq t (tag_of key iv aad (m ++ text)) then some (m ++ text) else none)
untagged_lem key iv aad m [] [] h = absurd (omega (arith, h))
untagged_lem key iv aad m [] (b ∷ t) h =
    let e : length t ≡ 15 = omega (arith, h) in rw ((eqb_iff (length t) 15).1 e, append-nil m) refl
untagged_lem key iv aad m (b ∷ text) t h = elim (Bool-cases (eqb (length (text ++ t)) 15)) [
  | inl e ↦ absurd (omega (arith, h, length-append text t, (eqb_iff (length (text ++ t)) 15).0 e))
  | inr e ↦
      rw e (untagged_lem key iv aad (m ++ b ∷ []) text t h ∙ rw (append_assoc m (b ∷ []) text) refl)
]

pub stamped-IsLawful : IsLawful stamped
stamped-IsLawful = record {
  sha256_bytes = toy-IsLawful.sha256_bytes;
  hmac_bytes = toy-IsLawful.hmac_bytes;
  length-hmac = toy-IsLawful.length-hmac;
  verify_slice_iff = toy-IsLawful.verify_slice_iff;
  decrypt-encrypt = λ key iv aad m ct h. opens key iv aad m ct h;
}
  where
    opens :
        (key iv aad m ct : Bytes)
        → some (m ++ tag_of key iv aad m) ≡ some ct
        → untagged key iv aad [] ct ≡ some m
    opens key iv aad m ct h =
        let e : m ++ tag_of key iv aad m ≡ ct = cc in
        rw
          (
            ← e,
            untagged_lem key iv aad [] m (tag_of key iv aad m) refl,
            (bytes_eq_iff (tag_of key iv aad m) (tag_of key iv aad m)).1 refl,
          )
          refl

pub tag_of-IsBytes : (key iv aad m : Bytes) → IsBytes (tag_of key iv aad m)
tag_of-IsBytes key iv aad m =
    small (checksum (key ++ iv ++ aad ++ m)) (checksum_small (key ++ iv ++ aad ++ m))
  where
    small :
        (b : ℕ)
        → b < 256
        → IsBytes (0 ∷ 0 ∷ 0 ∷ 0 ∷ 0 ∷ 0 ∷ 0 ∷ 0 ∷ 0 ∷ 0 ∷ 0 ∷ 0 ∷ 0 ∷ 0 ∷ 0 ∷ b ∷ [])
    small b h = omega arith

rejected :
    (key iv aad ct t : Bytes)
    → length t ≡ 16
    → t ≢ tag_of key iv aad ct
    → untagged key iv aad [] (ct ++ t) ≡ none
rejected key iv aad ct t len differ = elim (Bool-cases (bytes_eq t (tag_of key iv aad ct))) [
  | inl e ↦ absurd (differ ((bytes_eq_iff t (tag_of key iv aad ct)).0 e))
  | inr e ↦ rw (untagged_lem key iv aad [] ct t len, e) refl
]

pub stamped_gcm : IsGcm stamped
stamped_gcm = record {
  ctr = λ key iv m. m;
  tag = tag_of;
  length-ctr = λ key iv m. refl;
  ctr_bytes = λ key iv m h. h;
  length-tag = λ key iv aad ct. refl;
  tag_bytes = tag_of-IsBytes;
  encrypts = λ key iv aad m h i j l. refl;
  rejects = λ key iv aad ct t h i len differ. rejected key iv aad ct t len differ;
}

pub tags_apart :
    (key iv aad other m : Bytes)
    → tag_of key iv aad m ≢ tag_of key iv other m
    → stamped_gcm.tag key iv aad (stamped_gcm.ctr key iv m)
      ≢ stamped_gcm.tag key iv other (stamped_gcm.ctr key iv m)
unfolding stamped_gcm
tags_apart key iv aad other m h = h
