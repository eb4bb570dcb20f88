-- ===== src/Tests/Fixture.antt =====
-- Concrete cryptography and a concrete clock with the behaviour that the crates document. They are
-- for evaluation only: the tag is a checksum.
use sesame_sdk.Prelude.{
  ℕ, suc, ◌+◌, ◌*◌, ◌%◌, ◌^◌, ◌≡◌, ◌<◌, refl, Option, none, some, [], ◌∷◌, ◌++◌, eqb, eqb_iff,
  if◌then◌else◌, arith,
}
use sesame_sdk.Prelude.Int.{pos}
use sesame_sdk.Text.{Bytes, codes, bytes_eq, bytes_eq_iff}
use sesame_sdk.Message.Hex.Laws.{IsBytes}
use sesame_sdk.Keys.{StaticKeyProvider, new, with_signing_key, with_aead_key, list_scope, all_scope}
use sesame_sdk.External.{Crypto, IsLawful, Clock, IsCalendar}

unfoldable pub checksum : Bytes → ℕ
checksum [] = 7
checksum (b ∷ bs) = (b + 3 * checksum bs) % 256

unfoldable pub filled : ℕ → ℕ → Bytes
filled ℕ.zero b = []
filled (suc n) b = b ∷ filled n b

filled-IsBytes : (n b : ℕ) → b < 256 → IsBytes (filled n b)
unfolding filled
filled-IsBytes ℕ.zero b h = tt
filled-IsBytes (suc n) b h = (h, filled-IsBytes n b h)

pub checksum_small : (m : Bytes) → checksum m < 256
unfolding checksum
checksum_small [] = omega arith
checksum_small (b ∷ bs) = omega arith

abbrev pub tag : Bytes → Bytes
tag m = filled 32 (checksum m)

abbrev pub unsealed : ℕ → Bytes → Option Bytes
unsealed t [] = none
unsealed t (b ∷ m) = if eqb b t then some m else none

abbrev pub toy : Crypto
toy = record {
  sha256 = tag;
  hmac_sha256 = λ key m. tag (key ++ m);
  verify_slice = λ key m t. bytes_eq t (tag (key ++ m));
  gcm_encrypt = λ key iv aad m. some (checksum (key ++ iv ++ aad) ∷ m);
  gcm_decrypt = λ key iv aad ct. unsealed (checksum (key ++ iv ++ aad)) ct;
}

pub toy-IsLawful : IsLawful toy
toy-IsLawful = record {
  sha256_bytes = λ m. filled-IsBytes 32 (checksum m) (checksum_small m);
  hmac_bytes = λ k m. filled-IsBytes 32 (checksum (k ++ m)) (checksum_small (k ++ m));
  length-hmac = λ k m. unfold filled in refl;
  verify_slice_iff = λ k m t. bytes_eq_iff t (tag (k ++ m));
  decrypt-encrypt = λ key iv aad m ct h. decrypted (checksum (key ++ iv ++ aad)) m ct h;
}
  where
    decrypted : (t : ℕ) (m ct : Bytes) → some (t ∷ m) ≡ some ct → unsealed t ct ≡ some m
    decrypted t m [] h = cc
    decrypted t m (b ∷ ct) h =
        let e : b ≡ t = cc in let f : ct ≡ m = cc in rw ((eqb_iff b t).1 e, f)

-- A moment is a number of seconds, written as one code.
abbrev written : Bytes → Option ℕ
written (t ∷ []) = some t
written _ = none

abbrev pub ticks : Clock
ticks = record {
  Time = ℕ;
  unix_timestamp = λ t. pos (t % 2 ^ 45);
  parse_rfc3339 = written;
  format_rfc3339 = λ t. some (t ∷ []);
}

pub ticks-IsCalendar : IsCalendar ticks
ticks-IsCalendar = record {
  dates = λ t. (omega arith, omega arith);
  parse-format = λ t s h. (t, reads t s h, refl);
}
  where
    reads : (t : ℕ) (s : Bytes) → some (t ∷ []) ≡ some s → written s ≡ some t
    reads t [] h = cc
    reads t (u ∷ []) h = cc
    reads t (u ∷ v ∷ s) h = cc

-- A directory of a client, a node and an encryption key.
abbrev pub pois_directory : StaticKeyProvider
pois_directory =
    with_aead_key
      (with_signing_key
        (with_signing_key new (codes "k") (codes "s") (list_scope (codes "East" ∷ [])))
        (codes "pois") (codes "p") all_scope)
      (codes "enc-1") (codes "aead")
