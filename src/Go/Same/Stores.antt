-- ===== src/Go/Same/Stores.antt =====
-- The replay cache and the key directory of the Go port are those of the crate.
use mathlib.Core.List.{head?}
use sesame_sdk.Prelude.{
  ◌≡◌, refl, ap, fun_ext, Bool, true, false, Option, none, some, [], ◌∷◌, arith, inl, inr,
  Bool-cases, Option-cases,
}
use sesame_sdk.Prelude.Int.{ℤ, ltb_ℤ, leb_ℤ}
use sesame_sdk.Prelude.AssocMap.{AssocMap, get, retain}
use sesame_sdk.Text.{Bytes, bytes_Eq, pair_Eq}
use sesame_sdk.Keys.{
  StaticKeyProvider, KeyProvider, SigningEntry, static_provider, add_overlap_key,
  primary_signing_key, entry_keys,
}
use sesame_sdk.Replay.{InMemoryReplayCache, State, check_and_remember, prune, remember}
use sesame_sdk.Go.Cache.{
  go_sweep, go_remember, go_check_and_remember, GoKeyProvider, go_add_overlap_key,
  go_static_provider, entry_primary,
}

go_sweep-eq-retain :
    (now : ℤ) (seen : AssocMap (Bytes × Bytes) ℤ)
    → go_sweep now seen ≡ retain (λ expiry. ltb_ℤ now expiry) seen
unfolding go_sweep retain
go_sweep-eq-retain now [] = refl
go_sweep-eq-retain now ((key, exp) ∷ seen) = elim (Bool-cases (ltb_ℤ now exp)) [
  | inl e ↦
      let f : leb_ℤ exp now ≡ false = ground arith in
      rw (e, f)
        (ap (λ (r : AssocMap (Bytes × Bytes) ℤ). (key, exp) ∷ r) (go_sweep-eq-retain now seen))
  | inr e ↦ let f : leb_ℤ exp now ≡ true = ground arith in rw (e, f) (go_sweep-eq-retain now seen)
]

-- The crate's step, on a whole cache.
abbrev with_state : (window_secs : ℤ) → Bool × State → Bool × InMemoryReplayCache
with_state window_secs (fresh, st) = (fresh, record { window_secs = window_secs; seen = st })

go_remember-eq-remember :
    (c : InMemoryReplayCache) (key : Bytes × Bytes) (now : ℤ)
    → go_remember c key now ≡ with_state c.window_secs (remember c.window_secs c.seen key now)
unfolding go_remember remember
go_remember-eq-remember c key now = elim (Option-cases (get c.seen.map key)) [
  | inl e ↦ rw (go_remember, e, remember) refl
  | inr (expiry, e) ↦ rw (go_remember, e, remember) refl
]

-- The two caches give the same answer and become the same cache.
pub go_check_and_remember_lem :
    (c : InMemoryReplayCache) (key_id nonce : Bytes) (now : ℤ)
    → go_check_and_remember c key_id nonce now ≡ check_and_remember c key_id nonce now
unfolding go_check_and_remember check_and_remember prune
go_check_and_remember_lem c key_id nonce now =
    elim (Bool-cases (ltb_ℤ c.seen.last_prune_unix now)) [
      | inl e ↦
          rw
            (go_check_and_remember, e, check_and_remember, prune, go_sweep-eq-retain now c.seen.map)
            (go_remember-eq-remember _ (key_id, nonce) now)
      | inr e ↦
          rw (go_check_and_remember, e, check_and_remember, prune)
            (go_remember-eq-remember c (key_id, nonce) now)
    ]

-- A provider of the crate's, as the port's interface has it.
abbrev pub as_go_provider : KeyProvider → GoKeyProvider
as_go_provider p = record {
  signing_keys = p.signing_keys;
  primary_signing_key = λ key_id. primary_signing_key p key_id;
  aead_key = p.aead_key;
  is_authorized = p.is_authorized;
  is_revoked = p.is_revoked;
}

primary : (o : Option SigningEntry) → entry_primary o ≡ head? (entry_keys o)
primary none = refl
primary (some e) = refl

-- The two directories answer alike.
pub go_static_provider_lem :
    (d : StaticKeyProvider) → go_static_provider d ≡ as_go_provider (static_provider d)
unfolding go_static_provider static_provider primary_signing_key
go_static_provider_lem d =
    ap
      (λ (f : Bytes → Option Bytes). record (as_go_provider (static_provider d)) {
        primary_signing_key = f;
      })
      (fun_ext (λ key_id. primary (get d.signing key_id)))

-- An overlap key of a key-id that is there is added alike; the port ignores one of another key-id.
pub go_add_overlap_key_lem :
    (d : StaticKeyProvider) (key_id key : Bytes) (e : SigningEntry)
    → get d.signing key_id ≡ some e
    → go_add_overlap_key d key_id key ≡ add_overlap_key d key_id key
unfolding go_add_overlap_key add_overlap_key
go_add_overlap_key_lem d key_id key e h = rw (h, go_add_overlap_key, add_overlap_key) refl
