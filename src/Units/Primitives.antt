-- ===== src/Units/Primitives.antt =====
-- The tests of src/tier1_hmac.rs and src/tier3_aead.rs over HMAC, AES-GCM and a clock: what each
-- computes.
use sesame_sdk.Prelude.{ℕ, Option, none, some, List, [], ◌∷◌, length}
use sesame_sdk.Prelude.Int.{pos}
use sesame_sdk.Prelude.Result.{ok, err}
use sesame_sdk.Text.{Bytes, codes}
use sesame_sdk.Message.{Outcome}
use sesame_sdk.Message.Hex.{◌>>=◌}
use sesame_sdk.Units.Tags.{flip_last}
use sesame_sdk.External.{Crypto, Clock}
use sesame_sdk.Tier1.{sign, verify, verify_any, check_freshness}
use sesame_sdk.Tier3.{seal, unseal}
use sesame_sdk.Suite.Data.{repeated}

abbrev pub unwrap : Outcome Bytes → Option Bytes
unwrap (ok a) = some a
unwrap (err e) = none

module _ (c : Crypto) where
  unfoldable pub sign_then_verify : ℕ × Outcome Unit
  sign_then_verify =
      let key = codes "shared-secret" in
      let sig = sign c key (codes "canonical-string") in
      (length sig, verify c key (codes "canonical-string") sig)

  unfoldable pub wrong_key : Outcome Unit
  wrong_key = verify c (codes "k2") (codes "c") (sign c (codes "k1") (codes "c"))

  unfoldable pub tampered_canonical : Outcome Unit
  tampered_canonical =
      let key = codes "k" in verify c key (codes "tampered") (sign c key (codes "original"))

  unfoldable pub old_or_new_key : Outcome Unit × Outcome Unit
  old_or_new_key =
      let old = codes "old-key" in
      let new = codes "new-key" in
      (
        verify_any c (old ∷ new ∷ []) (codes "c") (sign c old (codes "c")),
        verify_any c (old ∷ new ∷ []) (codes "c") (sign c new (codes "c")),
      )

  -- The IV is what `random_iv` draws.
  unfoldable pub seal_open : (iv : Bytes) → Option (Bytes × Outcome Bytes)
  seal_open iv = do
    let key = repeated 7 32
    ct ← unwrap (seal c key iv (codes "aad") (codes "<SignalProcessingEvent/>"))
    some (ct, unseal c key iv (codes "aad") ct)

  unfoldable pub tampered_tag : (iv : Bytes) → Option (Outcome Bytes)
  tampered_tag iv = do
    let key = repeated 1 32
    ct ← unwrap (seal c key iv [] (codes "hello"))
    some (unseal c key iv [] (flip_last ct))

  unfoldable pub wrong_aad : (iv : Bytes) → Option (Outcome Bytes)
  wrong_aad iv = do
    let key = repeated 2 32
    ct ← unwrap (seal c key iv (codes "headers-A") (codes "x"))
    some (unseal c key iv (codes "headers-B") ct)

module _ (k : Clock) where
  -- The three calls of `check_freshness`.
  unfoldable pub freshness_window : Option (List (Outcome Unit))
  freshness_window = do
    now ← k.parse_rfc3339 (codes "2026-02-24T18:05:00Z")
    some (
        check_freshness k (codes "2026-02-24T18:00:00Z") now (pos 300)
        ∷ check_freshness k (codes "2026-02-24T17:59:59Z") now (pos 300)
        ∷ check_freshness k (codes "2026-02-24T18:10:01Z") now (pos 300)
        ∷ [])

  unfoldable pub unparseable_timestamp : Option (Outcome Unit)
  unparseable_timestamp = do
    now ← k.parse_rfc3339 (codes "2026-02-24T18:00:00Z")
    some (check_freshness k (codes "not-a-date") now (pos 300))
