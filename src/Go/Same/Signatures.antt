-- ===== src/Go/Same/Signatures.antt =====
-- The signature test and the freshness test of the Go port are those of the crate.
use mathlib.Core.Option
use sesame_sdk.Prelude.{
  ◌≡◌, refl, ap, sym, ◌∙◌, ◌↔◌, Bool, true, false, none, some, Option, List, [], ◌∷◌, length, arith,
  inl, inr, eqb, eqb_iff, if◌then◌else◌, ==_iff, Option-cases,
}
use sesame_sdk.Prelude.Int.{ℤ, pos, negsuc, ltb_ℤ, leb_ℤ, sub_i64, abs_i64, ◌-ℤ◌, wrap64}
use sesame_sdk.Prelude.Result.{ok, err, guard}
use sesame_sdk.Text.{Bytes, bytes_Eq}
use sesame_sdk.Message.{SesameError, signature_mismatch, expired_timestamp}
use sesame_sdk.Message.Hex.{hex_decode}
use sesame_sdk.External.{Crypto, Clock, IsLawful}
use sesame_sdk.Tier1.{try_keys, verify_any, check_freshness}
use sesame_sdk.Go.Codec.{go_verify, go_verify_any, within_window, go_check_freshness}

pub both_or_neither : (a b : Bool) → (a ≡ true) ↔ (b ≡ true) → a ≡ b
both_or_neither true true h = refl
both_or_neither true false h = let e = h.0 refl in cc
both_or_neither false true h = let e = h.1 refl in cc
both_or_neither false false h = refl

both : (a b : Bool) → (if a then b else false) ≡ true → b ≡ true
both true b h = h
both false b h = cc

guard_if : (b : Bool) (e : SesameError) → (if b then ok tt else err e) ≡ guard b e
guard_if true e = refl
guard_if false e = refl

module _ {c : Crypto} (law : IsLawful c) where
  go_verify_decoded :
      (key canonical provided tag : Bytes)
      → hex_decode provided ≡ some tag
      → go_verify c key canonical provided ≡ c.verify_slice key canonical tag
  unfolding go_verify
  go_verify_decoded key canonical provided tag e =
      both_or_neither (go_verify c key canonical provided) (c.verify_slice key canonical tag) (
        λ h.
            let equal = both (eqb (length tag) 32) _ (rw (go_verify, e) at h) in
            (law.verify_slice_iff key canonical tag).1
              (sym ((==_iff (c.hmac_sha256 key canonical) tag).0 equal)),
        λ h.
            let f = (law.verify_slice_iff key canonical tag).0 h in
            let len : length tag ≡ 32 =
              ap (λ (t : Bytes). length t) f ∙ law.length-hmac key canonical in
            rw (go_verify, e, (eqb_iff (length tag) 32).1 len)
              ((==_iff (c.hmac_sha256 key canonical) tag).1 (sym f)),
      )

  go_verify_any_decoded :
      (keys : List Bytes) (matched : Bool) (canonical provided tag : Bytes)
      → hex_decode provided ≡ some tag
      → go_verify_any c matched keys canonical provided ≡ try_keys c matched keys canonical tag
  unfolding go_verify_any try_keys
  go_verify_any_decoded [] matched canonical provided tag e = refl
  go_verify_any_decoded (key ∷ keys) matched canonical provided tag e =
      rw (go_verify_any, go_verify_decoded key canonical provided tag e)
        (go_verify_any_decoded keys (if c.verify_slice key canonical tag then true else matched)
          canonical provided tag e)

  go_verify_any_undecoded :
      (keys : List Bytes) (matched : Bool) (canonical provided : Bytes)
      → hex_decode provided ≡ none
      → go_verify_any c matched keys canonical provided ≡ matched
  unfolding go_verify_any go_verify
  go_verify_any_undecoded [] matched canonical provided e = refl
  go_verify_any_undecoded (key ∷ keys) matched canonical provided e =
      rw (go_verify_any, go_verify, e) (go_verify_any_undecoded keys matched canonical provided e)

  -- The two ports accept the same signatures.
  pub verify_any-eq-guard :
      (keys : List Bytes) (canonical provided : Bytes)
      → verify_any c keys canonical provided
        ≡ guard (go_verify_any c false keys canonical provided) signature_mismatch
  unfolding verify_any
  verify_any-eq-guard keys canonical provided = elim (Option-cases (hex_decode provided)) [
    | inl e ↦ rw (e, verify_any, go_verify_any_undecoded keys false canonical provided e) refl
    | inr (tag, e) ↦
        rw (e, verify_any, go_verify_any_decoded keys false canonical provided tag e)
          (guard_if (try_keys c false keys canonical tag) signature_mismatch)
  ]

distance_lem : (d : ℤ) → (if ltb_ℤ d (pos 0) then sub_i64 (pos 0) d else d) ≡ abs_i64 d
unfolding sub_i64 abs_i64 ◌-ℤ◌ wrap64
distance_lem (pos n) = ground arith
distance_lem (negsuc n) = ground arith

-- Where the two parsers read a timestamp alike, the freshness tests do.
pub check_freshness-eq-guard :
    (k : Clock) (parse : Bytes → Option ℤ) (timestamp : Bytes) (now : k.Time) (window : ℤ)
    → parse timestamp ≡ Option.map k.unix_timestamp (k.parse_rfc3339 timestamp)
    → check_freshness k timestamp now window
      ≡ guard (go_check_freshness parse timestamp (k.unix_timestamp now) window) expired_timestamp
unfolding check_freshness go_check_freshness within_window
check_freshness-eq-guard k parse timestamp now window same =
    elim (Option-cases (k.parse_rfc3339 timestamp)) [
      | inl e ↦
          let f : parse timestamp ≡ none = same ∙ rw e refl in rw (e, go_check_freshness, f) refl
      | inr (ts, e) ↦
          let f : parse timestamp ≡ some (k.unix_timestamp ts) = same ∙ rw e refl in
          rw
            (
              e,
              go_check_freshness,
              f,
              within_window,
              distance_lem (sub_i64 (k.unix_timestamp now) (k.unix_timestamp ts)),
            )
            (guard_if
              (leb_ℤ (abs_i64 (sub_i64 (k.unix_timestamp now) (k.unix_timestamp ts))) window)
              expired_timestamp)
    ]
