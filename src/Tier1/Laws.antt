-- ===== src/Tier1/Laws.antt =====
-- Signing and verifying, over lawful cryptography.
use sesame_sdk.Prelude.{
  ◌≡◌, refl, sym, ◌∙◌, ap, ◌↔◌, ◌⊎◌, inl, inr, Bool, true, false, some, List, [], ◌∷◌, map, arith,
  In, Bool-cases, Option-cases,
}
use sesame_sdk.Prelude.Result.{ok, ok_or, >>=-eq-ok, ok_or-eq-ok, if_err-eq-ok}
use sesame_sdk.Text.{Bytes, to_lower}
use sesame_sdk.Message.{signature_mismatch}
use sesame_sdk.Message.Hex.{hex_encode, hex_decode}
use sesame_sdk.Message.Hex.Laws.{hex_decode-hex_encode, hex_decode-to_lower, hex_encode-hex_decode}
use sesame_sdk.External.{Crypto, IsLawful}
use sesame_sdk.Tier1.{sign, verify, try_keys, verify_any}

module _ {c : Crypto} (law : IsLawful c) where
  -- What decodes to a tag, and only that, is its encoding up to the case of the digits.
  decode_signature :
      (provided key canonical : Bytes)
      → map to_lower provided ≡ hex_encode (c.hmac_sha256 key canonical)
      → hex_decode provided ≡ some (c.hmac_sha256 key canonical)
  decode_signature provided key canonical h =
      sym (hex_decode-to_lower provided)
      ∙ ap hex_decode h
      ∙ hex_decode-hex_encode _ (law.hmac_bytes key canonical)

  -- A signature is accepted under a key exactly when it is, up to the case of its digits, the
  -- signature that the key makes.
  pub verify_iff :
      (key canonical provided : Bytes)
      → (verify c key canonical provided ≡ ok tt) ↔ (map to_lower provided ≡ sign c key canonical)
  unfolding verify sign
  verify_iff key canonical provided = (
    λ h.
        let (tag, decoded, rest) = >>=-eq-ok (ok_or (hex_decode provided) signature_mismatch) _ h in
        let (matches, _) = if_err-eq-ok _ _ _ rest in
        sym ((hex_encode-hex_decode provided tag (ok_or-eq-ok _ _ decoded)).1)
        ∙ ap hex_encode ((law.verify_slice_iff key canonical tag).0 matches),
    λ h.
        rw (
          decode_signature provided key canonical h,
          (law.verify_slice_iff key canonical _).1 refl,
        ),
  )

  try_keys_iff :
      (keys : List Bytes) (matched : Bool) (canonical tag : Bytes)
      → (try_keys c matched keys canonical tag ≡ true)
        ↔ ((matched ≡ true) ⊎ ((key : Bytes) × In key keys × (tag ≡ c.hmac_sha256 key canonical)))
  unfolding try_keys
  try_keys_iff [] matched canonical tag = ground arith
  try_keys_iff (key ∷ keys) matched canonical tag =
      elim (Bool-cases (c.verify_slice key canonical tag)) [
        | inl e ↦ rw e (
          λ h. inr (key, inl refl, (law.verify_slice_iff key canonical tag).0 e),
          λ h. (try_keys_iff keys true canonical tag).1 (inl refl),
        )
        | inr e ↦ rw e (
          λ h. later ((try_keys_iff keys matched canonical tag).0 h),
          λ h. (try_keys_iff keys matched canonical tag).1 (back e h),
        )
      ]
    where
      later :
          (matched ≡ true) ⊎ ((key : Bytes) × In key keys × (tag ≡ c.hmac_sha256 key canonical))
          → (matched ≡ true) ⊎ ((k : Bytes) × In k (key ∷ keys) × (tag ≡ c.hmac_sha256 k canonical))
      later (inl e) = inl e
      later (inr (k, m, e)) = inr (k, inr m, e)

      back :
          (c.verify_slice key canonical tag ≡ false)
          → (matched ≡ true) ⊎ ((k : Bytes) × In k (key ∷ keys) × (tag ≡ c.hmac_sha256 k canonical))
          → (matched ≡ true) ⊎ ((key : Bytes) × In key keys × (tag ≡ c.hmac_sha256 key canonical))
      back no_match (inl e) = inl e
      back no_match (inr (k, inl p, e)) = ground (arith, law.verify_slice_iff key canonical tag)
      back no_match (inr (k, inr m, e)) = inr (k, m, e)

  -- A signature is accepted exactly when one of the candidate keys makes it, up to the case of its
  -- digits.
  pub verify_any_iff :
      (keys : List Bytes) (canonical provided : Bytes)
      → (verify_any c keys canonical provided ≡ ok tt)
        ↔ ((key : Bytes) × In key keys × (map to_lower provided ≡ sign c key canonical))
  unfolding verify_any sign
  verify_any_iff keys canonical provided = (accepted, accepts)
    where
      accepted :
          verify_any c keys canonical provided ≡ ok tt
          → (key : Bytes) × In key keys × (map to_lower provided ≡ sign c key canonical)
      accepted h = elim (Option-cases (hex_decode provided)) [
        | inl e ↦ ground arith
        | inr (tag, e) ↦
            let (matched, _) =
              if_err-eq-ok (try_keys c false keys canonical tag) (ok tt) signature_mismatch
                (rw (e, verify_any) at h) in
            elim ((try_keys_iff keys false canonical tag).0 matched) [
              | inl absurd_case ↦ cc
              | inr (key, m, eq) ↦
                  (key, m, sym ((hex_encode-hex_decode provided tag e).1) ∙ ap hex_encode eq)
            ]
      ]

      accepts :
          (key : Bytes) × In key keys × (map to_lower provided ≡ sign c key canonical)
          → verify_any c keys canonical provided ≡ ok tt
      accepts (key, m, e) = rw (
        decode_signature provided key canonical e,
        verify_any,
        (try_keys_iff keys false canonical _).1 (inr (key, m, refl)),
      )

  -- A signature is in lower case.
  pub sign-to_lower :
      (key canonical : Bytes) → map to_lower (sign c key canonical) ≡ sign c key canonical
  unfolding sign
  sign-to_lower key canonical = sym (
      (hex_encode-hex_decode _ _
        (hex_decode-hex_encode (c.hmac_sha256 key canonical) (law.hmac_bytes key canonical))).1)
