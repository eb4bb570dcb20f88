-- ===== src/Go/Codec.antt =====
-- go/canonical.go, go/tier1.go and go/tier3.go: the strings that are signed, signatures, freshness and
-- decryption.
use sesame_sdk.Prelude.{
  Bool, true, false, Option, none, some, List, [], ◌∷◌, ◌++◌, ◌==◌, if◌then◌else◌, eqb, length,
}
use sesame_sdk.Prelude.Int.{ℤ, pos, ltb_ℤ, leb_ℤ, sub_i64}
use sesame_sdk.Text.{Bytes, bytes_Eq, bytes_eq, codes}
use sesame_sdk.Message.Hex.{hex_encode, hex_decode}
use sesame_sdk.External.{Crypto}
use sesame_sdk.Tier3.{iv_len}

-- `strings.Join`
unfoldable pub go_join : (sep : Bytes) → List Bytes → Bytes
go_join sep [] = []
go_join sep (x ∷ []) = x
go_join sep (x ∷ y ∷ xs) = x ++ (sep ++ go_join sep (y ∷ xs))

-- `if scope != nil { fields = append(fields, *scope) }`
abbrev pub append_scope : List Bytes → Option Bytes → List Bytes
append_scope fields none = fields
append_scope fields (some scope) = fields ++ scope ∷ []

unfoldable pub go_request_canonical :
    (method path timestamp nonce body_hash_hex : Bytes) (scope : Option Bytes) → Bytes
unfolding go_join
go_request_canonical method path timestamp nonce body_hash_hex scope =
    go_join (codes "\n")
      (append_scope (method ∷ path ∷ timestamp ∷ nonce ∷ body_hash_hex ∷ []) scope)

unfoldable pub go_response_canonical :
    (correlation timestamp nonce body_hash_hex : Bytes) (scope : Option Bytes) → Bytes
unfolding go_join
go_response_canonical correlation timestamp nonce body_hash_hex scope =
    go_join (codes "\n")
      (append_scope (codes "RESPONSE" ∷ correlation ∷ timestamp ∷ nonce ∷ body_hash_hex ∷ []) scope)

unfoldable pub go_aad_for_headers :
    (version key_id timestamp nonce : Bytes) (scope : Option Bytes) → Bytes
unfolding go_join
go_aad_for_headers version key_id timestamp nonce scope =
    go_join (codes "\n") (append_scope (version ∷ key_id ∷ timestamp ∷ nonce ∷ []) scope)

-- A parsed time passes at most the window away from now.
unfoldable pub within_window : (now_unix window_secs ts : ℤ) → Bool
within_window now_unix window_secs ts =
    let d = sub_i64 now_unix ts in
    let d = if ltb_ℤ d (pos 0) then sub_i64 (pos 0) d else d in leb_ℤ d window_secs

-- `CheckFreshness`, over `ParseRFC3339UTC`, of which `none` is the error.
unfoldable pub go_check_freshness :
    (parse : Bytes → Option ℤ) (timestamp_iso : Bytes) (now_unix window_secs : ℤ) → Bool
unfolding within_window
go_check_freshness parse timestamp_iso now_unix window_secs = elim (parse timestamp_iso) [
  | none ↦ false
  | some ts ↦ within_window now_unix window_secs ts
]

module _ (c : Crypto) where
  unfoldable pub go_body_hash_hex : Bytes → Bytes
  go_body_hash_hex body = hex_encode (c.sha256 body)

  unfoldable pub go_sign : (key canonical : Bytes) → Bytes
  go_sign key canonical = hex_encode (c.hmac_sha256 key canonical)

  -- `Verify`; `hmac.Equal` is the comparison of the bytes.
  unfoldable pub go_verify : (key canonical provided_hex : Bytes) → Bool
  unfolding bytes_eq
  go_verify key canonical provided_hex = elim (hex_decode provided_hex) [
    | none ↦ false
    | some provided ↦
        if eqb (length provided) 32 then c.hmac_sha256 key canonical == provided else false
  ]

  -- The loop of `VerifyAny`, with its variable `ok`.
  unfoldable pub go_verify_any :
      (ok : Bool) (keys : List Bytes) (canonical provided_hex : Bytes) → Bool
  unfolding go_verify
  go_verify_any ok [] canonical provided_hex = ok
  go_verify_any ok (k ∷ keys) canonical provided_hex =
      go_verify_any (if go_verify k canonical provided_hex then true else ok) keys canonical
        provided_hex

  -- `Seal`, with a key of 32 bytes, of which `newGCM` makes a cipher.
  unfoldable pub go_seal : (key iv aad plaintext : Bytes) → Option Bytes
  go_seal key iv aad plaintext =
      if eqb (length iv) iv_len then c.gcm_encrypt key iv aad plaintext else none

  -- `Open`, with a key of 32 bytes.
  unfoldable pub go_open : (key iv aad ct_and_tag : Bytes) → Option Bytes
  go_open key iv aad ct_and_tag =
      if eqb (length iv) iv_len then c.gcm_decrypt key iv aad ct_and_tag else none
