-- ===== src/Client/KeyFile.antt =====
-- examples/sign_request.rs: `json_field`, and the keys that the client reads with it.
use Prim.Native.Nat.{bit_and}
use sesame_sdk.Prelude.{
  ℕ, ◌≡◌, ◌≢◌, refl, ◌∙◌, Option, none, some, List, [], ◌∷◌, ◌++◌, length, get_or, ◌<◌, ◌/◌, ◌^◌,
  sym, eqb, eqb_iff, All, Bool-cases, inl, inr, if◌then◌else◌, arith,
}
use sesame_sdk.Text.{Bytes, codes, strip_prefix}
use sesame_sdk.Message.Hex.{hex_encode, hex_decode, digit, lut, ◌>>=◌}
use sesame_sdk.Message.Hex.Laws.{IsBytes, hex_decode-hex_encode}
use sesame_sdk.Client.Send.{split_at}
use sesame_sdk.Client.Deliver.{split_at_lem}
use sesame_sdk.Tier3.{key_len}

-- The text after the first occurrence of a needle: `find`, and the slice from its end.
unfoldable pub after : (needle s : Bytes) → Option Bytes
unfolding strip_prefix
after needle [] = strip_prefix needle []
after needle (b ∷ s) =
    let later = after needle s in
    elim (strip_prefix needle (b ∷ s)) [ some rest ↦ some rest | none ↦ later ]

-- The value that follows a name.
unfoldable pub json_value : Bytes → Option Bytes
unfolding after split_at
json_value rest = do
  colon ← after (codes ":") rest
  text ← after (codes "\"") colon
  value ← split_at b'"' text
  some value.0

unfoldable pub json_field : Bytes → (names : List Bytes) → Option Bytes
unfolding after json_value
json_field src [] = none
json_field src (n ∷ names) =
    let others = json_field src names in
    elim (after (codes "\"" ++ n ++ codes "\"") src) [ some rest ↦ json_value rest | none ↦ others ]

-- The signing key and the encryption key of the client; `none` is the panic of an `expect` or of the
-- `assert_eq`.
unfoldable pub read_keys : Bytes → Option (Bytes × Bytes)
unfolding json_field hex_decode
read_keys src = do
  signing_hex ← json_field src (codes "signing_secret_hex" ∷ codes "sas_secret_hex" ∷ [])
  enc_hex ← json_field src (codes "enc_key_hex" ∷ codes "encryption_key_hex" ∷ [])
  signing ← hex_decode signing_hex
  enc_key ← hex_decode enc_hex
  if eqb (length enc_key) key_len then some (signing, enc_key) else none

-- A file of the two keys.
abbrev key_file : (signing enc_key : Bytes) → Bytes
key_file signing enc_key =
    codes "{\"signing_secret_hex\": \""
    ++ (hex_encode signing
        ++ (codes "\", \"enc_key_hex\": \"" ++ (hex_encode enc_key ++ codes "\"}")))

-- No needle that begins with a quote is found in a text without one.
after-skip :
    (needle xs rest : Bytes)
    → All (λ b. b ≢ b'"') xs
    → after (b'"' ∷ needle) (xs ++ rest) ≡ after (b'"' ∷ needle) rest
unfolding after strip_prefix
after-skip needle [] rest h = refl
after-skip needle (x ∷ xs) rest (p, h) = elim (Bool-cases (eqb b'"' x)) [
  | inl e ↦ absurd (p (let f = (eqb_iff b'"' x).0 e in omega (arith, f)))
  | inr e ↦ rw (after, e) (after-skip needle xs rest h)
]

nth_digit :
    (xs : Bytes) (i : ℕ)
    → All (λ b. (34 < b) × (b < 110)) xs
    → (get_or xs i 0 ≢ b'"') × (get_or xs i 0 ≢ b'n')
nth_digit [] i h = (λ e. omega (arith, e), λ e. omega (arith, e))
nth_digit (x ∷ xs) ℕ.zero ((p, q), h) = (λ e. omega (arith, e), λ e. omega (arith, e))
nth_digit (x ∷ xs) (ℕ.suc i) (p, h) = nth_digit xs i h

-- No digit is a quote, or the second letter of the second name.
digit_lem : (n : ℕ) → (digit n ≢ b'"') × (digit n ≢ b'n')
digit_lem n = nth_digit lut n (omega arith)

hex_no_quote : (s : Bytes) → All (λ b. b ≢ b'"') (hex_encode s)
unfolding hex_encode
hex_no_quote [] = tt
hex_no_quote (b ∷ s) = ((digit_lem (b / 2 ^ 4)).0, ((digit_lem (bit_and b 0x0f)).0, hex_no_quote s))

signing_field :
    (signing enc_key : Bytes)
    → json_field
        (key_file signing enc_key)
        (codes "signing_secret_hex" ∷ codes "sas_secret_hex" ∷ [])
      ≡ some (hex_encode signing)
unfolding json_field after strip_prefix json_value
signing_field signing enc_key =
    rw (split_at_lem b'"' (hex_encode signing) _ (hex_no_quote signing)) refl

-- The second name does not begin in the first value.
not_in_value :
    (s rest : Bytes) → strip_prefix (codes "enc_key_hex\"") (hex_encode s ++ (b'"' ∷ rest)) ≡ none
unfolding strip_prefix hex_encode
not_in_value [] rest = refl
not_in_value (b ∷ s) rest = elim (Bool-cases (eqb b'e' (digit (b / 2 ^ 4)))) [
  | inr e ↦ rw e refl
  | inl e ↦ elim (Bool-cases (eqb b'n' (digit (bit_and b 0x0f)))) [
    | inl f ↦
        let g = (eqb_iff b'n' (digit (bit_and b 0x0f))).0 f in
        absurd ((digit_lem (bit_and b 0x0f)).1 (sym g))
    | inr f ↦ rw (e, f) refl
  ]
]

after-miss :
    (needle : Bytes) (b : ℕ) (s : Bytes)
    → strip_prefix needle (b ∷ s) ≡ none
    → after needle (b ∷ s) ≡ after needle s
unfolding after
after-miss needle b s e = rw (after, e) refl

enc_found :
    (signing enc_key : Bytes)
    → after (codes "\"enc_key_hex\"") (key_file signing enc_key)
      ≡ some (codes ": \"" ++ (hex_encode enc_key ++ codes "\"}"))
unfolding after strip_prefix
enc_found signing enc_key =
    after-miss (codes "\"enc_key_hex\"") b'"'
      (hex_encode signing
        ++ (codes "\", \"enc_key_hex\": \"" ++ (hex_encode enc_key ++ codes "\"}")))
      (not_in_value signing (codes ", \"enc_key_hex\": \"" ++ (hex_encode enc_key ++ codes "\"}")))
    ∙ after-skip (codes "enc_key_hex\"") (hex_encode signing)
        (codes "\", \"enc_key_hex\": \"" ++ (hex_encode enc_key ++ codes "\"}"))
        (hex_no_quote signing)

enc_value :
    (enc_key : Bytes)
    → json_value (codes ": \"" ++ (hex_encode enc_key ++ codes "\"}")) ≡ some (hex_encode enc_key)
unfolding json_value after strip_prefix
enc_value enc_key =
    rw (split_at_lem b'"' (hex_encode enc_key) (codes "}") (hex_no_quote enc_key)) refl

enc_field :
    (signing enc_key : Bytes)
    → json_field (key_file signing enc_key) (codes "enc_key_hex" ∷ codes "encryption_key_hex" ∷ [])
      ≡ some (hex_encode enc_key)
unfolding json_field
enc_field signing enc_key = rw (json_field, enc_found signing enc_key) (enc_value enc_key)

-- The client reads back the two keys of a key file, whatever bytes they are, if the encryption key
-- has 32.
read_keys-key_file :
    (signing enc_key : Bytes)
    → IsBytes signing
    → IsBytes enc_key
    → length enc_key ≡ 32
    → read_keys (key_file signing enc_key) ≡ some (signing, enc_key)
unfolding read_keys
read_keys-key_file signing enc_key hs he len =
    rw
      (
        signing_field signing enc_key,
        enc_field signing enc_key,
        hex_decode-hex_encode signing hs,
        hex_decode-hex_encode enc_key he,
        len,
      )
      refl
