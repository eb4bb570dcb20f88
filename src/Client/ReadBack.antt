-- ===== src/Client/ReadBack.antt =====
-- The headers that the client sends, read back.
use sesame_sdk.Prelude.{
  ℕ, suc, Bool, fun_ext, ◌≤◌, ◌≡◌, refl, ap, sym, subst, Option, none, some, List, [], ◌∷◌,
  if◌then◌else◌, arith, true, false,
}
use sesame_sdk.Prelude.Result.{ok}
use sesame_sdk.Text.{Bytes, codes, eq_ignore_ascii_case, bytes_eq}
use sesame_sdk.Message.{SesameHeaders, from_lookup, says_true, protocol_version}
use sesame_sdk.External.{Crypto, Clock, IsLawful, IsCalendar}
use sesame_sdk.Adapter.{Http, header_text, headers_from_map}
use sesame_sdk.Tier.{SesameConfig}
use sesame_sdk.Client.{Settings, path_of, nonce_of, scope_of, seal_body, build_request}
use sesame_sdk.Client.Own.{own_headers, built_3}
use sesame_sdk.Tier1.{sign}
use sesame_sdk.Canonical.{body_hash_hex, request_canonical}
use sesame_sdk.Message.Hex.{hex_encode}
use sesame_sdk.Client.Send.{sent_headers}

-- The value of the first header with a name, in any case.
unfoldable pub first_value : List (Bytes × Bytes) → (name : Bytes) → Option Bytes
unfolding eq_ignore_ascii_case
first_value [] name = none
first_value ((n, v) ∷ hdrs) name =
    let later = first_value hdrs name in if eq_ignore_ascii_case n name then some v else later

-- The map holds the headers that were sent: `HeaderMap::get` finds the first value of a name in any
-- case, and `to_str` gives back its text.
abbrev pub Holds : (h : Http) → h.HeaderMap → List (Bytes × Bytes) → Type 0
Holds h map hdrs = (name : Bytes) → header_text h map name ≡ first_value hdrs name

pub headers_of_lookup :
    (h : Http) (map : h.HeaderMap) (hdrs : List (Bytes × Bytes))
    → Holds h map hdrs
    → headers_from_map h map ≡ from_lookup (first_value hdrs)
unfolding headers_from_map
headers_of_lookup h map hdrs holds = ap from_lookup (fun_ext holds)

-- The headers that carry these values.
abbrev headers_with :
    Settings
    → (ts nonce signature : Bytes) (scope : Option Bytes) (encrypted : Bool)
      (enc_key_id iv_hex : Option Bytes)
    → SesameHeaders
headers_with s ts nonce signature scope encrypted enc_key_id iv_hex = record {
  version = some protocol_version;
  key_id = some s.key_id;
  timestamp = some ts;
  nonce = some nonce;
  signature = some signature;
  scope = scope;
  encrypted = encrypted;
  enc_key_id = enc_key_id;
  iv = iv_hex;
}

abbrev pub Reads : Option (List (Bytes × Bytes)) → SesameHeaders → Type 0
Reads sent headers =
    (hdrs : List (Bytes × Bytes)) → sent ≡ some hdrs → from_lookup (first_value hdrs) ≡ headers

given_headers :
    (sent : List (Bytes × Bytes)) (headers : SesameHeaders)
    → from_lookup (first_value sent) ≡ headers
    → Reads (some sent) headers
given_headers sent headers h hdrs e = let f : sent ≡ hdrs = cc in rw (← f) h

module _ (s : Settings) (ts nonce signature : Bytes) where
  tier_1_headers :
      (scope : Option Bytes)
      → Reads
          (sent_headers s 1 ts nonce signature scope none)
          (headers_with s ts nonce signature scope false none none)
  unfolding sent_headers first_value from_lookup says_true eq_ignore_ascii_case bytes_eq
  tier_1_headers none = given_headers _ _ refl
  tier_1_headers (some scope) = given_headers _ _ refl

  tier_2_headers :
      (scope : Option Bytes)
      → Reads
          (sent_headers s 2 ts nonce signature scope none)
          (headers_with s ts nonce signature scope false none none)
  unfolding sent_headers first_value from_lookup says_true eq_ignore_ascii_case bytes_eq
  tier_2_headers none = given_headers _ _ refl
  tier_2_headers (some scope) = given_headers _ _ refl

  tier_3_headers :
      (scope : Option Bytes) (iv_hex : Bytes)
      → Reads
          (sent_headers s 3 ts nonce signature scope (some iv_hex))
          (headers_with s ts nonce signature scope true (some s.enc_key_id) (some iv_hex))
  unfolding sent_headers first_value from_lookup says_true eq_ignore_ascii_case bytes_eq
  tier_3_headers none iv_hex = given_headers _ _ refl
  tier_3_headers (some scope) iv_hex = given_headers _ _ refl

-- What the client sends for a message that it built reads back as its headers.
abbrev pub ReadsBack : Settings → (tier : ℕ) (ts iv : Bytes) → SesameHeaders × Bytes → Type 0
ReadsBack s tier ts iv m =
    (signature : Bytes)
    → m.0.signature ≡ some signature
    → Reads (sent_headers s tier ts (nonce_of tier iv) signature m.0.scope m.0.iv) m.0

module _ {c : Crypto} {k : Clock} (law : IsLawful c) (cal : IsCalendar k) (cfg : SesameConfig)
    (s : Settings) (ts iv plaintext : Bytes) where
  own_ReadsBack :
      (tier : ℕ) (scope : Option Bytes) (wire : Bytes) (encrypted : Bool)
      (enc_key_id iv_hex : Option Bytes)
      → ((signature : Bytes)
          → Reads
              (sent_headers s tier ts (nonce_of tier iv) signature scope iv_hex)
              (headers_with s ts (nonce_of tier iv) signature scope encrypted enc_key_id iv_hex))
      → ReadsBack s tier ts iv (
        own_headers law cal cfg s scope ts (nonce_of tier iv) wire encrypted enc_key_id iv_hex,
        wire,
      )
  own_ReadsBack tier scope wire encrypted enc_key_id iv_hex reads signature e =
      let f : sign c s.signing (
            request_canonical (codes "POST") (path_of s) ts (nonce_of tier iv)
              (body_hash_hex c.sha256 wire) scope)
          ≡ signature =
        cc in
      rw (← f) (reads _)

  pub build_request-ReadsBack :
      (tier : ℕ) (m : SesameHeaders × Bytes)
      → 1 ≤ tier
      → tier ≤ 3
      → build_request c s tier ts iv plaintext ≡ ok m
      → ReadsBack s tier ts iv m
  unfolding build_request seal_body
  build_request-ReadsBack ℕ.zero m low high h = absurd (omega arith)
  build_request-ReadsBack (suc ℕ.zero) m low high h =
      let same : ◌≡◌ {A = SesameHeaders × Bytes}
          (own_headers law cal cfg s none ts (nonce_of 1 iv) plaintext false none none, plaintext)
          m =
        cc in
      subst (ReadsBack s 1 ts iv) same (
        own_ReadsBack 1 none plaintext false none none
          (λ signature. tier_1_headers s ts (nonce_of 1 iv) signature none))
  build_request-ReadsBack (suc (suc ℕ.zero)) m low high h =
      let same : ◌≡◌ {A = SesameHeaders × Bytes}
          (
            own_headers law cal cfg s (scope_of s 2) ts (nonce_of 2 iv) plaintext false none none,
            plaintext,
          )
          m =
        cc in
      subst (ReadsBack s 2 ts iv) same (
        own_ReadsBack 2 (scope_of s 2) plaintext false none none
          (λ signature. tier_2_headers s ts (nonce_of 2 iv) signature (scope_of s 2)))
  build_request-ReadsBack (suc (suc (suc ℕ.zero))) m low high h =
      let (ct, _, same) = built_3 law cal cfg s ts iv plaintext m h in
      subst (ReadsBack s 3 ts iv) (sym same) (
        own_ReadsBack 3 (scope_of s 3) ct true (some s.enc_key_id) (some (hex_encode iv))
          (λ signature.
            tier_3_headers s ts (nonce_of 3 iv) signature (scope_of s 3) (hex_encode iv)))
  build_request-ReadsBack (suc (suc (suc (suc n)))) m low high h = absurd (omega arith)
