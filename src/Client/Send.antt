-- ===== src/Client/Send.antt =====
-- examples/sign_request.rs: the headers that the client sends, and how `http_post` takes its URL
-- apart.
use sesame_sdk.Prelude.{ℕ, Option, none, some, List, [], ◌∷◌, ◌++◌, if◌then◌else◌, eqb}
use sesame_sdk.Text.{Bytes, codes, strip_prefix}
use sesame_sdk.Message.{
  protocol_version, h_version, h_key_id, h_timestamp, h_nonce, h_signature, h_scope, h_encrypted,
  h_enc_key_id, h_iv,
}
use sesame_sdk.Client.{Settings, path_of}

abbrev pub h_content_type : Bytes
h_content_type = codes "Content-Type"

abbrev own_scope_header : Option Bytes → List (Bytes × Bytes)
own_scope_header none = []
own_scope_header (some s) = (h_scope, s) ∷ []

-- `iv_hex.clone().unwrap()`, whose panic is `none`.
abbrev cipher_headers : Settings → (iv_hex : Option Bytes) → Option (List (Bytes × Bytes))
cipher_headers s none = none
cipher_headers s (some iv_hex) =
    some ((h_encrypted, codes "true") ∷ (h_enc_key_id, s.enc_key_id) ∷ (h_iv, iv_hex) ∷ [])

-- The vector `hdrs`.
unfoldable pub sent_headers :
    Settings
    → (tier : ℕ) (ts nonce signature : Bytes) (scope iv_hex : Option Bytes)
    → Option (List (Bytes × Bytes))
sent_headers s tier ts nonce signature scope iv_hex =
    let content_type =
      if eqb tier 3 then codes "application/octet-stream" else codes "application/xml" in
    let hdrs : List (Bytes × Bytes) =
      (h_content_type, content_type)
      ∷ (h_version, protocol_version)
      ∷ (h_key_id, s.key_id)
      ∷ (h_timestamp, ts)
      ∷ (h_nonce, nonce)
      ∷ (h_signature, signature)
      ∷ own_scope_header scope in
    if eqb tier 3
    then elim (cipher_headers s iv_hex) [ none ↦ none | some more ↦ some (hdrs ++ more) ]
    else some hdrs

-- `s.find(c)`, with the text split there: what stands before the byte, and the rest from it on.
unfoldable pub split_at : ℕ → Bytes → Option (Bytes × Bytes)
split_at c [] = none
split_at c (b ∷ s) =
    let later = split_at c s in
    if eqb b c
    then some ([], b ∷ s)
    else elim later [ none ↦ none | some (before, from) ↦ some (b ∷ before, from) ]

-- `(hostport, path)`
unfoldable pub url_parts : Bytes → Bytes × Bytes
unfolding strip_prefix split_at
url_parts url =
    let rest : Bytes = elim (strip_prefix (codes "http://") url) [ none ↦ url | some r ↦ r ] in
    elim (split_at b'/' rest) [ none ↦ (rest, codes "/") | some parts ↦ parts ]

-- `format!("{base}{path}")`
abbrev pub url_of : (base : Bytes) → Settings → Bytes
url_of base s = base ++ path_of s
