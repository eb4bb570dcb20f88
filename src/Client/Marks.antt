-- ===== src/Client/Marks.antt =====
-- examples/sign_request.rs: the marks of a signed and of an encrypted response that the client looks
-- for in its text.
use mathlib.Core.List.{append_assoc, map-append}
use sesame_sdk.Prelude.{
  ℕ, ◌^◌, ◌<◌, ◌≡◌, refl, ap, ◌∙◌, ◌↔◌, true, not, ◌||◌, Bool-cases, some, List, [], ◌∷◌, ◌++◌, map,
  In, All, arith, inl, inr, Option-cases,
}
use sesame_sdk.Prelude.Result.{ok}
use sesame_sdk.Text.{Bytes, codes, to_lower, strip_prefix}
use sesame_sdk.Text.Laws.{strip_prefix_iff}
use sesame_sdk.Text.Decimal.{decimal}
use sesame_sdk.Message.{h_signature, h_encrypted, h_enc_key_id, h_iv}
use sesame_sdk.Message.Hex.{hex_encode}
use sesame_sdk.Canonical.{body_hash_hex, response_canonical}
use sesame_sdk.Tier1.{sign}
use sesame_sdk.External.{Crypto, Clock, IsLawful, IsCalendar}
use sesame_sdk.Keys.{KeyProvider}
use sesame_sdk.Tier.{SesameConfig, three, tier_ge}
use sesame_sdk.Respond.{ResponseParams, SignedResponse, first_headers, sign_response}
use sesame_sdk.Respond.Headers.{respond_body-Sealed}
use sesame_sdk.Respond.Laws.{Parts, sign_response-Parts}
use sesame_sdk.Client.KeyFile.{after}
use sesame_sdk.Client.Lines.{line_of, fields_text}
use sesame_sdk.Client.Post.{crlf, contains, status_of, response_marks}
use sesame_sdk.Client.Answer.{IsVisible, status_of_lem}

after_sound :
    (needle s rest : Bytes)
    → after needle s ≡ some rest
    → (before : Bytes) × (s ≡ before ++ (needle ++ rest))
unfolding after
after_sound needle [] rest h = ([], (strip_prefix_iff needle [] rest).0 h)
after_sound needle (b ∷ s) rest h = elim (Option-cases (strip_prefix needle (b ∷ s))) [
  | inl e ↦
      let (before, f) = after_sound needle s rest (rw (e, after) at h) in
      (b ∷ before, ap (λ t. b ∷ t) f)
  | inr (r, e) ↦ ([], (strip_prefix_iff needle (b ∷ s) rest).0 (e ∙ rw (e, after) at h))
]

after_complete :
    (needle before rest : Bytes)
    → (r : Bytes) × (after needle (before ++ (needle ++ rest)) ≡ some r)
unfolding after
after_complete needle [] rest = first (needle ++ rest) ((strip_prefix_iff needle _ rest).1 refl)
  where
    first :
        (s : Bytes) → strip_prefix needle s ≡ some rest → (r : Bytes) × (after needle s ≡ some r)
    first [] e = (rest, e)
    first (b ∷ s) e = (rest, rw (after, e) refl)
after_complete needle (b ∷ before) rest =
    let (r, e) = after_complete needle before rest in
    elim (Option-cases (strip_prefix needle (b ∷ (before ++ (needle ++ rest))))) [
      | inl f ↦ (r, rw (after, f) e)
      | inr (q, f) ↦ (q, rw (after, f) refl)
    ]

-- A text is said to contain another exactly when it is that with something before and after.
pub contains_iff :
    (s needle : Bytes)
    → (contains s needle ≡ true) ↔ ((before rest : Bytes) × (s ≡ before ++ (needle ++ rest)))
unfolding contains
contains_iff s needle = (
  λ h. elim (Option-cases (after needle s)) [
    | inl e ↦ ground arith
    | inr (rest, e) ↦ let (before, f) = after_sound needle s rest e in (before, rest, f)
  ],
  λ (before, rest, e). let (r, f) = after_complete needle before rest in rw (e, contains, f) refl,
)

-- A field stands in the text of its list.
fields_text-In :
    (f : Bytes × Bytes) (fields : List (Bytes × Bytes))
    → In f fields
    → (before rest : Bytes) × (fields_text fields ≡ before ++ (line_of f ++ rest))
fields_text-In f [] m = elim m [ ]
fields_text-In f (g ∷ fields) (inl e) = ([], crlf ++ fields_text fields, rw e refl)
fields_text-In f (g ∷ fields) (inr m) =
    let (before, rest, e) = fields_text-In f fields m in
    (line_of g ++ (crlf ++ before), rest, ap (λ t. line_of g ++ (crlf ++ t)) e ∙ simp append_assoc)

-- Whatever a field's line begins with is found in the lower-case text of a message with it.
contains_field :
    (head mark value tail : Bytes) (f : Bytes × Bytes) (fields : List (Bytes × Bytes))
    → In f fields
    → line_of f ≡ mark ++ value
    → contains (map to_lower (head ++ (fields_text fields ++ tail))) (map to_lower mark) ≡ true
contains_field head mark value tail f fields m e =
    let (before, rest, g) = fields_text-In f fields m in
    let regroup : head ++ (fields_text fields ++ tail)
        ≡ (head ++ before) ++ (mark ++ (value ++ (rest ++ tail))) =
      rw (g, e) (simp append_assoc) in
    (contains_iff _ (map to_lower mark)).1 (
      map to_lower (head ++ before),
      map to_lower (value ++ (rest ++ tail)),
      ap (map to_lower) regroup
          ∙ map-append to_lower (head ++ before) (mark ++ (value ++ (rest ++ tail)))
          ∙ ap (λ t. map to_lower (head ++ before) ++ t)
              (map-append to_lower mark (value ++ (rest ++ tail))),
    )

In-right : (a : Bytes × Bytes) (xs ys : List (Bytes × Bytes)) → In a ys → In a (xs ++ ys)
In-right a [] ys m = m
In-right a (x ∷ xs) ys m = inr (In-right a xs ys m)

In-left : (a : Bytes × Bytes) (xs ys : List (Bytes × Bytes)) → In a xs → In a (xs ++ ys)
In-left a [] ys m = elim m [ ]
In-left a (x ∷ xs) ys (inl e) = inl e
In-left a (x ∷ xs) ys (inr m) = inr (In-left a xs ys m)

In-middle : (a : Bytes × Bytes) (xs ys zs : List (Bytes × Bytes)) → In a ((xs ++ a ∷ ys) ++ zs)
In-middle a xs ys zs = In-left a (xs ++ a ∷ ys) zs (In-right a xs (a ∷ ys) (inl refl))

-- A response of the signer's as a server writes it: the version and the status, whatever stands
-- before the fields, the fields, and what follows them.
abbrev pub response_text :
    (b : ℕ) (version : Bytes) (status : ℕ) (reason : Bytes) (r : SignedResponse) (tail : Bytes)
    → Bytes
response_text b version status reason r tail =
    (b ∷ version)
    ++ 32 ∷ (decimal status ++ 32 ∷ (reason ++ (crlf ++ (fields_text r.headers ++ tail))))

response_contains :
    (b : ℕ) (version : Bytes) (status : ℕ) (reason : Bytes) (r : SignedResponse) (tail : Bytes)
    (f : Bytes × Bytes) (mark value : Bytes)
    → In f r.headers
    → line_of f ≡ mark ++ value
    → contains (map to_lower (response_text b version status reason r tail)) (map to_lower mark)
      ≡ true
response_contains b version status reason r tail f mark value m e =
    let regroup : response_text b version status reason r tail
        ≡ ((b ∷ version) ++ 32 ∷ (decimal status ++ 32 ∷ (reason ++ crlf)))
          ++ (fields_text r.headers ++ tail) =
      simp append_assoc in
    ap (λ t. contains (map to_lower t) (map to_lower mark)) regroup
    ∙ contains_field ((b ∷ version) ++ 32 ∷ (decimal status ++ 32 ∷ (reason ++ crlf))) mark value
        tail f r.headers m e

module _ {c : Crypto} {k : Clock} (law : IsLawful c) (cal : IsCalendar k) (cfg : SesameConfig)
    (provider : KeyProvider) (params : ResponseParams) (plaintext_xml : Bytes) (now : k.Time)
    (random_128 random_iv : Bytes) where
  abbrev own_signature :
      (r : SignedResponse)
      → Parts law cal cfg provider params plaintext_xml now random_128 random_iv r
      → Bytes
  own_signature r p = sign c p.key (
      response_canonical params.correlation p.timestamp (hex_encode random_128)
        (body_hash_hex c.sha256 r.body) params.scope)

  signature_seen :
      (r : SignedResponse) (b : ℕ) (version : Bytes) (status : ℕ) (reason tail : Bytes)
      → Parts law cal cfg provider params plaintext_xml now random_128 random_iv r
      → (response_marks (response_text b version status reason r tail)).0 ≡ true
  unfolding response_marks
  signature_seen r b version status reason tail p =
      let signature = own_signature r p in
      response_contains b version status reason r tail (h_signature, signature) h_signature
        (codes ": " ++ signature)
        (rw p.headers (
          In-right (h_signature, signature)
            (first_headers params p.timestamp (hex_encode random_128) ++ p.pushed)
            ((h_signature, signature) ∷ []) (inl refl)))
        refl

  encryption_seen :
      (r : SignedResponse) (b : ℕ) (version : Bytes) (status : ℕ) (reason tail : Bytes)
      → Parts law cal cfg provider params plaintext_xml now random_128 random_iv r
      → tier_ge params.tier three ≡ true
      → (response_marks (response_text b version status reason r tail)).1 ≡ true
  unfolding response_marks
  encryption_seen r b version status reason tail p tier =
      let sealed =
        respond_body-Sealed c provider params plaintext_xml p.timestamp (hex_encode random_128)
          random_iv r.body r.content_type p.pushed tier p.responded in
      let more : List (Bytes × Bytes) =
        (h_enc_key_id, sealed.enc_key_id) ∷ (h_iv, hex_encode random_iv) ∷ [] in
      response_contains b version status reason r tail (h_encrypted, codes "true")
        (h_encrypted ++ codes ": true") []
        (rw (p.headers, sealed.headers)
          (In-middle (h_encrypted, codes "true")
            (first_headers params p.timestamp (hex_encode random_128)) more
            ((h_signature, own_signature r p) ∷ [])))
        refl

  -- The client finds the status of a signed response in its text, and sees that it is signed and,
  -- from Tier 3 on, that it is encrypted. It is for a version of visible characters and a status that
  -- a `u16` holds.
  pub signed_response_seen :
      (r : SignedResponse) (b : ℕ) (version : Bytes) (status : ℕ) (reason tail : Bytes)
      → sign_response c k cfg provider params plaintext_xml now random_128 random_iv ≡ ok r
      → All IsVisible (b ∷ version)
      → status < 2 ^ 16
      → (status_of (response_text b version status reason r tail) ≡ status)
        × ((response_marks (response_text b version status reason r tail)).0 ≡ true)
        × ((not (tier_ge params.tier three)
              || (response_marks (response_text b version status reason r tail)).1)
            ≡ true)
  signed_response_seen r b version status reason tail h v small =
      let p =
        sign_response-Parts law cal cfg provider params plaintext_xml now random_128 random_iv r
          h in
      (
        status_of_lem b version (reason ++ (crlf ++ (fields_text r.headers ++ tail))) status v
            ∙ ground arith,
        signature_seen r b version status reason tail p,
        elim (Bool-cases (tier_ge params.tier three)) [
          | inl e ↦ rw (e, encryption_seen r b version status reason tail p e) refl
          | inr e ↦ rw e refl
        ],
      )
