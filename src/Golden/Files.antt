-- ===== src/Golden/Files.antt =====
-- tools/golden-extractor/src/main.rs, `main`: the vectors of the two files; and the loops of the
-- conformance gate over them.
use sesame_sdk.Prelude.{
  ◌≡◌, ◌≢◌, ◌↔◌, refl, Bool, true, false, ◌&&◌, Option, none, some, List, [], ◌∷◌, All,
}
use sesame_sdk.Text.{Bytes, codes}
use sesame_sdk.Message.Hex.{◌>>=◌}
use sesame_sdk.Tier3.{key_len, iv_len}
use sesame_sdk.Golden.{
  req_vector, resp_vector, aead_vector, enc_key_hex, iv_hex, Deployed, RequestVector,
  ResponseVector, AeadVector, version, key_id, ts, nonce, decode_sized,
}

abbrev pub golden_scope : Bytes
golden_scope = codes "channel=SportsFeed-East"

abbrev pub golden_xml : Bytes
golden_xml = codes "<SignalProcessingNotification acquisitionPointIdentity=\"ap-1\"/>"

abbrev pub golden_resp_xml : Bytes
golden_resp_xml =
    codes "<SignalProcessingNotificationResponse acquisitionSignalID=\"ap-1:sigid-20260224-001\"/>"

-- A panic of one is a panic of all.
abbrev all_some : {A : Type 0} → List (Option A) → Option (List A)
all_some [] = some []
all_some (o ∷ os) = do a ← o; rest ← all_some os; some (a ∷ rest)

module _ (d : Deployed) where
  -- The ciphertext that is the body of the last request.
  unfoldable pub golden_ciphertext : Option Bytes
  golden_ciphertext = do
    let aad = d.aad_for_headers version key_id ts nonce none
    key ← decode_sized d.hex_decode key_len enc_key_hex
    iv ← decode_sized d.hex_decode iv_len iv_hex
    d.seal key iv aad golden_xml

  abbrev pub golden_request_list : (ct : Bytes) → List (Option RequestVector)
  golden_request_list ct =
      req_vector d (codes "tier1 request, no scope") (codes "POST") (codes "/esam") none golden_xml
        (some golden_xml) false
      ∷ req_vector d (codes "tier2 request, scope in path and signed") (codes "POST")
          (codes "/esam?channel=SportsFeed-East") (some golden_scope) golden_xml (some golden_xml)
          false
      ∷ req_vector d
          (codes "tier1 request, query component signed (request-target, not RFC 3986 path)")
          (codes "POST") (codes "/esam?channel=SportsFeed-East&priority=high") none golden_xml
          (some golden_xml) false
      ∷ req_vector d (codes "tier1 request, empty body") (codes "POST") (codes "/esam") none []
          (some []) false
      ∷ req_vector d (codes "tier3 request, signature over ciphertext||tag (encrypt-then-MAC)")
          (codes "POST") (codes "/esam") none ct none true
      ∷ []

  unfoldable pub golden_requests : Option (List RequestVector)
  golden_requests = do ct ← golden_ciphertext; all_some (golden_request_list ct)

  abbrev pub golden_response_list : List (Option ResponseVector)
  golden_response_list =
      resp_vector d (codes "response, no scope") none golden_resp_xml golden_resp_xml
      ∷ resp_vector d (codes "response, with scope") (some golden_scope) golden_resp_xml
          golden_resp_xml
      ∷ []

  unfoldable pub golden_responses : Option (List ResponseVector)
  golden_responses = all_some golden_response_list

  abbrev pub golden_aead_list : List (Option AeadVector)
  golden_aead_list =
      aead_vector d (codes "tier3 aead, no scope") none golden_xml golden_xml
      ∷ aead_vector d (codes "tier3 aead, scope bound in AAD") (some golden_scope) golden_xml
          golden_xml
      ∷ aead_vector d (codes "tier3 aead, empty plaintext") none [] []
      ∷ []

  unfoldable pub golden_aeads : Option (List AeadVector)
  golden_aeads = all_some golden_aead_list

-- The `for` loop of a test over its vectors; an assertion that fails is `some false`.
abbrev each : {A : Type 0} → (A → Option Bool) → List A → Option Bool
each p [] = some true
each p (v ∷ vs) = do held ← p v; rest ← each p vs; some (held && rest)

-- A test: its file must hold a vector.
unfoldable pub gate : {A : Type 0} → (A → Option Bool) → List A → Option Bool
gate p [] = some false
gate p (v ∷ vs) = each p (v ∷ vs)

and_iff :
    (u w : Option Bool)
    → ((do held ← u; rest ← w; some (held && rest)) ≡ some true)
      ↔ ((u ≡ some true) × (w ≡ some true))
and_iff none w = ((λ h. (h, cc)), (λ h. h.0))
and_iff (some true) none = ((λ h. (refl, h)), (λ h. h.1))
and_iff (some true) (some w) = ((λ h. (refl, h)), (λ h. h.1))
and_iff (some false) none = ((λ h. (cc, h)), (λ h. h.1))
and_iff (some false) (some w) = ((λ h. (h, cc)), (λ h. h.0))

each_iff :
    {A : Type 0} (p : A → Option Bool) (os : List (Option A))
    → ((all_some os >>= each p) ≡ some true) ↔ All (λ o. (o >>= p) ≡ some true) os
each_iff p [] = ((λ h. tt), (λ h. refl))
each_iff p (none ∷ os) = ((λ h. absurd (cc)), (λ h. h.0))
each_iff p (some a ∷ os) = rest (all_some os) (each_iff p os)
  where
    rest :
        (o : Option (List _))
        → ((o >>= each p) ≡ some true) ↔ All (λ o. (o >>= p) ≡ some true) os
        → (((o >>= λ l. some (a ∷ l)) >>= each p) ≡ some true)
          ↔ ((p a ≡ some true) × All (λ o. (o >>= p) ≡ some true) os)
    rest none r = ((λ h. absurd (cc)), (λ h. r.1 h.1))
    rest (some l) r = (
      (λ h. let (first, more) = (and_iff (p a) (each p l)).0 h in (first, r.0 more)),
      (λ h. (and_iff (p a) (each p l)).1 (h.0, r.1 h.1)),
    )

-- A test on a file that holds a vector passes exactly when its check passes every vector.
pub gate_iff :
    {A : Type 0} (p : A → Option Bool) (os : List (Option A))
    → os ≢ []
    → ((all_some os >>= gate p) ≡ some true) ↔ All (λ o. (o >>= p) ≡ some true) os
unfolding gate
gate_iff p [] some_vector = absurd (some_vector refl)
gate_iff p (none ∷ os) some_vector = ((λ h. absurd (cc)), (λ h. h.0))
gate_iff p (some a ∷ os) some_vector = rest (all_some os) (each_iff p (some a ∷ os))
  where
    rest :
        (o : Option (List _))
        → (((o >>= λ l. some (a ∷ l)) >>= each p) ≡ some true)
          ↔ All (λ o. (o >>= p) ≡ some true) (some a ∷ os)
        → (((o >>= λ l. some (a ∷ l)) >>= gate p) ≡ some true)
          ↔ All (λ o. (o >>= p) ≡ some true) (some a ∷ os)
    rest none r = r
    rest (some l) r = r
