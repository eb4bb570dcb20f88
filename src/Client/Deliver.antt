-- ===== src/Client/Deliver.antt =====
-- The client's requests over HTTP: what the adapter reads of them.
use sesame_sdk.Prelude.{
  ℕ, suc, ◌≤◌, ◌≡◌, ◌≢◌, refl, ap, ◌∙◌, some, List, [], ◌∷◌, ◌++◌, eqb, eqb_iff, All, arith,
  Bool-cases, inl, inr, length,
}
use sesame_sdk.Prelude.Result.{ok}
use sesame_sdk.Text.{Bytes, codes, strip_prefix, trim}
use sesame_sdk.Message.{SesameHeaders}
use sesame_sdk.Message.Hex.Laws.{IsBytes}
use sesame_sdk.External.{Crypto, Clock, IsLawful, IsCalendar}
use sesame_sdk.Adapter.{Http, headers_from_map, request_target}
use sesame_sdk.Tier.{SesameConfig}
use sesame_sdk.Tier1.Freshness.{Within}
use sesame_sdk.Client.{Settings, path_of, nonce_of, build_request}
use sesame_sdk.Client.Own.{built_3}
use sesame_sdk.Client.Laws.{IsVerified, build_request-IsVerified}
use sesame_sdk.Client.Send.{sent_headers, split_at, url_parts, url_of}
use sesame_sdk.Client.ReadBack.{Holds, headers_of_lookup, build_request-ReadsBack}

-- The client always has the headers that it sends.
pub sent_headers_total :
    {c : Crypto} {k : Clock} (law : IsLawful c) (cal : IsCalendar k) (cfg : SesameConfig)
    (s : Settings) (ts iv plaintext signature : Bytes) (tier : ℕ) (m : SesameHeaders × Bytes)
    → tier ≤ 3
    → build_request c s tier ts iv plaintext ≡ ok m
    → (hdrs : List (Bytes × Bytes)) × (sent_headers s tier ts
          (nonce_of tier iv)
          signature
          m.0.scope
          m.0.iv
        ≡ some hdrs)
unfolding sent_headers
sent_headers_total law cal cfg s ts iv plaintext signature ℕ.zero m high h = (_, refl)
sent_headers_total law cal cfg s ts iv plaintext signature (suc ℕ.zero) m high h = (_, refl)
sent_headers_total law cal cfg s ts iv plaintext signature (suc (suc ℕ.zero)) m high h = (_, refl)
sent_headers_total law cal cfg s ts iv plaintext signature (suc (suc (suc ℕ.zero))) m high h =
    let (_, _, same) = built_3 law cal cfg s ts iv plaintext m h in rw same (_, refl)
sent_headers_total law cal cfg s ts iv plaintext signature (suc (suc (suc (suc n)))) m high h =
    absurd (omega arith)

pub split_at_lem :
    (c : ℕ) (before after : Bytes)
    → All (λ b. b ≢ c) before
    → split_at c (before ++ c ∷ after) ≡ some (before, c ∷ after)
unfolding split_at
split_at_lem c [] after h = rw ((eqb_iff c c).1 refl)
split_at_lem c (b ∷ before) after (p, h) = elim (Bool-cases (eqb b c)) [
  | inl e ↦ absurd (p ((eqb_iff b c).0 e))
  | inr e ↦ rw (e, split_at_lem c before after h)
]

-- With a base of a scheme and an authority, the client connects to the authority and sends the path
-- that it signed.
pub url_parts-url_of :
    (hostport : Bytes) (s : Settings)
    → All (λ b. b ≢ b'/') hostport
    → url_parts (url_of (codes "http://" ++ hostport) s) ≡ (hostport, path_of s)
unfolding url_parts strip_prefix
url_parts-url_of hostport s h = rw (split_at_lem b'/' hostport _ h)

-- A request that the client builds for Tier 1, 2 or 3 and sends to a base URL of a scheme and an
-- authority: a server that holds the client's keys and takes the target and the headers from the
-- adapter gets the target that the client signed, and accepts at that tier, with the plaintext and
-- the client's key-id. It is for a channel without white space at its ends, an IV of 12 bytes, a
-- timestamp that parses to a time within the window, a header map that holds what was sent, and a URI
-- that holds the path that was sent.
pub delivered-IsVerified :
    {c : Crypto} {k : Clock} (law : IsLawful c) (cal : IsCalendar k) (cfg : SesameConfig)
    (s : Settings) (http : Http) (tier : ℕ) (ts iv plaintext hostport signature wire : Bytes)
    (headers : SesameHeaders) (now t : k.Time) (hdrs : List (Bytes × Bytes)) (map : http.HeaderMap)
    (uri : http.Uri) (pq : http.PathAndQuery)
    → 1 ≤ tier
    → tier ≤ 3
    → trim s.channel ≡ s.channel
    → IsBytes iv
    → length iv ≡ 12
    → k.parse_rfc3339 ts ≡ some t
    → Within cfg.replay_window_secs (k.unix_timestamp now) (k.unix_timestamp t)
    → build_request c s tier ts iv plaintext ≡ ok (headers, wire)
    → headers.signature ≡ some signature
    → sent_headers s tier ts (nonce_of tier iv) signature headers.scope headers.iv ≡ some hdrs
    → Holds http map hdrs
    → All (λ b. b ≢ b'/') hostport
    → http.path_and_query uri ≡ some pq
    → http.as_str pq ≡ (url_parts (url_of (codes "http://" ++ hostport) s)).1
    → (request_target http uri ≡ path_of s)
      × IsVerified c k cfg s tier plaintext now (headers_from_map http map, wire)
unfolding request_target
delivered-IsVerified law cal cfg s http tier ts iv plaintext hostport signature wire headers now t
      hdrs map uri pq low high trimmed bytes len parsed near built signed sent holds authority
      target text =
    let read : headers_from_map http map ≡ headers =
      headers_of_lookup http map hdrs holds
      ∙ build_request-ReadsBack law cal cfg s ts iv plaintext tier (headers, wire) low high built
          signature signed hdrs sent in
    (
      rw (request_target, target)
          (text ∙ ap (λ (p : Bytes × Bytes). p.1) (url_parts-url_of hostport s authority)),
      rw read (
          build_request-IsVerified law cal cfg s tier ts iv plaintext now t (headers, wire) low high
            trimmed bytes len parsed near built),
    )
