-- ===== src/Go/Interop.antt =====
-- The example client of the crate with a server of the Go port, and a peer of the crate with what the
-- port signs.
use sesame_sdk.Prelude.{
  ℕ, zero, suc, ◌≤◌, ◌≡◌, refl, ap, sym, ◌∙◌, fun_ext, Option, none, some, List, [], ◌∷◌, arith,
  length,
}
use sesame_sdk.Prelude.Int.{ℤ}
use sesame_sdk.Prelude.Result.{ok, err}
use sesame_sdk.Text.{Bytes, codes, trim}
use sesame_sdk.Message.{SesameHeaders, Outcome, from_lookup, h_timestamp}
use sesame_sdk.Message.Hex.Laws.{IsBytes}
use sesame_sdk.External.{Crypto, Clock, IsLawful, IsCalendar}
use sesame_sdk.Replay.{InMemoryReplayCache}
use sesame_sdk.Replay
use sesame_sdk.Tier.{Tier, level, from_u8, SesameConfig}
use sesame_sdk.Tier1.Freshness.{Within}
use sesame_sdk.Verify.{VerifiedRequest}
use sesame_sdk.Client.{
  Settings, client_provider, path_of, nonce_of, seal_body, build_request, self_check,
}
use sesame_sdk.Client.Own.{own_ctx, built_3}
use sesame_sdk.Client.Laws.{IsVerified, build_request-IsVerified}
use sesame_sdk.Client.Send.{sent_headers}
use sesame_sdk.Client.ReadBack.{first_value, build_request-ReadsBack}
use sesame_sdk.Keys.{StaticKeyProvider, static_provider}
use sesame_sdk.Respond.{ResponseParams, SignedResponse}
use sesame_sdk.Respond.Laws.{IsAnswer, sign_response-IsAnswer}
use sesame_sdk.Go.Message.{GoError, go_headers_from_lookup}
use sesame_sdk.Go.Respond.{go_sign_response}
use sesame_sdk.Go.Same.Responses.{as_go_params, go_sign_response_lem}
use sesame_sdk.Go.Cache.{go_static_provider}
use sesame_sdk.Go.Verify.{GoVerified, scope_pointer, go_verify_request}
use sesame_sdk.Go.Same.Grants.{coded_as, as_go_verified}
use sesame_sdk.Go.Same.Requests.{go_in_memory, go_server_lem}

-- The getter finds the first value of a name, and the empty string where the name is absent; no value
-- that was sent is empty.
abbrev pub Gets : (get : Bytes → Bytes) → List (Bytes × Bytes) → Type 0
Gets get hdrs = (name : Bytes) → scope_pointer (get name) ≡ first_value hdrs name

present : (s text : Bytes) → scope_pointer s ≡ some text → s ≡ text
present [] text h = cc
present (b ∷ s) text h = cc

abbrev stamp_of : Outcome (SesameHeaders × Bytes) → Option Bytes
stamp_of (ok m) = m.0.timestamp
stamp_of (err e) = none

level-from_u8 : (tier : ℕ) → tier ≤ 3 → level (from_u8 tier) ≡ tier
unfolding from_u8
level-from_u8 zero h = refl
level-from_u8 (suc zero) h = refl
level-from_u8 (suc (suc zero)) h = refl
level-from_u8 (suc (suc (suc n))) h = omega arith

-- What a server of the port that holds the client's keys makes of a request.
pub record IsGoVerified (c : Crypto) (parse : Bytes → Option ℤ) (window now : ℤ) (s : Settings)
    (tier : ℕ) (plaintext : Bytes) (get : Bytes → Bytes) (wire : Bytes) : Type 0 where
  pub v : GoVerified
  pub cache : InMemoryReplayCache
  pub accepted :
      go_verify_request c parse window
        (go_static_provider (client_provider s))
        go_in_memory
        (record { method = codes "POST"; path = path_of s; target_channel = none })
        (go_headers_from_lookup get)
        wire
        now
        0
        (Replay.new window)
      ≡ (ok v, cache)
  pub achieved : v.achieved_tier ≡ tier
  pub recovered : v.plaintext ≡ plaintext
  pub by : v.key_id ≡ s.key_id

module _ {c : Crypto} {k : Clock} (law : IsLawful c) (cal : IsCalendar k) (cfg : SesameConfig)
    (s : Settings) (ts iv plaintext : Bytes) where
  build_request-timestamp :
      (tier : ℕ) (m : SesameHeaders × Bytes)
      → tier ≤ 3
      → build_request c s tier ts iv plaintext ≡ ok m
      → m.0.timestamp ≡ some ts
  unfolding build_request seal_body
  build_request-timestamp zero m high h = sym (ap stamp_of h)
  build_request-timestamp (suc zero) m high h = sym (ap stamp_of h)
  build_request-timestamp (suc (suc zero)) m high h = sym (ap stamp_of h)
  build_request-timestamp (suc (suc (suc zero))) m high h =
      let (ct, _, same) = built_3 law cal cfg s ts iv plaintext m h in rw same refl
  build_request-timestamp (suc (suc (suc (suc n)))) m high h = absurd (omega arith)

  -- A request that the client builds for Tier 1, 2 or 3 and sends is accepted by a server of the Go
  -- port that holds the client's keys, at that tier, with the plaintext and the client's key-id. It is
  -- for a channel without white space at its ends, an IV of 12 bytes, a timestamp that both parsers
  -- read as a time within the window, headers without an empty value, and a getter that finds what was
  -- sent.
  pub build_request-IsGoVerified :
      (parse : Bytes → Option ℤ) (tier : ℕ) (signature wire : Bytes) (headers : SesameHeaders)
      (now t : k.Time) (hdrs : List (Bytes × Bytes)) (get : Bytes → Bytes)
      → 1 ≤ tier
      → tier ≤ 3
      → trim s.channel ≡ s.channel
      → IsBytes iv
      → length iv ≡ 12
      → k.parse_rfc3339 ts ≡ some t
      → parse ts ≡ some (k.unix_timestamp t)
      → Within cfg.replay_window_secs (k.unix_timestamp now) (k.unix_timestamp t)
      → build_request c s tier ts iv plaintext ≡ ok (headers, wire)
      → headers.signature ≡ some signature
      → sent_headers s tier ts (nonce_of tier iv) signature headers.scope headers.iv ≡ some hdrs
      → Gets get hdrs
      → IsGoVerified c parse cfg.replay_window_secs (k.unix_timestamp now) s tier plaintext get wire
  unfolding self_check from_lookup
  build_request-IsGoVerified parse tier signature wire headers now t hdrs get low high trimmed bytes
        len parsed alike near built signed sent gets =
      let checked : IsVerified c k cfg s tier plaintext now (headers, wire) =
        build_request-IsVerified law cal cfg s tier ts iv plaintext now t (headers, wire) low high
          trimmed bytes len parsed near built in
      let read : from_lookup (λ name. scope_pointer (get name)) ≡ headers =
        ap from_lookup (fun_ext gets)
        ∙ build_request-ReadsBack law cal cfg s ts iv plaintext tier (headers, wire) low high built
            signature signed hdrs sent in
      let stamp : get h_timestamp ≡ ts = present (get h_timestamp) ts (
        ap (λ (h : SesameHeaders). h.timestamp) read
        ∙ build_request-timestamp tier (headers, wire) high built) in
      record {
        v = as_go_verified checked.v;
        cache = checked.cache;
        accepted =
            go_server_lem law k parse cfg (client_provider s) (own_ctx law cal cfg s) get wire now
              Tier.zero (Replay.new cfg.replay_window_secs) (rw (stamp, alike, parsed) refl)
            ∙ ap
                (λ headers.
                  let answer = self_check c k cfg s (headers, wire) now in
                  (coded_as as_go_verified answer.0, answer.1))
                read
            ∙ ap
                (λ (a : Outcome VerifiedRequest × InMemoryReplayCache).
                  (coded_as as_go_verified a.0, a.1))
                checked.accepted;
        achieved = ap level checked.achieved ∙ level-from_u8 tier high;
        recovered = checked.recovered;
        by = checked.by;
      }

same_value : {A : Type 0} (o : Outcome A) (a : A) → coded_as (λ (x : A). x) o ≡ ok a → o ≡ ok a
same_value (ok b) a h = let e : b ≡ a = cc in ap ok e
same_value (err e) a h = cc

-- A response that the Go port signs reaches the peer, whose clock is within the window of the signer's,
-- as one that the peer finds signed by the node's primary key for the correlation, fresh, of the
-- version, key-id and scope that were given, and from Tier 3 on encrypted, with the plaintext. It is
-- for a time that both write alike and an IV of 12 bytes, with which every key encrypts the text.
pub go_sign_response-IsAnswer :
    {c : Crypto} {k : Clock} (law : IsLawful c) (cal : IsCalendar k) (format : ℤ → Bytes)
    (seal_error : GoError) (cfg : SesameConfig) (d : StaticKeyProvider) (params : ResponseParams)
    (plaintext_xml : Bytes) (now peer_now : k.Time) (nonce_bytes iv text : Bytes)
    (r : SignedResponse)
    → k.format_rfc3339 now ≡ some text
    → format (k.unix_timestamp now) ≡ text
    → IsBytes iv
    → length iv ≡ 12
    → ((aead aad : Bytes) → (ct : Bytes) × (c.gcm_encrypt aead iv aad plaintext_xml ≡ some ct))
    → Within cfg.replay_window_secs (k.unix_timestamp peer_now) (k.unix_timestamp now)
    → go_sign_response c format seal_error
        (go_static_provider d)
        (as_go_params params)
        plaintext_xml
        (k.unix_timestamp now)
        nonce_bytes
        iv
      ≡ ok r
    → IsAnswer c k cfg.replay_window_secs (static_provider d) params plaintext_xml peer_now r
go_sign_response-IsAnswer {c} {k} law cal format seal_error cfg d params plaintext_xml now peer_now
      nonce_bytes iv text r written alike bytes len seals near signed =
    sign_response-IsAnswer law cal cfg (static_provider d) params plaintext_xml now nonce_bytes iv
      peer_now r bytes len near
      (same_value _ r (
        sym (
          go_sign_response_lem c k format seal_error cfg d params plaintext_xml now nonce_bytes iv
            text written alike len seals)
        ∙ signed))
