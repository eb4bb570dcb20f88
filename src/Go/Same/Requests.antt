-- ===== src/Go/Same/Requests.antt =====
-- The Go port and the crate answer a request alike.
use mathlib.Core.Option
use sesame_sdk.Prelude.{
  ◌≡◌, refl, ap, ap₂, fun_ext, ◌∙◌, Bool, true, false, Option, [], ◌∷◌, inl, inr, Bool-cases,
}
use sesame_sdk.Prelude.Int.{ℤ}
use sesame_sdk.Text.{Bytes, bytes_Eq, bytes_eq, codes, eq_ignore_ascii_case}
use sesame_sdk.Message.{
  Outcome, code, is_absent, is_none, from_lookup, says_true, h_timestamp, h_encrypted,
}
use sesame_sdk.External.{Crypto, Clock, IsLawful}
use sesame_sdk.Keys.{KeyProvider, StaticKeyProvider, static_provider}
use sesame_sdk.Replay.{ReplayCache, InMemoryReplayCache, in_memory}
use sesame_sdk.Go.Cache.{go_static_provider, go_check_and_remember}
use sesame_sdk.Tier.{Tier, level, tier_eq, SesameConfig}
use sesame_sdk.Verify.{
  VerifiedRequest, RequestContext, unauthenticated, replay_then, verify_request,
}
use sesame_sdk.Go.Message.{GoHeaders, is_blank, go_is_absent, go_headers_from_lookup}
use sesame_sdk.Go.Verify.{
  GoVerified, GoResult, scope_pointer, go_passthrough, go_replay_then, go_verify_request,
}
use sesame_sdk.Go.Same.Stores.{as_go_provider, go_static_provider_lem, go_check_and_remember_lem}
use sesame_sdk.Go.Same.Grants.{coded_as, as_headers, as_go_verified, grant_same}
use sesame_sdk.Go.Same.Authentic.{authenticate_alike}

is_none-present : (s : Bytes) → is_none (scope_pointer s) ≡ is_blank s
is_none-present [] = refl
is_none-present (b ∷ s) = refl

absent_same : (g : GoHeaders) → is_absent (as_headers g) ≡ go_is_absent g
unfolding is_absent go_is_absent
absent_same g =
    rw
      (
        is_none-present g.version,
        is_none-present g.key_id,
        is_none-present g.timestamp,
        is_none-present g.nonce,
        is_none-present g.signature,
      )
      refl

passthrough_same :
    (raw_body : Bytes) (m : Tier)
    → go_passthrough raw_body (level m) ≡ coded_as as_go_verified (unauthenticated raw_body m)
unfolding code
passthrough_same raw_body m = elim (Bool-cases (tier_eq m Tier.zero)) [
  | inl e ↦ rw e refl
  | inr e ↦ rw e refl
]

replay_same :
    (c : Crypto) (k : Clock) {S : Type 0} (r : Bool × S) (n : GoResult GoVerified)
    (m : Outcome VerifiedRequest)
    → n ≡ coded_as as_go_verified m
    → go_replay_then c r n
      ≡ (coded_as as_go_verified (replay_then c k r m).0, (replay_then c k r m).1)
unfolding replay_then code
replay_same c k (true, s) n m h = ap (λ (q : GoResult GoVerified). (q, s)) h
replay_same c k (false, s) n m h = refl

-- The port answers a request as the crate does, with the same error or the same verified request, and
-- the same cache after it: for headers in which the empty string stands for an absent header, a
-- directory that both hold, any replay cache, and a timestamp that both parsers read alike.
pub go_verify_request_lem :
    {c : Crypto} (law : IsLawful c) (k : Clock) (parse : Bytes → Option ℤ) (cfg : SesameConfig)
    (p : KeyProvider) {S : Type 0} (replay : ReplayCache S) (ctx : RequestContext) (g : GoHeaders)
    (raw_body : Bytes) (now : k.Time) (m : Tier) (s : S)
    → parse g.timestamp ≡ Option.map k.unix_timestamp (k.parse_rfc3339 g.timestamp)
    → go_verify_request c parse cfg.replay_window_secs
        (as_go_provider p)
        replay
        ctx
        g
        raw_body
        (k.unix_timestamp now)
        (level m)
        s
      ≡ (
        coded_as as_go_verified
            (verify_request c k cfg p replay ctx (as_headers g) raw_body now m s).0,
        (verify_request c k cfg p replay ctx (as_headers g) raw_body now m s).1,
      )
unfolding go_verify_request verify_request
go_verify_request_lem {c} law k parse cfg p replay ctx g raw_body now m s same =
    elim (Bool-cases (go_is_absent g)) [
      | inl e ↦
          rw (absent_same g, e)
            (ap (λ (r : GoResult GoVerified). (r, s)) (passthrough_same raw_body m))
      | inr e ↦
          elim (authenticate_alike law k parse cfg p ctx g.version g.key_id g.timestamp g.nonce
            g.signature g.scope g.encrypted g.enc_key_id g.iv raw_body now same) [
              | inl (error, f, h) ↦ rw (absent_same g, e, f, h) refl
              | inr (f, h) ↦
                  rw (absent_same g, e, f, h)
                    (replay_same c k
                      (replay.check_and_remember s g.key_id g.nonce (k.unix_timestamp now)) _ _
                      (grant_same c p ctx g raw_body m))
            ]
    ]

says_same : (s : Bytes) → eq_ignore_ascii_case s (codes "true") ≡ says_true (scope_pointer s)
unfolding eq_ignore_ascii_case says_true bytes_eq
says_same [] = refl
says_same (b ∷ s) = refl

-- The port's headers, for a getter that gives the empty string for an absent header, are the crate's.
pub go_headers_from_lookup_lem :
    (get : Bytes → Bytes)
    → as_headers (go_headers_from_lookup get) ≡ from_lookup (λ name. scope_pointer (get name))
unfolding go_headers_from_lookup from_lookup
go_headers_from_lookup_lem get =
    ap (λ (b : Bool). record (from_lookup (λ name. scope_pointer (get name))) { encrypted = b })
      (says_same (get h_encrypted))

-- The port's replay cache behind its interface.
abbrev pub go_in_memory : ReplayCache InMemoryReplayCache
go_in_memory = record { check_and_remember = go_check_and_remember }

in_memory_same : go_in_memory ≡ in_memory
unfolding in_memory
in_memory_same =
    ap
      (λ (f : InMemoryReplayCache → Bytes → Bytes → ℤ → Bool × InMemoryReplayCache). record {
        check_and_remember = f;
      })
      (fun_ext (λ c. fun_ext (λ key_id.
        fun_ext (λ nonce. fun_ext (λ now. go_check_and_remember_lem c key_id nonce now)))))

-- The port with its own directory and cache answers a request as the crate does with its own: with
-- the same error or the same verified request, and the same cache after it. It is for the headers that
-- a getter gives, the empty string for an absent one, directories and caches with the same entries,
-- and a timestamp that both parsers read alike.
pub go_server_lem :
    {c : Crypto} (law : IsLawful c) (k : Clock) (parse : Bytes → Option ℤ) (cfg : SesameConfig)
    (d : StaticKeyProvider) (ctx : RequestContext) (get : Bytes → Bytes) (raw_body : Bytes)
    (now : k.Time) (m : Tier) (s : InMemoryReplayCache)
    → parse (get h_timestamp) ≡ Option.map k.unix_timestamp (k.parse_rfc3339 (get h_timestamp))
    → go_verify_request c parse cfg.replay_window_secs
        (go_static_provider d)
        go_in_memory
        ctx
        (go_headers_from_lookup get)
        raw_body
        (k.unix_timestamp now)
        (level m)
        s
      ≡ (let answer =
            verify_request c k cfg
              (static_provider d)
              in_memory
              ctx
              (from_lookup (λ name. scope_pointer (get name)))
              raw_body
              now
              m
              s in
          (coded_as as_go_verified answer.0, answer.1))
go_server_lem {c} law k parse cfg d ctx get raw_body now m s same =
    ap₂
      (λ provider replay.
        go_verify_request c parse cfg.replay_window_secs provider replay ctx
          (go_headers_from_lookup get) raw_body (k.unix_timestamp now) (level m) s)
      (go_static_provider_lem d) in_memory_same
    ∙ go_verify_request_lem law k parse cfg (static_provider d) in_memory ctx
        (go_headers_from_lookup get) raw_body now m s (unfold go_headers_from_lookup in same)
    ∙ ap
        (λ headers.
          let answer =
            verify_request c k cfg (static_provider d) in_memory ctx headers raw_body now m s in
          (coded_as as_go_verified answer.0, answer.1))
        (go_headers_from_lookup_lem get)
