-- ===== src/Verify/Replays.antt =====
-- Replays of a whole request against the in-memory cache.
use sesame_sdk.Prelude.{
  ◌≡◌, ◌⊎◌, refl, ap, ap₂, ◌∙◌, Bool, some, List, [], ◌∷◌, All, inl, inr, Bool-cases,
}
use sesame_sdk.Prelude.Int.{ℤ, ◌<ℤ◌, ◌+ℤ◌}
use sesame_sdk.Text.{Bytes}
use sesame_sdk.Message.{Outcome, SesameHeaders, Tier1Fields, is_absent}
use sesame_sdk.External.{Crypto, Clock, IsLawful, IsCalendar}
use sesame_sdk.Keys.{KeyProvider}
use sesame_sdk.Replay.{ReplayCache, InMemoryReplayCache, in_memory}
use sesame_sdk.Replay.Step.{IsWindow, expiry_of, HasUniqueKeys, check-HasUniqueKeys}
use sesame_sdk.Replay.Window.{Call, after, answer_recorded, expiry_kept, expiry_fresh}
use sesame_sdk.Tier.{Tier, SesameConfig}
use sesame_sdk.Verify.{VerifiedRequest, RequestContext, authenticate, replay_then, verify_request}
use sesame_sdk.Verify.Spec.{Carries, IsAuthentic}
use sesame_sdk.Verify.Authentic.{authenticate_sound}
use sesame_sdk.Verify.Accept.{IsAdmitted, run_absent, run_err, run_ok, Result-cases}

-- A request and the moment of its arrival.
pub record Request (k : Clock) : Type 0 where
  pub ctx : RequestContext
  pub headers : SesameHeaders
  pub raw_body : Bytes
  pub now : k.Time
  pub min_tier : Tier

abbrev pub time_of : {k : Clock} → Request k → ℤ
time_of {k} r = k.unix_timestamp r.now

replay_then_state :
    (c : Crypto) (k : Clock) {S : Type 0} (r : Bool × S) (granted : Outcome VerifiedRequest)
    → (replay_then c k r granted).1 ≡ r.1
unfolding replay_then
replay_then_state c k (fresh, s) granted = refl

module _ (c : Crypto) (k : Clock) (cfg : SesameConfig) (provider : KeyProvider) where
  abbrev pub handle : {S : Type 0} → ReplayCache S → Request k → S → Outcome VerifiedRequest × S
  handle replay r s =
      verify_request c k cfg provider replay r.ctx r.headers r.raw_body r.now r.min_tier s

  -- The cache after requests in their order.
  unfoldable pub serve_requests : {S : Type 0} → ReplayCache S → List (Request k) → S → S
  serve_requests replay [] s = s
  serve_requests replay (r ∷ rs) s = serve_requests replay rs (handle replay r s).1

module _ {c : Crypto} {k : Clock} (law : IsLawful c) (cal : IsCalendar k) (cfg : SesameConfig)
    (provider : KeyProvider) where
  -- Whatever a request gets for an answer, it leaves the cache as it was, or it is authentic and
  -- has recorded its own key-id and nonce: no one without a key can fill the cache.
  pub handle_cache :
      {S : Type 0} (replay : ReplayCache S) (r : Request k) (s : S)
      → ((handle c k cfg provider replay r s).1 ≡ s)
        ⊎ ((t1 : Tier1Fields) × IsAuthentic c k cfg provider r.ctx r.headers r.raw_body r.now t1
            × ((handle c k cfg provider replay r s).1
                ≡ (replay.check_and_remember s t1.key_id t1.nonce (time_of r)).1))
  handle_cache {S} replay r s = elim (Bool-cases (is_absent r.headers)) [
    | inl a ↦ inl (
        ap state
          (run_absent c k cfg provider replay r.ctx r.headers r.raw_body r.now r.min_tier s a))
    | inr p ↦ elim (Result-cases (authenticate c k cfg provider r.ctx r.headers r.raw_body r.now)) [
      | inl (t1, a) ↦ inr (
        t1,
        authenticate_sound law cal cfg provider r.ctx r.headers r.raw_body r.now t1 a,
        ap state
              (run_ok c k cfg provider replay r.ctx r.headers r.raw_body r.now r.min_tier s t1 p a)
            ∙ replay_then_state c k _ _,
      )
      | inr (e, a) ↦ inl (
          ap state
            (run_err c k cfg provider replay r.ctx r.headers r.raw_body r.now r.min_tier s e p a))
    ]
  ]
    where
      state : Outcome VerifiedRequest × S → S
      state p = p.1

  handle_expiry_kept :
      (r : Request k) (s : InMemoryReplayCache) (key : Bytes × Bytes) (e : ℤ)
      → HasUniqueKeys s
      → expiry_of s key ≡ some e
      → time_of r <ℤ e
      → HasUniqueKeys (handle c k cfg provider in_memory r s).1
        × (expiry_of (handle c k cfg provider in_memory r s).1 key ≡ some e)
  unfolding in_memory
  handle_expiry_kept r s key e u h l = elim (handle_cache in_memory r s) [
    | inl same ↦ rw same (u, h)
    | inr (t1, _, same) ↦ rw same (
      check-HasUniqueKeys s t1.key_id t1.nonce (time_of r) u,
      expiry_kept s u (record { key_id = t1.key_id; nonce = t1.nonce; now = time_of r }) key e h l,
    )
  ]

  pub serve_requests_expiry_kept :
      (rs : List (Request k)) (s : InMemoryReplayCache) (key : Bytes × Bytes) (e : ℤ)
      → HasUniqueKeys s
      → expiry_of s key ≡ some e
      → All (λ r. time_of r <ℤ e) rs
      → HasUniqueKeys (serve_requests c k cfg provider in_memory rs s)
        × (expiry_of (serve_requests c k cfg provider in_memory rs s) key ≡ some e)
  unfolding serve_requests
  serve_requests_expiry_kept [] s key e u h l = (u, h)
  serve_requests_expiry_kept (r ∷ rs) s key e u h (p, l) =
      let (v, i) = handle_expiry_kept r s key e u h p in
      serve_requests_expiry_kept rs (handle c k cfg provider in_memory r s).1 key e v i l

  -- What an accepted authenticated request leaves in the cache.
  pub accepted_expiry :
      (r : Request k) (s s' : InMemoryReplayCache) (v : VerifiedRequest)
      → HasUniqueKeys s
      → IsWindow s.window_secs
      → (a : IsAdmitted c k cfg provider in_memory r.ctx r.headers r.raw_body r.now r.min_tier s v
          s')
      → HasUniqueKeys s'
        × (expiry_of s' (a.t1.key_id, a.t1.nonce) ≡ some (time_of r +ℤ s.window_secs))
  unfolding in_memory
  accepted_expiry r s s' v u w a =
      let call : Call = record { key_id = a.t1.key_id; nonce = a.t1.nonce; now = time_of r } in
      let e : after s call ≡ s' = ap (λ (p : Bool × InMemoryReplayCache). p.1) a.unseen in
      rw (← e) (
        check-HasUniqueKeys s a.t1.key_id a.t1.nonce (time_of r) u,
        expiry_fresh s u call (ap (λ (p : Bool × InMemoryReplayCache). p.0) a.unseen)
            (cal.dates r.now) w,
      )

  -- Headers with another request's key-id and nonce name its entry.
  pub same_pair :
      {h j : SesameHeaders} {t u : Tier1Fields}
      → Carries h t
      → Carries j u
      → j.key_id ≡ h.key_id
      → j.nonce ≡ h.nonce
      → ◌≡◌ {A = Bytes × Bytes} (u.key_id, u.nonce) (t.key_id, t.nonce)
  same_pair {t} {u} p q e f =
      let same_id : u.key_id ≡ t.key_id = cc (p.key_id, q.key_id) in
      let same_nonce : u.nonce ≡ t.nonce = cc (p.nonce, q.nonce) in
      ap₂ (λ (a b : Bytes). (a, b)) same_id same_nonce

  pub recorded_refused :
      (r : Request k) (s s' : InMemoryReplayCache) (v : VerifiedRequest) (e : ℤ)
      → HasUniqueKeys s
      → (a : IsAdmitted c k cfg provider in_memory r.ctx r.headers r.raw_body r.now r.min_tier s v
          s')
      → expiry_of s (a.t1.key_id, a.t1.nonce) ≡ some e
      → time_of r <ℤ e
      → ⊥
  unfolding in_memory
  recorded_refused r s s' v e u a h l =
      let refused =
        answer_recorded s u (record { key_id = a.t1.key_id; nonce = a.t1.nonce; now = time_of r }) e
          h l in
      let fresh = ap (λ (p : Bool × InMemoryReplayCache). p.0) a.unseen in cc
