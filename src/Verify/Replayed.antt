-- ===== src/Verify/Replayed.antt =====
-- When an accepted request can be accepted a second time.
use sesame_sdk.Prelude.{
  ◌≡◌, ◌≢◌, ap, ◌∙◌, Bool, true, false, some, List, [], ◌∷◌, All, arith, inl, inr, if◌then◌else◌,
}
use sesame_sdk.Prelude.Int.{ℤ, ◌≤ℤ◌, ◌<ℤ◌, ◌+ℤ◌, ltb_ℤ, +ℤ_parts}
use sesame_sdk.Prelude.Result.{ok}
use sesame_sdk.Text.{Bytes}
use sesame_sdk.Message.{Tier1Fields, is_absent}
use sesame_sdk.External.{Crypto, Clock, IsLawful, IsCalendar}
use sesame_sdk.Keys.{KeyProvider}
use sesame_sdk.Replay.{InMemoryReplayCache, check_and_remember, in_memory}
use sesame_sdk.Replay.Step.{IsWindow, expiry_of, HasUniqueKeys, check_answer, check_prune_time}
use sesame_sdk.Replay.Window.{Call, pair_of, answer, after}
use sesame_sdk.Tier.{SesameConfig}
use sesame_sdk.Tier1.Freshness.{Within}
use sesame_sdk.Verify.{VerifiedRequest}
use sesame_sdk.Verify.Spec.{IsAuthentic}
use sesame_sdk.Verify.Accept.{IsAdmitted, verify_request_iff}
use sesame_sdk.Verify.Replays.{
  Request, time_of, handle, serve_requests, serve_requests_expiry_kept, accepted_expiry, same_pair,
  recorded_refused,
}

All-before :
    {k : Clock} (rs : List (Request k)) (m e : ℤ)
    → All (λ r. time_of r ≤ℤ m) rs
    → m <ℤ e
    → All (λ r. time_of r <ℤ e) rs
All-before [] m e h l = tt
All-before (r ∷ rs) m e (p, h) l = (omega arith, All-before rs m e h l)

-- A stamp that was within the window of an arrival is within it a window later, up to a window after
-- the stamp.
stamp_recent :
    (n m ts w : ℤ) → IsWindow w → n +ℤ w ≤ℤ m → m ≤ℤ ts +ℤ w → Within w n ts → Within w m ts
stamp_recent n m ts w win l u (p, q) =
    (u, ground (arith, +ℤ_parts n w, +ℤ_parts m w, +ℤ_parts ts w))

swept_by : (last now : ℤ) → last ≤ℤ now → (if ltb_ℤ last now then now else last) ≤ℤ now
swept_by last now h = ground arith

-- The sweep of a later second drops an expiry that has come, and the pair is fresh.
answer_expired :
    (s : InMemoryReplayCache) (u : HasUniqueKeys s) (call : Call) (e : ℤ)
    → expiry_of s (pair_of call) ≡ some e
    → s.seen.last_prune_unix <ℤ call.now
    → e ≤ℤ call.now
    → answer s call ≡ true
answer_expired s u call e x l m =
    check_answer s call.key_id call.nonce call.now u ∙ rw x (ground arith)

module _ {c : Crypto} {k : Clock} (law : IsLawful c) (cal : IsCalendar k) (cfg : SesameConfig)
    (provider : KeyProvider) where
  -- An accepted request with Tier 1 headers was admitted.
  admitted :
      (r : Request k) (s s' : InMemoryReplayCache) (v : VerifiedRequest)
      → is_absent r.headers ≡ false
      → handle c k cfg provider in_memory r s ≡ (ok v, s')
      → IsAdmitted c k cfg provider in_memory r.ctx r.headers r.raw_body r.now r.min_tier s v s'
  admitted r s s' v p h =
      elim ((verify_request_iff law cal cfg provider in_memory r.ctx r.headers r.raw_body r.now
          r.min_tier s v s').0
        h) [ inl (t, _) ↦ let a = t.absent in cc | inr a ↦ a ]

  -- An accepted request with Tier 1 headers, and a later request with the same key-id and nonce
  -- (whatever else it says) that arrives before a window has passed, and after any requests that
  -- arrive before then: the later one is not accepted.
  pub replayed_request_refused :
      (first again : Request k) (between : List (Request k)) (s s' : InMemoryReplayCache)
      (v : VerifiedRequest)
      → HasUniqueKeys s
      → IsWindow s.window_secs
      → is_absent first.headers ≡ false
      → handle c k cfg provider in_memory first s ≡ (ok v, s')
      → All (λ r. time_of r <ℤ time_of first +ℤ s.window_secs) between
      → again.headers.key_id ≡ first.headers.key_id
      → again.headers.nonce ≡ first.headers.nonce
      → is_absent again.headers ≡ false
      → time_of again <ℤ time_of first +ℤ s.window_secs
      → (w : VerifiedRequest) (t : InMemoryReplayCache)
      → handle c k cfg provider in_memory again
          (serve_requests c k cfg provider in_memory between s')
        ≢ (ok w, t)
  replayed_request_refused first again between s s' v u win p h l e f q m w t i =
      let a = admitted first s s' v p h in
      let (u', x) = accepted_expiry law cal cfg provider first s s' v u win a in
      let (u'', y) =
        serve_requests_expiry_kept law cal cfg provider between s' (a.t1.key_id, a.t1.nonce) _ u' x
          l in
      let s'' = serve_requests c k cfg provider in_memory between s' in
      let b = admitted again s'' t w q i in
      let same = same_pair law cal cfg provider a.authentic.carries b.authentic.carries e f in
      recorded_refused law cal cfg provider again s'' t w _ u'' b (ap (expiry_of s'') same ∙ y) m

  -- The second of two authentic requests with one timestamp is no later than a window after the
  -- time that the timestamp says.
  authentic_by :
      (first again : Request k) {t u : Tier1Fields}
      → (a : IsAuthentic c k cfg provider first.ctx first.headers first.raw_body first.now t)
      → IsAuthentic c k cfg provider again.ctx again.headers again.raw_body again.now u
      → again.headers.timestamp ≡ first.headers.timestamp
      → time_of again ≤ℤ k.unix_timestamp a.time +ℤ cfg.replay_window_secs
  authentic_by first again {t} {u} a b e =
      let same : u.timestamp ≡ t.timestamp = cc (a.carries.timestamp, b.carries.timestamp) in
      let parsed : b.time ≡ a.time = cc (a.parsed, b.parsed, ap k.parse_rfc3339 same) in
      rw (← parsed) b.fresh.0

  -- With the cache's window the configured one: if an accepted request was stamped before the
  -- second of its arrival, then no later request with its key-id, nonce and timestamp is accepted,
  -- whatever requests come between, as long as none of them arrives after the later one.
  pub stamped_before_refused :
      (first again : Request k) (between : List (Request k)) (s s' : InMemoryReplayCache)
      (v : VerifiedRequest)
      → HasUniqueKeys s
      → IsWindow s.window_secs
      → s.window_secs ≡ cfg.replay_window_secs
      → is_absent first.headers ≡ false
      → handle c k cfg provider in_memory first s ≡ (ok v, s')
      → ((ts : k.Time) (text : Bytes)
          → first.headers.timestamp ≡ some text
          → k.parse_rfc3339 text ≡ some ts
          → k.unix_timestamp ts <ℤ time_of first)
      → All (λ r. time_of r ≤ℤ time_of again) between
      → again.headers.key_id ≡ first.headers.key_id
      → again.headers.nonce ≡ first.headers.nonce
      → again.headers.timestamp ≡ first.headers.timestamp
      → is_absent again.headers ≡ false
      → (w : VerifiedRequest) (t : InMemoryReplayCache)
      → handle c k cfg provider in_memory again
          (serve_requests c k cfg provider in_memory between s')
        ≢ (ok w, t)
  stamped_before_refused first again between s s' v u win same p h early l e f g q w t i =
      let a = admitted first s s' v p h in
      let s'' = serve_requests c k cfg provider in_memory between s' in
      let b = admitted again s'' t w q i in
      let stamped =
        early a.authentic.time a.t1.timestamp a.authentic.carries.timestamp a.authentic.parsed in
      let by = authentic_by first again a.authentic b.authentic g in
      let soon : time_of again <ℤ time_of first +ℤ s.window_secs = rw same (
        omega (
          arith,
          +ℤ_parts (time_of first) cfg.replay_window_secs,
          +ℤ_parts (k.unix_timestamp a.authentic.time) cfg.replay_window_secs,
        )) in
      replayed_request_refused first again between s s' v u win p h
        (All-before between (time_of again) _ l soon) e f q soon w t i

  accepted_sweep :
      (r : Request k) (s s' : InMemoryReplayCache) (v : VerifiedRequest)
      → s.seen.last_prune_unix ≤ℤ time_of r
      → IsAdmitted c k cfg provider in_memory r.ctx r.headers r.raw_body r.now r.min_tier s v s'
      → s'.seen.last_prune_unix ≤ℤ time_of r
  unfolding in_memory
  accepted_sweep r s s' v h a =
      let e = ap (λ (p : Bool × InMemoryReplayCache). p.1.seen.last_prune_unix) a.unseen in
      rw (← e, check_prune_time s a.t1.key_id a.t1.nonce (time_of r))
        (swept_by s.seen.last_prune_unix (time_of r) h)

  -- An admitted request is admitted at another time too, if it is recent then and found fresh.
  readmit :
      (r : Request k) (s s' : InMemoryReplayCache) (v : VerifiedRequest) (now : k.Time)
      → (a : IsAdmitted c k cfg provider in_memory r.ctx r.headers r.raw_body r.now r.min_tier s v
          s')
      → Within cfg.replay_window_secs (k.unix_timestamp now) (k.unix_timestamp a.authentic.time)
      → (let call : Call = record {
        key_id = a.t1.key_id;
        nonce = a.t1.nonce;
        now = k.unix_timestamp now;
      } in
          answer s' call ≡ true)
      → IsAdmitted c k cfg provider in_memory r.ctx r.headers r.raw_body now r.min_tier s' v
          (check_and_remember s' a.t1.key_id a.t1.nonce (k.unix_timestamp now)).1
  unfolding in_memory
  readmit r s s' v now a recent fresh = record {
    t1 = a.t1;
    authentic = record {
      carries = a.authentic.carries;
      speaks = a.authentic.speaks;
      time = a.authentic.time;
      parsed = a.authentic.parsed;
      fresh = recent;
      not_revoked = a.authentic.not_revoked;
      key = a.authentic.key;
      listed = a.authentic.listed;
      signed = a.authentic.signed;
    };
    unseen =
        ap
          (λ (b : Bool).
            (b, (check_and_remember s' a.t1.key_id a.t1.nonce (k.unix_timestamp now)).1))
          fresh;
    granted = a.granted;
  }

  -- With the cache's window the configured one: if an accepted request was stamped at the second of
  -- its arrival or later, its replay to the next state is accepted once more, with the same result,
  -- at each time from a window after the arrival up to a window after the stamp.
  pub stamped_after_accepted_again :
      (first : Request k) (s s' : InMemoryReplayCache) (v : VerifiedRequest) (now : k.Time)
      → HasUniqueKeys s
      → IsWindow s.window_secs
      → s.window_secs ≡ cfg.replay_window_secs
      → s.seen.last_prune_unix ≤ℤ time_of first
      → is_absent first.headers ≡ false
      → handle c k cfg provider in_memory first s ≡ (ok v, s')
      → time_of first +ℤ s.window_secs ≤ℤ k.unix_timestamp now
      → ((ts : k.Time) (text : Bytes)
          → first.headers.timestamp ≡ some text
          → k.parse_rfc3339 text ≡ some ts
          → k.unix_timestamp now ≤ℤ k.unix_timestamp ts +ℤ s.window_secs)
      → (s'' : InMemoryReplayCache) × (handle c k cfg provider in_memory
            (record first { now = now })
            s'
          ≡ (ok v, s''))
  stamped_after_accepted_again first s s' v now u win same sweep p h late stamped =
      let a = admitted first s s' v p h in
      let (u', x) = accepted_expiry law cal cfg provider first s s' v u win a in
      let n = k.unix_timestamp now in
      let call : Call = record { key_id = a.t1.key_id; nonce = a.t1.nonce; now = n } in
      let swept_at = accepted_sweep first s s' v sweep a in
      let until =
        stamped a.authentic.time a.t1.timestamp a.authentic.carries.timestamp a.authentic.parsed in
      let later : s'.seen.last_prune_unix <ℤ n =
        omega (arith, +ℤ_parts (time_of first) s.window_secs) in
      let fresh = answer_expired s' u' call _ x later late in
      let recent : Within cfg.replay_window_secs n (k.unix_timestamp a.authentic.time) =
        rw (← same) (
          stamp_recent (time_of first) n (k.unix_timestamp a.authentic.time) s.window_secs win late
            until (rw (← same) at a.authentic.fresh)) in
      (
        after s' call,
        (verify_request_iff law cal cfg provider in_memory first.ctx first.headers first.raw_body
              now first.min_tier s' v (after s' call)).1
            (inr (readmit first s s' v now a recent fresh)),
      )
