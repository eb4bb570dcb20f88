-- ===== src/Verify/Threads/Once.antt =====
-- Threads that share the cache accept a key-id and nonce once in a window.
use mathlib.Core.List.{append_assoc, map-append}
use sesame_sdk.Prelude.{
  ◌≡◌, ◌≢◌, refl, sym, ap, subst, ◌∙◌, List, [], ◌∷◌, ◌++◌, All, false, inl, inr,
}
use sesame_sdk.Prelude.Int.{◌<ℤ◌, ◌+ℤ◌}
use sesame_sdk.Prelude.Result.{ok}
use sesame_sdk.Message.{Outcome, is_absent}
use sesame_sdk.External.{Crypto, Clock, IsLawful, IsCalendar}
use sesame_sdk.Keys.{KeyProvider}
use sesame_sdk.Replay.{InMemoryReplayCache, in_memory}
use sesame_sdk.Replay.Step.{IsWindow, HasUniqueKeys, check-HasUniqueKeys, check_window}
use sesame_sdk.Tier.{SesameConfig}
use sesame_sdk.Verify.{VerifiedRequest}
use sesame_sdk.Verify.Replays.{Request, time_of, handle, handle_cache, serve_requests}
use sesame_sdk.Verify.Replayed.{replayed_request_refused}
use sesame_sdk.Verify.Threads.{
  System, start, requests_of, Reach, verify_all, serve_requests-append, Reach-Sequential,
}

module _ {c : Crypto} {k : Clock} (law : IsLawful c) (cal : IsCalendar k) (cfg : SesameConfig)
    (provider : KeyProvider) where
  -- What requests leave of a cache: no key twice, and its window.
  serve_requests-HasUniqueKeys :
      (rs : List (Request k)) (s : InMemoryReplayCache)
      → HasUniqueKeys s
      → HasUniqueKeys (serve_requests c k cfg provider in_memory rs s)
        × ((serve_requests c k cfg provider in_memory rs s).window_secs ≡ s.window_secs)
  unfolding serve_requests in_memory
  serve_requests-HasUniqueKeys [] s u = (u, refl)
  serve_requests-HasUniqueKeys (r ∷ rs) s u =
      let (v, same) = kept in
      let (v', same') =
        serve_requests-HasUniqueKeys rs (handle c k cfg provider in_memory r s).1 v in
      (v', same' ∙ same)
    where
      kept :
          HasUniqueKeys (handle c k cfg provider in_memory r s).1
          × ((handle c k cfg provider in_memory r s).1.window_secs ≡ s.window_secs)
      kept = elim (handle_cache law cal cfg provider in_memory r s) [
        | inl same ↦ rw same (u, refl)
        | inr (t1, _, same) ↦ rw same (
          check-HasUniqueKeys s t1.key_id t1.nonce (time_of r) u,
          check_window s t1.key_id t1.nonce (time_of r),
        )
      ]

  -- The answer that a log of one thread has to a request.
  answer_at :
      (older newer : List (Request k × Outcome VerifiedRequest)) (r : Request k)
      (o : Outcome VerifiedRequest) (s : InMemoryReplayCache)
      → older ++ (r, o) ∷ newer
        ≡ verify_all c k cfg provider (requests_of (older ++ (r, o) ∷ newer)) s
      → o
        ≡ (handle c k cfg provider in_memory r
            (serve_requests c k cfg provider in_memory (requests_of older) s)).0
  unfolding verify_all serve_requests
  answer_at [] newer r o s h = let e = ap head_answer h in cc
    where
      head_answer : List (Request k × Outcome VerifiedRequest) → Outcome VerifiedRequest
      head_answer [] = o
      head_answer (e ∷ l) = e.1
  answer_at (e ∷ older) newer r o s h =
      answer_at older newer r o (handle c k cfg provider in_memory e.0 s).1 (ap tail_of h)
    where
      tail_of :
          List (Request k × Outcome VerifiedRequest) → List (Request k × Outcome VerifiedRequest)
      tail_of [] = []
      tail_of (x ∷ l) = l

  -- The answer that is logged for a request: what the cache after the earlier ones makes of it.
  logged :
      (s : InMemoryReplayCache) (todo : List (List (Request k))) (b : System k)
      (older newer : List (Request k × Outcome VerifiedRequest)) (r : Request k)
      (o : Outcome VerifiedRequest)
      → Reach c k cfg provider (start s todo) b
      → b.answered ≡ older ++ (r, o) ∷ newer
      → o
        ≡ (handle c k cfg provider in_memory r
            (serve_requests c k cfg provider in_memory (requests_of older) s)).0
  logged s todo b older newer r o reach log = answer_at older newer r o s (
      subst
        (λ (l : List (Request k × Outcome VerifiedRequest)).
          l ≡ verify_all c k cfg provider (requests_of l) s)
        log (Reach-Sequential c k cfg provider s todo reach).answers)

  -- Threads that share a cache, in any schedule of theirs: after an accepted request with Tier 1
  -- headers, a request with its key-id and nonce is not accepted, whichever threads verify the two
  -- and whatever is verified between them, as long as all of that and the second request arrive
  -- before a window has passed since the first.
  pub accepted_once :
      (s : InMemoryReplayCache) (todo : List (List (Request k))) (b : System k)
      (older between newer : List (Request k × Outcome VerifiedRequest)) (first again : Request k)
      (v : VerifiedRequest) (o : Outcome VerifiedRequest)
      → Reach c k cfg provider (start s todo) b
      → HasUniqueKeys s
      → IsWindow s.window_secs
      → b.answered ≡ older ++ (first, ok v) ∷ (between ++ (again, o) ∷ newer)
      → is_absent first.headers ≡ false
      → is_absent again.headers ≡ false
      → again.headers.key_id ≡ first.headers.key_id
      → again.headers.nonce ≡ first.headers.nonce
      → All (λ r. time_of r <ℤ time_of first +ℤ s.window_secs) (requests_of between)
      → time_of again <ℤ time_of first +ℤ s.window_secs
      → (w : VerifiedRequest) → o ≢ ok w
  unfolding serve_requests
  accepted_once s todo b older between newer first again v o reach u win log p q e f soon m w h =
      let middle : List (Request k × Outcome VerifiedRequest) = (first, ok v) ∷ between in
      let t = serve_requests c k cfg provider in_memory (requests_of older) s in
      let t' = (handle c k cfg provider in_memory first t).1 in
      let t'' = serve_requests c k cfg provider in_memory (requests_of between) t' in
      let (u', same) = serve_requests-HasUniqueKeys (requests_of older) s u in
      let to_first = logged s todo b older (between ++ (again, o) ∷ newer) first (ok v) reach log in
      let to_again =
        logged s todo b (older ++ middle) newer again o reach
          (log ∙ sym (append_assoc older middle ((again, o) ∷ newer))) in
      let served : serve_requests c k cfg provider in_memory (requests_of (older ++ middle)) s
          ≡ t'' =
        ap (λ (l : List (Request k)). serve_requests c k cfg provider in_memory l s)
          (map-append _ older middle)
        ∙ serve_requests-append c k cfg provider (requests_of older) (requests_of middle) s in
      let accepted : (handle c k cfg provider in_memory again t'').0 ≡ ok w =
        rw (← served, ← to_again) h in
      replayed_request_refused law cal cfg provider first again (requests_of between) t t' v u'
        (rw same win) p (ap (λ (a : Outcome VerifiedRequest). (a, t')) (sym to_first))
        (rw same soon) e f q (rw same m) w (handle c k cfg provider in_memory again t'').1
        (ap (λ (a : Outcome VerifiedRequest). (a, (handle c k cfg provider in_memory again t'').1))
          accepted)
