-- ===== src/Verify/Threads.antt =====
-- Threads that share the cache, as in the second phase of benches/load.rs. All that a call of
-- `verify_request` shares with other threads is the cache, which it takes once and under the mutex:
-- the call stands in the schedule where it takes it.
pub mod Once
pub mod Distinct
use mathlib.Core.List.{flatten, append_assoc, map-append}
use sesame_sdk.Prelude.{
  ◌≡◌, ◌≢◌, refl, sym, ap, ap₂, subst, ◌∙◌, Option, none, some, List, [], ◌∷◌, ◌++◌, map, All, ◌⊎◌,
  ◌+◌, length, length-append, arith, false, inl, inr,
}
use sesame_sdk.Prelude.Int.{ℤ, ◌<ℤ◌, ◌+ℤ◌}
use sesame_sdk.Prelude.Result.{ok}
use sesame_sdk.Message.{Outcome, is_absent}
use sesame_sdk.External.{Crypto, Clock, IsLawful, IsCalendar}
use sesame_sdk.Keys.{KeyProvider}
use sesame_sdk.Replay.{InMemoryReplayCache, in_memory}
use sesame_sdk.Replay.Step.{IsWindow, HasUniqueKeys, check-HasUniqueKeys, check_window}
use sesame_sdk.Tier.{SesameConfig}
use sesame_sdk.Verify.{VerifiedRequest}
use sesame_sdk.Verify.Replays.{Request, time_of, handle, handle_cache, serve_requests}
use sesame_sdk.Verify.Replayed.{replayed_request_refused}

-- The requests that each thread has still to verify, and what was answered so far.
pub record System (k : Clock) : Type 0 where
  pub cache : InMemoryReplayCache
  pub todo : List (List (Request k))
  pub answered : List (Request k × Outcome VerifiedRequest)

abbrev pub start : {k : Clock} → InMemoryReplayCache → List (List (Request k)) → System k
start cache todo = record { cache = cache; todo = todo; answered = [] }

abbrev pub requests_of : {k : Clock} → List (Request k × Outcome VerifiedRequest) → List (Request k)
requests_of = map (λ entry. entry.0)

-- The requests that are left, with one thread's next request in the middle.
pub flatten_middle :
    {A : Type 0} (before after : List (List A)) (r : A) (rest : List A)
    → flatten (before ++ (r ∷ rest) ∷ after) ≡ flatten before ++ r ∷ (rest ++ flatten after)
unfolding flatten
flatten_middle [] after r rest = refl
flatten_middle (l ∷ before) after r rest =
    ap (λ m. l ++ m) (flatten_middle before after r rest)
    ∙ sym (append_assoc l (flatten before) (r ∷ (rest ++ flatten after)))

pub flatten_rest :
    {A : Type 0} (before after : List (List A)) (rest : List A)
    → flatten (before ++ rest ∷ after) ≡ flatten before ++ (rest ++ flatten after)
unfolding flatten
flatten_rest [] after rest = refl
flatten_rest (l ∷ before) after rest =
    ap (λ m. l ++ m) (flatten_rest before after rest)
    ∙ sym (append_assoc l (flatten before) (rest ++ flatten after))

-- A queue that is not empty, unless all are.
nonempty :
    {A : Type 0} (queues : List (List A))
    → (flatten queues ≡ [])
      ⊎ ((before : List (List A)) × (after : List (List A)) × (r : A) × (rest : List A) × (queues
            ≡ before ++ (r ∷ rest) ∷ after))
unfolding flatten
nonempty [] = inl refl
nonempty ((r ∷ rest) ∷ queues) = inr ([], queues, r, rest, refl)
nonempty ([] ∷ queues) = elim (nonempty queues) [
  | inl e ↦ inl e
  | inr (before, after, r, rest, e) ↦ inr ([] ∷ before, after, r, rest, ap (λ l. [] ∷ l) e)
]

module _ (c : Crypto) (k : Clock) (cfg : SesameConfig) (provider : KeyProvider) where
  -- Some thread verifies its next request.
  pub data Turn (a b : System k) : Type 0 where
    turn :
        (before after : List (List (Request k))) (r : Request k) (rest : List (Request k))
        → a.todo ≡ before ++ (r ∷ rest) ∷ after
        → b ≡ record {
          cache = (handle c k cfg provider in_memory r a.cache).1;
          todo = before ++ rest ∷ after;
          answered = a.answered ++ (r, (handle c k cfg provider in_memory r a.cache).0) ∷ [];
        }
        → Turn a b

  pub data Reach (a : System k) : System k → Type 0 where
    here : Reach a a
    next : {b d : System k} → Reach a b → Turn b d → Reach a d

  -- The answers of one thread that verifies the requests in their order.
  unfoldable pub verify_all :
      List (Request k) → InMemoryReplayCache → List (Request k × Outcome VerifiedRequest)
  verify_all [] s = []
  verify_all (r ∷ rs) s =
      (r, (handle c k cfg provider in_memory r s).0)
      ∷ verify_all rs (handle c k cfg provider in_memory r s).1

  pub serve_requests-append :
      (rs qs : List (Request k)) (s : InMemoryReplayCache)
      → serve_requests c k cfg provider in_memory (rs ++ qs) s
        ≡ serve_requests c k cfg provider in_memory qs
            (serve_requests c k cfg provider in_memory rs s)
  unfolding serve_requests
  serve_requests-append [] qs s = refl
  serve_requests-append (r ∷ rs) qs s =
      serve_requests-append rs qs (handle c k cfg provider in_memory r s).1

  verify_all-append :
      (rs qs : List (Request k)) (s : InMemoryReplayCache)
      → verify_all (rs ++ qs) s
        ≡ verify_all rs s ++ verify_all qs (serve_requests c k cfg provider in_memory rs s)
  unfolding verify_all serve_requests
  verify_all-append [] qs s = refl
  verify_all-append (r ∷ rs) qs s =
      ap
        (λ (l : List (Request k × Outcome VerifiedRequest)).
          (r, (handle c k cfg provider in_memory r s).0) ∷ l)
        (verify_all-append rs qs (handle c k cfg provider in_memory r s).1)

  -- The log has the answers of one thread to its requests, in the order in which they took the
  -- cache, and the cache is as that thread leaves it.
  pub record Sequential (s : InMemoryReplayCache) (b : System k) : Type 0 where
    pub answers : b.answered ≡ verify_all (requests_of b.answered) s
    pub cache : b.cache ≡ serve_requests c k cfg provider in_memory (requests_of b.answered) s

  Turn-Sequential :
      (s : InMemoryReplayCache) {a b : System k} → Turn a b → Sequential s a → Sequential s b
  unfolding verify_all serve_requests
  Turn-Sequential s {a} (turn before after r rest e f) q = subst (Sequential s) (sym f) (record {
    answers =
        ap₂ (◌++◌) q.answers (ap one_entry q.cache)
        ∙ sym (verify_all-append (requests_of a.answered) (r ∷ []) s)
        ∙ ap (λ (l : List (Request k)). verify_all l s) (sym added);
    cache =
        ap (λ (t : InMemoryReplayCache). (handle c k cfg provider in_memory r t).1) q.cache
        ∙ sym (serve_requests-append (requests_of a.answered) (r ∷ []) s)
        ∙ ap (λ (l : List (Request k)). serve_requests c k cfg provider in_memory l s) (sym added);
  })
    where
      one_entry : InMemoryReplayCache → List (Request k × Outcome VerifiedRequest)
      one_entry t = (r, (handle c k cfg provider in_memory r t).0) ∷ []

      added :
          requests_of (a.answered ++ (r, (handle c k cfg provider in_memory r a.cache).0) ∷ [])
          ≡ requests_of a.answered ++ r ∷ []
      added = map-append _ a.answered _

  pub Reach-Sequential :
      (s : InMemoryReplayCache) (todo : List (List (Request k))) {b : System k}
      → Reach (start s todo) b
      → Sequential s b
  unfolding verify_all serve_requests
  Reach-Sequential s todo here = record { answers = refl; cache = refl }
  Reach-Sequential s todo (next r t) = Turn-Sequential s t (Reach-Sequential s todo r)

  -- A thread with a request can go on.
  pub can_go_on : (b : System k) → (flatten b.todo ≡ []) ⊎ ((d : System k) × Turn b d)
  can_go_on b = elim (nonempty b.todo) [
    | inl e ↦ inl e
    | inr (before, after, r, rest, e) ↦ inr (_, turn before after r rest e refl)
  ]

  -- No request is lost.
  Turn-length :
      {a b : System k}
      → Turn a b
      → length b.answered + length (flatten b.todo) ≡ length a.answered + length (flatten a.todo)
  Turn-length {a} (turn before after r rest e f) =
      rw (f, e, flatten_middle before after r rest, flatten_rest before after rest)
        (omega (
          arith,
          length-append a.answered ((r, (handle c k cfg provider in_memory r a.cache).0) ∷ []),
          length-append (flatten before) (r ∷ (rest ++ flatten after)),
          length-append (flatten before) (rest ++ flatten after),
        ))

  pub Reach-length :
      (s : InMemoryReplayCache) (todo : List (List (Request k))) {b : System k}
      → Reach (start s todo) b
      → length b.answered + length (flatten b.todo) ≡ length (flatten todo)
  Reach-length s todo here = omega arith
  Reach-length s todo (next r t) = Turn-length t ∙ Reach-length s todo r
