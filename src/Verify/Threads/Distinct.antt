-- ===== src/Verify/Threads/Distinct.antt =====
-- Threads whose requests are all valid and differ in key-id or nonce: none is refused.
use mathlib.Core.List.{flatten}
use sesame_sdk.Prelude.{
  ◌+◌, ◌≡◌, ◌≢◌, ◌⊎◌, sym, ap, ap₂, subst, ◌∙◌, Bool, true, false, Option, none, some, List, [],
  ◌∷◌, ◌++◌, ◌&&◌, Bool-cases, All, All-append, length, inl, inr, arith, if◌then◌else◌, Distinct,
  Distinct-middle, All-middle,
}
use sesame_sdk.Prelude.Int.{ℤ}
use sesame_sdk.Prelude.Result.{ok}
use sesame_sdk.Text.{Bytes, pair_eq, pair_eq_iff, pair_Eq}
use sesame_sdk.Message.{Outcome, Tier1Fields}
use sesame_sdk.External.{Crypto, Clock, IsLawful, IsCalendar}
use sesame_sdk.Keys.{KeyProvider}
use sesame_sdk.Replay.{InMemoryReplayCache, in_memory, check_and_remember}
use sesame_sdk.Replay.Step.{
  expiry_of, swept, HasUniqueKeys, check-HasUniqueKeys, check_answer, check_expiry,
}
use sesame_sdk.Tier.{SesameConfig}
use sesame_sdk.Verify.{VerifiedRequest}
use sesame_sdk.Verify.Spec.{Carries, IsAuthentic, IsGranted}
use sesame_sdk.Verify.Accept.{verify_request_iff}
use sesame_sdk.Verify.Replays.{Request, time_of, handle}
use sesame_sdk.Verify.Threads.{
  System, start, Turn, turn, Reach, here, next, flatten_middle, flatten_rest, Reach-length,
  can_go_on,
}

-- What the cache knows a request by.
abbrev pub name_of : {k : Clock} → Request k → Option Bytes × Option Bytes
name_of r = (r.headers.key_id, r.headers.nonce)

-- No expiry is recorded for the request.
abbrev pub Unseen : {k : Clock} → InMemoryReplayCache → Request k → Type 0
Unseen s r = (t1 : Tier1Fields) → Carries r.headers t1 → expiry_of s (t1.key_id, t1.nonce) ≡ none

module _ (c : Crypto) (k : Clock) (cfg : SesameConfig) (provider : KeyProvider) where
  -- Authentic at its arrival, and granted.
  pub record IsValid (r : Request k) : Type 0 where
    pub t1 : Tier1Fields
    pub v : VerifiedRequest
    pub authentic : IsAuthentic c k cfg provider r.ctx r.headers r.raw_body r.now t1
    pub granted : IsGranted c provider r.ctx r.headers r.raw_body r.min_tier t1 v

  -- Accepted with the result that the request asks for.
  abbrev pub IsAccepted : Request k × Outcome VerifiedRequest → Type 0
  IsAccepted entry = (valid : IsValid entry.0) × (entry.1 ≡ ok valid.v)

module _ {c : Crypto} {k : Clock} (law : IsLawful c) (cal : IsCalendar k) (cfg : SesameConfig)
    (provider : KeyProvider) where
  nothing_swept : (s : InMemoryReplayCache) (now : ℤ) → swept s now none ≡ none
  nothing_swept s now = ground arith

  -- A valid request that the cache has not recorded is accepted, and recorded.
  handle_valid :
      (r : Request k) (s : InMemoryReplayCache)
      → HasUniqueKeys s
      → (valid : IsValid c k cfg provider r) → Unseen s r
      → handle c k cfg provider in_memory r s
        ≡ (ok valid.v, (check_and_remember s valid.t1.key_id valid.t1.nonce (time_of r)).1)
  unfolding in_memory
  handle_valid r s u valid unseen =
      let t1 = valid.t1 in
      let s' = (check_and_remember s t1.key_id t1.nonce (time_of r)).1 in
      let fresh : (check_and_remember s t1.key_id t1.nonce (time_of r)).0 ≡ true =
        check_answer s t1.key_id t1.nonce (time_of r) u
        ∙ rw (unseen t1 valid.authentic.carries, nothing_swept s (time_of r)) in
      (verify_request_iff law cal cfg provider in_memory r.ctx r.headers r.raw_body r.now r.min_tier
          s valid.v s').1
        (inr (record {
          t1 = t1;
          authentic = valid.authentic;
          unseen = ap (λ (b : Bool). (b, s')) fresh;
          granted = valid.granted;
        }))

  if_neither :
      (a b : Bool) (x : Option ℤ) {y : Option ℤ}
      → b ≡ false
      → y ≡ none
      → (if a && b then x else y) ≡ none
  if_neither true b x e f = rw (e, f)
  if_neither false b x e f = f

  other_pair :
      (r q : Request k) (t1 t2 : Tier1Fields)
      → Carries r.headers t1
      → Carries q.headers t2
      → name_of q ≢ name_of r
      → (pair_eq (t1.key_id, t1.nonce) (t2.key_id, t2.nonce)) ≡ false
  other_pair r q t1 t2 h j other =
      elim (Bool-cases (pair_eq (t1.key_id, t1.nonce) (t2.key_id, t2.nonce))) [
        | inr differ ↦ differ
        | inl e ↦
            let same : ◌≡◌ {A = Bytes × Bytes} (t1.key_id, t1.nonce) (t2.key_id, t2.nonce) =
              (pair_eq_iff (t1.key_id, t1.nonce) (t2.key_id, t2.nonce)).0 e in
            absurd (
              other (
                ap₂ (λ (a b : Option Bytes). (a, b)) j.key_id j.nonce
                ∙ ap (λ (p : Bytes × Bytes). (some p.0, some p.1)) (sym same)
                ∙ sym (ap₂ (λ (a b : Option Bytes). (a, b)) h.key_id h.nonce)))
      ]

  -- What is recorded of a request leaves those with other names unseen.
  Unseen-check :
      (r : Request k) (s : InMemoryReplayCache) (t1 : Tier1Fields)
      → HasUniqueKeys s
      → Carries r.headers t1
      → (q : Request k) → name_of q ≢ name_of r
      → Unseen s q
      → Unseen (check_and_remember s t1.key_id t1.nonce (time_of r)).1 q
  Unseen-check r s t1 u carried q other unseen t2 carried' =
      let gone : swept s (time_of r) (expiry_of s (t2.key_id, t2.nonce)) ≡ none =
        rw (unseen t2 carried', nothing_swept s (time_of r)) in
      check_expiry s t1.key_id t1.nonce (time_of r) u (t2.key_id, t2.nonce)
      ∙ if_neither _ _ _ (other_pair r q t1 t2 carried carried' other) gone

  -- One thread's valid request is in the middle of what is left: it is accepted, and the others
  -- stay valid, apart and unseen.
  record Ready (b : System k) : Type 0 where
    pub unique : HasUniqueKeys b.cache
    pub valid : All (IsValid c k cfg provider) (flatten b.todo)
    pub apart : Distinct name_of (flatten b.todo)
    pub unseen : All (Unseen b.cache) (flatten b.todo)
    pub accepted : All (IsAccepted c k cfg provider) b.answered

  All-Unseen :
      (r : Request k) (s : InMemoryReplayCache) (t1 : Tier1Fields) (l : List (Request k))
      → HasUniqueKeys s
      → Carries r.headers t1
      → All (λ q. name_of q ≢ name_of r) l
      → All (Unseen s) l
      → All (Unseen (check_and_remember s t1.key_id t1.nonce (time_of r)).1) l
  All-Unseen r s t1 [] u h p q = tt
  All-Unseen r s t1 (x ∷ l) u h (p, ps) (q, qs) =
      (Unseen-check r s t1 u h x p q, All-Unseen r s t1 l u h ps qs)

  Turn-Ready : {a b : System k} → Turn c k cfg provider a b → Ready a → Ready b
  Turn-Ready {a} (turn before after r rest e f) h =
      let split : flatten a.todo ≡ flatten before ++ r ∷ (rest ++ flatten after) =
        ap flatten e ∙ flatten_middle before after r rest in
      let left = flatten before ++ (rest ++ flatten after) in
      let (valid, valids) =
        All-middle (IsValid c k cfg provider) (flatten before) (rest ++ flatten after) r
          (subst (All (IsValid c k cfg provider)) split h.valid) in
      let (unseen, unseens) =
        All-middle (Unseen a.cache) (flatten before) (rest ++ flatten after) r
          (subst (All (Unseen a.cache)) split h.unseen) in
      let (others, apart) =
        Distinct-middle name_of (flatten before) (rest ++ flatten after) r
          (subst (Distinct name_of) split h.apart) in
      let done = handle_valid r a.cache h.unique valid unseen in
      let t1 = valid.t1 in
      let joined : flatten before ++ (rest ++ flatten after) ≡ flatten (before ++ rest ∷ after) =
        sym (flatten_rest before after rest) in
      subst Ready (sym f) (record {
        unique = rw done (check-HasUniqueKeys a.cache t1.key_id t1.nonce (time_of r) h.unique);
        valid = subst (All (IsValid c k cfg provider)) joined valids;
        apart = subst (Distinct name_of) joined apart;
        unseen = subst (All (Unseen (handle c k cfg provider in_memory r a.cache).1)) joined (
            rw done (All-Unseen r a.cache t1 left h.unique valid.authentic.carries others unseens));
        accepted =
            All-append (IsAccepted c k cfg provider) a.answered _ h.accepted
              ((valid, ap (λ (p : Outcome VerifiedRequest × InMemoryReplayCache). p.0) done), tt);
      })

  Reach-Ready : {a b : System k} → Reach c k cfg provider a b → Ready a → Ready b
  Reach-Ready here h = h
  Reach-Ready (next r t) h = Turn-Ready t (Reach-Ready r h)

  -- Threads that share a cache, in any schedule of theirs, whose requests are all valid at their
  -- arrival, differ in key-id or nonce, and are not recorded in the cache at the start: every answer
  -- so far is an acceptance with the request's own result, no request is lost, and a thread can go on
  -- unless all are answered.
  pub All-IsAccepted :
      (s : InMemoryReplayCache) (todo : List (List (Request k))) (b : System k)
      → Reach c k cfg provider (start s todo) b
      → HasUniqueKeys s
      → All (IsValid c k cfg provider) (flatten todo)
      → Distinct name_of (flatten todo)
      → All (Unseen s) (flatten todo)
      → All (IsAccepted c k cfg provider) b.answered
        × (length b.answered + length (flatten b.todo) ≡ length (flatten todo))
        × ((flatten b.todo ≡ []) ⊎ ((d : System k) × Turn c k cfg provider b d))
  All-IsAccepted s todo b reach u valid apart unseen =
      let ready =
        Reach-Ready reach
          (record { unique = u; valid = valid; apart = apart; unseen = unseen; accepted = tt }) in
      (ready.accepted, Reach-length c k cfg provider s todo reach, can_go_on c k cfg provider b)
