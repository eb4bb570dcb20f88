-- ===== src/Replay/Window.antt =====
-- A pair stays recorded for its window, whatever calls come between, and no longer than a window
-- after the last sweep.
use sesame_sdk.Prelude.{
  ◌≡◌, refl, sym, ap, ◌∙◌, Bool, true, false, ◌&&◌, Option, none, some, List, [], ◌∷◌, All, arith,
  if◌then◌else◌, Bool-cases, ◌⊎◌, inl, inr, ◌==◌, ==_iff, ==_refl,
}
use sesame_sdk.Prelude.Int.{ℤ, ◌<ℤ◌, ◌≤ℤ◌, ◌+ℤ◌, ltb_ℤ, +ℤ_parts, add_i64}
use sesame_sdk.Prelude.AssocMap.{get}
use sesame_sdk.Text.{Bytes, pair_Eq}
use sesame_sdk.External.{IsDate}
use sesame_sdk.Replay.Defs.{InMemoryReplayCache, new, check_and_remember}
use sesame_sdk.Replay.Step.{
  IsWindow, add_i64_of_date, expiry_of, swept, HasUniqueKeys, check-HasUniqueKeys, check_answer,
  check_expiry, check_prune_time, check_window, is_none,
}

-- One call, with its time.
pub record Call : Type 0 where
  pub key_id : Bytes
  pub nonce : Bytes
  pub now : ℤ

abbrev pub pair_of : Call → Bytes × Bytes
pair_of call = (call.key_id, call.nonce)

abbrev pub answer : InMemoryReplayCache → Call → Bool
answer c call = (check_and_remember c call.key_id call.nonce call.now).0

abbrev pub after : InMemoryReplayCache → Call → InMemoryReplayCache
after c call = (check_and_remember c call.key_id call.nonce call.now).1

-- The cache after calls in their order.
unfoldable pub serve : InMemoryReplayCache → List Call → InMemoryReplayCache
serve c [] = c
serve c (call ∷ calls) = serve (after c call) calls

pub serve-HasUniqueKeys :
    (c : InMemoryReplayCache) (calls : List Call) → HasUniqueKeys c → HasUniqueKeys (serve c calls)
unfolding serve
serve-HasUniqueKeys c [] u = u
serve-HasUniqueKeys c (call ∷ calls) u =
    serve-HasUniqueKeys (after c call) calls
      (check-HasUniqueKeys c call.key_id call.nonce call.now u)

swept_live : (c : InMemoryReplayCache) (now e : ℤ) → now <ℤ e → swept c now (some e) ≡ some e
swept_live c now e h = ground arith

if_not_both :
    (a b : Bool) (x : Option ℤ) {y : Option ℤ} {e : ℤ}
    → (b ≡ true → a ≡ false)
    → y ≡ some e
    → (if a && b then x else y) ≡ some e
if_not_both true true x h k = cc (h refl)
if_not_both true false x h k = k
if_not_both false b x h k = k

module _ (c : InMemoryReplayCache) (u : HasUniqueKeys c) where
  -- A pair that is recorded past `now` is refused, and stays recorded.
  pub answer_recorded :
      (call : Call) (e : ℤ)
      → expiry_of c (pair_of call) ≡ some e
      → call.now <ℤ e
      → answer c call ≡ false
  answer_recorded call e h l =
      check_answer c call.key_id call.nonce call.now u
      ∙ rw h (ap is_none (swept_live c call.now e l))

  pub expiry_kept :
      (call : Call) (key : Bytes × Bytes) (e : ℤ)
      → expiry_of c key ≡ some e
      → call.now <ℤ e
      → expiry_of (after c call) key ≡ some e
  expiry_kept call key e h l =
      let live = ap (swept c call.now) h ∙ swept_live c call.now e l in
      check_expiry c call.key_id call.nonce call.now u key
      ∙ if_not_both (is_none (swept c call.now (expiry_of c (pair_of call)))) (pair_of call == key)
          _
          (λ s.
            let same = (==_iff (pair_of call) key).0 s in
            ap is_none (ap (λ j. swept c call.now (expiry_of c j)) same ∙ live))
          live

  -- A pair found fresh is recorded until a window from then.
  pub expiry_fresh :
      (call : Call)
      → answer c call ≡ true
      → IsDate call.now
      → IsWindow c.window_secs
      → expiry_of (after c call) (pair_of call) ≡ some (call.now +ℤ c.window_secs)
  expiry_fresh call h d w =
      check_expiry c call.key_id call.nonce call.now u (pair_of call)
      ∙ rw (
        sym (check_answer c call.key_id call.nonce call.now u),
        h,
        ==_refl (pair_of call),
        add_i64_of_date call.now c.window_secs d w,
      )

serve_expiry_kept :
    (c : InMemoryReplayCache) (calls : List Call) (key : Bytes × Bytes) (e : ℤ)
    → HasUniqueKeys c
    → expiry_of c key ≡ some e
    → All (λ call. call.now <ℤ e) calls
    → expiry_of (serve c calls) key ≡ some e
unfolding serve
serve_expiry_kept c [] key e u h l = h
serve_expiry_kept c (call ∷ calls) key e u h (p, l) =
    serve_expiry_kept (after c call) calls key e
      (check-HasUniqueKeys c call.key_id call.nonce call.now u) (expiry_kept c u call key e h p) l

-- A pair that a call found fresh is refused by every call for it within a window of that call,
-- whatever calls of that time come between, whoever makes them.
pub replay_refused :
    (c : InMemoryReplayCache) (first again : Call) (calls : List Call)
    → HasUniqueKeys c
    → IsWindow c.window_secs
    → IsDate first.now
    → answer c first ≡ true
    → All (λ call. call.now <ℤ first.now +ℤ c.window_secs) calls
    → pair_of again ≡ pair_of first
    → again.now <ℤ first.now +ℤ c.window_secs
    → answer (serve (after c first) calls) again ≡ false
replay_refused c first again calls u w d h l same m =
    let v = check-HasUniqueKeys c first.key_id first.nonce first.now u in
    answer_recorded (serve (after c first) calls) (serve-HasUniqueKeys (after c first) calls v)
      again (first.now +ℤ c.window_secs)
      (ap (expiry_of (serve (after c first) calls)) same
        ∙ serve_expiry_kept (after c first) calls (pair_of first) _ v (expiry_fresh c u first h d w)
            l)
      m

-- Every recorded expiry is at most a window after the last sweep.
pub record IsBounded (c : InMemoryReplayCache) : Type 0 where
  pub unique : HasUniqueKeys c
  pub bound :
      (key : Bytes × Bytes) (e : ℤ)
      → expiry_of c key ≡ some e
      → e ≤ℤ c.seen.last_prune_unix +ℤ c.window_secs

new-IsBounded : (w : ℤ) → IsBounded (new w)
unfolding new get
new-IsBounded w = record { unique = tt; bound = λ key e h. cc }

swept-eq-some :
    (c : InMemoryReplayCache) (now e : ℤ) (o : Option ℤ) → swept c now o ≡ some e → o ≡ some e
swept-eq-some c now e none h = ground arith
swept-eq-some c now e (some x) h = ground arith

if-eq-some :
    (b : Bool) (x : ℤ) (o : Option ℤ) {e : ℤ}
    → (if b then some x else o) ≡ some e
    → (x ≡ e) ⊎ (o ≡ some e)
if-eq-some true x o h = inl (cc)
if-eq-some false x o h = inr h

-- The later of the last sweep and the call.
abbrev sweep_time : ℤ → ℤ → ℤ
sweep_time last now = if ltb_ℤ last now then now else last

le_of_sweep : (last now w e : ℤ) → (e ≡ now +ℤ w) ⊎ (e ≤ℤ last +ℤ w) → e ≤ℤ sweep_time last now +ℤ w
le_of_sweep last now w e h = elim (Bool-cases (ltb_ℤ last now)) [
  | inl l ↦ rw l (ground (arith, +ℤ_parts now w, +ℤ_parts last w))
  | inr l ↦ rw l (ground (arith, +ℤ_parts now w, +ℤ_parts last w))
]

after-IsBounded :
    (c : InMemoryReplayCache) (call : Call)
    → IsBounded c
    → IsWindow c.window_secs
    → IsDate call.now
    → IsBounded (after c call)
after-IsBounded c call b w d = record {
  unique = check-HasUniqueKeys c call.key_id call.nonce call.now b.unique;
  bound = λ key e h.
      rw
        (
          check_prune_time c call.key_id call.nonce call.now,
          check_window c call.key_id call.nonce call.now,
        )
        (le_of_sweep c.seen.last_prune_unix call.now c.window_secs e (kept_or_new key e h));
}
  where
    kept_or_new :
        (key : Bytes × Bytes) (e : ℤ)
        → expiry_of (after c call) key ≡ some e
        → (e ≡ call.now +ℤ c.window_secs) ⊎ (e ≤ℤ c.seen.last_prune_unix +ℤ c.window_secs)
    kept_or_new key e h =
        elim (if-eq-some
          (is_none (swept c call.now (expiry_of c (pair_of call))) && (pair_of call == key))
          (add_i64 call.now c.window_secs) (swept c call.now (expiry_of c key))
          (sym (check_expiry c call.key_id call.nonce call.now b.unique key) ∙ h)) [
            | inl p ↦ inl (sym p ∙ add_i64_of_date call.now c.window_secs d w)
            | inr p ↦ inr (b.bound key e (swept-eq-some c call.now e _ p))
          ]

serve-IsBounded_from :
    (c : InMemoryReplayCache) (calls : List Call)
    → IsBounded c
    → IsWindow c.window_secs
    → All (λ call. IsDate call.now) calls
    → IsBounded (serve c calls)
unfolding serve
serve-IsBounded_from c [] b w d = b
serve-IsBounded_from c (call ∷ calls) b w (p, d) =
    serve-IsBounded_from (after c call) calls (after-IsBounded c call b w p)
      (rw (check_window c call.key_id call.nonce call.now) w) d

-- After any calls to a new cache each pair has one entry, and no entry expires later than a window
-- after the last sweep.
pub serve-IsBounded :
    (w : ℤ) (calls : List Call)
    → IsWindow w
    → All (λ call. IsDate call.now) calls
    → IsBounded (serve (new w) calls)
serve-IsBounded w calls h d =
    serve-IsBounded_from (new w) calls (new-IsBounded w) (unfold new in h) d
