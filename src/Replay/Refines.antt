-- ===== src/Replay/Refines.antt =====
-- The abstract cache: a function from pairs to the expiry of their last fresh call, never swept. The
-- in-memory cache answers as it does, as long as the clock does not go back.
use sesame_sdk.Prelude.{
  ◌≡◌, refl, ap, ap₂, ◌∙◌, Bool, true, false, ◌&&◌, Option, none, some, List, [], ◌∷◌, arith,
  if◌then◌else◌, Bool-cases, inl, inr, ◌==◌,
}
use sesame_sdk.Prelude.Int.{ℤ, ◌≤ℤ◌, ◌+ℤ◌, ltb_ℤ, +ℤ_parts, eq_of_parts, min_i64}
use sesame_sdk.Prelude.AssocMap.{get}
use sesame_sdk.Prelude.AssocMap.Laws.{filter_opt}
use sesame_sdk.Text.{Bytes, pair_Eq}
use sesame_sdk.External.{IsDate}
use sesame_sdk.Replay.Defs.{InMemoryReplayCache, new}
use sesame_sdk.Replay.Step.{
  IsWindow, add_i64_of_date, expiry_of, swept, HasUniqueKeys, check-HasUniqueKeys, check_answer,
  check_expiry, check_prune_time, check_window, is_none,
}
use sesame_sdk.Replay.Window.{Call, pair_of, answer, after}

abbrev pub History : Type 0
History = Bytes × Bytes → Option ℤ

-- The pair may be used: it was never used, or its window is over.
abbrev pub is_fresh : (now : ℤ) → Option ℤ → Bool
is_fresh now none = true
is_fresh now (some expiry) = if ltb_ℤ now expiry then false else true

abbrev pub record_use : (w : ℤ) → History → Call → History
record_use w h call key =
    if is_fresh call.now (h (pair_of call)) && (pair_of call == key)
    then some (call.now +ℤ w)
    else h key

-- The answers of the abstract cache.
pub spec_answers : (w : ℤ) → History → List Call → List Bool
spec_answers w h [] = []
spec_answers w h (call ∷ calls) =
    is_fresh call.now (h (pair_of call)) ∷ spec_answers w (record_use w h call) calls

-- The answers of the in-memory cache.
pub answers : InMemoryReplayCache → List Call → List Bool
answers c [] = []
answers c (call ∷ calls) = answer c call ∷ answers (after c call) calls

-- The times do not fall, from `t` on, and are dates.
abbrev pub IsMonotone : ℤ → List Call → Type 0
IsMonotone t [] = Unit
IsMonotone t (call ∷ calls) = (t ≤ℤ call.now) × IsDate call.now × IsMonotone call.now calls

-- The map holds what the history says, less what had expired at the last sweep.
pub record Refines (w : ℤ) (c : InMemoryReplayCache) (h : History) : Type 0 where
  pub unique : HasUniqueKeys c
  pub window : c.window_secs ≡ w
  pub reads :
      (key : Bytes × Bytes)
      → expiry_of c key ≡ filter_opt (λ expiry. ltb_ℤ c.seen.last_prune_unix expiry) (h key)

live : (now : ℤ) → Option ℤ → Option ℤ
live now = filter_opt (λ expiry. ltb_ℤ now expiry)

swept_live :
    (c : InMemoryReplayCache) (now : ℤ) (o : Option ℤ)
    → c.seen.last_prune_unix ≤ℤ now
    → swept c now (live c.seen.last_prune_unix o) ≡ live now o
unfolding live
swept_live c now none h = ground arith
swept_live c now (some e) h = ground arith

is_none-live : (now : ℤ) (o : Option ℤ) → is_none (live now o) ≡ is_fresh now o
unfolding live
is_none-live now none = refl
is_none-live now (some e) = ground arith

later_time : (last now : ℤ) → last ≤ℤ now → (if ltb_ℤ last now then now else last) ≡ now
later_time last now h = elim (Bool-cases (ltb_ℤ last now)) [
  | inl l ↦ rw l
  | inr l ↦ rw l (eq_of_parts last now (ground arith))
]

live_if :
    (b : Bool) (now w : ℤ) (o : Option ℤ)
    → IsWindow w
    → (if b then some (now +ℤ w) else live now o) ≡ live now (if b then some (now +ℤ w) else o)
unfolding live
live_if true now w o h = ground (arith, +ℤ_parts now w)
live_if false now w o h = refl

module _ {w : ℤ} (win : IsWindow w) (c : InMemoryReplayCache) (h : History) (call : Call)
    (r : Refines w c h) (later : c.seen.last_prune_unix ≤ℤ call.now) (d : IsDate call.now) where
  swept_reads : (key : Bytes × Bytes) → swept c call.now (expiry_of c key) ≡ live call.now (h key)
  unfolding live
  swept_reads key = ap (swept c call.now) (r.reads key) ∙ swept_live c call.now (h key) later

  -- The in-memory cache answers as the abstract one.
  answer_agrees : answer c call ≡ is_fresh call.now (h (pair_of call))
  answer_agrees =
      check_answer c call.key_id call.nonce call.now r.unique
      ∙ ap is_none (swept_reads (pair_of call))
      ∙ is_none-live call.now (h (pair_of call))

  after_time : (after c call).seen.last_prune_unix ≡ call.now
  after_time =
      check_prune_time c call.key_id call.nonce call.now
      ∙ later_time c.seen.last_prune_unix call.now later

  after-Refines : Refines w (after c call) (record_use w h call)
  unfolding live
  after-Refines = record {
    unique = check-HasUniqueKeys c call.key_id call.nonce call.now r.unique;
    window = check_window c call.key_id call.nonce call.now ∙ r.window;
    reads = λ key.
        check_expiry c call.key_id call.nonce call.now r.unique key
        ∙ rw
            (
              after_time,
              swept_reads (pair_of call),
              is_none-live call.now (h (pair_of call)),
              swept_reads key,
              r.window,
              add_i64_of_date call.now w d win,
            )
            (live_if (is_fresh call.now (h (pair_of call)) && (pair_of call == key)) call.now w
              (h key) win);
  }

answers-eq-spec_from :
    {w : ℤ}
    → IsWindow w
    → (c : InMemoryReplayCache) (h : History) (calls : List Call) → Refines w c h
    → IsMonotone c.seen.last_prune_unix calls
    → answers c calls ≡ spec_answers w h calls
unfolding answers spec_answers
answers-eq-spec_from win c h [] r m = refl
answers-eq-spec_from win c h (call ∷ calls) r (later, d, m) =
    ap₂ (◌∷◌) (answer_agrees win c h call r later d) (
      answers-eq-spec_from win (after c call) (record_use _ h call) calls
        (after-Refines win c h call r later d) (rw (after_time win c h call r later d) m))

-- On calls whose times are dates and do not go back, a new in-memory cache gives the answers of the
-- abstract one that never sweeps: a pair is fresh exactly when a window has passed since its last
-- fresh call.
pub answers-eq-spec_answers :
    (w : ℤ) (calls : List Call)
    → IsWindow w
    → IsMonotone min_i64 calls
    → answers (new w) calls ≡ spec_answers w (λ _. none) calls
unfolding new
answers-eq-spec_answers w calls win m =
    answers-eq-spec_from win (new w) (λ _. none) calls
      (record { unique = tt; window = refl; reads = λ key. unfold get in refl }) m
