-- ===== src/Replay/Step.antt =====
-- One call of the in-memory cache: what it answers and what the map reads as afterwards.
use sesame_sdk.Prelude.{
  ◌^◌, ◌≡◌, refl, ap, ◌∙◌, Bool, true, false, ◌&&◌, none, some, Option, arith, if◌then◌else◌, ◌==◌,
  Bool-cases, Option-cases, inl, inr,
}
use sesame_sdk.Prelude.Int.{ℤ, pos, ◌≤ℤ◌, ◌+ℤ◌, ltb_ℤ, add_i64, wrap64_of_fits, +ℤ_parts}
use sesame_sdk.Prelude.AssocMap.{get, insert, IsMap, get-insert}
use sesame_sdk.Prelude.AssocMap.Laws.{filter_opt, get-retain, insert-IsMap, retain-IsMap}
use sesame_sdk.Text.{Bytes, pair_Eq}
use sesame_sdk.External.{IsDate}
use sesame_sdk.Replay.Defs.{State, InMemoryReplayCache, check_and_remember, prune, remember}

-- A window of at least a second, and far from the ends of an `i64`.
abbrev pub IsWindow : ℤ → Type 0
IsWindow w = (pos 1 ≤ℤ w) × (w ≤ℤ pos (2 ^ 62))

pub add_i64_of_date : (now w : ℤ) → IsDate now → IsWindow w → add_i64 now w ≡ now +ℤ w
unfolding add_i64
add_i64_of_date now w h k = wrap64_of_fits (now +ℤ w) (omega (arith, +ℤ_parts now w))

-- The expiry that is recorded for a pair.
abbrev pub expiry_of : InMemoryReplayCache → Bytes × Bytes → Option ℤ
expiry_of c key = get c.seen.map key

-- What the sweep of a call at `now` leaves of an expiry.
abbrev pub swept : InMemoryReplayCache → (now : ℤ) → Option ℤ → Option ℤ
swept c now o =
    if ltb_ℤ c.seen.last_prune_unix now then filter_opt (λ expiry. ltb_ℤ now expiry) o else o

abbrev pub HasUniqueKeys : InMemoryReplayCache → Type 0
HasUniqueKeys c = IsMap c.seen.map

prune-IsMap : (st : State) (now : ℤ) → IsMap st.map → IsMap (prune st now).map
unfolding prune
prune-IsMap st now h = elim (Bool-cases (ltb_ℤ st.last_prune_unix now)) [
  | inl e ↦ rw e (retain-IsMap _ st.map h)
  | inr e ↦ rw e h
]

get-prune :
    (st : State) (now : ℤ) (key : Bytes × Bytes)
    → IsMap st.map
    → get (prune st now).map key ≡ (
        if ltb_ℤ st.last_prune_unix now
        then filter_opt (λ expiry. ltb_ℤ now expiry) (get st.map key)
        else get st.map key)
unfolding prune
get-prune st now key h = elim (Bool-cases (ltb_ℤ st.last_prune_unix now)) [
  | inl e ↦ rw e (get-retain _ st.map key h)
  | inr e ↦ rw e
]

-- No entry: the pair is fresh.
abbrev pub is_none : Option ℤ → Bool
is_none none = true
is_none (some expiry) = false

module _ (w : ℤ) (st : State) (key : Bytes × Bytes) (now : ℤ) where
  remember_answer : (remember w st key now).0 ≡ is_none (get st.map key)
  unfolding remember
  remember_answer = ground arith

  pub remember_new :
      get st.map key ≡ none
      → remember w st key now ≡ (true, record st { map = insert st.map key (add_i64 now w) })
  unfolding remember
  remember_new e = rw (e, remember)

  pub remember_old : {x : ℤ} → get st.map key ≡ some x → remember w st key now ≡ (false, st)
  unfolding remember
  remember_old e = rw (e, remember)

  remember_expiry :
      (j : Bytes × Bytes)
      → get (remember w st key now).1.map j
        ≡ (if is_none (get st.map key) && (key == j) then some (add_i64 now w) else get st.map j)
  remember_expiry j = elim (Option-cases (get st.map key)) [
    | inl e ↦ rw (remember_new e, e) (get-insert st.map key j (add_i64 now w))
    | inr (x, e) ↦ rw (remember_old e, e)
  ]

  remember-IsMap : IsMap st.map → IsMap (remember w st key now).1.map
  remember-IsMap h = elim (Option-cases (get st.map key)) [
    | inl e ↦ rw (remember_new e) (insert-IsMap st.map key (add_i64 now w) h)
    | inr (x, e) ↦ rw (remember_old e) h
  ]

  remember_prune_time : (remember w st key now).1.last_prune_unix ≡ st.last_prune_unix
  unfolding remember
  remember_prune_time = ground arith

prune_time :
    (st : State) (now : ℤ)
    → (prune st now).last_prune_unix
      ≡ (if ltb_ℤ st.last_prune_unix now then now else st.last_prune_unix)
unfolding prune
prune_time st now = ground arith

module _ (c : InMemoryReplayCache) (key_id nonce : Bytes) (now : ℤ) where
  pub check_window : (check_and_remember c key_id nonce now).1.window_secs ≡ c.window_secs
  unfolding check_and_remember
  check_window = refl

  -- The time of the last sweep never falls, and is at least the time of the call.
  pub check_prune_time :
      (check_and_remember c key_id nonce now).1.seen.last_prune_unix
      ≡ (if ltb_ℤ c.seen.last_prune_unix now then now else c.seen.last_prune_unix)
  unfolding check_and_remember
  check_prune_time =
      remember_prune_time c.window_secs (prune c.seen now) (key_id, nonce) now
      ∙ prune_time c.seen now

module _ (c : InMemoryReplayCache) (key_id nonce : Bytes) (now : ℤ) (u : HasUniqueKeys c) where
  pub check-HasUniqueKeys : HasUniqueKeys (check_and_remember c key_id nonce now).1
  unfolding check_and_remember
  check-HasUniqueKeys =
      remember-IsMap c.window_secs (prune c.seen now) (key_id, nonce) now (prune-IsMap c.seen now u)

  -- The call answers that the pair is fresh exactly when the sweep leaves no expiry of it.
  pub check_answer :
      (check_and_remember c key_id nonce now).0
      ≡ is_none (swept c now (expiry_of c (key_id, nonce)))
  unfolding check_and_remember
  check_answer =
      remember_answer c.window_secs (prune c.seen now) (key_id, nonce) now
      ∙ ap is_none (get-prune c.seen now (key_id, nonce) u)

  -- Afterwards a fresh pair expires a window from now, and all others are as the sweep left them.
  pub check_expiry :
      (key : Bytes × Bytes)
      → expiry_of (check_and_remember c key_id nonce now).1 key ≡ (
          if is_none (swept c now (expiry_of c (key_id, nonce))) && ((key_id, nonce) == key)
          then some (add_i64 now c.window_secs)
          else swept c now (expiry_of c key))
  unfolding check_and_remember
  check_expiry key =
      remember_expiry c.window_secs (prune c.seen now) (key_id, nonce) now key
      ∙ rw (get-prune c.seen now (key_id, nonce) u, get-prune c.seen now key u)
