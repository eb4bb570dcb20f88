-- ===== src/Replay/Size.antt =====
-- How large the cache grows: no larger than the number of calls in the window before the last sweep.
use sesame_sdk.Prelude.{
  ℕ, ◌+◌, ◌≤◌, ◌≡◌, ap, Bool, none, List, [], ◌∷◌, All, arith, if◌then◌else◌, Bool-cases,
  Option-cases, inl, inr, ◌==◌, length,
}
use sesame_sdk.Prelude.Int.{ℤ, ◌≤ℤ◌, ◌<ℤ◌, ◌+ℤ◌, ltb_ℤ, +ℤ_parts, min_i64}
use sesame_sdk.Prelude.AssocMap.{AssocMap, get, insert, retain}
use sesame_sdk.Text.{Bytes, pair_Eq}
use sesame_sdk.External.{IsDate}
use sesame_sdk.Replay.Defs.{
  InMemoryReplayCache, State, new, len, prune, remember, check_and_remember,
}
use sesame_sdk.Replay.Step.{
  IsWindow, add_i64_of_date, check_window, check_prune_time, remember_new, remember_old,
}
use sesame_sdk.Replay.Window.{Call, pair_of, after, serve}
use sesame_sdk.Replay.Refines.{IsMonotone}

abbrev one_if : Bool → ℕ
one_if b = if b then 1 else 0

-- The calls whose window ends after `t`.
abbrev pub calls_after : (t w : ℤ) → List Call → ℕ
calls_after t w [] = 0
calls_after t w (call ∷ calls) = one_if (ltb_ℤ t (call.now +ℤ w)) + calls_after t w calls

-- The entries that expire after `t`.
abbrev entries_after : ℤ → AssocMap (Bytes × Bytes) ℤ → ℕ
entries_after t [] = 0
entries_after t ((key, e) ∷ m) = one_if (ltb_ℤ t e) + entries_after t m

abbrev Live : ℤ → AssocMap (Bytes × Bytes) ℤ → Type 0
Live t = All (λ entry. t <ℤ entry.1)

entries_after-insert :
    (t : ℤ) (m : AssocMap (Bytes × Bytes) ℤ) (key : Bytes × Bytes) (e : ℤ)
    → get m key ≡ none
    → entries_after t (insert m key e) ≡ entries_after t m + one_if (ltb_ℤ t e)
unfolding get insert
entries_after-insert t [] key e h = ground arith
entries_after-insert t ((j, f) ∷ m) key e h = elim (Bool-cases (j == key)) [
  | inl same ↦ cc (rw (same, get) at h)
  | inr other ↦ rw other (omega (arith, entries_after-insert t m key e (rw (other, get) at h)))
]

entries_after-retain :
    (t now : ℤ) (m : AssocMap (Bytes × Bytes) ℤ)
    → entries_after t (retain (λ e. ltb_ℤ now e) m) ≤ entries_after t m
unfolding retain
entries_after-retain t now [] = omega arith
entries_after-retain t now ((j, f) ∷ m) = ground (arith, entries_after-retain t now m)

Live-retain : (now : ℤ) (m : AssocMap (Bytes × Bytes) ℤ) → Live now (retain (λ e. ltb_ℤ now e) m)
unfolding retain
Live-retain now [] = tt
Live-retain now ((j, f) ∷ m) = elim (Bool-cases (ltb_ℤ now f)) [
  | inl l ↦ rw l (ground arith, Live-retain now m)
  | inr l ↦ rw l (Live-retain now m)
]

Live-insert :
    (t : ℤ) (m : AssocMap (Bytes × Bytes) ℤ) (key : Bytes × Bytes) (e : ℤ)
    → t <ℤ e
    → Live t m
    → Live t (insert m key e)
unfolding insert
Live-insert t [] key e l h = (l, tt)
Live-insert t ((j, f) ∷ m) key e l (p, h) = elim (Bool-cases (j == key)) [
  | inl same ↦ rw same (l, h)
  | inr other ↦ rw other (p, Live-insert t m key e l h)
]

length_of_Live : (t : ℤ) (m : AssocMap (Bytes × Bytes) ℤ) → Live t m → length m ≤ entries_after t m
length_of_Live t [] h = omega arith
length_of_Live t ((j, f) ∷ m) (p, h) = ground (arith, length_of_Live t m h)

entries_after-prune :
    (t : ℤ) (st : State) (now : ℤ) → entries_after t (prune st now).map ≤ entries_after t st.map
unfolding prune
entries_after-prune t st now = elim (Bool-cases (ltb_ℤ st.last_prune_unix now)) [
  | inl e ↦ rw e (entries_after-retain t now st.map)
  | inr e ↦ rw e (omega arith)
]

-- The sweep of a call leaves the live entries, and its time is no later than the call's.
Live-prune :
    (st : State) (now : ℤ)
    → Live st.last_prune_unix st.map
    → st.last_prune_unix ≤ℤ now
    → Live (prune st now).last_prune_unix (prune st now).map
      × ((prune st now).last_prune_unix ≤ℤ now)
unfolding prune
Live-prune st now h l = elim (Bool-cases (ltb_ℤ st.last_prune_unix now)) [
  | inl e ↦ rw e (Live-retain now st.map, omega arith)
  | inr e ↦ rw e (h, l)
]

module _ (w : ℤ) (win : IsWindow w) (st : State) (key : Bytes × Bytes) (now : ℤ)
    (d : IsDate now) where
  entries_after-remember :
      (t : ℤ)
      → entries_after t (remember w st key now).1.map
        ≤ entries_after t st.map + one_if (ltb_ℤ t (now +ℤ w))
  entries_after-remember t = elim (Option-cases (get st.map key)) [
    | inl e ↦
        rw (remember_new w st key now e, add_i64_of_date now w d win)
          (omega (arith, entries_after-insert t st.map key (now +ℤ w) e))
    | inr (x, e) ↦ rw (remember_old w st key now e) (omega arith)
  ]

  Live-remember :
      Live st.last_prune_unix st.map
      → st.last_prune_unix ≤ℤ now
      → Live (remember w st key now).1.last_prune_unix (remember w st key now).1.map
  Live-remember h l = elim (Option-cases (get st.map key)) [
    | inl e ↦
        rw (remember_new w st key now e, add_i64_of_date now w d win)
          (Live-insert st.last_prune_unix st.map key (now +ℤ w) (omega (arith, +ℤ_parts now w)) h)
    | inr (x, e) ↦ rw (remember_old w st key now e) h
  ]

-- The entries are live, and no more of them outlast a time than `n` says.
record Sized (c : InMemoryReplayCache) (n : ℤ → ℕ) : Type 0 where
  live : Live c.seen.last_prune_unix c.seen.map
  few : (t : ℤ) → entries_after t c.seen.map ≤ n t

after-Sized :
    (c : InMemoryReplayCache) (n : ℤ → ℕ) (call : Call)
    → IsWindow c.window_secs
    → IsDate call.now
    → c.seen.last_prune_unix ≤ℤ call.now
    → Sized c n
    → Sized (after c call) (λ t. n t + one_if (ltb_ℤ t (call.now +ℤ c.window_secs)))
unfolding check_and_remember
after-Sized c n call win d l s =
    let st = prune c.seen call.now in
    let (live, swept) = Live-prune c.seen call.now s.live l in
    record {
      live = Live-remember c.window_secs win st (pair_of call) call.now d live swept;
      few = λ t. omega (
        arith,
        entries_after-remember c.window_secs win st (pair_of call) call.now d t,
        entries_after-prune t c.seen call.now,
        s.few t,
      );
    }

IsMonotone-from : (t u : ℤ) (calls : List Call) → t ≤ℤ u → IsMonotone u calls → IsMonotone t calls
IsMonotone-from t u [] l m = tt
IsMonotone-from t u (call ∷ calls) l (p, d, m) = (omega arith, d, m)

no_later : (last now : ℤ) → last ≤ℤ now → (if ltb_ℤ last now then now else last) ≤ℤ now
no_later last now h = ground arith

serve-Sized :
    (c : InMemoryReplayCache) (n : ℤ → ℕ) (calls : List Call)
    → IsWindow c.window_secs
    → IsMonotone c.seen.last_prune_unix calls
    → Sized c n
    → Sized (serve c calls) (λ t. n t + calls_after t c.window_secs calls)
unfolding serve
serve-Sized c n [] win m s = record { live = s.live; few = λ t. omega (arith, s.few t) }
serve-Sized c n (call ∷ calls) win (l, d, m) s =
    let w = check_window c call.key_id call.nonce call.now in
    let time = check_prune_time c call.key_id call.nonce call.now in
    let r =
      serve-Sized (after c call) (λ t. n t + one_if (ltb_ℤ t (call.now +ℤ c.window_secs))) calls
        (rw w win)
        (IsMonotone-from _ call.now calls (rw time (no_later c.seen.last_prune_unix call.now l)) m)
        (after-Sized c n call win d l s) in
    record {
      live = r.live;
      few = λ t. omega (arith, r.few t, ap (λ (x : ℤ). calls_after t x calls) w);
    }

-- After calls whose times are dates and do not go back, a new cache holds at most as many entries as
-- there were calls less than a window before the last sweep.
pub len-serve-le :
    (w : ℤ) (calls : List Call)
    → IsWindow w
    → IsMonotone min_i64 calls
    → (let c = serve (new w) calls in len c ≤ calls_after c.seen.last_prune_unix w calls)
unfolding len new
len-serve-le w calls win m =
    let s =
      serve-Sized (new w) (λ t. 0) calls win m (record { live = tt; few = λ t. omega arith }) in
    let c = serve (new w) calls in
    omega
      (arith, length_of_Live c.seen.last_prune_unix c.seen.map s.live, s.few c.seen.last_prune_unix)
