-- ===== src/Replay/Defs.antt =====
-- The trait `ReplayCache` and its in-memory implementation of src/replay.rs.
use sesame_sdk.Prelude.{ℕ, Bool, true, false, none, some, [], if◌then◌else◌, length, eqb}
use sesame_sdk.Prelude.Int.{ℤ, ltb_ℤ, add_i64, min_i64}
use sesame_sdk.Prelude.AssocMap.{AssocMap, get, insert, retain}
use sesame_sdk.Text.{Bytes, pair_Eq}

-- The trait, over the state behind its `&self`.
pub record ReplayCache (S : Type 0) : Type 0 where
  pub check_and_remember : S → (key_id nonce : Bytes) (now_unix : ℤ) → Bool × S

pub record State : Type 0 where
  -- (key_id, nonce) to the second of expiry
  pub map : AssocMap (Bytes × Bytes) ℤ
  pub last_prune_unix : ℤ

pub record InMemoryReplayCache : Type 0 where
  pub window_secs : ℤ
  pub seen : State

unfoldable pub new : (window_secs : ℤ) → InMemoryReplayCache
new window_secs = record {
  window_secs = window_secs;
  seen = record { map = []; last_prune_unix = min_i64 };
}

unfoldable pub len : InMemoryReplayCache → ℕ
len c = length c.seen.map

unfoldable pub is_empty : InMemoryReplayCache → Bool
unfolding len
is_empty c = eqb (len c) 0

-- The sweep, at most once a second.
unfoldable pub prune : State → (now_unix : ℤ) → State
prune st now_unix =
    if ltb_ℤ st.last_prune_unix now_unix
    then record {
      map = retain (λ expiry. ltb_ℤ now_unix expiry) st.map;
      last_prune_unix = now_unix;
    }
    else st

-- `contains_key`, `insert` and the two returns.
unfoldable pub remember : (window_secs : ℤ) → State → Bytes × Bytes → (now_unix : ℤ) → Bool × State
remember window_secs st key now_unix = elim (get st.map key) [
  | some _ ↦ (false, st)
  | none ↦ (true, record st { map = insert st.map key (add_i64 now_unix window_secs) })
]

unfoldable pub check_and_remember :
    InMemoryReplayCache → (key_id nonce : Bytes) (now_unix : ℤ) → Bool × InMemoryReplayCache
unfolding prune remember
check_and_remember c key_id nonce now_unix =
    let (fresh, st) = remember c.window_secs (prune c.seen now_unix) (key_id, nonce) now_unix in
    (fresh, record c { seen = st })

-- `impl ReplayCache for InMemoryReplayCache`
unfoldable pub in_memory : ReplayCache InMemoryReplayCache
unfolding check_and_remember
in_memory = record { check_and_remember = check_and_remember }
