-- ===== src/Load/Accepted.antt =====
-- The second phase of the load test: threads with requests of their own on one cache.
use mathlib.Core.List.{flatten}
use sesame_sdk.Prelude.{
  ℕ, suc, ◌+◌, ◌^◌, ◌≡◌, ◌≢◌, ◌≤◌, ◌<◌, ◌⊎◌, refl, ap, true, Option, none, some, List, [], ◌∷◌,
  ◌++◌, map, All, All-append, Distinct, length, arith, inl,
}
use sesame_sdk.Prelude.Int.{ℤ, pos, +ℤ_parts}
use sesame_sdk.Prelude.AssocMap.{get, insert}
use sesame_sdk.Text.{Bytes, bytes_eq}
use sesame_sdk.Message.{protocol_version}
use sesame_sdk.External.{Crypto, Clock, IsLawful, IsCalendar}
use sesame_sdk.Keys.{with_signing_key, static_provider}
use sesame_sdk.Replay.{InMemoryReplayCache}
use sesame_sdk.Replay
use sesame_sdk.Tier.{one, default_config}
use sesame_sdk.Tier1.Freshness.{Within}
use sesame_sdk.Tier1.Laws.{sign-to_lower}
use sesame_sdk.Verify.Replays.{Request}
use sesame_sdk.Verify.Threads.{System, start, Turn, Reach}
use sesame_sdk.Verify.Threads.Distinct.{name_of, IsValid, IsAccepted, Unseen, All-IsAccepted}
use sesame_sdk.Load.{
  load_key_id, load_secret, load_ts, load_directory, load_provider, body_of, load_nonce, range,
  load_signature, load_headers, make_requests, load_request, thread_sets, load_cache,
}
use sesame_sdk.Load.Nonces.{load_nonce_injective}

Distinct-append :
    {A B : Type 0} (name : A → B) (xs ys : List A)
    → Distinct name xs
    → Distinct name ys
    → All (λ x. All (λ y. name y ≢ name x) ys) xs
    → Distinct name (xs ++ ys)
Distinct-append name [] ys h k d = k
Distinct-append name (x ∷ xs) ys (p, h) k (q, d) =
    (All-append _ xs ys p q, Distinct-append name xs ys h k d)

module _ (c : Crypto) (k : Clock) (now : k.Time) (body_len : ℕ) where
  -- The request of a thread with a number.
  abbrev pub nth_request : (thread i : ℕ) → Request k
  nth_request thread i =
      load_request c k now (load_headers c thread (body_of body_len) true i, body_of body_len)

  abbrev row : (thread from n : ℕ) → List (Request k)
  row thread from n = map (load_request c k now) (
      map (λ i. (load_headers c thread (body_of body_len) true i, body_of body_len)) (range from n))

  abbrev rows : (from threads per : ℕ) → List (List (Request k))
  rows from threads per = map (λ t. row t 0 per) (range from threads)

  row_lem :
      (P : Request k → Type 0) (t from n : ℕ)
      → ((i : ℕ) → from ≤ i → i < from + n → P (nth_request t i))
      → All P (row t from n)
  row_lem P t from ℕ.zero h = tt
  row_lem P t from (suc n) h = (
    h from (omega arith) (omega arith),
    row_lem P t (suc from) n (λ i l u. h i (omega arith) (omega arith)),
  )

  rows_lem :
      (P : Request k → Type 0) (from threads per : ℕ)
      → ((t i : ℕ) → from ≤ t → t < from + threads → i < per → P (nth_request t i))
      → All P (flatten (rows from threads per))
  unfolding flatten
  rows_lem P from ℕ.zero per h = tt
  rows_lem P from (suc threads) per h =
      All-append P (row from 0 per) (flatten (rows (suc from) threads per))
        (row_lem P from 0 per (λ i l u. h from i (omega arith) (omega arith) (omega arith)))
        (rows_lem P (suc from) threads per (λ t i l u m. h t i (omega arith) (omega arith) m))

  pub same_nonce :
      (t i u j : ℕ)
      → name_of (nth_request t i) ≡ name_of (nth_request u j)
      → load_nonce t i ≡ load_nonce u j
  unfolding load_headers
  same_nonce t i u j e = let f = ap (λ (p : Option Bytes × Option Bytes). p.1) e in cc

  row-Distinct : (t from n : ℕ) → t < 2 ^ 64 → from + n ≤ 2 ^ 64 → Distinct name_of (row t from n)
  row-Distinct t from ℕ.zero ht h = tt
  row-Distinct t from (suc n) ht h = (
    row_lem (λ q. name_of q ≢ name_of (nth_request t from)) t (suc from) n
        (λ i l u e.
          let same =
            load_nonce_injective t i t from ht (omega arith) ht (omega arith)
              (same_nonce t i t from e) in
          omega (arith, same.1)),
    row-Distinct t (suc from) n ht (omega arith),
  )

  rows-Distinct :
      (from threads per : ℕ)
      → from + threads ≤ 2 ^ 64
      → per ≤ 2 ^ 64
      → Distinct name_of (flatten (rows from threads per))
  unfolding flatten
  rows-Distinct from ℕ.zero per h m = tt
  rows-Distinct from (suc threads) per h m =
      Distinct-append name_of (row from 0 per) (flatten (rows (suc from) threads per))
        (row-Distinct from 0 per (omega arith) (omega arith))
        (rows-Distinct (suc from) threads per (omega arith) m)
        (row_lem (λ x. All (λ y. name_of y ≢ name_of x) (flatten (rows (suc from) threads per)))
          from 0 per
          (λ i l u.
            rows_lem (λ y. name_of y ≢ name_of (nth_request from i)) (suc from) threads per
              (λ t j low high below e.
                let same =
                  load_nonce_injective t j from i (omega arith) (omega arith) (omega arith)
                    (omega arith) (same_nonce t j from i e) in
                omega (arith, same.0))))

  thread_sets-rows :
      (threads per : ℕ) → thread_sets c k now threads per body_len ≡ rows 0 threads per
  unfolding thread_sets make_requests
  thread_sets-rows threads per = refl

pub Within-self : (x : ℤ) → Within default_config.replay_window_secs x x
Within-self x = (omega (arith, +ℤ_parts x (pos 300)), omega (arith, +ℤ_parts x (pos 300)))

module _ {c : Crypto} {k : Clock} (law : IsLawful c) (now : k.Time) (body_len : ℕ)
    (parsed : k.parse_rfc3339 load_ts ≡ some now) where
  pub nth-IsValid :
      (t i : ℕ) → IsValid c k default_config load_provider (nth_request c k now body_len t i)
  unfolding load_headers load_directory static_provider with_signing_key insert get bytes_eq
  nth-IsValid t i =
      let nonce = load_nonce t i in
      let signature = load_signature c (body_of body_len) nonce in
      record {
        t1 = record {
          version = protocol_version;
          key_id = load_key_id;
          timestamp = load_ts;
          nonce = nonce;
          signature = signature;
        };
        v = record {
          plaintext = body_of body_len;
          key_id = load_key_id;
          scope_channel = none;
          achieved_tier = one;
        };
        authentic = record {
          carries = record {
            version = refl;
            key_id = refl;
            timestamp = refl;
            nonce = refl;
            signature = refl;
          };
          speaks = refl;
          time = now;
          parsed = parsed;
          fresh = Within-self (k.unix_timestamp now);
          not_revoked = refl;
          key = load_secret;
          listed = inl refl;
          signed = sign-to_lower law load_secret _;
        };
        granted = record {
          scope_granted = tt;
          plaintext_of = refl;
          key_id = refl;
          achieved = refl;
          has_scope = omega arith;
          enough = omega arith;
        };
      }

  -- `phase_concurrency`, with less than 2 ^ 64 threads and requests, at the time that its timestamp
  -- says: in any schedule every answer so far is the acceptance of a valid request, no request is
  -- lost, and a thread can go on unless all are answered.
  pub thread_sets-IsAccepted :
      (cal : IsCalendar k) (threads per : ℕ) (b : System k)
      → threads ≤ 2 ^ 64
      → per ≤ 2 ^ 64
      → Reach c k default_config load_provider
          (start load_cache (thread_sets c k now threads per body_len))
          b
      → All (IsAccepted c k default_config load_provider) b.answered
        × (length b.answered + length (flatten b.todo)
            ≡ length (flatten (thread_sets c k now threads per body_len)))
        × ((flatten b.todo ≡ []) ⊎ ((d : System k) × Turn c k default_config load_provider b d))
  unfolding Replay.new get
  thread_sets-IsAccepted cal threads per b h m reach =
      let sets = thread_sets-rows c k now body_len threads per in
      All-IsAccepted law cal default_config load_provider load_cache _ b reach tt
        (rw sets (
          rows_lem c k now body_len (IsValid c k default_config load_provider) 0 threads per
            (λ t i low high below. nth-IsValid t i)))
        (rw sets (rows-Distinct c k now body_len 0 threads per (omega arith) m))
        (rw sets (
          rows_lem c k now body_len (Unseen load_cache) 0 threads per
            (λ t i low high below t1 carried. refl)))
