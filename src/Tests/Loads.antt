-- ===== src/Tests/Loads.antt =====
-- The load test and the client's delivery at concrete inputs.
use mathlib.Core.List.{flatten}
use sesame_sdk.Prelude.{
  ℕ, ◌+◌, ◌≡◌, ◌≢◌, ◌⊎◌, ◌↔◌, refl, false, none, some, List, [], ◌∷◌, All, length, arith,
  if◌then◌else◌, ◌==◌, ==_refl,
}
use sesame_sdk.Prelude.Int.{pos}
use sesame_sdk.Prelude.Result.{err}
use sesame_sdk.Prelude.AssocMap.{get}
use sesame_sdk.Text.{bytes_Eq}
use sesame_sdk.Message.{signature_mismatch}
use sesame_sdk.External.{Clock, IsCalendar}
use sesame_sdk.Replay.{InMemoryReplayCache, in_memory}
use sesame_sdk.Replay
use sesame_sdk.Tier.{default_config}
use sesame_sdk.Verify.Replays.{Request, handle}
use sesame_sdk.Verify.Threads.{System, start, Turn, turn, Reach, here, next}
use sesame_sdk.Verify.Threads.Distinct.{IsAccepted, All-IsAccepted}
use sesame_sdk.Load.{
  load_ts, load_provider, load_cache, load_request, load_headers, body_of, load_signature,
  load_nonce, corrupt, thread_sets, make_requests,
}
use sesame_sdk.Load.Accepted.{nth_request, same_nonce, nth-IsValid, thread_sets-IsAccepted}
use sesame_sdk.Load.Nonces.{load_nonce_injective}
use sesame_sdk.Load.Corrupted.{corrupted_iff}
use sesame_sdk.Tests.Fixture.{toy, toy-IsLawful}

-- A clock that knows one text.
abbrev one_time : Clock
one_time = record {
  Time = Unit;
  unix_timestamp = λ t. pos 1771956000;
  parse_rfc3339 = λ s. if s == load_ts then some tt else none;
  format_rfc3339 = λ t. some load_ts;
}

one_time-IsCalendar : IsCalendar one_time
one_time-IsCalendar = record {
  dates = λ t. (omega arith, omega arith);
  parse-format = λ t s h. let e : load_ts ≡ s = cc in (tt, rw (← e, ==_refl load_ts), refl);
}

parsed : one_time.parse_rfc3339 load_ts ≡ some tt
parsed = rw (==_refl load_ts)

abbrev nth : (thread : ℕ) → Request one_time
nth thread = nth_request toy one_time tt 4 thread 0

abbrev queues : List (List (Request one_time))
queues = (nth 0 ∷ []) ∷ (nth 1 ∷ []) ∷ []

-- The second thread is first.
abbrev second_first : System one_time
second_first = record {
  cache = (handle toy one_time default_config load_provider in_memory (nth 1) load_cache).1;
  todo = (nth 0 ∷ []) ∷ [] ∷ [];
  answered =
      (nth 1, (handle toy one_time default_config load_provider in_memory (nth 1) load_cache).0)
      ∷ [];
}

abbrev to_second :
    Reach toy one_time default_config load_provider (start load_cache queues) second_first
to_second = next here (turn ((nth 0 ∷ []) ∷ []) [] (nth 1) [] refl refl)

nth_apart : (load_nonce 1 0) ≢ (load_nonce 0 0)
nth_apart e =
    let same =
      load_nonce_injective 1 0 0 0 (omega arith) (omega arith) (omega arith) (omega arith) e in
    omega (arith, same.0)

All-IsAccepted_example :
    All (IsAccepted toy one_time default_config load_provider) second_first.answered
    × (length second_first.answered + length (flatten second_first.todo) ≡ length (flatten queues))
    × ((flatten second_first.todo ≡ [])
        ⊎ ((d : System one_time) × Turn toy one_time default_config load_provider second_first d))
unfolding flatten load_headers Replay.new get
All-IsAccepted_example =
    All-IsAccepted toy-IsLawful one_time-IsCalendar default_config load_provider load_cache queues
      second_first to_second tt
      (nth-IsValid toy-IsLawful tt 4 parsed 0 0, (nth-IsValid toy-IsLawful tt 4 parsed 1 0, tt))
      ((λ e. nth_apart (same_nonce toy one_time tt 4 1 0 0 0 e), tt), (tt, tt))
      (λ t1 carried. refl, (λ t1 carried. refl, tt))

thread_sets-IsAccepted_example :
    All (IsAccepted toy one_time default_config load_provider) second_first.answered
    × (length second_first.answered + length (flatten second_first.todo)
        ≡ length (flatten (thread_sets toy one_time tt 2 1 4)))
    × ((flatten second_first.todo ≡ [])
        ⊎ ((d : System one_time) × Turn toy one_time default_config load_provider second_first d))
unfolding thread_sets make_requests
thread_sets-IsAccepted_example =
    thread_sets-IsAccepted toy-IsLawful tt 4 parsed one_time-IsCalendar 2 1 second_first
      (omega arith) (omega arith) to_second

corrupted_iff_example :
    (handle toy one_time default_config load_provider in_memory
        (load_request toy one_time tt (load_headers toy 7 (body_of 4) false 3, body_of 4))
        load_cache
      ≡ (err signature_mismatch, load_cache))
    ↔ (corrupt (load_signature toy (body_of 4) (load_nonce 7 3))
        ≢ load_signature toy (body_of 4) (load_nonce 7 3))
corrupted_iff_example = corrupted_iff toy-IsLawful one_time-IsCalendar tt 4 parsed load_cache 7 3
