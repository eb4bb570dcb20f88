-- ===== src/Tests/Schedules.antt =====
-- Refusals, schedules of threads and the size of the cache at concrete inputs.
use sesame_sdk.Prelude.{ℕ, ◌≡◌, ◌≢◌, ◌≤◌, refl, ap, List, [], ◌∷◌, arith}
use sesame_sdk.Prelude.Int.{pos, ◌+ℤ◌, sub_i64, abs_i64}
use sesame_sdk.Prelude.Result.{ok, err}
use sesame_sdk.Text.{codes, bytes_eq}
use sesame_sdk.Message.{Outcome, expired_timestamp, require_tier1, is_absent}
use sesame_sdk.Replay.{InMemoryReplayCache, in_memory, len}
use sesame_sdk.Replay
use sesame_sdk.Replay.Window.{Call, serve}
use sesame_sdk.Replay.Size.{calls_after, len-serve-le}
use sesame_sdk.Tier.{two, default_config}
use sesame_sdk.Tier1.{check_freshness}
use sesame_sdk.Verify.{VerifiedRequest, verify_request, authenticate, check_tier1}
use sesame_sdk.Verify.Refusal.{Refused}
use sesame_sdk.Verify.Refuse.{verify_request_err_iff}
use sesame_sdk.Verify.Replays.{Request, handle}
use sesame_sdk.Verify.Threads.{System, start, turn, Reach, here, next}
use sesame_sdk.Verify.Threads.Once.{accepted_once}
use sesame_sdk.Tests.Fixture.{toy, ticks, toy-IsLawful, ticks-IsCalendar}
use sesame_sdk.Tests.Requests.{
  ctx, xml, request, cache, provider, verified, after_first, accepted_at_1990, is_window,
}

-- Two threads with the same request.
abbrev first : Request ticks
first = request 1990 2000

abbrev again : Request ticks
again = request 1990 2100

abbrev answer_again : Outcome VerifiedRequest
answer_again = (handle toy ticks default_config provider in_memory again (after_first 1990)).0

abbrev after_one : System ticks
after_one = record {
  cache = after_first 1990;
  todo = [] ∷ (again ∷ []) ∷ [];
  answered = (first, (handle toy ticks default_config provider in_memory first cache).0) ∷ [];
}

abbrev after_both : System ticks
after_both = record {
  cache = (handle toy ticks default_config provider in_memory again (after_first 1990)).1;
  todo = [] ∷ [] ∷ [];
  answered =
      (first, (handle toy ticks default_config provider in_memory first cache).0)
      ∷ (again, answer_again)
      ∷ [];
}

abbrev both :
    Reach toy ticks default_config provider
      (start cache ((first ∷ []) ∷ (again ∷ []) ∷ []))
      after_both
both =
    next {b = after_one} (next here (turn [] ((again ∷ []) ∷ []) first [] refl refl))
      (turn ([] ∷ []) [] again [] refl refl)

accepted_once_example : answer_again ≢ ok verified
unfolding Replay.new is_absent ◌+ℤ◌
accepted_once_example =
    accepted_once toy-IsLawful ticks-IsCalendar default_config provider cache
      ((first ∷ []) ∷ (again ∷ []) ∷ []) after_both [] [] [] first again verified answer_again both
      tt is_window
      (ap
        (λ (o : Outcome VerifiedRequest × InMemoryReplayCache).
          (first, o.0) ∷ (again, answer_again) ∷ [])
        accepted_at_1990)
      refl refl refl refl tt (omega arith) verified

refused_at_3000 :
    handle toy ticks default_config provider in_memory (request 1990 3000) cache
    ≡ (err expired_timestamp, cache)
unfolding verify_request authenticate check_tier1 require_tier1 is_absent check_freshness sub_i64
    abs_i64 bytes_eq
refused_at_3000 = refl

verify_request_err_iff_example :
    Refused toy ticks default_config provider in_memory ctx
      (request 1990 3000).headers
      xml
      3000
      two
      cache
      expired_timestamp
      cache
verify_request_err_iff_example =
    (verify_request_err_iff toy-IsLawful ticks-IsCalendar default_config provider in_memory ctx
        (request 1990 3000).headers xml 3000 two cache expired_timestamp cache).0
      refused_at_3000

-- Three calls, the last of which comes when the first two have expired.
abbrev call_at : (nonce now : ℕ) → Call
call_at nonce now = record { key_id = codes "k"; nonce = nonce ∷ []; now = pos now }

abbrev calls : List Call
calls = call_at 1 1000 ∷ call_at 2 1100 ∷ call_at 3 1400 ∷ []

len-serve-le_example :
    len (serve (Replay.new (pos 300)) calls)
    ≤ calls_after (serve (Replay.new (pos 300)) calls).seen.last_prune_unix (pos 300) calls
len-serve-le_example = len-serve-le (pos 300) calls is_window (
  omega arith,
  (omega arith, omega arith),
  (omega arith, (omega arith, omega arith), (omega arith, (omega arith, omega arith), tt)),
)
