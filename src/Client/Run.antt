-- ===== src/Client/Run.antt =====
-- examples/sign_request.rs: the loop of `main` over the three tiers. The times and the IV of each
-- round are arguments, and so are the settings that `main` reads first.
use sesame_sdk.Prelude.{ℕ, ◌+◌, Option, none, some, List, [], ◌∷◌, ◌++◌, if◌then◌else◌}
use sesame_sdk.Prelude.Result.{ok, err}
use sesame_sdk.Text.{Bytes, codes}
use sesame_sdk.Message.{SesameHeaders, Outcome}
use sesame_sdk.External.{Crypto, Clock}
use sesame_sdk.Tier.{from_u8, tier_eq, default_config}
use sesame_sdk.Verify.{VerifiedRequest}
use sesame_sdk.Client.{Settings, build_request, self_check, nonce_of}
use sesame_sdk.Client.Send.{sent_headers, url_of}
use sesame_sdk.Client.Stamp.{Fields, rfc3339, esam_xml}

-- A call of `http_post`.
pub record Sent : Type 0 where
  pub url : Bytes
  pub hdrs : List (Bytes × Bytes)
  pub wire : Bytes

-- How `main` ends: after the loop, by `exit` or by a panic.
pub data End : Type 0 where
  done : End
  exits : (code : ℕ) → End
  panics : End

pub data Step : Type 0 where
  sends : Sent → Step
  stops : End → Step

-- What a round takes from the clock and from the system's random numbers.
pub record Draw (k : Clock) : Type 0 where
  pub stamped_at : k.Time
  pub checked_at : k.Time
  pub iv : Bytes

-- The XML of a tier of one digit.
abbrev pub xml_of : (tier : ℕ) → Bytes
xml_of tier = esam_xml (codes "sesame-example-T" ++ (b'0' + tier) ∷ [])

module _ (c : Crypto) (k : Clock) (fields : k.Time → Fields) (s : Settings) (base : Bytes) where
  -- The vector `hdrs` and the call of `http_post`, with the variable `signature`.
  unfoldable pub post_of :
      (tier : ℕ) (ts : Bytes) → Draw k → SesameHeaders × Bytes → Option Bytes → Step
  post_of tier ts d m none = stops panics
  post_of tier ts d m (some signature) =
      elim (sent_headers s tier ts (nonce_of tier d.iv) signature m.0.scope m.0.iv) [
        | none ↦ stops panics
        | some hdrs ↦ sends (record { url = url_of base s; hdrs = hdrs; wire = m.1 })
      ]

  -- The `match` on the result of the self-check.
  unfoldable pub checked_post :
      (tier : ℕ) (ts : Bytes) → Draw k → SesameHeaders × Bytes → Outcome VerifiedRequest → Step
  unfolding post_of
  checked_post tier ts d m (ok v) =
      if tier_eq v.achieved_tier (from_u8 tier)
      then post_of tier ts d m m.0.signature
      else stops (exits 2)
  checked_post tier ts d m (err e) = stops (exits 2)

  -- One round; the error of `build_request` is a panic.
  unfoldable pub round : (tier : ℕ) → Draw k → Step
  unfolding checked_post
  round tier d =
      let ts = rfc3339 (fields d.stamped_at) in
      elim (build_request c s tier ts d.iv (xml_of tier)) [
        | err e ↦ stops panics
        | ok m ↦ checked_post tier ts d m (self_check c k default_config s m d.checked_at).0
      ]

  -- The calls of `http_post` in turn, whose results `main` only prints, and the end.
  unfoldable pub rounds : List (ℕ × Draw k) → List Sent × End
  unfolding round
  rounds [] = ([], done)
  rounds ((tier, d) ∷ more) =
      let later = rounds more in
      elim (round tier d) [ sends r ↦ (r ∷ later.0, later.1) | stops e ↦ ([], e) ]

  unfoldable pub main_run : (first second third : Draw k) → List Sent × End
  unfolding rounds
  main_run first second third = rounds ((1, first) ∷ (2, second) ∷ (3, third) ∷ [])
