-- ===== src/Verify/Refuse.antt =====
-- `verify_request` refuses exactly the requests that the specification refuses, with its error.
pub mod Authentic
pub mod Grant
use sesame_sdk.Prelude.{
  ◌≡◌, ◌≢◌, ◌⊎◌, ◌↔◌, refl, sym, ap, subst, ◌∙◌, true, false, Bool, Option, none, some, inl, inr,
  Bool-cases, if◌then◌else◌,
}
use sesame_sdk.Prelude.Result.{ok, err}
use sesame_sdk.Text.{Bytes}
use sesame_sdk.Message.{
  Outcome, SesameHeaders, SesameError, Tier1Fields, is_absent, missing_headers, replay_detected,
}
use sesame_sdk.External.{Crypto, Clock, IsLawful, IsCalendar}
use sesame_sdk.Keys.{KeyProvider}
use sesame_sdk.Replay.{ReplayCache}
use sesame_sdk.Tier.{Tier, one, two, three, SesameConfig}
use sesame_sdk.Verify.{
  VerifiedRequest, RequestContext, unauthenticated, authenticate, grant, replay_then,
  verify_request,
}
use sesame_sdk.Verify.Spec.{Carries, IsAuthentic}
use sesame_sdk.Verify.Authentic.{authenticate_sound, authenticate_complete}
use sesame_sdk.Verify.Accept.{run, run_absent, run_err, run_ok, Result-cases, Carries-is_absent}
use sesame_sdk.Verify.Refusal.{
  Lacks, Unauthentic, Ungranted, Refused, absent, incomplete, unauthentic, replayed, ungranted,
}
use sesame_sdk.Verify.Refuse.Authentic.{authenticate_err_iff}
use sesame_sdk.Verify.Refuse.Grant.{grant_err_iff}

unauthenticated-eq-err :
    (raw_body : Bytes) (min_tier : Tier) {e : SesameError}
    → unauthenticated raw_body min_tier ≡ err e
    → (min_tier ≢ Tier.zero) × (e ≡ missing_headers)
unauthenticated-eq-err raw_body Tier.zero h = cc
unauthenticated-eq-err raw_body one h = (λ p. cc, cc)
unauthenticated-eq-err raw_body two h = (λ p. cc, cc)
unauthenticated-eq-err raw_body three h = (λ p. cc, cc)

unauthenticated_refuses :
    (raw_body : Bytes) (min_tier : Tier)
    → min_tier ≢ Tier.zero
    → unauthenticated raw_body min_tier ≡ err missing_headers
unauthenticated_refuses raw_body Tier.zero h = absurd (h refl)
unauthenticated_refuses raw_body one h = refl
unauthenticated_refuses raw_body two h = refl
unauthenticated_refuses raw_body three h = refl

module _ {c : Crypto} {k : Clock} (law : IsLawful c) (cal : IsCalendar k) {S : Type 0}
    (cfg : SesameConfig) (provider : KeyProvider) (replay : ReplayCache S) (ctx : RequestContext)
    (headers : SesameHeaders) (raw_body : Bytes) (now : k.Time) (min_tier : Tier) (s : S)
    (e : SesameError) (s' : S) where
  abbrev outcome : Outcome VerifiedRequest × S
  outcome = run c k cfg provider replay ctx headers raw_body now min_tier s

  abbrev IsRefused : Type 0
  IsRefused = Refused c k cfg provider replay ctx headers raw_body now min_tier s e s'

  error_of : {r : Outcome VerifiedRequest × S} → r ≡ (err e, s') → r.0 ≡ err e
  error_of h = ap (λ (p : Outcome VerifiedRequest × S). p.0) h

  state_of : {r : Outcome VerifiedRequest × S} → r ≡ (err e, s') → r.1 ≡ s'
  state_of h = ap (λ (p : Outcome VerifiedRequest × S). p.1) h

  after_cache :
      (t1 : Tier1Fields) (r : Bool × S)
      → IsAuthentic c k cfg provider ctx headers raw_body now t1
      → replay.check_and_remember s t1.key_id t1.nonce (k.unix_timestamp now) ≡ r
      → replay_then c k r (grant c provider ctx headers raw_body min_tier t1) ≡ (err e, s')
      → IsRefused
  unfolding replay_then
  after_cache t1 (true, t) a same h =
      ungranted t1 a (same ∙ ap (λ (x : S). (true, x)) (state_of h))
        ((grant_err_iff c provider ctx headers raw_body min_tier t1 e).0 (error_of h))
  after_cache t1 (false, t) a same h =
      replayed t1 a (same ∙ ap (λ (x : S). (false, x)) (state_of h)) (let f = error_of h in cc)

  refused : outcome ≡ (err e, s') → IsRefused
  refused h = elim (Bool-cases (is_absent headers)) [
    | inl a ↦
        let r =
          sym (run_absent c k cfg provider replay ctx headers raw_body now min_tier s a) ∙ h in
        let (low, same) = unauthenticated-eq-err raw_body min_tier (error_of r) in
        absent a low same (sym (state_of r))
    | inr p ↦ elim (Result-cases (authenticate c k cfg provider ctx headers raw_body now)) [
      | inl (t1, a) ↦
          after_cache t1 _ (authenticate_sound law cal cfg provider ctx headers raw_body now t1 a)
            refl
            (sym (run_ok c k cfg provider replay ctx headers raw_body now min_tier s t1 p a) ∙ h)
      | inr (f, a) ↦
          let r =
            sym (run_err c k cfg provider replay ctx headers raw_body now min_tier s f p a) ∙ h in
          let x = error_of r in
          let f_same : f ≡ e = cc in
          let same : authenticate c k cfg provider ctx headers raw_body now ≡ err e =
            a ∙ ap err f_same in
          elim ((authenticate_err_iff law cal cfg provider ctx headers raw_body now e).0 same) [
            | inl (l, q) ↦ incomplete p l q (sym (state_of r))
            | inr (t1, carried, u) ↦ unauthentic t1 carried u (sym (state_of r))
          ]
    ]
  ]

  refuses : IsRefused → outcome ≡ (err e, s')
  unfolding replay_then
  refuses (absent a low q r) =
      run_absent c k cfg provider replay ctx headers raw_body now min_tier s a
      ∙ rw (unauthenticated_refuses raw_body min_tier low, q, r)
  refuses (incomplete p l q r) =
      run_err c k cfg provider replay ctx headers raw_body now min_tier s e p
        ((authenticate_err_iff law cal cfg provider ctx headers raw_body now e).1 (inl (l, q)))
      ∙ rw r
  refuses (unauthentic t1 carried u r) =
      run_err c k cfg provider replay ctx headers raw_body now min_tier s e
        (Carries-is_absent carried)
        ((authenticate_err_iff law cal cfg provider ctx headers raw_body now e).1
          (inr (t1, carried, u)))
      ∙ rw r
  refuses (replayed t1 a seen q) =
      run_ok c k cfg provider replay ctx headers raw_body now min_tier s t1
        (Carries-is_absent a.carries)
        (authenticate_complete law cal cfg provider ctx headers raw_body now t1 a)
      ∙ rw (seen, replay_then, q)
  refuses (ungranted t1 a seen u) =
      run_ok c k cfg provider replay ctx headers raw_body now min_tier s t1
        (Carries-is_absent a.carries)
        (authenticate_complete law cal cfg provider ctx headers raw_body now t1 a)
      ∙ rw (seen, replay_then, (grant_err_iff c provider ctx headers raw_body min_tier t1 e).1 u)

  -- `verify_request` refuses a request with an error, and leaves a state of the cache, exactly when
  -- the request carries no Tier 1 header under a minimum tier above zero, or lacks one of the five,
  -- or is the first to fail a test of Tier 1 in their order, in which cases the cache is left alone,
  -- or is authentic and reported as seen, or is authentic, reported as unseen, and denied its scope
  -- or not decrypted.
  pub verify_request_err_iff :
      (verify_request c k cfg provider replay ctx headers raw_body now min_tier s ≡ (err e, s'))
      ↔ Refused c k cfg provider replay ctx headers raw_body now min_tier s e s'
  verify_request_err_iff = (refused, refuses)
