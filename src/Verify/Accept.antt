-- ===== src/Verify/Accept.antt =====
-- When `verify_request` accepts, and what it leaves in the replay cache.
use sesame_sdk.Prelude.{
  ◌≡◌, ◌⊎◌, ◌↔◌, refl, sym, ap, ◌∙◌, Bool, true, false, none, [], inl, inr, Bool-cases,
}
use sesame_sdk.Prelude.Result.{Result, ok, err}
use sesame_sdk.Text.{Bytes}
use sesame_sdk.Message.{Outcome, SesameHeaders, SesameError, Tier1Fields, is_absent}
use sesame_sdk.External.{Crypto, Clock, IsLawful, IsCalendar}
use sesame_sdk.Keys.{KeyProvider}
use sesame_sdk.Replay.{ReplayCache}
use sesame_sdk.Tier.{Tier, one, two, three, SesameConfig}
use sesame_sdk.Verify.{
  VerifiedRequest, RequestContext, unauthenticated, authenticate, grant, replay_then,
  verify_request,
}
use sesame_sdk.Verify.Spec.{Carries, IsAuthentic, IsGranted}
use sesame_sdk.Verify.Authentic.{authenticate_sound, authenticate_complete}
use sesame_sdk.Verify.Stages.{grant_iff}

-- No Tier 1 header is there, and the policy lets such a request through as it is.
pub record PassesThrough (headers : SesameHeaders) (raw_body : Bytes) (min_tier : Tier)
    (v : VerifiedRequest) : Type 0 where
  pub absent : is_absent headers ≡ true
  pub policy : min_tier ≡ Tier.zero
  pub result : v ≡ record {
    plaintext = raw_body;
    key_id = [];
    scope_channel = none;
    achieved_tier = Tier.zero;
  }

pub Result-cases :
    {A : Type 0} (r : Result SesameError A)
    → ((a : A) × (r ≡ ok a)) ⊎ ((e : SesameError) × (r ≡ err e))
Result-cases (ok a) = inl (a, refl)
Result-cases (err e) = inr (e, refl)

pub Carries-is_absent :
    {headers : SesameHeaders} {t1 : Tier1Fields} → Carries headers t1 → is_absent headers ≡ false
unfolding is_absent
Carries-is_absent {headers} h = rw h.version

module _ (c : Crypto) (k : Clock) {S : Type 0} (cfg : SesameConfig) (provider : KeyProvider)
    (replay : ReplayCache S) (ctx : RequestContext) (headers : SesameHeaders) (raw_body : Bytes)
    (now : k.Time) (min_tier : Tier) (s : S) where
  -- An authentic request that the cache has not seen, and that is granted.
  pub record IsAdmitted (v : VerifiedRequest) (s' : S) : Type 0 where
    pub t1 : Tier1Fields
    pub authentic : IsAuthentic c k cfg provider ctx headers raw_body now t1
    pub unseen : replay.check_and_remember s t1.key_id t1.nonce (k.unix_timestamp now) ≡ (true, s')
    pub granted : IsGranted c provider ctx headers raw_body min_tier t1 v

  abbrev pub run : Outcome VerifiedRequest × S
  run = verify_request c k cfg provider replay ctx headers raw_body now min_tier s

  pub run_absent : is_absent headers ≡ true → run ≡ (unauthenticated raw_body min_tier, s)
  unfolding verify_request
  run_absent e = rw e

  pub run_err :
      (e : SesameError)
      → is_absent headers ≡ false
      → authenticate c k cfg provider ctx headers raw_body now ≡ err e
      → run ≡ (err e, s)
  unfolding verify_request
  run_err e p q = rw (p, q, verify_request)

  pub run_ok :
      (t1 : Tier1Fields)
      → is_absent headers ≡ false
      → authenticate c k cfg provider ctx headers raw_body now ≡ ok t1
      → run
        ≡ replay_then c k
            (replay.check_and_remember s t1.key_id t1.nonce (k.unix_timestamp now))
            (grant c provider ctx headers raw_body min_tier t1)
  unfolding verify_request
  run_ok t1 p q = rw (p, q, verify_request)

replay_then-eq-ok :
    (c : Crypto) (k : Clock) {S : Type 0} (r : Bool × S) (granted : Outcome VerifiedRequest)
    (v : VerifiedRequest) (s' : S)
    → replay_then c k r granted ≡ (ok v, s')
    → (r ≡ (true, s')) × (granted ≡ ok v)
unfolding replay_then
replay_then-eq-ok c k (true, t) granted v s' h = (
  ap (λ (p : Outcome VerifiedRequest × _). (true, p.1)) h,
  ap (λ (p : Outcome VerifiedRequest × _). p.0) h,
)
replay_then-eq-ok c k (false, t) granted v s' h =
    cc (ap (λ (p : Outcome VerifiedRequest × _). p.0) h)

unauthenticated-eq-ok :
    (headers : SesameHeaders) (raw_body : Bytes) (min_tier : Tier) (v : VerifiedRequest)
    → is_absent headers ≡ true
    → unauthenticated raw_body min_tier ≡ ok v
    → PassesThrough headers raw_body min_tier v
unauthenticated-eq-ok headers raw_body Tier.zero v a h = record {
  absent = a;
  policy = refl;
  result = cc;
}
unauthenticated-eq-ok headers raw_body one v a h = cc
unauthenticated-eq-ok headers raw_body two v a h = cc
unauthenticated-eq-ok headers raw_body three v a h = cc

module _ {c : Crypto} {k : Clock} (law : IsLawful c) (cal : IsCalendar k) {S : Type 0}
    (cfg : SesameConfig) (provider : KeyProvider) (replay : ReplayCache S) (ctx : RequestContext)
    (headers : SesameHeaders) (raw_body : Bytes) (now : k.Time) (min_tier : Tier) (s : S)
    (v : VerifiedRequest) (s' : S) where
  abbrev Admitted : Type 0
  Admitted = IsAdmitted c k cfg provider replay ctx headers raw_body now min_tier s v s'

  accept_sound :
      run c k cfg provider replay ctx headers raw_body now min_tier s ≡ (ok v, s')
      → (PassesThrough headers raw_body min_tier v × (s' ≡ s)) ⊎ Admitted
  accept_sound h = elim (Bool-cases (is_absent headers)) [
    | inl a ↦
        let e =
          sym (run_absent c k cfg provider replay ctx headers raw_body now min_tier s a) ∙ h in
        inl (
          unauthenticated-eq-ok headers raw_body min_tier v a
              (ap (λ (p : Outcome VerifiedRequest × S). p.0) e),
          sym (ap (λ (p : Outcome VerifiedRequest × S). p.1) e),
        )
    | inr p ↦ elim (Result-cases (authenticate c k cfg provider ctx headers raw_body now)) [
      | inl (t1, a) ↦
          let (unseen, granted) =
            replay_then-eq-ok c k _ (grant c provider ctx headers raw_body min_tier t1) v s' (
              sym (run_ok c k cfg provider replay ctx headers raw_body now min_tier s t1 p a)
              ∙ h) in
          inr (record {
            t1 = t1;
            authentic = authenticate_sound law cal cfg provider ctx headers raw_body now t1 a;
            unseen = unseen;
            granted = (grant_iff c provider ctx headers raw_body min_tier t1 v).0 granted;
          })
      | inr (e, a) ↦ cc (
          ap (λ (p : Outcome VerifiedRequest × S). p.0)
            (sym (run_err c k cfg provider replay ctx headers raw_body now min_tier s e p a) ∙ h))
    ]
  ]

  accept_complete :
      (PassesThrough headers raw_body min_tier v × (s' ≡ s)) ⊎ Admitted
      → run c k cfg provider replay ctx headers raw_body now min_tier s ≡ (ok v, s')
  unfolding replay_then
  accept_complete (inl (p, e)) =
      run_absent c k cfg provider replay ctx headers raw_body now min_tier s p.absent
      ∙ rw (p.policy, p.result, e)
  accept_complete (inr a) =
      run_ok c k cfg provider replay ctx headers raw_body now min_tier s a.t1
        (Carries-is_absent a.authentic.carries)
        (authenticate_complete law cal cfg provider ctx headers raw_body now a.t1 a.authentic)
      ∙ rw (
        a.unseen,
        (grant_iff c provider ctx headers raw_body min_tier a.t1 v).1 a.granted,
        replay_then,
      )

  -- `verify_request` accepts a request exactly when it carries no Tier 1 header and the minimum
  -- tier is zero, in which case the body passes through and the cache is left alone, or when it is
  -- authentic, the cache reports its key-id and nonce as unseen, and it is granted.
  pub verify_request_iff :
      (verify_request c k cfg provider replay ctx headers raw_body now min_tier s ≡ (ok v, s')) ↔ (
        (PassesThrough headers raw_body min_tier v × (s' ≡ s))
        ⊎ IsAdmitted c k cfg provider replay ctx headers raw_body now min_tier s v s')
  verify_request_iff = (accept_sound, accept_complete)
