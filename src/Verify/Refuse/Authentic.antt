-- ===== src/Verify/Refuse/Authentic.antt =====
-- Where Tier 1 stops.
use sesame_sdk.Prelude.{
  ◌≡◌, ◌⊎◌, ◌↔◌, refl, sym, ap, subst, ◌∙◌, true, false, not, Bool, List, [], ◌∷◌, arith, inl, inr,
  ◌==◌,
}
use sesame_sdk.Prelude.Int.{ℤ}
use sesame_sdk.Prelude.Result.{ok, err, guard-eq-err, refused_iff, >>=-eq-err}
use sesame_sdk.Text.{Bytes, bytes_Eq, bytes_eq_iff}
use sesame_sdk.Message.{
  SesameHeaders, SesameError, Tier1Fields, require_tier1, protocol_version, missing_headers,
  invalid_version, unknown_key, expired_timestamp, signature_mismatch, key_revoked,
}
use sesame_sdk.External.{Crypto, Clock, IsLawful, IsCalendar}
use sesame_sdk.Keys.{KeyProvider}
use sesame_sdk.Tier.{SesameConfig}
use sesame_sdk.Tier1.{verify_any, check_freshness}
use sesame_sdk.Tier1.Laws.{verify_any_iff}
use sesame_sdk.Tier1.Freshness.{check_freshness_iff}
use sesame_sdk.Verify.{RequestContext, is_empty, authenticate, check_tier1}
use sesame_sdk.Verify.Spec.{Carries, signing_string}
use sesame_sdk.Verify.Authentic.{require_tier1_iff}
use sesame_sdk.Verify.Refusal.{
  Lacks, IsFresh, IsSigned, Unauthentic, other_version, stale, revoked, unknown, forged,
}

pub require_tier1_err_iff :
    (headers : SesameHeaders) {e : SesameError}
    → (require_tier1 headers ≡ err e) ↔ (Lacks headers × (e ≡ missing_headers))
unfolding require_tier1
require_tier1_err_iff headers = ground arith

not-false : (b : Bool) → not b ≡ false → b ≡ true
not-false b h = ground arith

not-true : (b : Bool) → not b ≡ true → b ≡ false
not-true b h = ground arith

is_empty_iff : (keys : List Bytes) → (is_empty keys ≡ true) ↔ (keys ≡ [])
is_empty_iff [] = (λ _. refl, λ _. refl)
is_empty_iff (x ∷ xs) = (λ h. cc, λ h. cc)

check_freshness-eq-err :
    (k : Clock) (text : Bytes) (now : k.Time) (window : ℤ) (e : SesameError)
    → check_freshness k text now window ≡ err e
    → e ≡ expired_timestamp
unfolding check_freshness
check_freshness-eq-err k text now window e h = ground arith

verify_any-eq-err :
    (c : Crypto) (keys : List Bytes) (canonical provided : Bytes) (e : SesameError)
    → verify_any c keys canonical provided ≡ err e
    → e ≡ signature_mismatch
unfolding verify_any
verify_any-eq-err c keys canonical provided e h = ground arith

module _ {c : Crypto} {k : Clock} (law : IsLawful c) (cal : IsCalendar k) where
  IsFresh-err_iff :
      (cfg : SesameConfig) (now : k.Time) (t1 : Tier1Fields)
      → (check_freshness k t1.timestamp now cfg.replay_window_secs ≡ err expired_timestamp)
        ↔ (Unit {0} → ¬ IsFresh k cfg now t1)
  IsFresh-err_iff cfg now t1 =
      refused_iff (check_freshness k t1.timestamp now cfg.replay_window_secs) expired_timestamp
        (check_freshness-eq-err k t1.timestamp now cfg.replay_window_secs)
        (λ _. check_freshness_iff cal t1.timestamp now cfg.replay_window_secs)

  IsSigned-err_iff :
      (provider : KeyProvider) (ctx : RequestContext) (headers : SesameHeaders) (raw_body : Bytes)
      (t1 : Tier1Fields)
      → (verify_any c
            (provider.signing_keys t1.key_id)
            (signing_string c ctx headers raw_body t1)
            t1.signature
          ≡ err signature_mismatch)
        ↔ (Unit {0} → ¬ IsSigned c provider ctx headers raw_body t1)
  IsSigned-err_iff provider ctx headers raw_body t1 =
      refused_iff
        (verify_any c (provider.signing_keys t1.key_id) (signing_string c ctx headers raw_body t1)
          t1.signature)
        signature_mismatch (verify_any-eq-err c _ _ _) (λ _. verify_any_iff law _ _ _)

  module _ (cfg : SesameConfig) (provider : KeyProvider) (ctx : RequestContext)
      (headers : SesameHeaders) (raw_body : Bytes) (now : k.Time) (t1 : Tier1Fields) where
    abbrev Stops : SesameError → Type 0
    Stops = Unauthentic c k cfg provider ctx headers raw_body now t1

    speaks : (t1.version == protocol_version) ≡ true → t1.version ≡ protocol_version
    speaks = (bytes_eq_iff _ _).0

    fresh :
        (u : Unit {0})
        → check_freshness k t1.timestamp now cfg.replay_window_secs ≡ ok u
        → IsFresh k cfg now t1
    fresh u = (check_freshness_iff cal t1.timestamp now cfg.replay_window_secs).0

    stops :
        (e : SesameError)
        → check_tier1 c k cfg provider ctx headers.scope raw_body now t1 ≡ err e
        → Stops e
    unfolding check_tier1
    stops e h = elim (guard-eq-err (t1.version == protocol_version) invalid_version _ h) [
      | inl (p, q) ↦
          subst Stops (sym q)
            (other_version (λ same. ground (arith, bytes_eq_iff t1.version protocol_version)))
      | inr (p, h₁) ↦
          elim (>>=-eq-err (check_freshness k t1.timestamp now cfg.replay_window_secs) _ h₁) [
            | inl q ↦
                let same = check_freshness-eq-err k t1.timestamp now cfg.replay_window_secs e q in
                subst Stops (sym same)
                  (stale (speaks p) ((IsFresh-err_iff cfg now t1).0 (q ∙ ap err same) tt))
            | inr (u, q, h₂) ↦
                elim (guard-eq-err (not (provider.is_revoked t1.key_id)) key_revoked _ h₂) [
                  | inl (l, q') ↦
                      subst Stops (sym q') (revoked (speaks p) (fresh u q) (not-false _ l))
                  | inr (l, h₃) ↦
                      elim (guard-eq-err (not (is_empty (provider.signing_keys t1.key_id)))
                        unknown_key _ h₃) [
                          | inl (m, q') ↦ subst Stops (sym q') (
                              unknown (speaks p) (fresh u q) (not-true _ l)
                                ((is_empty_iff _).0 (not-false _ m)))
                          | inr (m, h₄) ↦
                              elim (>>=-eq-err
                                (verify_any c (provider.signing_keys t1.key_id)
                                  (signing_string c ctx headers raw_body t1) t1.signature)
                                _ h₄) [
                                  | inl q' ↦
                                      let same = verify_any-eq-err c _ _ _ e q' in
                                      subst Stops (sym same) (
                                        forged (speaks p) (fresh u q) (not-true _ l)
                                          (λ none_listed.
                                            let n = (is_empty_iff _).1 none_listed in
                                            let y = not-true _ m in cc)
                                          ((IsSigned-err_iff provider ctx headers raw_body t1).0
                                            (q' ∙ ap err same) tt))
                                  | inr (u', q', h₅) ↦ cc
                                ]
                        ]
                ]
          ]
    ]

    stopped :
        {e : SesameError}
        → Stops e
        → check_tier1 c k cfg provider ctx headers.scope raw_body now t1 ≡ err e
    unfolding check_tier1
    stopped (other_version differs) =
        let e : (t1.version == protocol_version) ≡ false =
          ground (arith, bytes_eq_iff t1.version protocol_version) in
        rw e
    stopped (stale same old) =
        rw ((bytes_eq_iff _ _).1 same, (IsFresh-err_iff cfg now t1).1 (λ _. old))
    stopped (revoked same f r) = rw (
      (bytes_eq_iff _ _).1 same,
      (check_freshness_iff cal t1.timestamp now cfg.replay_window_secs).1 f,
      r,
    )
    stopped (unknown same f r n) = rw (
      (bytes_eq_iff _ _).1 same,
      (check_freshness_iff cal t1.timestamp now cfg.replay_window_secs).1 f,
      r,
      n,
    )
    stopped (forged same f r n u) =
        let listed : is_empty (provider.signing_keys t1.key_id) ≡ false =
          ground (arith, is_empty_iff (provider.signing_keys t1.key_id)) in
        rw (
          (bytes_eq_iff _ _).1 same,
          (check_freshness_iff cal t1.timestamp now cfg.replay_window_secs).1 f,
          r,
          listed,
          (IsSigned-err_iff provider ctx headers raw_body t1).1 (λ _. u),
        )

  -- Tier 1 refuses a request for a missing header, or where a test of it stops.
  pub authenticate_err_iff :
      (cfg : SesameConfig) (provider : KeyProvider) (ctx : RequestContext) (headers : SesameHeaders)
      (raw_body : Bytes) (now : k.Time) (e : SesameError)
      → (authenticate c k cfg provider ctx headers raw_body now ≡ err e) ↔ (
          (Lacks headers × (e ≡ missing_headers))
          ⊎ ((t1 : Tier1Fields) × Carries headers t1
              × Unauthentic c k cfg provider ctx headers raw_body now t1 e))
  unfolding authenticate
  authenticate_err_iff cfg provider ctx headers raw_body now e = (
    λ h. elim (>>=-eq-err (require_tier1 headers) _ h) [
      | inl q ↦ inl ((require_tier1_err_iff headers).0 q)
      | inr (t1, q, r) ↦ inr (
        t1,
        (require_tier1_iff headers t1).0 q,
        stops cfg provider ctx headers raw_body now t1 e r,
      )
    ],
    λ h. elim h [
      | inl l ↦ rw ((require_tier1_err_iff headers {e = e}).1 l)
      | inr (t1, carried, u) ↦
          rw ((require_tier1_iff headers t1).1 carried)
            (stopped cfg provider ctx headers raw_body now t1 u)
    ],
  )
