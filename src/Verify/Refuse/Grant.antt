-- ===== src/Verify/Refuse/Grant.antt =====
-- Where Tiers 2 and 3 stop. The test of the tier at the end of the code never fails.
use sesame_sdk.Prelude.{
  ◌≡◌, ◌≤◌, ◌⊎◌, ◌↔◌, refl, sym, ap, subst, ◌∙◌, true, false, not, Bool, Option, none, some, arith,
  inl, inr, Bool-cases, if◌then◌else◌,
}
use sesame_sdk.Prelude.Result.{Result, ok, err, guard-eq-err, refused_iff, >>=-eq-err}
use sesame_sdk.Text.{Bytes}
use sesame_sdk.Message.{
  SesameHeaders, SesameError, Tier1Fields, missing_headers, scope_denied, decrypt_failed,
}
use sesame_sdk.External.{Crypto}
use sesame_sdk.Keys.{KeyProvider}
use sesame_sdk.Tier.{Tier, zero, one, two, three, level, tier_ge, tier_lt}
use sesame_sdk.Tier2.{authorize}
use sesame_sdk.Tier2.Laws.{authorize-eq-err}
use sesame_sdk.Tier3.{unseal}
use sesame_sdk.Verify.{RequestContext, tier2, tier3, decrypt_body, grant}
use sesame_sdk.Verify.Spec.{ScopeGranted, Decrypts, HasScope, tier_of}
use sesame_sdk.Verify.Stages.{not_below_iff, tier2_iff, decrypt_body_iff, tier3_iff}
use sesame_sdk.Verify.Refusal.{PassesScope, Ungranted, unscoped, undecryptable, unencrypted}

tier2-eq-err :
    (provider : KeyProvider) (ctx : RequestContext) (key_id : Bytes) (scope : Option Bytes)
    (min_tier : Tier) (e : SesameError)
    → tier2 provider ctx key_id scope min_tier ≡ err e
    → e ≡ scope_denied
unfolding tier2
tier2-eq-err provider ctx key_id none min_tier e h = ground arith
tier2-eq-err provider ctx key_id (some scope) min_tier e h =
    elim (>>=-eq-err (authorize provider key_id scope ctx.target_channel) _ h) [
      | inl q ↦ authorize-eq-err provider key_id scope ctx.target_channel q
      | inr (channel, q, r) ↦ cc
    ]

decrypt_body-eq-err :
    (c : Crypto) (provider : KeyProvider) (t1 : Tier1Fields) (headers : SesameHeaders)
    (raw_body : Bytes) (e : SesameError)
    → decrypt_body c provider t1 headers raw_body ≡ err e
    → e ≡ decrypt_failed
unfolding decrypt_body unseal
decrypt_body-eq-err c provider t1 headers raw_body e h = ground arith

if_true : {A : Type 0} (b : Bool) (x y : A) → b ≡ true → (if b then x else y) ≡ x
if_true true x y h = refl
if_true false x y h = cc

if_false : {A : Type 0} (b : Bool) (x y : A) → b ≡ false → (if b then x else y) ≡ y
if_false true x y h = cc
if_false false x y h = refl

level_small : (t : Tier) → level t ≤ 3
level_small zero = omega arith
level_small one = omega arith
level_small two = omega arith
level_small three = omega arith

floor :
    (encrypted : Bool) (scope : Option Bytes) (min_tier a b : Tier)
    → a ≡ tier_of false scope
    → HasScope scope min_tier
    → b ≡ (if encrypted then three else a)
    → (encrypted ≡ true) ⊎ (level min_tier ≤ 2)
    → level min_tier ≤ level b
floor true scope min_tier a b e h f p = rw f (level_small min_tier)
floor false none min_tier a b e h f p = rw (f, e) h
floor false (some scope) min_tier a b e h f (inl p) = cc
floor false (some scope) min_tier a b e h f (inr p) = rw (f, e) p

module _ (c : Crypto) (provider : KeyProvider) (ctx : RequestContext) (headers : SesameHeaders)
    (raw_body : Bytes) (min_tier : Tier) (t1 : Tier1Fields) where
  scope_err_iff :
      (tier2 provider ctx t1.key_id headers.scope min_tier ≡ err scope_denied)
      ↔ ¬ PassesScope provider ctx headers min_tier t1
  scope_err_iff =
      let both =
        refused_iff
          {P = λ (r : Option Bytes × Tier).
            ScopeGranted provider ctx t1.key_id headers.scope r.0
            × (r.1 ≡ tier_of false headers.scope)
            × HasScope headers.scope min_tier}
          (tier2 provider ctx t1.key_id headers.scope min_tier) scope_denied
          (tier2-eq-err provider ctx t1.key_id headers.scope min_tier)
          (λ r. tier2_iff provider ctx t1.key_id headers.scope min_tier r.0 r.1) in
      (
        λ h (scoped, channel, granted).
            both.0 h (channel, tier_of false headers.scope) (granted, refl, scoped),
        λ h. both.1 (λ r (granted, _, scoped). h (scoped, r.0, granted)),
      )

  decrypt_err_iff :
      (decrypt_body c provider t1 headers raw_body ≡ err decrypt_failed)
      ↔ ((plaintext : Bytes) → ¬ Decrypts c provider headers t1 raw_body plaintext)
  decrypt_err_iff =
      refused_iff (decrypt_body c provider t1 headers raw_body) decrypt_failed
        (decrypt_body-eq-err c provider t1 headers raw_body)
        (decrypt_body_iff c provider t1 headers raw_body)

  -- No accepted scope and decryption fall below the minimum.
  never_below :
      (plaintext : Bytes) (channel : Option Bytes) (a b : Tier)
      → tier2 provider ctx t1.key_id headers.scope min_tier ≡ ok (channel, a)
      → tier3 c provider t1 headers raw_body min_tier a ≡ ok (plaintext, b)
      → not (tier_lt b min_tier) ≡ true
  never_below plaintext channel a b h i =
      let (_, e, scoped) =
        (tier2_iff provider ctx t1.key_id headers.scope min_tier channel a).0 h in
      let (_, f, plain) = (tier3_iff c provider t1 headers raw_body min_tier a plaintext b).0 i in
      (not_below_iff b min_tier).1
        (floor headers.encrypted headers.scope min_tier a b e scoped f plain)

  tier3_stops :
      (a : Tier) (e : SesameError)
      → PassesScope provider ctx headers min_tier t1
      → tier3 c provider t1 headers raw_body min_tier a ≡ err e
      → Ungranted c provider ctx headers raw_body min_tier t1 e
  unfolding tier3 decrypt_body
  tier3_stops a e p h = elim (Bool-cases headers.encrypted) [
    | inl enc ↦
        elim (>>=-eq-err (decrypt_body c provider t1 headers raw_body) _ (rw (enc, tier3) at h)) [
          | inl q ↦
              let same = decrypt_body-eq-err c provider t1 headers raw_body e q in
              subst (Ungranted c provider ctx headers raw_body min_tier t1) (sym same)
                (undecryptable p enc (decrypt_err_iff.0 (q ∙ ap err same)))
          | inr (pt, q, r) ↦ cc
        ]
    | inr plain ↦
        let (top, same) = plain_stops a e (rw (plain, tier3) at h) in
        subst (Ungranted c provider ctx headers raw_body min_tier t1) (sym same)
          (unencrypted p plain top)
  ]
    where
      plain_stops :
          (a : Tier) (e : SesameError)
          → ◌≡◌ {A = Result SesameError (Bytes × Tier)}
              (if tier_ge min_tier three then err decrypt_failed else ok (raw_body, a))
              (err e)
          → (level min_tier ≡ 3) × (e ≡ decrypt_failed)
      plain_stops a e h = ground (arith, level_small min_tier)

  tier3_undecryptable :
      (a : Tier)
      → headers.encrypted ≡ true
      → decrypt_body c provider t1 headers raw_body ≡ err decrypt_failed
      → tier3 c provider t1 headers raw_body min_tier a ≡ err decrypt_failed
  unfolding tier3
  tier3_undecryptable a enc h = if_true headers.encrypted _ _ enc ∙ rw h

  tier3_unencrypted :
      (a : Tier)
      → headers.encrypted ≡ false
      → level min_tier ≡ 3
      → tier3 c provider t1 headers raw_body min_tier a ≡ err decrypt_failed
  unfolding tier3
  tier3_unencrypted a plain top =
      if_false headers.encrypted _ _ plain ∙ if_true (tier_ge min_tier three) _ _ (ground arith)

  -- All that follows the replay check stops in Tier 2, or in Tier 3.
  pub grant_err_iff :
      (e : SesameError)
      → (grant c provider ctx headers raw_body min_tier t1 ≡ err e)
        ↔ Ungranted c provider ctx headers raw_body min_tier t1 e
  unfolding grant
  grant_err_iff e = (stops, λ u. stopped u)
    where
      stops :
          grant c provider ctx headers raw_body min_tier t1 ≡ err e
          → Ungranted c provider ctx headers raw_body min_tier t1 e
      stops h = elim (>>=-eq-err (tier2 provider ctx t1.key_id headers.scope min_tier) _ h) [
        | inl q ↦
            let same = tier2-eq-err provider ctx t1.key_id headers.scope min_tier e q in
            subst (Ungranted c provider ctx headers raw_body min_tier t1) (sym same)
              (unscoped (scope_err_iff.0 (q ∙ ap err same)))
        | inr (r, q, h₁) ↦
            let (granted, _, scoped) =
              (tier2_iff provider ctx t1.key_id headers.scope min_tier r.0 r.1).0 q in
            elim (>>=-eq-err (tier3 c provider t1 headers raw_body min_tier r.1) _ h₁) [
              | inl q' ↦ tier3_stops r.1 e (scoped, r.0, granted) q'
              | inr (x, q', h₂) ↦
                  elim (guard-eq-err (not (tier_lt x.1 min_tier)) missing_headers _ h₂) [
                    | inl (below, _) ↦ let above = never_below x.0 r.0 r.1 x.1 q q' in cc
                    | inr (_, h₃) ↦ cc
                  ]
            ]
      ]

      scoped_ok :
          (scoped : HasScope headers.scope min_tier) (channel : Option Bytes)
          → ScopeGranted provider ctx t1.key_id headers.scope channel
          → tier2 provider ctx t1.key_id headers.scope min_tier
            ≡ ok (channel, tier_of false headers.scope)
      scoped_ok scoped channel granted =
          (tier2_iff provider ctx t1.key_id headers.scope min_tier channel
              (tier_of false headers.scope)).1
            (granted, refl, scoped)

      stopped :
          {e : SesameError}
          → Ungranted c provider ctx headers raw_body min_tier t1 e
          → grant c provider ctx headers raw_body min_tier t1 ≡ err e
      stopped (unscoped n) = rw (scope_err_iff.1 n)
      stopped (undecryptable (scoped, channel, granted) enc n) = rw (
        scoped_ok scoped channel granted,
        tier3_undecryptable (tier_of false headers.scope) enc (decrypt_err_iff.1 n),
      )
      stopped (unencrypted (scoped, channel, granted) plain top) = rw (
        scoped_ok scoped channel granted,
        tier3_unencrypted (tier_of false headers.scope) plain top,
      )
