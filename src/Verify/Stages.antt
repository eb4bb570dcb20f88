-- ===== src/Verify/Stages.antt =====
-- Tiers 2 and 3 of `verify_request` meet their parts of the specification, and no more is asked.
use sesame_sdk.Prelude.{
  ◌≡◌, ◌≤◌, ◌⊎◌, refl, sym, ap, subst, ◌∙◌, ◌↔◌, Bool, true, false, not, Option, none, some, arith,
  if◌then◌else◌, length, eqb, inl, inr, Bool-cases, eqb_iff,
}
use sesame_sdk.Prelude.Result.{ok, ok_or, >>=-eq-ok, ok_or-eq-ok, guard-eq-ok}
use sesame_sdk.Text.{Bytes, bytes_Eq}
use sesame_sdk.Message.{SesameHeaders, Tier1Fields, decrypt_failed, missing_headers}
use sesame_sdk.Message.Hex.{hex_decode}
use sesame_sdk.External.{Crypto}
use sesame_sdk.Keys.{KeyProvider}
use sesame_sdk.Tier.{Tier, three, level, tier_lt}
use sesame_sdk.Tier2.{authorize}
use sesame_sdk.Tier2.Laws.{authorize_iff}
use sesame_sdk.Tier3.{unseal}
use sesame_sdk.Verify.{VerifiedRequest, RequestContext, tier2, tier3, decrypt_body, grant}
use sesame_sdk.Verify.Spec.{ScopeGranted, Decrypts, PlaintextOf, tier_of, HasScope, IsGranted}

pub tier2_iff :
    (provider : KeyProvider) (ctx : RequestContext) (key_id : Bytes) (scope : Option Bytes)
    (min_tier : Tier) (channel : Option Bytes) (t : Tier)
    → (tier2 provider ctx key_id scope min_tier ≡ ok (channel, t)) ↔ (
        ScopeGranted provider ctx key_id scope channel
        × (t ≡ tier_of false scope)
        × HasScope scope min_tier)
unfolding tier2
tier2_iff provider ctx key_id none min_tier none t = ground arith
tier2_iff provider ctx key_id none min_tier (some channel) t = ground arith
tier2_iff provider ctx key_id (some scope) min_tier none t = ground arith
tier2_iff provider ctx key_id (some scope) min_tier (some channel) t = (
  λ h.
      let (granted, allowed, same) =
        >>=-eq-ok (authorize provider key_id scope ctx.target_channel) _ h in
      let e : granted ≡ channel = cc in
      (
        (authorize_iff provider key_id scope ctx.target_channel channel).0 (rw (← e) allowed),
        cc,
        tt,
      ),
  λ (allowed, e, _).
      rw ((authorize_iff provider key_id scope ctx.target_channel channel).1 allowed, e),
)

pub decrypt_body_iff :
    (c : Crypto) (provider : KeyProvider) (t1 : Tier1Fields) (headers : SesameHeaders)
    (raw_body plaintext : Bytes)
    → (decrypt_body c provider t1 headers raw_body ≡ ok plaintext)
      ↔ Decrypts c provider headers t1 raw_body plaintext
unfolding decrypt_body unseal
decrypt_body_iff c provider t1 headers raw_body plaintext = (decrypts, decrypted)
  where
    decrypts :
        decrypt_body c provider t1 headers raw_body ≡ ok plaintext
        → Decrypts c provider headers t1 raw_body plaintext
    decrypts h =
        let (enc_key_id, e, h₁) = >>=-eq-ok (ok_or headers.enc_key_id decrypt_failed) _ h in
        let (iv_hex, f, h₂) = >>=-eq-ok (ok_or headers.iv decrypt_failed) _ h₁ in
        let (iv, g, h₃) = >>=-eq-ok (ok_or (hex_decode iv_hex) decrypt_failed) _ h₂ in
        let (long, h₄) = guard-eq-ok (eqb (length iv) 12) decrypt_failed _ h₃ in
        let (aead, l, h₅) = >>=-eq-ok (ok_or (provider.aead_key enc_key_id) decrypt_failed) _ h₄ in
        record {
          enc_key_id = enc_key_id;
          iv_hex = iv_hex;
          iv = iv;
          aead = aead;
          has_key_id = ok_or-eq-ok _ _ e;
          has_iv = ok_or-eq-ok _ _ f;
          decoded = ok_or-eq-ok _ _ g;
          iv_length = (eqb_iff _ _).0 long;
          has_key = ok_or-eq-ok _ _ l;
          opened = ok_or-eq-ok _ _ h₅;
        }

    decrypted :
        Decrypts c provider headers t1 raw_body plaintext
        → decrypt_body c provider t1 headers raw_body ≡ ok plaintext
    decrypted d =
        rw (d.has_key_id, d.has_iv, d.decoded, (eqb_iff _ _).1 d.iv_length, d.has_key, d.opened)

pub tier3_iff :
    (c : Crypto) (provider : KeyProvider) (t1 : Tier1Fields) (headers : SesameHeaders)
    (raw_body : Bytes) (min_tier achieved : Tier) (plaintext : Bytes) (t : Tier)
    → (tier3 c provider t1 headers raw_body min_tier achieved ≡ ok (plaintext, t)) ↔ (
        PlaintextOf c provider headers t1 raw_body plaintext headers.encrypted
        × (t ≡ (if headers.encrypted then three else achieved))
        × ((headers.encrypted ≡ true) ⊎ (level min_tier ≤ 2)))
unfolding tier3
tier3_iff c provider t1 headers raw_body min_tier achieved plaintext t =
    elim (Bool-cases headers.encrypted) [
      | inl e ↦ rw e (ground (arith, decrypt_body_iff c provider t1 headers raw_body plaintext))
      | inr e ↦ rw e (ground arith)
    ]

tier_of_lem :
    (encrypted : Bool) (scope : Option Bytes)
    → (if encrypted then three else tier_of false scope) ≡ tier_of encrypted scope
tier_of_lem true scope = refl
tier_of_lem false scope = refl

two_of_plain :
    (encrypted : Bool) (scope : Option Bytes) (min_tier : Tier)
    → level min_tier ≤ level (tier_of encrypted scope)
    → (encrypted ≡ true) ⊎ (level min_tier ≤ 2)
two_of_plain true scope min_tier h = inl refl
two_of_plain false none min_tier h = inr (omega arith)
two_of_plain false (some scope) min_tier h = inr h

pub not_below_iff : (a b : Tier) → (not (tier_lt a b) ≡ true) ↔ (level b ≤ level a)
not_below_iff a b = ground arith

module _ (c : Crypto) (provider : KeyProvider) (ctx : RequestContext) (headers : SesameHeaders)
    (raw_body : Bytes) (min_tier : Tier) (t1 : Tier1Fields) where
  grant_sound :
      (v : VerifiedRequest)
      → grant c provider ctx headers raw_body min_tier t1 ≡ ok v
      → IsGranted c provider ctx headers raw_body min_tier t1 v
  unfolding grant
  grant_sound v h =
      let (r, scoped, h₁) = >>=-eq-ok (tier2 provider ctx t1.key_id headers.scope min_tier) _ h in
      let (q, opened, h₂) = >>=-eq-ok (tier3 c provider t1 headers raw_body min_tier r.1) _ h₁ in
      let (enough, same) = guard-eq-ok (not (tier_lt q.1 min_tier)) missing_headers _ h₂ in
      granted r.0 r.1 q.0 q.1
        ((tier2_iff provider ctx t1.key_id headers.scope min_tier r.0 r.1).0 scoped)
        ((tier3_iff c provider t1 headers raw_body min_tier r.1 q.0 q.1).0 opened)
        ((not_below_iff q.1 min_tier).0 enough) (cc)
    where
      granted :
          (channel : Option Bytes) (a : Tier) (plaintext : Bytes) (b : Tier)
          → ScopeGranted provider ctx t1.key_id headers.scope channel
            × (a ≡ tier_of false headers.scope)
            × HasScope headers.scope min_tier
          → PlaintextOf c provider headers t1 raw_body plaintext headers.encrypted
            × (b ≡ (if headers.encrypted then three else a))
            × ((headers.encrypted ≡ true) ⊎ (level min_tier ≤ 2))
          → level min_tier ≤ level b
          → ◌≡◌ {A = VerifiedRequest}
              (record {
                plaintext = plaintext;
                key_id = t1.key_id;
                scope_channel = channel;
                achieved_tier = b;
              })
              v
          → IsGranted c provider ctx headers raw_body min_tier t1 v
      granted channel a plaintext b (g, e, s) (p, f, _) l same =
          subst (IsGranted c provider ctx headers raw_body min_tier t1) same (record {
            scope_granted = g;
            plaintext_of = p;
            key_id = refl;
            achieved =
                f
                ∙ ap (λ (x : Tier). if headers.encrypted then three else x) e
                ∙ tier_of_lem headers.encrypted headers.scope;
            has_scope = s;
            enough = l;
          })

  grant_complete :
      (v : VerifiedRequest)
      → IsGranted c provider ctx headers raw_body min_tier t1 v
      → grant c provider ctx headers raw_body min_tier t1 ≡ ok v
  unfolding grant
  grant_complete v g =
      let scoped =
        (tier2_iff provider ctx t1.key_id headers.scope min_tier v.scope_channel
            (tier_of false headers.scope)).1
          (g.scope_granted, refl, g.has_scope) in
      let opened =
        (tier3_iff c provider t1 headers raw_body min_tier (tier_of false headers.scope) v.plaintext
            v.achieved_tier).1
          (
            g.plaintext_of,
            g.achieved ∙ sym (tier_of_lem headers.encrypted headers.scope),
            two_of_plain headers.encrypted headers.scope min_tier (rw g.achieved at g.enough),
          ) in
      rw (scoped, opened, (not_below_iff v.achieved_tier min_tier).1 g.enough) (cc g.key_id)

  -- What follows the replay check returns exactly the requests that the specification grants.
  pub grant_iff :
      (v : VerifiedRequest)
      → (grant c provider ctx headers raw_body min_tier t1 ≡ ok v)
        ↔ IsGranted c provider ctx headers raw_body min_tier t1 v
  grant_iff v = (grant_sound v, grant_complete v)
