-- ===== src/Verify/Authentic.antt =====
-- Tier 1 of `verify_request` accepts the authentic requests, and no others.
use sesame_sdk.Prelude.{◌≡◌, refl, subst, ◌↔◌, true, false, Option, List, [], ◌∷◌, arith, ◌==◌, In}
use sesame_sdk.Prelude.Result.{ok, >>=-eq-ok}
use sesame_sdk.Text.{Bytes, bytes_Eq, bytes_eq_iff}
use sesame_sdk.Message.{SesameHeaders, Tier1Fields, require_tier1, protocol_version}
use sesame_sdk.Canonical.{body_hash_hex, request_canonical}
use sesame_sdk.External.{Crypto, Clock, IsLawful, IsCalendar}
use sesame_sdk.Keys.{KeyProvider}
use sesame_sdk.Tier.{SesameConfig}
use sesame_sdk.Tier1.{verify_any, check_freshness}
use sesame_sdk.Tier1.Laws.{verify_any_iff}
use sesame_sdk.Tier1.Freshness.{check_freshness_iff}
use sesame_sdk.Verify.{RequestContext, is_empty, authenticate, check_tier1}
use sesame_sdk.Verify.Spec.{Carries, signing_string, IsAuthentic}

pub require_tier1_iff :
    (headers : SesameHeaders) (t1 : Tier1Fields)
    → (require_tier1 headers ≡ ok t1) ↔ Carries headers t1
unfolding require_tier1
require_tier1_iff headers t1 = ground arith

not_empty_of_In : (key : Bytes) (keys : List Bytes) → In key keys → is_empty keys ≡ false
not_empty_of_In key [] m = elim m [ ]
not_empty_of_In key (x ∷ xs) m = refl

-- The outcome of each test of an accepted request.
record Passes (c : Crypto) (k : Clock) (cfg : SesameConfig) (provider : KeyProvider)
    (ctx : RequestContext) (scope : Option Bytes) (raw_body : Bytes) (now : k.Time)
    (t u : Tier1Fields) : Type 0 where
  speaks : (t.version == protocol_version) ≡ true
  fresh : check_freshness k t.timestamp now cfg.replay_window_secs ≡ ok tt
  live : provider.is_revoked t.key_id ≡ false
  valid :
      verify_any c
        (provider.signing_keys t.key_id)
        (request_canonical ctx.method ctx.path t.timestamp t.nonce
          (body_hash_hex c.sha256 raw_body)
          scope)
        t.signature
      ≡ ok tt
  same : t ≡ u

check_tier1-Passes :
    (c : Crypto) (k : Clock) (cfg : SesameConfig) (provider : KeyProvider) (ctx : RequestContext)
    (scope : Option Bytes) (raw_body : Bytes) (now : k.Time) (t u : Tier1Fields)
    → check_tier1 c k cfg provider ctx scope raw_body now t ≡ ok u
    → Passes c k cfg provider ctx scope raw_body now t u
unfolding check_tier1
check_tier1-Passes c k cfg provider ctx scope raw_body now t u h = ground arith

module _ {c : Crypto} {k : Clock} (law : IsLawful c) (cal : IsCalendar k) where
  pub authenticate_sound :
      (cfg : SesameConfig) (provider : KeyProvider) (ctx : RequestContext) (headers : SesameHeaders)
      (raw_body : Bytes) (now : k.Time) (t1 : Tier1Fields)
      → authenticate c k cfg provider ctx headers raw_body now ≡ ok t1
      → IsAuthentic c k cfg provider ctx headers raw_body now t1
  unfolding authenticate
  authenticate_sound cfg provider ctx headers raw_body now t1 h =
      let (t, carried, checked) = >>=-eq-ok (require_tier1 headers) _ h in
      let p = check_tier1-Passes c k cfg provider ctx headers.scope raw_body now t t1 checked in
      authentic t ((require_tier1_iff headers t).0 carried) p
    where
      authentic :
          (t : Tier1Fields)
          → Carries headers t
          → Passes c k cfg provider ctx headers.scope raw_body now t t1
          → IsAuthentic c k cfg provider ctx headers raw_body now t1
      authentic t carried p =
          let (key, listed, signed) = (verify_any_iff law _ _ _).0 p.valid in
          let (time, parsed, fresh) = (check_freshness_iff cal _ now _).0 p.fresh in
          subst (IsAuthentic c k cfg provider ctx headers raw_body now) p.same (record {
            carries = carried;
            speaks = (bytes_eq_iff _ _).0 p.speaks;
            time = time;
            parsed = parsed;
            fresh = fresh;
            not_revoked = p.live;
            key = key;
            listed = listed;
            signed = signed;
          })

  pub authenticate_complete :
      (cfg : SesameConfig) (provider : KeyProvider) (ctx : RequestContext) (headers : SesameHeaders)
      (raw_body : Bytes) (now : k.Time) (t1 : Tier1Fields)
      → IsAuthentic c k cfg provider ctx headers raw_body now t1
      → authenticate c k cfg provider ctx headers raw_body now ≡ ok t1
  unfolding authenticate check_tier1
  authenticate_complete cfg provider ctx headers raw_body now t1 a =
      let p =
        (verify_any_iff law (provider.signing_keys t1.key_id)
            (signing_string c ctx headers raw_body t1) t1.signature).1
          (a.key, a.listed, a.signed) in
      let q =
        (check_freshness_iff cal t1.timestamp now cfg.replay_window_secs).1
          (a.time, a.parsed, a.fresh) in
      rw (
        (require_tier1_iff headers t1).1 a.carries,
        (bytes_eq_iff _ _).1 a.speaks,
        q,
        a.not_revoked,
        not_empty_of_In a.key _ a.listed,
        p,
      )
