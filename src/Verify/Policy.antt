-- ===== src/Verify/Policy.antt =====
-- What the minimum tier, the version, a revocation and the encryption flag do to a request.
use sesame_sdk.Verify.Authentic.{require_tier1_iff}
use sesame_sdk.Prelude.{
  ◌==◌, ◌≡◌, ◌≢◌, ◌≤◌, refl, ap, ◌∙◌, true, false, Option, none, some, arith, inl, inr, ==_refl, [],
}
use sesame_sdk.Prelude.Result.{err, ok}
use sesame_sdk.Text.{bytes_eq_iff, Bytes, bytes_Eq}
use sesame_sdk.Message.{Tier1Fields, protocol_version, invalid_version, SesameHeaders, is_absent}
use sesame_sdk.External.{Crypto, Clock, IsLawful, IsCalendar}
use sesame_sdk.Keys.{StaticKeyProvider, KeyProvider, static_provider, revoke}
use sesame_sdk.Keys.Laws.{registered, revoke_lem}
use sesame_sdk.Replay.{ReplayCache}
use sesame_sdk.Tier.{Tier, level, SesameConfig}
use sesame_sdk.Verify.{authenticate, check_tier1, VerifiedRequest, RequestContext, verify_request}
use sesame_sdk.Verify.Spec.{Carries, HasScope, tier_of}
use sesame_sdk.Verify.Accept.{run_err, Carries-is_absent, verify_request_iff}

HasScope-below :
    (scope : Option Bytes) (t u : Tier) → level t ≤ level u → HasScope scope u → HasScope scope t
HasScope-below none t u h k = omega arith
HasScope-below (some s) t u h k = tt

present_of_key_id :
    (headers : SesameHeaders) (key_id : Bytes)
    → headers.key_id ≡ some key_id
    → is_absent headers ≡ false
unfolding is_absent
present_of_key_id headers key_id e = ground arith

module _ {c : Crypto} {k : Clock} (law : IsLawful c) (cal : IsCalendar k) {S : Type 0}
    (cfg : SesameConfig) (replay : ReplayCache S) (ctx : RequestContext) (headers : SesameHeaders)
    (raw_body : Bytes) (now : k.Time) (s s' : S) where
  -- A request that carries a Tier 1 header and is accepted under a minimum tier is accepted under
  -- each lower one, with the same result and the same cache.
  pub lower_tier_accepts :
      (provider : KeyProvider) (v : VerifiedRequest) (min_tier lower : Tier)
      → level lower ≤ level min_tier
      → is_absent headers ≡ false
      → verify_request c k cfg provider replay ctx headers raw_body now min_tier s ≡ (ok v, s')
      → verify_request c k cfg provider replay ctx headers raw_body now lower s ≡ (ok v, s')
  lower_tier_accepts provider v min_tier lower l p h =
      elim ((verify_request_iff law cal cfg provider replay ctx headers raw_body now min_tier s v
          s').0
        h) [
          | inl (t, _) ↦ let a = t.absent in cc
          | inr a ↦
              (verify_request_iff law cal cfg provider replay ctx headers raw_body now lower s v
                  s').1
                (inr (record {
                  t1 = a.t1;
                  authentic = a.authentic;
                  unseen = a.unseen;
                  granted = record {
                    scope_granted = a.granted.scope_granted;
                    plaintext_of = a.granted.plaintext_of;
                    key_id = a.granted.key_id;
                    achieved = a.granted.achieved;
                    has_scope = HasScope-below headers.scope lower min_tier l a.granted.has_scope;
                    enough = let e = a.granted.enough in omega arith;
                  };
                }))
        ]

  -- After a registered key-id is revoked, no request with that key-id is accepted, whatever the
  -- replay cache, the minimum tier and the rest of the request.
  pub revoked_refused :
      (keys : StaticKeyProvider) (key_id : Bytes) (min_tier : Tier)
      → registered keys key_id ≡ true
      → headers.key_id ≡ some key_id
      → (v : VerifiedRequest)
      → verify_request c k cfg
          (static_provider (revoke keys key_id))
          replay
          ctx
          headers
          raw_body
          now
          min_tier
          s
        ≢ (ok v, s')
  revoked_refused keys key_id min_tier r e v h =
      elim ((verify_request_iff law cal cfg (static_provider (revoke keys key_id)) replay ctx
          headers raw_body now min_tier s v s').0
        h) [
          | inl (t, _) ↦ let a = t.absent in let b = present_of_key_id headers key_id e in cc
          | inr a ↦
              let same : a.t1.key_id ≡ key_id = let f = a.authentic.carries.key_id in cc in
              let live = a.authentic.not_revoked in
              let marked = (revoke_lem keys key_id key_id []).0 in
              let dead : (static_provider (revoke keys key_id)).is_revoked key_id ≡ true =
                marked ∙ rw (==_refl key_id, r) in
              cc (ap (static_provider (revoke keys key_id)).is_revoked same)
        ]

  -- An accepted encrypted request is also accepted with the mark `X-SESAME-Encrypted` removed, by a
  -- policy whose minimum tier the scope header alone meets, and the ciphertext is then returned as
  -- the plaintext.
  pub encrypted_mark_stripped :
      (provider : KeyProvider) (v : VerifiedRequest) (min_tier : Tier)
      → headers.encrypted ≡ true
      → is_absent headers ≡ false
      → level min_tier ≤ level (tier_of false headers.scope)
      → verify_request c k cfg provider replay ctx headers raw_body now min_tier s ≡ (ok v, s')
      → verify_request c k cfg provider replay ctx
          (record headers { encrypted = false })
          raw_body
          now
          min_tier
          s
        ≡ (ok (record v { plaintext = raw_body; achieved_tier = tier_of false headers.scope }), s')
  encrypted_mark_stripped provider v min_tier e p l h =
      elim ((verify_request_iff law cal cfg provider replay ctx headers raw_body now min_tier s v
          s').0
        h) [
          | inl (t, _) ↦ let a = t.absent in cc
          | inr a ↦
              (verify_request_iff law cal cfg provider replay ctx
                  (record headers { encrypted = false }) raw_body now min_tier s
                  (record v { plaintext = raw_body; achieved_tier = tier_of false headers.scope })
                  s').1
                (inr (record {
                  t1 = a.t1;
                  authentic = record {
                    carries = record {
                      version = a.authentic.carries.version;
                      key_id = a.authentic.carries.key_id;
                      timestamp = a.authentic.carries.timestamp;
                      nonce = a.authentic.carries.nonce;
                      signature = a.authentic.carries.signature;
                    };
                    speaks = a.authentic.speaks;
                    time = a.authentic.time;
                    parsed = a.authentic.parsed;
                    fresh = a.authentic.fresh;
                    not_revoked = a.authentic.not_revoked;
                    key = a.authentic.key;
                    listed = a.authentic.listed;
                    signed = a.authentic.signed;
                  };
                  unseen = a.unseen;
                  granted = record {
                    scope_granted = a.granted.scope_granted;
                    plaintext_of = refl;
                    key_id = a.granted.key_id;
                    achieved = refl;
                    has_scope = a.granted.has_scope;
                    enough = l;
                  };
                }))
        ]

-- A request whose version header is anything but the protocol's is refused as such, with the other
-- four headers of Tier 1 present, and the cache is left alone.
other_version_refused :
    (c : Crypto) (k : Clock) {S : Type 0} (cfg : SesameConfig) (provider : KeyProvider)
    (replay : ReplayCache S) (ctx : RequestContext) (headers : SesameHeaders) (raw_body : Bytes)
    (now : k.Time) (min_tier : Tier) (s : S) (t1 : Tier1Fields)
    → Carries headers t1
    → t1.version ≢ protocol_version
    → verify_request c k cfg provider replay ctx headers raw_body now min_tier s
      ≡ (err invalid_version, s)
unfolding authenticate check_tier1
other_version_refused c k cfg provider replay ctx headers raw_body now min_tier s t1 carried other =
    let differs : (t1.version == protocol_version) ≡ false =
      ground (arith, bytes_eq_iff t1.version protocol_version) in
    run_err c k cfg provider replay ctx headers raw_body now min_tier s invalid_version
      (Carries-is_absent carried) (rw ((require_tier1_iff headers t1).1 carried, differs))
