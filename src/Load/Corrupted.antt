-- ===== src/Load/Corrupted.antt =====
-- The third phase of the load test: requests whose signature was overwritten in its first digit.
use sesame_sdk.Prelude.{
  Bool, ◌≡◌, ◌≢◌, ◌↔◌, refl, ap, sym, ◌∙◌, false, true, some, [], ◌∷◌, none, inl, inr, map, ℕ,
  subst,
}
use sesame_sdk.Prelude.Result.{err}
use sesame_sdk.Prelude.AssocMap.{get, insert}
use sesame_sdk.Text.{Bytes, bytes_eq, to_lower, codes}
use sesame_sdk.Message.{
  SesameError, SesameHeaders, Tier1Fields, signature_mismatch, protocol_version, Outcome,
}
use sesame_sdk.Canonical.{body_hash_hex, request_canonical}
use sesame_sdk.External.{Crypto, Clock, IsLawful, IsCalendar}
use sesame_sdk.Keys.{KeyProvider, with_signing_key, static_provider}
use sesame_sdk.Replay.{InMemoryReplayCache, in_memory}
use sesame_sdk.Tier.{Tier, default_config, SesameConfig}
use sesame_sdk.Tier1.Laws.{sign-to_lower}
use sesame_sdk.Tier1.{sign}
use sesame_sdk.Verify.{RequestContext, VerifiedRequest}
use sesame_sdk.Verify.Replays.{handle}
use sesame_sdk.Verify.Spec.{Carries}
use sesame_sdk.Verify.Refusal.{
  Unauthentic, other_version, stale, revoked, unknown, forged, Ungranted, unscoped, undecryptable,
  unencrypted, absent, incomplete, unauthentic, replayed, ungranted, IsSigned,
}
use sesame_sdk.Verify.Refuse.{verify_request_err_iff}
use sesame_sdk.Load.{
  load_path, load_key_id, load_secret, load_ts, load_directory, load_provider, body_of, load_nonce,
  load_signature, load_headers, load_request, corrupt,
}
use sesame_sdk.Load.Accepted.{nth_request, nth-IsValid, Within-self}

-- Only a forged signature gets that error.
module _ {c : Crypto} {provider : KeyProvider} {ctx : RequestContext} {headers : SesameHeaders}
    {raw_body : Bytes} {t1 : Tier1Fields} where
  mismatch-IsSigned :
      {k : Clock} {cfg : SesameConfig} {now : k.Time} {e : SesameError}
      → Unauthentic c k cfg provider ctx headers raw_body now t1 e
      → e ≡ signature_mismatch
      → ¬ IsSigned c provider ctx headers raw_body t1
  mismatch-IsSigned (other_version v) h = cc
  mismatch-IsSigned (stale v f) h = cc
  mismatch-IsSigned (revoked v f r) h = cc
  mismatch-IsSigned (unknown v f r k) h = cc
  mismatch-IsSigned (forged v f r k u) h = u

  mismatch-Ungranted :
      {min_tier : Tier} {e : SesameError}
      → Ungranted c provider ctx headers raw_body min_tier t1 e
      → e ≢ signature_mismatch
  mismatch-Ungranted (unscoped p) h = cc
  mismatch-Ungranted (undecryptable p e d) h = cc
  mismatch-Ungranted (unencrypted p e m) h = cc

Carries-unique :
    {headers : SesameHeaders} {t u : Tier1Fields} → Carries headers t → Carries headers u → t ≡ u
Carries-unique {t} {u} h j =
    let a : t.version ≡ u.version = cc (h.version, j.version) in
    let b : t.key_id ≡ u.key_id = cc (h.key_id, j.key_id) in
    let d : t.timestamp ≡ u.timestamp = cc (h.timestamp, j.timestamp) in
    let e : t.nonce ≡ u.nonce = cc (h.nonce, j.nonce) in
    let f : t.signature ≡ u.signature = cc (h.signature, j.signature) in cc

corrupt_lower : (s : Bytes) → map to_lower s ≡ s → map to_lower (corrupt s) ≡ corrupt s
corrupt_lower [] h = refl
corrupt_lower (x ∷ s) h = let t : map to_lower s ≡ s = cc in ap (λ l. b'0' ∷ l) t

module _ {c : Crypto} {k : Clock} (law : IsLawful c) (cal : IsCalendar k) (now : k.Time)
    (body_len : ℕ) (parsed : k.parse_rfc3339 load_ts ≡ some now) (s : InMemoryReplayCache)
    (t i : ℕ) where
  abbrev headers_for : (valid : Bool) → SesameHeaders
  headers_for valid = load_headers c t (body_of body_len) valid i

  abbrev good_signature : Bytes
  good_signature = load_signature c (body_of body_len) (load_nonce t i)

  abbrev answer_for : (valid : Bool) → Outcome VerifiedRequest × InMemoryReplayCache
  answer_for valid =
      handle c k default_config load_provider in_memory
        (load_request c k now (headers_for valid, body_of body_len)) s

  -- A valid request is not a forgery.
  valid_no_mismatch : (s' : InMemoryReplayCache) → answer_for true ≢ (err signature_mismatch, s')
  valid_no_mismatch s' h =
      let r = nth_request c k now body_len t i in
      let valid = nth-IsValid {c = c} {k = k} law now body_len parsed t i in
      elim ((verify_request_err_iff law cal default_config load_provider in_memory r.ctx r.headers
          r.raw_body r.now r.min_tier s signature_mismatch s').0
        h) [
          | absent a m e f ↦ cc
          | incomplete p l e f ↦ cc
          | unauthentic t1 carried u f ↦
              let a = valid.authentic in
              absurd (
                mismatch-IsSigned u refl (
                  subst
                    (λ (u1 : Tier1Fields). IsSigned c load_provider r.ctx r.headers r.raw_body u1)
                    (Carries-unique a.carries carried) (a.key, a.listed, a.signed)))
          | replayed t1 a q e ↦ cc
          | ungranted t1 a q u ↦ absurd (mismatch-Ungranted u refl)
        ]

  abbrev bad_fields : Tier1Fields
  bad_fields = record {
    version = protocol_version;
    key_id = load_key_id;
    timestamp = load_ts;
    nonce = load_nonce t i;
    signature = corrupt good_signature;
  }

  corrupted_unsigned :
      corrupt good_signature ≢ good_signature
      → ¬ IsSigned c load_provider
          (load_request c k now (headers_for false, body_of body_len)).ctx
          (headers_for false)
          (body_of body_len)
          bad_fields
  unfolding load_headers load_directory static_provider with_signing_key insert get bytes_eq
  corrupted_unsigned differ (key, inl e, signed) = differ (
      sym (corrupt_lower good_signature (sign-to_lower law load_secret _))
      ∙ signed
      ∙ ap
          (λ (x : Bytes). sign c x (
            request_canonical (codes "POST") load_path load_ts (load_nonce t i)
              (body_hash_hex c.sha256 (body_of body_len)) none))
          e)
  corrupted_unsigned differ (key, inr e, signed) = elim e [ ]

  corrupted_refused :
      corrupt good_signature ≢ good_signature → answer_for false ≡ (err signature_mismatch, s)
  unfolding load_headers load_directory static_provider with_signing_key insert get bytes_eq
  corrupted_refused differ =
      let r = load_request c k now (headers_for false, body_of body_len) in
      (verify_request_err_iff law cal default_config load_provider in_memory r.ctx r.headers
          r.raw_body r.now r.min_tier s signature_mismatch s).1
        (unauthentic bad_fields
          (record {
            version = refl;
            key_id = refl;
            timestamp = refl;
            nonce = refl;
            signature = refl;
          })
          (forged refl (now, parsed, Within-self (k.unix_timestamp now)) refl (λ e. cc)
            (corrupted_unsigned differ))
          refl)

  same_headers : corrupt good_signature ≡ good_signature → headers_for true ≡ headers_for false
  unfolding load_headers
  same_headers same = rw same refl

  -- A request of the third phase that is meant to be invalid is refused for its signature, with the
  -- cache left alone, exactly when overwriting the first digit with a zero changed the signature.
  pub corrupted_iff :
      (answer_for false ≡ (err signature_mismatch, s)) ↔ (corrupt good_signature ≢ good_signature)
  corrupted_iff = (
    λ h same. valid_no_mismatch s (
        ap
          (λ (headers : SesameHeaders).
            handle c k default_config load_provider in_memory
              (load_request c k now (headers, body_of body_len)) s)
          (same_headers same)
        ∙ h),
    corrupted_refused,
  )
