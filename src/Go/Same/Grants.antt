-- ===== src/Go/Same/Grants.antt =====
-- What follows the replay check is the same in the Go port and in the crate.
use sesame_sdk.Prelude.{
  ℕ, ◌≡◌, refl, sym, ◌∙◌, Bool, true, false, not, Option, none, some, [], ◌∷◌, length, inl, inr,
  eqb, if◌then◌else◌, Bool-cases, Option-cases,
}
use sesame_sdk.Prelude.Result.{ok, err, ok_or, guard, ◌>>=◌, ◌>>◌}
use sesame_sdk.Text.{Bytes, bytes_Eq, bytes_eq, bytes_eq_iff}
use sesame_sdk.Message.{
  SesameError, SesameHeaders, Tier1Fields, Outcome, code, missing_headers, scope_denied,
  decrypt_failed,
}
use sesame_sdk.Message.Hex.{hex_decode}
use sesame_sdk.External.{Crypto}
use sesame_sdk.Keys.{KeyProvider}
use sesame_sdk.Tier.{Tier, level, two, three, tier_ge, tier_lt}
use sesame_sdk.Tier2.{authorize, parse_scope_channel, targets}
use sesame_sdk.Tier3.{iv_len, unseal, aad_for_headers}
use sesame_sdk.Verify.{VerifiedRequest, RequestContext, tier2, decrypt_body, tier3, grant}
use sesame_sdk.Go.Message.{GoHeaders}
use sesame_sdk.Go.Codec.{go_open, go_aad_for_headers}
use sesame_sdk.Go.Verify.{
  GoVerified, GoResult, scope_pointer, misses_target, go_parse_scope_channel, go_tier2, go_decrypt,
  go_tier3, go_grant,
}
use sesame_sdk.Go.Same.Strings.{go_aad_for_headers_lem}
use sesame_sdk.Go.Same.Signatures.{both_or_neither}
use sesame_sdk.Go.Same.Stores.{as_go_provider}

-- An outcome of the crate's as the port returns it: the error by its code, and the value by `f`.
abbrev pub coded_as : {A B : Type 0} → (A → B) → Outcome A → GoResult B
coded_as f (ok a) = ok (f a)
coded_as f (err e) = err (code e)

-- The port's headers as the crate has them: a header that is empty is absent.
abbrev pub as_headers : GoHeaders → SesameHeaders
as_headers g = record {
  version = scope_pointer g.version;
  key_id = scope_pointer g.key_id;
  timestamp = scope_pointer g.timestamp;
  nonce = scope_pointer g.nonce;
  signature = scope_pointer g.signature;
  scope = scope_pointer g.scope;
  encrypted = g.encrypted;
  enc_key_id = scope_pointer g.enc_key_id;
  iv = scope_pointer g.iv;
}

abbrev pub as_fields : GoHeaders → Tier1Fields
as_fields g = record {
  version = g.version;
  key_id = g.key_id;
  timestamp = g.timestamp;
  nonce = g.nonce;
  signature = g.signature;
}

-- A verified request of the crate's as the port has it: the tier by its number.
abbrev pub as_go_verified : VerifiedRequest → GoVerified
as_go_verified v = record {
  plaintext = v.plaintext;
  key_id = v.key_id;
  scope_channel = v.scope_channel;
  achieved_tier = level v.achieved_tier;
}

module _ {C D : Type 0} (g : C → D) where
  pub bind_same :
      {A B : Type 0} (f : A → B) (m : Outcome A) (m' : GoResult B) (n : A → Outcome C)
      (n' : B → GoResult D)
      → m' ≡ coded_as f m
      → ((a : A) → n' (f a) ≡ coded_as g (n a))
      → (m' >>= n') ≡ coded_as g (m >>= n)
  bind_same f (ok a) m' n n' h k = rw h (k a)
  bind_same f (err e) m' n n' h k = rw h refl

  pub guard_same :
      (b : Bool) (e : SesameError) (m : Outcome C) (n : GoResult D)
      → (b ≡ true → n ≡ coded_as g m)
      → (guard b (code e) >> n) ≡ coded_as g (guard b e >> m)
  guard_same true e m n h = h refl
  guard_same false e m n h = refl

  pub ok_or_same :
      {A : Type 0} (o : Option A) (e : SesameError) (n : A → Outcome C) (n' : A → GoResult D)
      → ((a : A) → n' a ≡ coded_as g (n a))
      → (ok_or o (code e) >>= n') ≡ coded_as g (ok_or o e >>= n)
  ok_or_same none e n n' h = refl
  ok_or_same (some a) e n n' h = h a

ok_or-code :
    (o : Option Bytes) (e : SesameError)
    → ok_or o (code e) ≡ coded_as (λ (b : Bytes). b) (ok_or o e)
ok_or-code none e = refl
ok_or-code (some a) e = refl

abbrev levelled : Option Bytes × Tier → Option Bytes × ℕ
levelled r = (r.0, level r.1)

bytes_eq_sym : (a b : Bytes) → bytes_eq a b ≡ bytes_eq b a
bytes_eq_sym a b = both_or_neither (bytes_eq a b) (bytes_eq b a) (
  λ h. (bytes_eq_iff b a).1 (sym ((bytes_eq_iff a b).0 h)),
  λ h. (bytes_eq_iff a b).1 (sym ((bytes_eq_iff b a).0 h)),
)

not-not : (b : Bool) → not (not b) ≡ b
not-not true = refl
not-not false = refl

target_same : (o : Option Bytes) (d : Bytes) → not (misses_target o d) ≡ targets o d
target_same none d = refl
target_same (some t) d = not-not (bytes_eq t d) ∙ bytes_eq_sym t d

allowed :
    (a b : Bool) (d : Bytes)
    → (guard a (code scope_denied) >> (guard b (code scope_denied) >> ok (some d, 2)))
      ≡ coded_as levelled (
          (guard a scope_denied >> (if b then ok d else err scope_denied)) >>= λ channel.
          ok (some channel, two))
allowed true true d = refl
allowed true false d = refl
allowed false b d = refl

module _ (p : KeyProvider) (ctx : RequestContext) where
  tier2_same :
      (key_id : Bytes) (scope : Option Bytes) (m : Tier)
      → go_tier2 (as_go_provider p) ctx key_id scope (level m)
        ≡ coded_as levelled (tier2 p ctx key_id scope m)
  unfolding go_tier2 tier2 authorize go_parse_scope_channel parse_scope_channel code
  tier2_same key_id none m = elim (Bool-cases (tier_ge m two)) [
    | inl e ↦ rw e refl
    | inr e ↦ rw e refl
  ]
  tier2_same key_id (some scope) m = elim (Option-cases (parse_scope_channel scope)) [
    | inl e ↦ let f : go_parse_scope_channel scope ≡ none = e in rw (f, authorize) refl
    | inr (d, e) ↦
        let f : go_parse_scope_channel scope ≡ some d = e in
        rw (f, authorize, target_same ctx.target_channel d)
          (allowed (targets ctx.target_channel d) (p.is_authorized key_id d) d)
  ]

module _ (c : Crypto) (p : KeyProvider) where
  opened :
      (g : GoHeaders) (raw_body iv aead : Bytes)
      → eqb (length iv) iv_len ≡ true
      → ok_or
          (go_open c aead iv
            (go_aad_for_headers g.version g.key_id g.timestamp g.nonce (scope_pointer g.scope))
            raw_body)
          (code decrypt_failed)
        ≡ coded_as
            (λ (b : Bytes). b)
            (unseal c aead iv
              (aad_for_headers g.version g.key_id g.timestamp g.nonce (scope_pointer g.scope))
              raw_body)
  unfolding go_open unseal
  opened g raw_body iv aead len =
      rw
        (len, go_aad_for_headers_lem g.version g.key_id g.timestamp g.nonce (scope_pointer g.scope))
        (ok_or-code _ decrypt_failed)

  decrypt_same :
      (g : GoHeaders) (raw_body : Bytes)
      → go_decrypt c (as_go_provider p) g (scope_pointer g.scope) raw_body
        ≡ coded_as (λ (b : Bytes). b) (decrypt_body c p (as_fields g) (as_headers g) raw_body)
  unfolding go_decrypt decrypt_body code unseal go_open
  decrypt_same g raw_body = go g.enc_key_id g.iv refl refl
    where
      go :
          (e i : Bytes)
          → g.enc_key_id ≡ e
          → g.iv ≡ i
          → go_decrypt c (as_go_provider p) g (scope_pointer g.scope) raw_body
            ≡ coded_as (λ (b : Bytes). b) (decrypt_body c p (as_fields g) (as_headers g) raw_body)
      go [] i he hi = rw he refl
      go (x ∷ e) [] he hi = rw (he, hi) refl
      go (x ∷ e) (y ∷ i) he hi =
          rw (he, hi)
            (ok_or_same (λ b. b) (hex_decode (y ∷ i)) decrypt_failed _ _
              (λ iv.
                guard_same (λ b. b) (eqb (length iv) iv_len) decrypt_failed _ _
                  (λ len.
                    ok_or_same (λ b. b) (p.aead_key (x ∷ e)) decrypt_failed _ _
                      (λ aead. opened g raw_body iv aead len))))

  abbrev numbered : Bytes × Tier → Bytes × ℕ
  numbered r = (r.0, level r.1)

  tier3_same :
      (g : GoHeaders) (raw_body : Bytes) (m achieved : Tier)
      → go_tier3 c (as_go_provider p) g (scope_pointer g.scope) raw_body (level m) (level achieved)
        ≡ coded_as numbered (tier3 c p (as_fields g) (as_headers g) raw_body m achieved)
  unfolding go_tier3 tier3 code go_decrypt decrypt_body
  tier3_same g raw_body m achieved = elim (Bool-cases g.encrypted) [
    | inl e ↦ rw e (
        bind_same numbered (λ (b : Bytes). b)
          (decrypt_body c p (as_fields g) (as_headers g) raw_body) _ (λ pt. ok (pt, three))
          (λ pt. ok (pt, 3)) (decrypt_same g raw_body) (λ pt. refl))
    | inr e ↦ elim (Bool-cases (tier_ge m three)) [
      | inl f ↦ rw (e, f) refl
      | inr f ↦ rw (e, f) refl
    ]
  ]

  -- What is granted, or the error, is the same.
  pub grant_same :
      (ctx : RequestContext) (g : GoHeaders) (raw_body : Bytes) (m : Tier)
      → go_grant c (as_go_provider p) ctx g (scope_pointer g.scope) raw_body (level m)
        ≡ coded_as as_go_verified (grant c p ctx (as_headers g) raw_body m (as_fields g))
  unfolding go_grant grant code
  grant_same ctx g raw_body m =
      bind_same as_go_verified levelled (tier2 p ctx g.key_id (scope_pointer g.scope) m) _ _ _
        (tier2_same p ctx g.key_id (scope_pointer g.scope) m)
        (λ r.
          bind_same as_go_verified numbered (tier3 c p (as_fields g) (as_headers g) raw_body m r.1)
            _ _ _ (tier3_same g raw_body m r.1)
            (λ q.
              guard_same as_go_verified (not (tier_lt q.1 m)) missing_headers _ _ (λ enough. refl)))
