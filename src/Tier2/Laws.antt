-- ===== src/Tier2/Laws.antt =====
-- What `authorize` grants.
use sesame_sdk.Prelude.{
  ◌≡◌, refl, sym, ap, ◌↔◌, ◌++◌, true, Option, none, some, arith, Option-cases, inl, inr,
}
use sesame_sdk.Prelude.Result.{ok, err, ok_or, >>=-eq-ok, ok_or-eq-ok, if_err-eq-ok, guard-eq-ok}
use sesame_sdk.Text.{Bytes, codes, strip_prefix, trim, bytes_Eq, bytes_eq_iff}
use sesame_sdk.Text.Laws.{strip_prefix_iff}
use sesame_sdk.Message.{SesameError, scope_denied}
use sesame_sdk.Keys.{KeyProvider}
use sesame_sdk.Tier2.{parse_scope_channel, targets, authorize}

-- The request is for the channel, or for none that is known yet.
abbrev pub Targets : Option Bytes → Bytes → Type 0
Targets none channel = Unit
Targets (some target) channel = channel ≡ target

-- The channel that a scope header declares.
abbrev pub Declares : (scope channel : Bytes) → Type 0
Declares scope channel = (id : Bytes) × (scope ≡ codes "channel=" ++ id) × (channel ≡ trim id)

targets_iff :
    (target : Option Bytes) (channel : Bytes)
    → (targets target channel ≡ true) ↔ Targets target channel
targets_iff none channel = (λ _. tt, λ _. refl)
targets_iff (some target) channel = bytes_eq_iff channel target

pub parse_scope_channel_iff :
    (scope channel : Bytes) → (parse_scope_channel scope ≡ some channel) ↔ Declares scope channel
unfolding parse_scope_channel
parse_scope_channel_iff scope channel = (
  λ h. elim (Option-cases (strip_prefix (codes "channel=") scope)) [
    | inl e ↦ cc (rw e at h)
    | inr (id, e) ↦ (id, (strip_prefix_iff _ scope id).0 e, cc (rw e at h))
  ],
  λ (id, e, f). rw ((strip_prefix_iff (codes "channel=") scope id).1 e) (ap some (sym f)),
)

-- A request is authorised for a channel exactly when its scope header declares that channel, the
-- request targets it or no known channel, and the provider's policy grants it to the key-id.
pub authorize_iff :
    (provider : KeyProvider) (key_id scope : Bytes) (target : Option Bytes) (channel : Bytes)
    → (authorize provider key_id scope target ≡ ok channel) ↔ (
        Declares scope channel
        × Targets target channel
        × (provider.is_authorized key_id channel ≡ true))
unfolding authorize
authorize_iff provider key_id scope target channel = (
  λ h.
      let (declared, parsed, rest) =
        >>=-eq-ok (ok_or (parse_scope_channel scope) scope_denied) _ h in
      let (targeted, policy) = guard-eq-ok (targets target declared) scope_denied _ rest in
      let (granted, same) =
        if_err-eq-ok (provider.is_authorized key_id declared) (ok declared) scope_denied policy in
      let e : declared ≡ channel = cc in
      (
        (parse_scope_channel_iff scope channel).0 (rw (← e) (ok_or-eq-ok _ _ parsed)),
        (targets_iff target channel).0 (rw (← e) targeted),
        rw (← e) granted,
      ),
  λ (declared, targeted, granted). rw (
    (parse_scope_channel_iff scope channel).1 declared,
    (targets_iff target channel).1 targeted,
    granted,
  ),
)

-- It fails in no other way than with `ScopeDenied`.
pub authorize-eq-err :
    (provider : KeyProvider) (key_id scope : Bytes) (target : Option Bytes) {e : SesameError}
    → authorize provider key_id scope target ≡ err e
    → e ≡ scope_denied
unfolding authorize
authorize-eq-err provider key_id scope target h = ground arith
