-- ===== src/Units/Policies.antt =====
-- The tests of src/tier2_authz.rs, src/keys.rs and src/replay.rs.
use sesame_sdk.Prelude.{ℕ, ◌≡◌, refl, Bool, true, false, Option, none, some, List, [], ◌∷◌, length}
use sesame_sdk.Prelude.Int.{pos, add_i64}
use sesame_sdk.Prelude.AssocMap.{get, insert, retain}
use sesame_sdk.Prelude.Result.{ok, err}
use sesame_sdk.Text.{
  Bytes, codes, bytes_eq, strip_prefix, trim, trim_start, trim_end, trim_by, strip_any, pair_eq,
}
use sesame_sdk.Message.{Outcome, scope_denied}
use sesame_sdk.Keys.{
  KeyProvider, new, with_signing_key, with_aead_key, revoke, static_provider, list_scope, all_scope,
  permits,
}
use sesame_sdk.Replay.{InMemoryReplayCache, check_and_remember, prune, remember, len}
use sesame_sdk.Replay
use sesame_sdk.Tier2.{parse_scope_channel, authorize}
use sesame_sdk.Suite.Data.{repeated}

unfoldable parse_scope : Option Bytes × Option Bytes
unfolding parse_scope_channel
parse_scope =
    (parse_scope_channel (codes "channel=SportsFeed-East"), parse_scope_channel (codes "nope"))

parse_scope_lem : parse_scope ≡ (some (codes "SportsFeed-East"), none)
unfolding parse_scope parse_scope_channel strip_prefix trim trim_start trim_end trim_by strip_any
parse_scope_lem = refl

abbrev east_provider : Bytes → KeyProvider
east_provider secret =
    static_provider (
      with_signing_key new (codes "sas-east-01") secret (list_scope (codes "SportsFeed-East" ∷ [])))

-- `authorized_channel_accepted`, `unauthorized_channel_denied` and `scope_target_mismatch_denied`
unfoldable authorize_cases : List (Outcome Bytes)
unfolding authorize
authorize_cases =
    let p = east_provider (codes "k") in
    authorize p (codes "sas-east-01") (codes "channel=SportsFeed-East")
      (some (codes "SportsFeed-East"))
    ∷ authorize p (codes "sas-east-01") (codes "channel=PremiumFeed") (some (codes "PremiumFeed"))
    ∷ authorize p (codes "sas-east-01") (codes "channel=SportsFeed-East")
        (some (codes "PremiumFeed"))
    ∷ []

authorize_cases_lem :
    authorize_cases ≡ ok (codes "SportsFeed-East") ∷ err scope_denied ∷ err scope_denied ∷ []
unfolding authorize_cases authorize parse_scope_channel strip_prefix trim trim_start trim_end
    trim_by strip_any bytes_eq static_provider with_signing_key insert get permits
authorize_cases_lem = refl

unfoldable lookup_and_scope : ℕ × ℕ × List Bool
lookup_and_scope =
    let p = east_provider (codes "secret") in
    (
      length (p.signing_keys (codes "sas-east-01")),
      length (p.signing_keys (codes "nope")),
      p.is_authorized (codes "sas-east-01") (codes "SportsFeed-East")
          ∷ p.is_authorized (codes "sas-east-01") (codes "PremiumFeed")
          ∷ p.is_revoked (codes "sas-east-01")
          ∷ [],
    )

lookup_and_scope_lem : lookup_and_scope ≡ (1, 0, true ∷ false ∷ false ∷ [])
unfolding lookup_and_scope bytes_eq static_provider with_signing_key insert get permits
lookup_and_scope_lem = refl

unfoldable revoked_key : Bool × Bool
revoked_key =
    let p =
      static_provider
        (revoke (with_signing_key new (codes "k") (codes "s") all_scope) (codes "k")) in
    (p.is_revoked (codes "k"), p.is_authorized (codes "k") (codes "anything"))

revoked_key_lem : revoked_key ≡ (true, false)
unfolding revoked_key bytes_eq static_provider with_signing_key revoke insert get permits
revoked_key_lem = refl

unfoldable aead_namespace : Option Bytes × Option Bytes
aead_namespace =
    let p = static_provider (with_aead_key new (codes "enc-2026q1") (repeated 9 32)) in
    (p.aead_key (codes "enc-2026q1"), p.aead_key (codes "sas-east-01"))

aead_namespace_lem : aead_namespace ≡ (some (repeated 9 32), none)
unfolding aead_namespace bytes_eq static_provider with_aead_key insert get
aead_namespace_lem = refl

-- The answers to calls in turn, and the cache after them.
abbrev replies : InMemoryReplayCache → List (Bytes × Bytes × ℕ) → List Bool × InMemoryReplayCache
replies cache [] = ([], cache)
replies cache ((key_id, nonce, now) ∷ calls) =
    let (fresh, after) = check_and_remember cache key_id nonce (pos now) in
    let later = replies after calls in (fresh ∷ later.0, later.1)

unfoldable first_use_and_replay : List Bool
first_use_and_replay =
    (replies (Replay.new (pos 300)) (
      (codes "k", codes "nonce-1", 1000)
      ∷ (codes "k", codes "nonce-1", 1100)
      ∷ (codes "k", codes "nonce-2", 1100)
      ∷ (codes "k2", codes "nonce-1", 1100)
      ∷ [])).0

first_use_and_replay_lem : first_use_and_replay ≡ true ∷ false ∷ true ∷ true ∷ []
unfolding first_use_and_replay Replay.new check_and_remember prune remember get insert retain
    pair_eq bytes_eq add_i64
first_use_and_replay_lem = refl

unfoldable expired_pruned : List Bool × ℕ
expired_pruned =
    let r =
      replies (Replay.new (pos 300))
        ((codes "k", codes "n", 1000) ∷ (codes "k", codes "n2", 2000) ∷ []) in
    (r.0, len r.1)

expired_pruned_lem : expired_pruned ≡ (true ∷ true ∷ [], 1)
unfolding expired_pruned Replay.new check_and_remember prune remember get insert retain pair_eq
    bytes_eq len add_i64
expired_pruned_lem = refl
