-- ===== src/Tier2.antt =====
-- src/tier2_authz.rs: the scope header and the channel policy.
pub mod Laws
use sesame_sdk.Prelude.{Bool, ◌≡◌, Option, none, some, if◌then◌else◌, ◌==◌, true}
use mathlib.Core.Option
use sesame_sdk.Prelude.Result.{Result, ok, err, ok_or, guard, ◌>>=◌, ◌>>◌}
use sesame_sdk.Text.{Bytes, codes, strip_prefix, trim, bytes_Eq, bytes_eq}
use sesame_sdk.Message.{Outcome, scope_denied}
use sesame_sdk.Keys.{KeyProvider}

unfoldable pub parse_scope_channel : (scope : Bytes) → Option Bytes
parse_scope_channel scope = Option.map trim (strip_prefix (codes "channel=") scope)

-- The test `if let Some(target) = target_channel { if !declared.eq(target) … }`.
abbrev pub targets : Option Bytes → Bytes → Bool
targets none declared = true
targets (some target) declared = declared == target

unfoldable pub authorize :
    KeyProvider → (key_id scope : Bytes) (target_channel : Option Bytes) → Outcome Bytes
unfolding parse_scope_channel
authorize provider key_id scope target_channel = do
  declared ← ok_or (parse_scope_channel scope) scope_denied
  guard (targets target_channel declared) scope_denied
  if provider.is_authorized key_id declared then ok declared else err scope_denied
