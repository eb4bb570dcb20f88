-- ===== src/Tier.antt =====
-- src/lib.rs: the security tiers and the configuration.
use sesame_sdk.Prelude.{ℕ, suc, Bool, ltb, leb, eqb}
use sesame_sdk.Prelude.Int.{ℤ, pos}

pub data Tier : Type 0 where
  zero one two three : Tier

-- `Tier::level`
abbrev pub level : Tier → ℕ
level Tier.zero = 0
level one = 1
level two = 2
level three = 3

-- `Tier::from_u8`
unfoldable pub from_u8 : ℕ → Tier
from_u8 ℕ.zero = Tier.zero
from_u8 (suc ℕ.zero) = one
from_u8 (suc (suc ℕ.zero)) = two
from_u8 (suc (suc (suc n))) = three

-- The derived `==`, `<` and `>=`.
abbrev pub tier_eq : Tier → Tier → Bool
tier_eq a b = eqb (level a) (level b)

abbrev pub tier_lt : Tier → Tier → Bool
tier_lt a b = ltb (level a) (level b)

abbrev pub tier_ge : Tier → Tier → Bool
tier_ge a b = leb (level b) (level a)

pub record SesameConfig : Type 0 where
  pub replay_window_secs : ℤ

-- `SesameConfig::default`
abbrev pub default_config : SesameConfig
default_config = record { replay_window_secs = pos 300 }
