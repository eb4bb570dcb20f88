-- ===== src/Prelude/AssocMap.antt =====
-- `std::collections::HashMap`, as an association list with one entry for each key. The order of
-- the entries is never observed.
pub mod Laws
use Prim.Native.Nat.{ℕ, suc, ◌+◌, ◌≤◌}
use mathlib.Core.Path.{◌≡◌, refl, ap}
use mathlib.Core.Bool.{Bool, true, false}
use mathlib.Core.Logic.{inl, inr}
use mathlib.Core.Option.{Option, none, some}
use mathlib.Core.List.{List, [], ◌∷◌}
use native.Mathlib.Omega.{arith}
use sesame_sdk.Prelude.Tests.{if◌then◌else◌, Eq, ◌==◌, ==_iff, Bool-cases}
use sesame_sdk.Prelude.Lists.{length}

abbrev pub AssocMap {ℓ κ} : Type ℓ → Type κ → Type (ℓ ⊔ κ)
AssocMap K V = List (K × V)

module _ {ℓ κ} {K : Type ℓ} {V : Type κ} ⦃e : Eq K⦄ where
  unfoldable pub get : AssocMap K V → K → Option V
  get [] k = none
  get ((j, v) ∷ m) k = if j == k then some v else get m k

  unfoldable pub insert : AssocMap K V → K → V → AssocMap K V
  insert [] k v = (k, v) ∷ []
  insert ((j, w) ∷ m) k v = if j == k then (k, v) ∷ m else (j, w) ∷ insert m k v

  -- `retain(|_, v| keep(v))`
  unfoldable pub retain : (V → Bool) → AssocMap K V → AssocMap K V
  retain keep [] = []
  retain keep ((j, w) ∷ m) = let rest = retain keep m in if keep w then (j, w) ∷ rest else rest

  -- Each key has one entry.
  abbrev pub Absent : K → AssocMap K V → Type 0
  Absent k [] = Unit
  Absent k ((j, w) ∷ m) = ((j == k) ≡ false) × Absent k m

  abbrev pub IsMap : AssocMap K V → Type 0
  IsMap [] = Unit
  IsMap ((j, w) ∷ m) = Absent j m × IsMap m

  pub get-insert :
      (m : AssocMap K V) (k j : K) (v : V)
      → get (insert m k v) j ≡ (if k == j then some v else get m j)
  unfolding get insert
  get-insert [] k j v = refl
  get-insert ((i, w) ∷ m) k j v =
      ground (arith, ==_iff k j, ==_iff i k, ==_iff i j, get-insert m k j v)
