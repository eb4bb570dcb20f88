-- ===== src/Prelude/AssocMap/Laws.antt =====
-- Maps with one entry for each key: what `insert` and `retain` keep, and what they read as.
use sesame_sdk.Prelude.Tests.{if◌then◌else◌, Eq, ◌==◌, ==_iff, Bool-cases}
use mathlib.Core.Path.{◌≡◌, refl, sym}
use mathlib.Core.Bool.{Bool, false}
use mathlib.Core.Logic.{inl, inr}
use mathlib.Core.Option.{Option, none, some}
use mathlib.Core.List.{[], ◌∷◌}
use native.Mathlib.Omega.{arith}
use sesame_sdk.Prelude.AssocMap.{AssocMap, get, insert, retain, Absent, IsMap}

abbrev pub filter_opt {ℓ} : {V : Type ℓ} → (V → Bool) → Option V → Option V
filter_opt keep none = none
filter_opt keep (some v) = if keep v then some v else none

module _ {ℓ κ} {K : Type ℓ} {V : Type κ} ⦃e : Eq K⦄ where
  get_of_Absent : (m : AssocMap K V) (k : K) → Absent k m → get m k ≡ none
  unfolding get
  get_of_Absent [] k h = refl
  get_of_Absent ((j, w) ∷ m) k (p, h) = rw p (get_of_Absent m k h)

  Absent-insert :
      (m : AssocMap K V) (j k : K) (v : V) → (k == j) ≡ false → Absent j m → Absent j (insert m k v)
  unfolding insert
  Absent-insert [] j k v n h = (n, tt)
  Absent-insert ((i, w) ∷ m) j k v n (p, h) = elim (Bool-cases (i == k)) [
    | inl s ↦ rw s (n, h)
    | inr d ↦ rw d (p, Absent-insert m j k v n h)
  ]

  pub insert-IsMap : (m : AssocMap K V) (k : K) (v : V) → IsMap m → IsMap (insert m k v)
  unfolding insert
  insert-IsMap [] k v h = (tt, tt)
  insert-IsMap ((i, w) ∷ m) k v (a, h) = elim (Bool-cases (i == k)) [
    | inl s ↦ rw (s, sym ((==_iff i k).0 s)) (a, h)
    | inr d ↦
        rw d
          (Absent-insert m i k v (ground (arith, ==_iff i k, ==_iff k i)) a, insert-IsMap m k v h)
  ]

  Absent-retain :
      (keep : V → Bool) (m : AssocMap K V) (k : K) → Absent k m → Absent k (retain keep m)
  unfolding retain
  Absent-retain keep [] k h = tt
  Absent-retain keep ((i, w) ∷ m) k (p, h) = elim (Bool-cases (keep w)) [
    | inl s ↦ rw s (p, Absent-retain keep m k h)
    | inr d ↦ rw d (Absent-retain keep m k h)
  ]

  pub retain-IsMap : (keep : V → Bool) (m : AssocMap K V) → IsMap m → IsMap (retain keep m)
  unfolding retain
  retain-IsMap keep [] h = tt
  retain-IsMap keep ((i, w) ∷ m) (a, h) = elim (Bool-cases (keep w)) [
    | inl s ↦ rw s (Absent-retain keep m i a, retain-IsMap keep m h)
    | inr d ↦ rw d (retain-IsMap keep m h)
  ]

  -- A sweep drops the entries that fail the test, and reads as before at the others.
  pub get-retain :
      (keep : V → Bool) (m : AssocMap K V) (k : K)
      → IsMap m
      → get (retain keep m) k ≡ filter_opt keep (get m k)
  unfolding get retain
  get-retain keep [] k h = refl
  get-retain keep ((i, w) ∷ m) k (a, h) =
      ground (arith, get-retain keep m k h, get_of_Absent m i a, ==_iff i k, ==_iff k i)
