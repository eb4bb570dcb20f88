-- ===== src/Prelude/Result.antt =====
-- `Result<A, E>`: the value or the error.
use mathlib.Core.Path.{◌≡◌, refl, ap}
use mathlib.Core.Logic.{◌↔◌, ◌⊎◌, inl, inr}
use mathlib.Core.Bool.{Bool, true, false}
use mathlib.Core.Option.{Option, none, some}
use sesame_sdk.Prelude.Tests.{if◌then◌else◌}

pub data Result {ℓ κ} (E : Type κ) (A : Type ℓ) : Type (ℓ ⊔ κ) where
  ok : A → Result E A
  err : E → Result E A

-- `?` on a `Result`.
infixl 5 ◌>>=◌ ◌>>◌
abbrev pub ◌>>=◌ {ℓ κ μ} :
    {E : Type κ} {A : Type ℓ} {B : Type μ} → Result E A → (A → Result E B) → Result E B
err e >>= next = err e
ok a >>= next = next a

abbrev pub ◌>>◌ {ℓ κ} : {E : Type κ} {B : Type ℓ} → Result E (Unit {0}) → Result E B → Result E B
test >> rest = test >>= λ _. rest

-- `Option::ok_or`.
abbrev pub ok_or {ℓ κ} : {E : Type κ} {A : Type ℓ} → Option A → E → Result E A
ok_or (some a) e = ok a
ok_or none e = err e

-- An early `return Err(e)` unless the test holds.
abbrev pub guard {κ} : {E : Type κ} → Bool → E → Result E (Unit {0})
guard false e = err e
guard true e = ok tt

pub >>=-eq-ok {ℓ κ μ} :
    {E : Type κ} {A : Type ℓ} {B : Type μ} (r : Result E A) (next : A → Result E B) {out : B}
    → (r >>= next) ≡ ok out
    → (a : A) × (r ≡ ok a) × (next a ≡ ok out)
>>=-eq-ok (err e) next h = cc
>>=-eq-ok (ok a) next h = (a, refl, h)

module _ {ℓ κ} {E : Type κ} {A : Type ℓ} where
  pub ok_or-eq-ok : (o : Option A) (e : E) {a : A} → ok_or o e ≡ ok a → o ≡ some a
  ok_or-eq-ok none e h = cc
  ok_or-eq-ok (some a) e h = cc

  pub if_err-eq-ok :
      (b : Bool) (m : Result E A) (e : E) {a : A}
      → (if b then m else err e) ≡ ok a
      → (b ≡ true) × (m ≡ ok a)
  if_err-eq-ok true m e h = (refl, h)
  if_err-eq-ok false m e h = cc

  pub guard-eq-ok :
      (b : Bool) (e : E) (m : Result E A) {a : A}
      → (guard b e >> m) ≡ ok a
      → (b ≡ true) × (m ≡ ok a)
  guard-eq-ok true e m h = (refl, h)
  guard-eq-ok false e m h = cc

  -- Where each value is characterised and there is one error, the error is the lack of a value.
  pub refused_iff {μ} :
      {P : A → Type μ} (r : Result E A) (e₀ : E)
      → ((e : E) → r ≡ err e → e ≡ e₀)
      → ((a : A) → (r ≡ ok a) ↔ P a)
      → (r ≡ err e₀) ↔ ((a : A) → P a → ⊥)
  refused_iff (ok a) e₀ only iff = (λ h. cc, λ h. absurd (h a ((iff a).0 refl)))
  refused_iff (err e) e₀ only iff = (λ h a p. let q = (iff a).1 p in cc, λ h. ap err (only e refl))

  pub guard-eq-err :
      (b : Bool) (e₀ : E) (m : Result E A) {e : E}
      → (guard b e₀ >> m) ≡ err e
      → ((b ≡ false) × (e ≡ e₀)) ⊎ ((b ≡ true) × (m ≡ err e))
  guard-eq-err true e₀ m h = inr (refl, h)
  guard-eq-err false e₀ m h = inl (refl, cc)

pub >>=-eq-err {ℓ κ μ} :
    {E : Type κ} {A : Type ℓ} {B : Type μ} (r : Result E A) (next : A → Result E B) {e : E}
    → (r >>= next) ≡ err e
    → (r ≡ err e) ⊎ ((a : A) × (r ≡ ok a) × (next a ≡ err e))
>>=-eq-err (err f) next h = inl (cc)
>>=-eq-err (ok a) next h = inr (a, refl, h)
