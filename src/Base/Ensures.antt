-- ===== src/Base/Ensures.antt =====
-- What holds of a result: a property of its value, or the one error it may be.
use mathlib.Core.Path.{◌≡◌, refl}
use mathlib.Core.Logic.{◌⊎◌, inl, inr}
use mathlib.Core.Bool.{Bool, true, false}
use openkeyv.Base.Tests.{if◌then◌else◌}
use openkeyv.Base.Outcome.{Error, Result, ok, err, bind}

-- The value of the result has the property, or the result is the error `e`.
pub data Ensures {ℓ κ} {A : Type ℓ} (e : Error) (P : A → Type κ) : Result A → Type (ℓ ⊔ κ) where
  holds : {a : A} → P a → Ensures e P (ok a)
  rejected : Ensures e P (err e)

module _ {ℓ κ} {A : Type ℓ} {e : Error} {P : A → Type κ} where
  pub Ensures-map {κ'} :
      {Q : A → Type κ'} {r : Result A} → Ensures e P r → ((a : A) → P a → Q a) → Ensures e Q r
  Ensures-map (holds {a} h) k = holds (k a h)
  Ensures-map rejected k = rejected

  pub Ensures-cases : {r : Result A} → Ensures e P r → ((a : A) × (r ≡ ok a) × P a) ⊎ (r ≡ err e)
  Ensures-cases (holds {a} h) = inl (a, refl, h)
  Ensures-cases rejected = inr refl

  pub Ensures-if :
      (b : Bool) {x y : Result A}
      → (b ≡ true → Ensures e P x)
      → (b ≡ false → Ensures e P y)
      → Ensures e P (if b then x else y)
  Ensures-if true hx hy = hx refl
  Ensures-if false hx hy = hy refl

  pub Ensures-bind {ℓ' κ'} :
      {B : Type ℓ'} {Q : B → Type κ'} {r : Result A} {f : A → Result B}
      → Ensures e P r
      → ((a : A) → P a → Ensures e Q (f a))
      → Ensures e Q (bind r f)
  Ensures-bind (holds {a} h) k = k a h
  Ensures-bind rejected k = rejected
