-- ===== src/Base/Outcome.antt =====
-- error.rs: the errors, and what a fallible call returns. The explaining texts inside the errors are
-- left out;
-- the numbers are kept.
use Prim.Native.Nat.{ℕ}
use mathlib.Core.Path.{◌≡◌, refl}
use mathlib.Core.Logic.{◌⊎◌, inl, inr}
use mathlib.Core.Bool.{Bool, true, false}
use mathlib.Core.Option.{Option, none, some}
use mathlib.Core.List.{List, [], ◌∷◌}
use openkeyv.Base.Tests.{if◌then◌else◌}

pub data Error : Type 0 where
  store_setup store_connection serialization deserialization missing_key invalid_key : Error
  invalid_ttl invalid_value entry_too_large entry_too_small read_only : Error
  value_too_large : (size max : ℕ) → Error
  encryption decryption corrupted_data encryption_version path_security timeout : Error
  invalid_operation : Error
  batch_size_mismatch : (keys values : ℕ) → Error
  invalid_change_cursor : Error
  change_cursor_expired : (requested oldest : List ℕ) → Error
  change_feed_lagged : (skipped : ℕ) → Error
  revision_generation : Error
  -- No error of the program: a loop of the model met the end of its fuel.
  out_of_fuel : Error

pub data Result {ℓ} (A : Type ℓ) : Type ℓ where
  ok : A → Result A
  err : Error → Result A

abbrev pub bind {ℓ κ} : {A : Type ℓ} {B : Type κ} → Result A → (A → Result B) → Result B
bind (ok a) f = f a
bind (err e) f = err e

abbrev pub guard : Bool → Error → Result (Unit {0})
guard true e = ok tt
guard false e = err e

abbrev pub ok_or {ℓ} : {A : Type ℓ} → Option A → Error → Result A
ok_or none e = err e
ok_or (some a) e = ok a

abbrev pub map_err {ℓ} : {A : Type ℓ} → Result A → Error → Result A
map_err (ok a) e = ok a
map_err (err _) e = err e

-- `iter().map(f).collect::<Result<Vec<_>>>()`: the first error stops it.
abbrev pub collect {ℓ κ} : {A : Type ℓ} {B : Type κ} → (A → Result B) → List A → Result (List B)
collect f [] = ok []
collect f (x ∷ xs) = bind (f x) λ y. bind (collect f xs) λ ys. ok (y ∷ ys)

pub ok-injective {ℓ} : {A : Type ℓ} {a b : A} → ◌≡◌ {A = Result A} (ok a) (ok b) → a ≡ b
ok-injective h = cc

pub Result-cases {ℓ} :
    {A : Type ℓ} (r : Result A) → ((a : A) × (r ≡ ok a)) ⊎ ((x : Error) × (r ≡ err x))
Result-cases (ok a) = inl (a, refl)
Result-cases (err x) = inr (x, refl)

pub bind-eq-ok {ℓ κ} :
    {A : Type ℓ} {B : Type κ} (m : Result A) (f : A → Result B) {b : B}
    → bind m f ≡ ok b
    → (a : A) × (m ≡ ok a) × (f a ≡ ok b)
bind-eq-ok (ok a) f h = (a, refl, h)
bind-eq-ok (err e) f h = cc

-- A call that returns has passed its guard.
pub if-eq-ok {ℓ} :
    {A : Type ℓ} (b : Bool) (e : Error) (m : Result A) {a : A}
    → (if b then err e else m) ≡ ok a
    → (b ≡ false) × (m ≡ ok a)
if-eq-ok true e m h = cc
if-eq-ok false e m h = (refl, h)

pub ok_or-eq-ok {ℓ} :
    {A : Type ℓ} (o : Option A) (e : Error) {a : A} → ok_or o e ≡ ok a → o ≡ some a
ok_or-eq-ok none e h = cc
ok_or-eq-ok (some x) e h = cc
