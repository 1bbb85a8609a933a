-- ===== src/Wrapper/TtlClamp.antt =====
-- wrapper/ttl_clamp.rs: times to live are kept in a range.
use openkeyv.Base.{◌≡◌}
use openkeyv.Base.{◌↔◌, true, Option, none, some, arith}
use mathlib.Core.Option.{some-injective}
use openkeyv.Platform.{Platform}
use openkeyv.Protocol.{KeyValue, CompareAndSwap}

-- `min_ttl`, `max_ttl` and `missing_ttl` of the wrapper.
pub record TtlClamp (F : Type 0) : Type 0 where
  pub min_ttl : Option F
  pub max_ttl : Option F
  pub missing_ttl : Option F

abbrev or_else {ℓ} : {A : Type ℓ} → Option A → Option A → Option A
or_else none b = b
or_else (some a) b = some a

module _ {T F : Type 0} (os : Platform T F) where
  abbrev at_least : Option F → F → F
  at_least none x = x
  at_least (some lo) x = os.max_float x lo

  abbrev at_most : Option F → F → F
  at_most none x = x
  at_most (some hi) x = os.min_float x hi

  unfoldable pub clamp_ttl : TtlClamp F → Option F → Option F
  clamp_ttl w ttl = elim (or_else ttl w.missing_ttl) [
    | none ↦ none
    | some seconds ↦ some (at_most w.max_ttl (at_least w.min_ttl seconds))
  ]

  module _ {S : Type 0} (w : TtlClamp F) where
    unfoldable pub ttl_clamp : KeyValue S F → KeyValue S F
    ttl_clamp inner = record {
      get = inner.get;
      ttl = inner.ttl;
      put = λ k v c t. inner.put k v c (clamp_ttl w t);
      delete = inner.delete;
      get_many = inner.get_many;
      ttl_many = inner.ttl_many;
      put_many = λ ks vs c t. inner.put_many ks vs c (clamp_ttl w t);
      delete_many = inner.delete_many;
    }

    unfoldable pub ttl_clamp_cas : CompareAndSwap S F → CompareAndSwap S F
    ttl_clamp_cas inner = record {
      get_with_revision = inner.get_with_revision;
      compare_and_swap = λ k x v c t. inner.compare_and_swap k x v c (clamp_ttl w t);
      compare_and_delete = inner.compare_and_delete;
    }

  -- What the program relies on in `f64`, NaN included: what is compared and found in order is not
  -- NaN, and only NaN is not at or below itself. `max` and `min` give the other argument where one
  -- is NaN, so `max` is at or above a second argument that is not NaN, and `min` at or below it; and
  -- what is at or below both arguments is at or below their minimum.
  pub record IsOrdered : Type 0 where
    pub numbers :
        (x y : F) → os.le_float x y ≡ true → (os.le_float x x ≡ true) × (os.le_float y y ≡ true)
    pub le-max : (x y : F) → os.le_float y y ≡ true → os.le_float y (os.max_float x y) ≡ true
    pub min-le : (x y : F) → os.le_float y y ≡ true → os.le_float (os.min_float x y) y ≡ true
    pub le-min :
        (z x y : F)
        → os.le_float z x ≡ true
        → os.le_float z y ≡ true
        → os.le_float z (os.min_float x y) ≡ true

  module _ (lo hi : F) (f : IsOrdered) (h : os.le_float lo hi ≡ true) where
    abbrev clamped : F → F
    clamped x = os.min_float (os.max_float x lo) hi

    in_range : (y x : F) → clamped y ≡ x → (os.le_float lo x ≡ true) × (os.le_float x hi ≡ true)
    in_range y x e = rw (← e) (
      f.le-min lo (os.max_float y lo) hi (f.le-max y lo (f.numbers lo hi h).0) h,
      f.min-le (os.max_float y lo) hi (f.numbers lo hi h).1,
    )

    abbrev range : Option F → TtlClamp F
    range missing = record { min_ttl = some lo; max_ttl = some hi; missing_ttl = missing }

    hands_on :
        (missing ttl : Option F) (x : F)
        → clamp_ttl (range missing) ttl ≡ some x
        → (os.le_float lo x ≡ true) × (os.le_float x hi ≡ true)
    unfolding clamp_ttl
    hands_on missing (some y) x e = in_range y x (some-injective (clamped y) x e)
    hands_on (some y) none x e = in_range y x (some-injective (clamped y) x e)
    hands_on none none x e = cc

    -- With bounds `lo <= hi`, neither of them NaN, every time to live that the wrapper hands on lies
    -- in the range, be it given, NaN included, or the one for missing times; and it hands on none
    -- exactly when none is given and there is none for missing times. For floating numbers that are
    -- ordered as in IsOrdered.
    pub clamp_ttl_bounds :
        (missing ttl : Option F)
        → ((x : F)
            → clamp_ttl (range missing) ttl ≡ some x
            → (os.le_float lo x ≡ true) × (os.le_float x hi ≡ true))
          × ((clamp_ttl (range missing) ttl ≡ none) ↔ ((ttl ≡ none) × (missing ≡ none)))
    unfolding clamp_ttl
    clamp_ttl_bounds missing ttl = (hands_on missing ttl, (λ e. ground arith, λ e. ground arith))
