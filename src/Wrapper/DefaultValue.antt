-- ===== src/Wrapper/DefaultValue.antt =====
-- wrapper/default_value.rs: a default in place of a missing value.
use openkeyv.Base.{◌≡◌}
use openkeyv.Base.{Option, none, some, map, arith}
use openkeyv.Base.{ok}
use openkeyv.Base.Bytes.{Text}
use openkeyv.Platform.{Platform}
use openkeyv.Value.Checked.{Value}
use openkeyv.Protocol.{◌>>=◌, pure, KeyValue, Enumerate}
use openkeyv.Protocol.Contract.{resolve, live, Model, Contract}

-- `opt.or_else(|| Some(default))`
abbrev pub or_some {ℓ} : {A : Type ℓ} → A → Option A → Option A
or_some a none = some a
or_some a (some b) = some b

module _ {S F : Type 0} (default : Value) where
  unfoldable pub default_value : KeyValue S F → KeyValue S F
  default_value inner = record {
    get = λ k c. do
      v ← inner.get k c
      pure (or_some default v);
    ttl = λ k c. do
      v ← inner.ttl k c
      pure (or_some (default, none) v);
    put = inner.put;
    delete = inner.delete;
    get_many = λ ks c. do
      vs ← inner.get_many ks c
      pure (map (or_some default) vs);
    ttl_many = λ ks c. do
      vs ← inner.ttl_many ks c
      pure (map (or_some (default, none)) vs);
    put_many = inner.put_many;
    delete_many = inner.delete_many;
  }

-- `impl AsyncEnumerateKeys` and `impl AsyncEnumerateCollections`
module _ {S : Type 0} where
  unfoldable pub default_value_enumerate : Enumerate S → Enumerate S
  default_value_enumerate inner = record { keys = inner.keys; collections = inner.collections }

module _ {T S F : Type 0} (os : Platform T F) (inner : KeyValue S F) (m : Model S T)
    (h : Contract os inner m) (default : Value) where
  abbrev shown : Option Value → Value
  shown none = default
  shown (some v) = v

  default_value-shows :
      (s : S) (k : Text) (c : Option Text)
      → ((default_value default inner).get k c s).0
        ≡ ok (some (shown (live os (m.now s) (m.view s (resolve (m.default s) c) k))))
  unfolding default_value
  default_value-shows s k c = ground (arith, h.get_shows s k c)

  -- A read through the wrapper over a store that keeps the contract always has a value: the live one
  -- if there is one, or the default; the default is not stored, so the entries stay as they were.
  pub default_value-get :
      (s : S) (k : Text) (c : Option Text)
      → (((default_value default inner).get k c s).0
          ≡ ok (some (shown (live os (m.now s) (m.view s (resolve (m.default s) c) k)))))
        × ((d j : Text) → m.view ((default_value default inner).get k c s).1 d j ≡ m.view s d j)
  unfolding default_value
  default_value-get s k c =
      (default_value-shows s k c, λ d j. ground (arith, h.get_shows s k c, h.get_keeps s k c d j))
