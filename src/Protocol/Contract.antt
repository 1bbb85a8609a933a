-- ===== src/Protocol/Contract.antt =====
-- What a store promises to its clients and wrappers, over a view of the entries that it holds.
use openkeyv.Base.{◌≡◌, refl}
use openkeyv.Base.{Bool, true, false, ◌&&◌, Option, none, some, arith}
use openkeyv.Base.{if◌then◌else◌}
use openkeyv.Base.{Error, ok, err}
use openkeyv.Base.Bytes.{Text, bytes_eq, bytes_eq_refl, bytes_eq_iff}
use openkeyv.Platform.{Platform}
use openkeyv.Value.Checked.{Value}
use openkeyv.Entry.{ManagedEntry, make, is_expired}
use openkeyv.Protocol.{KeyValue}

abbrev pub resolve : Text → Option Text → Text
resolve default none = default
resolve default (some c) = c

abbrev pub same_place : Text → Text → Text → Text → Bool
same_place c k d j = bytes_eq c d && bytes_eq k j

module _ {T F : Type 0} (os : Platform T F) where
  -- The value of an entry that has not expired.
  abbrev pub live : T → Option (ManagedEntry T) → Option Value
  live now none = none
  live now (some e) = if is_expired os now e then none else some e.value

abbrev pub is_present {ℓ} : {A : Type ℓ} → Option A → Bool
is_present none = false
is_present (some a) = true

-- What a client can know of the state of a store: the entry under a collection and a key, the name
-- of the default collection, and the reading of the clock that the next call will make.
pub record Model (S T : Type 0) : Type 0 where
  pub view : S → Text → Text → Option (ManagedEntry T)
  pub default : S → Text
  pub now : S → T

-- A read shows the live entry and changes none; a write that is accepted puts the entry in its place
-- and changes no other, and one that is refused changes none; a deletion empties the place and says
-- whether it held an entry, live or not.
pub record Contract {T F S : Type 0} (os : Platform T F) (kv : KeyValue S F) (m : Model S T)
    : Type 0 where
  pub get_shows :
      (s : S) (k : Text) (c : Option Text)
      → (kv.get k c s).0 ≡ ok (live os (m.now s) (m.view s (resolve (m.default s) c) k))
  pub get_keeps :
      (s : S) (k : Text) (c : Option Text) (d j : Text) → m.view (kv.get k c s).1 d j ≡ m.view s d j
  pub get_default : (s : S) (k : Text) (c : Option Text) → m.default (kv.get k c s).1 ≡ m.default s
  pub put_accepts :
      (s : S) (k : Text) (v : Value) (c : Option Text) (ttl : Option F) (e : ManagedEntry T)
      → make os (m.now s) v ttl ≡ ok e
      → (kv.put k v c ttl s).0 ≡ ok tt
  pub put_stores :
      (s : S) (k : Text) (v : Value) (c : Option Text) (ttl : Option F) (e : ManagedEntry T)
      → make os (m.now s) v ttl ≡ ok e
      → (d j : Text)
      → m.view (kv.put k v c ttl s).1 d j
        ≡ (if same_place (resolve (m.default s) c) k d j then some e else m.view s d j)
  pub put_refuses :
      (s : S) (k : Text) (v : Value) (c : Option Text) (ttl : Option F) (x : Error)
      → make os (m.now s) v ttl ≡ err x
      → (kv.put k v c ttl s).0 ≡ err x
  pub refused_keeps :
      (s : S) (k : Text) (v : Value) (c : Option Text) (ttl : Option F) (x : Error)
      → make os (m.now s) v ttl ≡ err x
      → (d j : Text) → m.view (kv.put k v c ttl s).1 d j ≡ m.view s d j
  pub put_default :
      (s : S) (k : Text) (v : Value) (c : Option Text) (ttl : Option F)
      → m.default (kv.put k v c ttl s).1 ≡ m.default s
  pub delete_says :
      (s : S) (k : Text) (c : Option Text)
      → (kv.delete k c s).0 ≡ ok (is_present (m.view s (resolve (m.default s) c) k))
  pub delete_empties :
      (s : S) (k : Text) (c : Option Text) (d j : Text)
      → m.view (kv.delete k c s).1 d j
        ≡ (if same_place (resolve (m.default s) c) k d j then none else m.view s d j)
  pub delete_default :
      (s : S) (k : Text) (c : Option Text) → m.default (kv.delete k c s).1 ≡ m.default s

pub same_place_refl : (c k : Text) → same_place c k c k ≡ true
same_place_refl c k = rw (bytes_eq_refl c, bytes_eq_refl k) refl

pub same_place-true : (c k d j : Text) → same_place c k d j ≡ true → (c ≡ d) × (k ≡ j)
same_place-true c k d j h =
    ((bytes_eq_iff c d).0 (ground arith), (bytes_eq_iff k j).0 (ground arith))
