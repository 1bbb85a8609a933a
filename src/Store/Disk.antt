-- ===== src/Store/Disk.antt =====
-- store/disk: a store over the embedded database sled, which is a parameter. Each collection has a
-- tree, which is named by the hexadecimal digits of the collection.
pub mod Trees
pub mod Calls
pub mod Names
pub mod Laws
use openkeyv.Base.{
  ℕ, zero, suc, ◌+◌, ◌-◌, ◌*◌, ◌/◌, ◌%◌, ◌^◌, ◌≤◌, ◌<◌, ◌≡◌, refl, sym, ap, ◌∙◌, fun_ext,
}
use openkeyv.Base.{
  ◌≢◌, ◌↔◌, ◌⊎◌, inl, inr, Bool, true, false, not, ◌&&◌, ◌||◌, Option, none, some, List, [], ◌∷◌,
  ◌++◌, map, append-nil, append_assoc, arith,
}
use openkeyv.Base.{
  ltb, leb, ◌==◌, if◌then◌else◌, Bool-cases, leb→le, le→leb, ltb→lt, lt→ltb, le→ltb,
}
use openkeyv.Base.{
  length, take, drop, get_elem?, All, zip_with, length-append, take-append, drop-append, take-drop,
  length-take, length-take-le, drop-take, length-drop, take_all, All-split, All-drop,
  get_elem?-drop, All-append, length-map,
}
use openkeyv.Base.{
  Error, Result, ok, err, bind, guard, ok_or, map_err, collect, bind-eq-ok, if-eq-ok, ok_or-eq-ok,
  ok-injective, Result-cases,
}
use openkeyv.Base.{
  store_connection, serialization, deserialization, invalid_key, invalid_ttl, invalid_value,
  invalid_operation, entry_too_large, entry_too_small, read_only, corrupted_data,
  batch_size_mismatch, invalid_change_cursor, change_cursor_expired, change_feed_lagged,
  revision_generation, out_of_fuel,
}
use openkeyv.Base.Bytes.{
  Bytes, Text, IsByte, bytes_eq, bytes_eq_iff, bytes_eq_refl, bytes_eq-append, starts_with,
  starts_with-append, to_le_bytes, from_le_bytes, length-to_le_bytes, to_le_bytes-IsByte,
  from_le_bytes-to_le_bytes, to_le_bytes-from_le_bytes, from_le_bytes-lt,
}
use openkeyv.Platform.{Platform, Inputs}
use openkeyv.Value.Checked.{Value}
use openkeyv.Entry.{ManagedEntry, is_expired}
use openkeyv.Value.Utf8.{is_utf8}
use openkeyv.Entry.Codec
use openkeyv.Protocol.{Done, Op, continue, each, ◌>>=◌, ◌>>◌, pure, lift}
use openkeyv.Protocol.Contract.{resolve, is_present}
use openkeyv.Store.Disk.Trees.{encode_tree_name, decode_tree_name}

-- What the store calls of `sled::Db` and `sled::Tree`, on the state `D` of the database. A tree is
-- known by its name; an item of an iteration may be an error.
pub record Sled (D : Type 0) : Type 0 where
  pub open_tree : Bytes → Op D Done
  pub tree_names : D → List Bytes
  pub drop_tree : Bytes → Op D Bool
  pub get : Bytes → Bytes → Op D (Option Bytes)
  pub insert : Bytes → Bytes → Bytes → Op D Done
  pub remove : Bytes → Bytes → Op D (Option Bytes)
  pub flush : Bytes → Op D Done
  pub iter : Bytes → D → List (Result (Bytes × Bytes))

-- `DiskStore`: the database and the configured collection name.
pub record DiskStore (D : Type 0) : Type 0 where
  pub db : D
  pub default_collection : Text

module _ {D A : Type 0} where
  -- A call of the database, its errors turned into `StoreConnection`.
  abbrev pub in_db : Op D A → Op (DiskStore D) A
  in_db m s = let (r, d) = m s.db in (map_err r store_connection, record s { db = d })

module _ {D : Type 0} (sled : Sled D) where
  unfoldable pub open_physical_tree : Bytes → Op (DiskStore D) Done
  open_physical_tree name = in_db (sled.open_tree name)

  -- The tree of a collection, by its name.
  unfoldable pub get_tree : Text → Op (DiskStore D) Bytes
  unfolding open_physical_tree
  get_tree collection = do
    name ← lift (encode_tree_name collection)
    open_physical_tree name
    pure name

  -- `filter_map(..).collect()` over the names of the trees.
  unfoldable pub owned_names : List Bytes → Result (List (Bytes × Text))
  owned_names [] = ok []
  owned_names (name ∷ names) = bind (decode_tree_name name) λ found.
      bind (owned_names names) λ rest. ok (elim found [ none ↦ rest | some tree ↦ tree ∷ rest ])

  unfoldable pub owned_tree_names : Op (DiskStore D) (List (Bytes × Text))
  unfolding owned_names
  owned_tree_names s = (owned_names (sled.tree_names s.db), s)

module _ {T F : Type 0} (os : Platform T F) where
  -- The keys of the expired entries; the test of the i-th entry reads the clock at `clock i`.
  unfoldable pub validate_entries : (ℕ → T) → List (Result (Bytes × Bytes)) → Result (List Bytes)
  validate_entries clock [] = ok []
  validate_entries clock (item ∷ items) = bind (map_err item store_connection) λ (key, value).
      if not (is_utf8 key)
      then err invalid_key
      else (bind (Codec.decode os value) λ entry.
          bind (validate_entries (λ i. clock (i + 1)) items)
            λ rest. ok (if is_expired os (clock 0) entry then key ∷ rest else rest))

  module _ {D : Type 0} (sled : Sled D) where
    unfoldable pub validate_tree_entries : Bytes → (ℕ → T) → Op (DiskStore D) (List Bytes)
    unfolding validate_entries
    validate_tree_entries tree clock s = (validate_entries clock (sled.iter tree s.db), s)

    unfoldable pub validate_tree : Bytes → (ℕ → T) → Op (DiskStore D) Done
    unfolding validate_tree_entries
    validate_tree tree clock = validate_tree_entries tree clock >> pure tt
