-- ===== src/Store/Rocks.antt =====
-- store/rocksdb/store.rs: a store over RocksDB, which is a parameter. The key of an entry in the
-- database is its identity, so a collection is the keys with one prefix.
pub mod Laws
pub mod Rows
pub mod Listing
use openkeyv.Base.{
  ℕ, zero, suc, ◌+◌, ◌-◌, ◌*◌, ◌/◌, ◌%◌, ◌^◌, ◌≤◌, ◌<◌, ◌≡◌, refl, sym, ap, ◌∙◌, fun_ext,
}
use openkeyv.Base.{
  ◌≢◌, ◌↔◌, ◌⊎◌, inl, inr, Bool, true, false, not, ◌&&◌, ◌||◌, Option, none, some, List, [], ◌∷◌,
  ◌++◌, map, append-nil, append_assoc, arith,
}
use openkeyv.Base.{
  ltb, leb, ◌==◌, if◌then◌else◌, Bool-cases, leb→le, le→leb, ltb→lt, lt→ltb, le→ltb,
}
use openkeyv.Base.{
  length, take, drop, get_elem?, All, zip_with, length-append, take-append, drop-append, take-drop,
  length-take, length-take-le, drop-take, length-drop, take_all, All-split, All-drop,
  get_elem?-drop, All-append, length-map,
}
use openkeyv.Base.{
  Error, Result, ok, err, bind, guard, ok_or, map_err, collect, bind-eq-ok, if-eq-ok, ok_or-eq-ok,
  ok-injective, Result-cases,
}
use openkeyv.Base.{
  store_connection, serialization, deserialization, invalid_key, invalid_ttl, invalid_value,
  invalid_operation, entry_too_large, entry_too_small, read_only, corrupted_data,
  batch_size_mismatch, invalid_change_cursor, change_cursor_expired, change_feed_lagged,
  revision_generation, out_of_fuel,
}
use openkeyv.Base.Bytes.{
  Bytes, Text, IsByte, bytes_eq, bytes_eq_iff, bytes_eq_refl, bytes_eq-append, starts_with,
  starts_with-append, to_le_bytes, from_le_bytes, length-to_le_bytes, to_le_bytes-IsByte,
  from_le_bytes-to_le_bytes, to_le_bytes-from_le_bytes, from_le_bytes-lt,
}
use openkeyv.Platform.{Platform, Inputs}
use openkeyv.Value.Checked.{Value}
use openkeyv.Value.Utf8.{is_utf8}
use openkeyv.Entry.{ManagedEntry, make, validate, is_expired, ttl}
use openkeyv.Entry.Codec
use openkeyv.Utils.Compound.{collection_prefix, compound_key, decompound_key}
use openkeyv.Protocol.{
  Done, Op, continue, ◌>>=◌, ◌>>◌, pure, lift, KeyValue, Enumerate, Session, at_call,
}
use openkeyv.Protocol.Contract.{resolve}
use openkeyv.Store.Simple.{min_limit}
use openkeyv.Wrapper.Names.{seen_before}

-- `rocksdb::WriteBatch`, by its operations.
pub data BatchOp : Type 0 where
  put : Bytes → Bytes → BatchOp
  delete : Bytes → BatchOp

-- What the store calls of `rocksdb::DB`, on the state `D` of the database; an item of an iteration or
-- of `multi_get` may be an error.
pub record RocksDb (D : Type 0) : Type 0 where
  pub get : Bytes → D → Result (Option Bytes)
  pub put : Bytes → Bytes → Op D Done
  pub delete : Bytes → Op D Done
  pub key_may_exist : Bytes → D → Bool
  pub multi_get : List Bytes → D → List (Result (Option Bytes))
  pub write : List BatchOp → Op D Done
  -- From the start, and from the first key that is not below the prefix.
  pub iterator : D → List (Result (Bytes × Bytes))
  pub prefix_iterator : Bytes → D → List (Result (Bytes × Bytes))

-- `RocksDBStore`: the database and the configured collection name.
pub record RocksStore (D : Type 0) : Type 0 where
  pub db : D
  pub default_collection : Text

module _ {D A : Type 0} where
  abbrev pub in_db : Op D A → Op (RocksStore D) A
  in_db m s = let (r, d) = m s.db in (map_err r store_connection, record s { db = d })

  -- A call that only reads the database.
  abbrev pub from_db : (D → A) → Op (RocksStore D) A
  from_db f s = (ok (f s.db), s)

module _ {T F : Type 0} (os : Platform T F) where
  abbrev decode_some : T → Option Bytes → Result (Option (ManagedEntry T))
  decode_some now none = ok none
  decode_some now (some b) =
      bind (Codec.decode os b) λ e. ok (if is_expired os now e then none else some e)

  abbrev value_of : Option (ManagedEntry T) → Option Value
  value_of none = none
  value_of (some e) = some e.value

  abbrev value_ttl : T → Option (ManagedEntry T) → Option (Value × Option F)
  value_ttl later none = none
  value_ttl later (some e) = some (e.value, ttl os later e)

  module _ {D : Type 0} (db : RocksDb D) where
    abbrev named : Option Text → Op (RocksStore D) Text
    named c s = (ok (resolve s.default_collection c), s)

    unfoldable pub get_entry : Text → Text → T → Op (RocksStore D) (Option (ManagedEntry T))
    get_entry k c now = do
      found ← from_db (db.get (compound_key c k))
      b ← lift (map_err found store_connection)
      lift (decode_some now b)

    unfoldable pub put_entry : Text → Text → ManagedEntry T → Op (RocksStore D) Done
    put_entry k c e = in_db (db.put (compound_key c k) (Codec.encode os e))

    unfoldable pub get : Text → Option Text → Inputs T → Op (RocksStore D) (Option Value)
    unfolding get_entry
    get k c inp = do cname ← named c; e ← get_entry k cname (inp.clock 0); pure (value_of e)

    unfoldable pub get_ttl :
        Text → Option Text → Inputs T → Op (RocksStore D) (Option (Value × Option F))
    unfolding get_entry
    get_ttl k c inp = do
      cname ← named c
      e ← get_entry k cname (inp.clock 0)
      pure (value_ttl (inp.clock 1) e)

    unfoldable pub put_value :
        Text → Value → Option Text → Option F → Inputs T → Op (RocksStore D) Done
    unfolding put_entry
    put_value k v c ttl_secs inp = do
      cname ← named c
      e ← lift (make os (inp.clock 0) v ttl_secs)
      put_entry k cname e

    unfoldable pub delete_key : Text → Option Text → Op (RocksStore D) Bool
    delete_key k c = do
      cname ← named c
      existed ← from_db (db.key_may_exist (compound_key cname k))
      in_db (db.delete (compound_key cname k))
      pure existed

    -- The closure of `get_many` over the results of `multi_get`; the test of the i-th key reads the
    -- clock at `clock i`.
    unfoldable pub get_each : (ℕ → T) → List (Result (Option Bytes)) → Result (List (Option Value))
    get_each clock [] = ok []
    get_each clock (r ∷ rs) = bind (map_err r store_connection) λ b.
        bind (decode_some (clock 0) b)
          λ e. bind (get_each (λ i. clock (i + 1)) rs) λ vs. ok (value_of e ∷ vs)

    unfoldable pub get_many :
        List Text → Option Text → Inputs T → Op (RocksStore D) (List (Option Value))
    unfolding get_each
    get_many ks c inp = do
      cname ← named c
      found ← from_db (db.multi_get (map (compound_key cname) ks))
      lift (get_each inp.clock found)

    -- Two readings for each key: the test, and the time that is left.
    unfoldable pub ttl_each :
        (ℕ → T) → List (Result (Option Bytes)) → Result (List (Option (Value × Option F)))
    ttl_each clock [] = ok []
    ttl_each clock (r ∷ rs) = bind (map_err r store_connection) λ b.
        bind (decode_some (clock 0) b)
          λ e. bind (ttl_each (λ i. clock (i + 2)) rs) λ vs. ok (value_ttl (clock 1) e ∷ vs)

    unfoldable pub ttl_many :
        List Text → Option Text → Inputs T → Op (RocksStore D) (List (Option (Value × Option F)))
    unfolding ttl_each
    ttl_many ks c inp = do
      cname ← named c
      found ← from_db (db.multi_get (map (compound_key cname) ks))
      lift (ttl_each inp.clock found)

    -- The batch that the loop of `put_many` fills.
    unfoldable pub put_batch :
        (ℕ → T) → Option F → Text → List (Text × Value) → Result (List BatchOp)
    put_batch clock ttl_secs c [] = ok []
    put_batch clock ttl_secs c ((k, v) ∷ items) = bind (make os (clock 0) v ttl_secs) λ e.
        bind (put_batch (λ i. clock (i + 1)) ttl_secs c items)
          λ ops. ok (BatchOp.put (compound_key c k) (Codec.encode os e) ∷ ops)

    unfoldable pub put_many :
        List Text → List Value → Option Text → Option F → Inputs T → Op (RocksStore D) Done
    unfolding put_batch
    put_many ks vs c ttl_secs inp s =
        if not (length ks == length vs)
        then (err (batch_size_mismatch (length ks) (length vs)), s)
        else ((do
          lift (validate os (inp.clock 0) ttl_secs)
          cname ← named c
          ops ←
              lift
                (put_batch (λ i. inp.clock (i + 1)) ttl_secs cname (zip_with (λ k v. (k, v)) ks vs))
          in_db (db.write ops))
            s)

    -- The counter of the loop of `delete_many`.
    unfoldable pub count_existing : Text → List Text → D → ℕ
    count_existing c [] d = 0
    count_existing c (k ∷ ks) d =
        (if db.key_may_exist (compound_key c k) d then 1 else 0) + count_existing c ks d

    unfoldable pub delete_many : List Text → Option Text → Op (RocksStore D) ℕ
    unfolding count_existing
    delete_many ks c = do
      cname ← named c
      count ← from_db (count_existing cname ks)
      in_db (db.write (map (λ k. BatchOp.delete (compound_key cname k)) ks))
      pure count

    -- The loop of `cull` over the entries of the database.
    unfoldable pub cull_batch : (ℕ → T) → List (Result (Bytes × Bytes)) → Result (List BatchOp)
    cull_batch clock [] = ok []
    cull_batch clock (item ∷ items) = bind (map_err item store_connection) λ (k, v).
        bind (Codec.decode os v) λ e.
          bind (cull_batch (λ i. clock (i + 1)) items)
            λ ops. ok (if is_expired os (clock 0) e then BatchOp.delete k ∷ ops else ops)

    unfoldable pub cull : Inputs T → Op (RocksStore D) Done
    unfolding cull_batch
    cull inp = do
      items ← from_db db.iterator
      ops ← lift (cull_batch inp.clock items)
      in_db (db.write ops)

    -- The text of a key of the database, and its parts.
    unfoldable pub parts_of : Result (Bytes × Bytes) → Result (Bytes × (Text × Text))
    parts_of item = bind (map_err item store_connection) λ (k, v).
        if not (is_utf8 k)
        then err invalid_key
        else (bind (decompound_key k) λ parts. ok (k, parts))

    -- The loop of `keys`, which ends at the first key of another collection.
    unfoldable pub keys_each :
        Text → ℕ → List Text → List (Result (Bytes × Bytes)) → Result (List Text)
    unfolding parts_of
    keys_each c limit keys [] = ok keys
    keys_each c limit keys (item ∷ items) = bind (parts_of item) λ (k, (of_key, key)).
        if not (bytes_eq of_key c)
        then ok keys
        else (let keys' = keys ++ key ∷ [] in
            let more = keys_each c limit keys' items in
            if leb limit (length keys') then ok keys' else more)

    unfoldable pub list_keys : Option Text → Option ℕ → Op (RocksStore D) (List Text)
    unfolding keys_each
    list_keys c limit = do
      cname ← named c
      items ← from_db (db.prefix_iterator (collection_prefix cname))
      lift (keys_each cname (min_limit limit) [] items)

    -- The loop of `collections`, over the set of those met.
    unfoldable pub collections_each :
        ℕ → List Text → List (Result (Bytes × Bytes)) → Result (List Text)
    unfolding parts_of
    collections_each limit met [] = ok met
    collections_each limit met (item ∷ items) = bind (parts_of item) λ (k, (c, key)).
        let met' = if seen_before met c then met else met ++ c ∷ [] in
        let more = collections_each limit met' items in
        if leb limit (length met') then ok met' else more

    unfoldable pub list_collections : Option ℕ → Op (RocksStore D) (List Text)
    unfolding collections_each
    list_collections limit = do
      items ← from_db db.iterator
      lift (collections_each (min_limit limit) [] items)

    -- The loop of `destroy_collection`.
    unfoldable pub collection_batch : Text → List (Result (Bytes × Bytes)) → Result (List BatchOp)
    unfolding parts_of
    collection_batch c [] = ok []
    collection_batch c (item ∷ items) = bind (parts_of item) λ (k, (of_key, key)).
        if not (bytes_eq of_key c)
        then ok []
        else (bind (collection_batch c items) λ ops. ok (BatchOp.delete k ∷ ops))

    unfoldable pub destroy_collection : Text → Op (RocksStore D) Bool
    unfolding collection_batch
    destroy_collection c = do
      items ← from_db (db.prefix_iterator (collection_prefix c))
      ops ← lift (collection_batch c items)
      elim ops [ [] ↦ pure false | op ∷ rest ↦ in_db (db.write (op ∷ rest)) >> pure true ]

    unfoldable pub all_batch : List (Result (Bytes × Bytes)) → Result (List BatchOp)
    all_batch [] = ok []
    all_batch (item ∷ items) =
        bind (map_err item store_connection)
          λ (k, v). bind (all_batch items) λ ops. ok (BatchOp.delete k ∷ ops)

    unfoldable pub destroy : Op (RocksStore D) Bool
    unfolding all_batch
    destroy = do
      items ← from_db db.iterator
      ops ← lift (all_batch items)
      in_db (db.write ops)
      pure true

    -- `impl AsyncKeyValue for RocksDBStore`
    unfoldable pub rocks_store : KeyValue (Session (RocksStore D) T) F
    rocks_store = record {
      get = λ k c. at_call (get k c);
      ttl = λ k c. at_call (get_ttl k c);
      put = λ k v c t. at_call (put_value k v c t);
      delete = λ k c. at_call (λ inp. delete_key k c);
      get_many = λ ks c. at_call (get_many ks c);
      ttl_many = λ ks c. at_call (ttl_many ks c);
      put_many = λ ks vs c t. at_call (put_many ks vs c t);
      delete_many = λ ks c. at_call (λ inp. delete_many ks c);
    }

    -- `impl AsyncEnumerateKeys for RocksDBStore` and `impl AsyncEnumerateCollections for RocksDBStore`
    unfoldable pub rocks_enumerate : Enumerate (RocksStore D)
    rocks_enumerate = record { keys = list_keys; collections = list_collections }
