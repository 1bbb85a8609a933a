-- ===== src/Store/Disk/Calls.antt =====
-- store/disk/store.rs: the calls of the store.
use openkeyv.Base.{ℕ, ◌+◌}
use openkeyv.Base.{Bool, true, false, not, ◌||◌, Option, none, some, List, [], ◌∷◌, map}
use openkeyv.Base.{◌==◌, if◌then◌else◌}
use openkeyv.Base.{length, take, zip_with}
use openkeyv.Base.{Result, ok, err, bind, map_err}
use openkeyv.Base.{store_connection, invalid_key, batch_size_mismatch}
use openkeyv.Base.Bytes.{Bytes, Text, bytes_eq}
use openkeyv.Platform.{Platform, Inputs}
use openkeyv.Value.Checked.{Value}
use openkeyv.Value.Utf8.{is_utf8}
use openkeyv.Entry.{ManagedEntry, make, validate}
use openkeyv.Entry.Codec
use openkeyv.Protocol.{
  Done, Op, each, ◌>>=◌, ◌>>◌, pure, lift, KeyValue, Enumerate, Session, at_call,
}
use openkeyv.Protocol.Contract.{resolve, live, is_present}
use openkeyv.Store.Simple.{live_ttl, min_limit}
use openkeyv.Store.Disk.Trees.{encode_tree_name}
use openkeyv.Store.Disk.{
  Sled, DiskStore, in_db, open_physical_tree, get_tree, owned_tree_names, validate_tree_entries,
  validate_tree,
}

module _ {T F D : Type 0} (os : Platform T F) (sled : Sled D) where
  -- `self.get_tree(self.collection_name(collection))`
  abbrev tree_of : Option Text → Op (DiskStore D) Bytes
  tree_of c s = get_tree sled (resolve s.default_collection c) s

  -- `match res { Some(iv) => { let entry = ivec_to_entry(iv)?; .. } None => Ok(None) }`
  unfoldable pub decode_some : Option Bytes → Result (Option (ManagedEntry T))
  decode_some none = ok none
  decode_some (some b) = bind (Codec.decode os b) λ e. ok (some e)

  unfoldable pub read_value : Bytes → T → Text → Op (DiskStore D) (Option Value)
  unfolding decode_some
  read_value tree now k = do
    found ← in_db (sled.get tree k)
    entry ← lift (decode_some found)
    pure (live os now entry)

  unfoldable pub get : Text → Option Text → Inputs T → Op (DiskStore D) (Option Value)
  unfolding get_tree read_value
  get k c inp = tree_of c >>= λ tree. read_value tree (inp.clock 0) k

  unfoldable pub read_ttl : Bytes → T → T → Text → Op (DiskStore D) (Option (Value × Option F))
  unfolding decode_some live_ttl
  read_ttl tree now later k = do
    found ← in_db (sled.get tree k)
    entry ← lift (decode_some found)
    pure (live_ttl os now later entry)

  unfoldable pub get_ttl :
      Text → Option Text → Inputs T → Op (DiskStore D) (Option (Value × Option F))
  unfolding get_tree read_ttl
  get_ttl k c inp = tree_of c >>= λ tree. read_ttl tree (inp.clock 0) (inp.clock 1) k

  unfoldable pub put : Text → Value → Option Text → Option F → Inputs T → Op (DiskStore D) Done
  unfolding get_tree
  put k v c ttl_secs inp = do
    entry ← lift (make os (inp.clock 0) v ttl_secs)
    tree ← tree_of c
    in_db (sled.insert tree k (Codec.encode os entry))
    in_db (sled.flush tree)

  unfoldable pub delete : Text → Option Text → Op (DiskStore D) Bool
  unfolding get_tree
  delete k c = do tree ← tree_of c; old ← in_db (sled.remove tree k); pure (is_present old)

  -- The test of the i-th key reads the clock at `clock i`.
  unfoldable pub read_each : Bytes → (ℕ → T) → List Text → Op (DiskStore D) (List (Option Value))
  unfolding read_value
  read_each tree clock [] = pure []
  read_each tree clock (k ∷ ks) = read_value tree (clock 0) k >>= λ v.
      read_each tree (λ i. clock (i + 1)) ks >>= λ vs. pure (v ∷ vs)

  unfoldable pub get_many :
      List Text → Option Text → Inputs T → Op (DiskStore D) (List (Option Value))
  unfolding get_tree read_each
  get_many ks c inp = tree_of c >>= λ tree. read_each tree inp.clock ks

  -- Two readings for each key: the test, and the time that is left.
  unfoldable pub ttl_each :
      Bytes → (ℕ → T) → List Text → Op (DiskStore D) (List (Option (Value × Option F)))
  unfolding read_ttl
  ttl_each tree clock [] = pure []
  ttl_each tree clock (k ∷ ks) = read_ttl tree (clock 0) (clock 1) k >>= λ v.
      ttl_each tree (λ i. clock (i + 2)) ks >>= λ vs. pure (v ∷ vs)

  unfoldable pub ttl_many :
      List Text → Option Text → Inputs T → Op (DiskStore D) (List (Option (Value × Option F)))
  unfolding get_tree ttl_each
  ttl_many ks c inp = tree_of c >>= λ tree. ttl_each tree inp.clock ks

  -- The entries of a batch, each encoded, before the first is written.
  unfoldable pub encode_each :
      (ℕ → T) → Option F → List (Text × Value) → Result (List (Text × Bytes))
  encode_each clock ttl_secs [] = ok []
  encode_each clock ttl_secs ((k, v) ∷ items) = bind (make os (clock 0) v ttl_secs) λ e.
      bind (encode_each (λ i. clock (i + 1)) ttl_secs items)
        λ rest. ok ((k, Codec.encode os e) ∷ rest)

  unfoldable pub put_many :
      List Text → List Value → Option Text → Option F → Inputs T → Op (DiskStore D) Done
  unfolding encode_each open_physical_tree
  put_many ks vs c ttl_secs inp s =
      if not (length ks == length vs)
      then (err (batch_size_mismatch (length ks) (length vs)), s)
      else ((do
        lift (validate os (inp.clock 0) ttl_secs)
        tree ← lift (encode_tree_name (resolve s.default_collection c))
        entries ←
            lift (encode_each (λ i. inp.clock (i + 1)) ttl_secs (zip_with (λ k v. (k, v)) ks vs))
        open_physical_tree sled tree
        each (λ (k, iv). in_db (sled.insert tree k iv)) entries
        in_db (sled.flush tree))
          s)

  -- The counter of the loop of `delete_many`.
  abbrev count_some : {A : Type 0} → List (Option A) → ℕ
  count_some [] = 0
  count_some (o ∷ os) = (if is_present o then 1 else 0) + count_some os

  unfoldable pub delete_many : List Text → Option Text → Op (DiskStore D) ℕ
  unfolding get_tree
  delete_many ks c = do
    tree ← tree_of c
    old ← each (λ k. in_db (sled.remove tree k)) ks
    pure (count_some old)

  -- The first loop of `cull`: the expired keys of every tree, before one is removed. The i-th tree
  -- reads the clock at `clocks i`.
  unfoldable pub find_expired :
      (ℕ → ℕ → T) → List (Bytes × Text) → Op (DiskStore D) (List (Bytes × List Bytes))
  unfolding open_physical_tree validate_tree_entries
  find_expired clocks [] = pure []
  find_expired clocks ((tree, c) ∷ trees) = do
    open_physical_tree sled tree
    keys ← validate_tree_entries os sled tree (clocks 0)
    rest ← find_expired (λ i. clocks (i + 1)) trees
    pure ((tree, keys) ∷ rest)

  unfoldable pub cull : (ℕ → ℕ → T) → Op (DiskStore D) Done
  unfolding owned_tree_names find_expired
  cull clocks = do
    trees ← owned_tree_names sled
    expired ← find_expired clocks trees
    each (λ (tree, keys). each (λ k. in_db (sled.remove tree k)) keys) expired
    pure tt

  -- The loop of `keys`: every key is looked at, the first ones are kept.
  unfoldable pub keys_each : List (Result (Bytes × Bytes)) → Result (List Text)
  keys_each [] = ok []
  keys_each (item ∷ items) = bind (map_err item store_connection) λ (key, value).
      if not (is_utf8 key)
      then err invalid_key
      else (bind (keys_each items) λ rest. ok (key ∷ rest))

  unfoldable pub list_keys : Option Text → Option ℕ → Op (DiskStore D) (List Text)
  unfolding get_tree keys_each
  list_keys c limit = do
    tree ← tree_of c
    keys ← λ s. (keys_each (sled.iter tree s.db), s)
    pure (take (min_limit limit) keys)

  unfoldable pub list_collections : Option ℕ → Op (DiskStore D) (List Text)
  unfolding owned_tree_names
  list_collections limit = do
    trees ← owned_tree_names sled
    pure (map (λ t. t.1) (take (min_limit limit) trees))

  -- `names.iter().any(|name| name == tree_name)`
  unfoldable pub has_name : Bytes → List Bytes → Bool
  has_name name [] = false
  has_name name (x ∷ xs) = bytes_eq x name || has_name name xs

  unfoldable pub destroy_collection : Text → (ℕ → T) → Op (DiskStore D) Bool
  unfolding has_name open_physical_tree validate_tree
  destroy_collection c clock s = elim (encode_tree_name c) [
    | err x ↦ (err x, s)
    | ok tree ↦
        if not (has_name tree (sled.tree_names s.db))
        then (ok false, s)
        else ((do
          open_physical_tree sled tree
          validate_tree os sled tree clock
          in_db (sled.drop_tree tree))
            s)
  ]

  unfoldable pub check_each : (ℕ → ℕ → T) → List (Bytes × Text) → Op (DiskStore D) Done
  unfolding open_physical_tree validate_tree
  check_each clocks [] = pure tt
  check_each clocks ((tree, c) ∷ trees) =
      open_physical_tree sled tree
      >> validate_tree os sled tree (clocks 0)
      >> check_each (λ i. clocks (i + 1)) trees

  unfoldable pub destroy : (ℕ → ℕ → T) → Op (DiskStore D) Bool
  unfolding owned_tree_names check_each
  destroy clocks = do
    trees ← owned_tree_names sled
    check_each clocks trees
    each (λ (tree, c). in_db (sled.drop_tree tree)) trees
    pure true

  -- `impl AsyncKeyValue for DiskStore`
  unfoldable pub disk_store : KeyValue (Session (DiskStore D) T) F
  disk_store = record {
    get = λ k c. at_call (get k c);
    ttl = λ k c. at_call (get_ttl k c);
    put = λ k v c t. at_call (put k v c t);
    delete = λ k c. at_call (λ inp. delete k c);
    get_many = λ ks c. at_call (get_many ks c);
    ttl_many = λ ks c. at_call (ttl_many ks c);
    put_many = λ ks vs c t. at_call (put_many ks vs c t);
    delete_many = λ ks c. at_call (λ inp. delete_many ks c);
  }

  -- `impl AsyncEnumerateKeys for DiskStore` and `impl AsyncEnumerateCollections for DiskStore`
  unfoldable pub disk_enumerate : Enumerate (DiskStore D)
  disk_enumerate = record { keys = list_keys; collections = list_collections }
