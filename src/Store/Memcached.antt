-- ===== src/Store/Memcached.antt =====
-- store/memcached/store.rs: a store over memcached. The client of memcached, the alphabet of base64
-- and the cast of an f64 to a u32 are parameters.
pub mod Laws
use openkeyv.Base.{ℕ, ◌+◌}
use openkeyv.Base.{not, Option, none, some, List, [], ◌∷◌, map}
use openkeyv.Base.{ltb, ◌==◌, if◌then◌else◌}
use openkeyv.Base.{length, zip_with}
use openkeyv.Base.{Result, ok, err, bind, map_err}
use openkeyv.Base.{store_connection, invalid_key, batch_size_mismatch}
use openkeyv.Base.{Bool, true}
use openkeyv.Base.Bytes.{Bytes, Text}
use openkeyv.Base.Assoc.{Assoc, lookup, insert}
use openkeyv.Platform.{Platform, Inputs}
use openkeyv.Value.Checked.{Value}
use openkeyv.Entry.{ManagedEntry, make, validate, is_expired, ttl}
use openkeyv.Entry.Codec
use openkeyv.Utils.Compound.{compound_key}
use openkeyv.Protocol.{Done, Op, ◌>>=◌, ◌>>◌, pure, lift, KeyValue, Session, at_call}
use openkeyv.Protocol.Contract.{resolve}

-- What the store calls of `memcache::Client`, on the state `D` of the servers; the last number of a
-- `set` is the expiration time. `gets` gives what it finds in the order that the map is walked in.
pub record Memcache (D : Type 0) : Type 0 where
  pub get : Text → Op D (Option Bytes)
  pub set : Text → Bytes → ℕ → Op D Done
  pub delete : Text → Op D Bool
  pub gets : List Text → Op D (List (Text × Bytes))
  pub flush : Op D Done

-- `MemcachedStore`: the client and the configured collection name.
pub record MemcachedStore (D : Type 0) : Type 0 where
  pub client : D
  pub default_collection : Text

-- MEMCACHED_KEY_MAX_BYTES
abbrev pub key_max_bytes : ℕ
key_max_bytes = 250

module _ {D A : Type 0} where
  abbrev pub in_client : Op D A → Op (MemcachedStore D) A
  in_client m s = let (r, d) = m s.client in (map_err r store_connection, record s { client = d })

module _ {T F D : Type 0} (os : Platform T F) (client : Memcache D) (base64 : Bytes → Text)
    (one_float : F) (u32_of_float : F → ℕ) where
  unfoldable pub memcached_key : Text → Text → Result Text
  memcached_key c k =
      let encoded = base64 (compound_key c k) in
      if ltb key_max_bytes (length encoded) then err invalid_key else ok encoded

  unfoldable pub memcached_keys : Text → List Text → Result (List Text)
  unfolding memcached_key
  memcached_keys c [] = ok []
  memcached_keys c (k ∷ ks) =
      bind (memcached_key c k) λ ck. bind (memcached_keys c ks) λ cks. ok (ck ∷ cks)

  abbrev named : Option Text → Op (MemcachedStore D) Text
  named c s = (ok (resolve s.default_collection c), s)

  abbrev value_of : Option (ManagedEntry T) → Option Value
  value_of none = none
  value_of (some e) = some e.value

  abbrev value_ttl : T → Option (ManagedEntry T) → Option (Value × Option F)
  value_ttl later none = none
  value_ttl later (some e) = some (e.value, ttl os later e)

  -- `.max(1.0) as u32`, and 0 for an entry without a time to live.
  abbrev exptime : Option F → ℕ
  exptime none = 0
  exptime (some t) = u32_of_float (os.max_float t one_float)

  -- The match on the bytes that were found: an entry that has expired is deleted.
  unfoldable pub read_raw :
      Text → T → Option Bytes → Op (MemcachedStore D) (Option (ManagedEntry T))
  read_raw ck now none = pure none
  read_raw ck now (some raw) = do
    e ← lift (Codec.decode os raw)
    if is_expired os now e then (in_client (client.delete ck) >> pure none) else pure (some e)

  unfoldable pub get : Text → Option Text → Inputs T → Op (MemcachedStore D) (Option Value)
  unfolding memcached_key read_raw
  get k c inp = do
    cname ← named c
    ck ← lift (memcached_key cname k)
    raw ← in_client (client.get ck)
    e ← read_raw ck (inp.clock 0) raw
    pure (value_of e)

  unfoldable pub get_ttl :
      Text → Option Text → Inputs T → Op (MemcachedStore D) (Option (Value × Option F))
  unfolding memcached_key read_raw
  get_ttl k c inp = do
    cname ← named c
    ck ← lift (memcached_key cname k)
    raw ← in_client (client.get ck)
    e ← read_raw ck (inp.clock 0) raw
    pure (value_ttl (inp.clock 1) e)

  unfoldable pub put_value :
      Text → Value → Option Text → Option F → Inputs T → Op (MemcachedStore D) Done
  unfolding memcached_key
  put_value k v c ttl_secs inp = do
    cname ← named c
    ck ← lift (memcached_key cname k)
    e ← lift (make os (inp.clock 0) v ttl_secs)
    in_client (client.set ck (Codec.encode os e) (exptime (ttl os (inp.clock 1) e)))

  unfoldable pub delete_key : Text → Option Text → Op (MemcachedStore D) Bool
  unfolding memcached_key
  delete_key k c = do
    cname ← named c
    ck ← lift (memcached_key cname k)
    in_client (client.delete ck)

  -- The loop over the entries that `gets` finds, each with a reading of the clock.
  unfoldable pub fresh_entries :
      (ℕ → T)
      → List (Text × Bytes)
      → Assoc (ManagedEntry T)
      → Op (MemcachedStore D) (Assoc (ManagedEntry T))
  fresh_entries clock [] entries = pure entries
  fresh_entries clock ((ck, raw) ∷ more) entries = do
    e ← lift (Codec.decode os raw)
    entries' ←
        if is_expired os (clock 0) e
        then (in_client (client.delete ck) >> pure entries)
        else pure (insert ck e entries)
    fresh_entries (λ i. clock (i + 1)) more entries'

  unfoldable pub get_many :
      List Text → Option Text → Inputs T → Op (MemcachedStore D) (List (Option Value))
  unfolding memcached_keys fresh_entries
  get_many [] c inp = pure []
  get_many (k ∷ ks) c inp = do
    cname ← named c
    cks ← lift (memcached_keys cname (k ∷ ks))
    raws ← in_client (client.gets cks)
    entries ← fresh_entries inp.clock raws []
    pure (map (λ ck. value_of (lookup ck entries)) cks)

  -- What is left of each, by a reading of the clock for each key.
  unfoldable pub ttl_each :
      (ℕ → T) → Assoc (ManagedEntry T) → List Text → List (Option (Value × Option F))
  ttl_each clock entries [] = []
  ttl_each clock entries (ck ∷ cks) =
      value_ttl (clock 0) (lookup ck entries) ∷ ttl_each (λ i. clock (i + 1)) entries cks

  unfoldable pub ttl_many :
      List Text → Option Text → Inputs T → Op (MemcachedStore D) (List (Option (Value × Option F)))
  unfolding memcached_keys fresh_entries ttl_each
  ttl_many [] c inp = pure []
  ttl_many (k ∷ ks) c inp = do
    cname ← named c
    cks ← lift (memcached_keys cname (k ∷ ks))
    raws ← in_client (client.gets cks)
    entries ← fresh_entries inp.clock raws []
    pure (ttl_each (λ i. inp.clock (length raws + i)) entries cks)

  -- The first loop of `put_many`, which encodes.
  unfoldable pub encode_each :
      (ℕ → T) → Option F → Text → List (Text × Value) → Result (List (Text × Bytes))
  unfolding memcached_key
  encode_each clock ttl_secs c [] = ok []
  encode_each clock ttl_secs c ((k, v) ∷ items) = bind (make os (clock 0) v ttl_secs) λ e.
      bind (memcached_key c k) λ ck.
        bind (encode_each (λ i. clock (i + 1)) ttl_secs c items)
          λ encoded. ok ((ck, Codec.encode os e) ∷ encoded)

  -- The second, which writes.
  unfoldable pub set_each : ℕ → List (Text × Bytes) → Op (MemcachedStore D) Done
  set_each expires [] = pure tt
  set_each expires ((ck, encoded) ∷ more) =
      in_client (client.set ck encoded expires) >> set_each expires more

  unfoldable pub put_many :
      List Text → List Value → Option Text → Option F → Inputs T → Op (MemcachedStore D) Done
  unfolding encode_each set_each
  put_many ks vs c ttl_secs inp s =
      if not (length ks == length vs)
      then (err (batch_size_mismatch (length ks) (length vs)), s)
      else ((do
        lift (validate os (inp.clock 0) ttl_secs)
        cname ← named c
        entries ←
            lift
              (encode_each (λ i. inp.clock (i + 1)) ttl_secs cname (zip_with (λ k v. (k, v)) ks vs))
        set_each (exptime ttl_secs) entries)
          s)

  -- The loop of `delete_many`, with its counter.
  unfoldable pub delete_each : List Text → Op (MemcachedStore D) ℕ
  delete_each [] = pure 0
  delete_each (ck ∷ cks) = do
    deleted ← in_client (client.delete ck)
    count ← delete_each cks
    pure ((if deleted then 1 else 0) + count)

  unfoldable pub delete_many : List Text → Option Text → Op (MemcachedStore D) ℕ
  unfolding memcached_keys delete_each
  delete_many ks c = do cname ← named c; cks ← lift (memcached_keys cname ks); delete_each cks

  unfoldable pub destroy : Op (MemcachedStore D) Bool
  destroy = in_client client.flush >> pure true

  -- `impl AsyncKeyValue for MemcachedStore`
  unfoldable pub memcached_store : KeyValue (Session (MemcachedStore D) T) F
  memcached_store = record {
    get = λ k c. at_call (get k c);
    ttl = λ k c. at_call (get_ttl k c);
    put = λ k v c t. at_call (put_value k v c t);
    delete = λ k c. at_call (λ inp. delete_key k c);
    get_many = λ ks c. at_call (get_many ks c);
    ttl_many = λ ks c. at_call (ttl_many ks c);
    put_many = λ ks vs c t. at_call (put_many ks vs c t);
    delete_many = λ ks c. at_call (λ inp. delete_many ks c);
  }
