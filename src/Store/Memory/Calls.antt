-- ===== src/Store/Memory/Calls.antt =====
-- store/memory/store.rs: the calls of the interfaces but those that compare revisions.
pub mod Laws
use openkeyv.Base.{ℕ, ◌+◌}
use openkeyv.Base.{Bool, true, false, Option, none, some, List, [], ◌∷◌, ◌++◌, map}
use openkeyv.Base.{◌==◌, if◌then◌else◌}
use openkeyv.Base.{length, take}
use openkeyv.Base.{ok, guard}
use openkeyv.Base.{batch_size_mismatch}
use openkeyv.Base.Bytes.{Text}
use openkeyv.Platform.{Platform}
use openkeyv.Value.Checked.{Value}
use openkeyv.Entry.{ManagedEntry, make, validate}
use openkeyv.Protocol.{Done, Op, ◌>>=◌, ◌>>◌, pure, lift, KeyValue}
use openkeyv.Base.Assoc.{Assoc, lookup, remove, keys}
use openkeyv.Protocol.Contract.{is_present}
use openkeyv.Store.Simple.{or_default, min_limit}
use openkeyv.Store.Memory.Capacity.{RevisionedEntry, Collection, retain}
use openkeyv.Store.Memory.State.{
  MemoryStore, now, fresh, get_collection, set_collection, put_entry, record_put, record_delete,
  for_each, reads, resolved, enforce_in, setup, setup_collection, skip,
}
use openkeyv.Store.Simple.{live_ttl}
use openkeyv.Protocol.Contract.{live}

abbrev pub entry_of : {T : Type 0} → Option (RevisionedEntry T) → Option (ManagedEntry T)
entry_of none = none
entry_of (some r) = some r.entry

module _ {T F : Type 0} (os : Platform T F) where
  unfoldable pub get : Text → Option Text → Op (MemoryStore T) (Option Value)
  get k c = do
    cname ← resolved c
    setup_collection os cname
    col ← get_collection cname
    t ← now
    pure (live os t (entry_of (lookup k col)))

  unfoldable pub get_ttl : Text → Option Text → Op (MemoryStore T) (Option (Value × Option F))
  get_ttl k c = do
    cname ← resolved c
    setup_collection os cname
    col ← get_collection cname
    t ← now
    later ← now
    pure (live_ttl os t later (entry_of (lookup k col)))

  unfoldable pub put : Text → Value → Option Text → Option F → Op (MemoryStore T) Done
  put k v c ttl_secs = do
    cname ← resolved c
    setup_collection os cname
    t ← now
    e ← lift (make os t v ttl_secs)
    r ← fresh
    put_entry os cname k (record { entry = e; revision = r })
    gone ← enforce_in os cname
    record_put cname k
    for_each (record_delete cname) gone

  unfoldable pub remove_entry : Text → Text → Op (MemoryStore T) Bool
  remove_entry cname k = do
    col ← get_collection cname
    (λ m. (ok (is_present (lookup k col)), set_collection cname (remove k col) m))

  unfoldable pub delete : Text → Option Text → Op (MemoryStore T) Bool
  delete k c = do
    cname ← resolved c
    setup_collection os cname
    deleted ← remove_entry cname k
    for_each (record_delete cname) (if deleted then k ∷ [] else [])
    pure deleted

  -- `keys.iter().map(..)`
  unfoldable pub get_each : Collection T → List Text → Op (MemoryStore T) (List (Option Value))
  get_each col [] = pure []
  get_each col (k ∷ ks) = do
    t ← now
    rest ← get_each col ks
    pure (live os t (entry_of (lookup k col)) ∷ rest)

  unfoldable pub get_many : List Text → Option Text → Op (MemoryStore T) (List (Option Value))
  get_many ks c = do
    cname ← resolved c
    setup_collection os cname
    col ← get_collection cname
    get_each col ks

  unfoldable pub ttl_each :
      Collection T → List Text → Op (MemoryStore T) (List (Option (Value × Option F)))
  ttl_each col [] = pure []
  ttl_each col (k ∷ ks) = do
    t ← now
    later ← now
    rest ← ttl_each col ks
    pure (live_ttl os t later (entry_of (lookup k col)) ∷ rest)

  unfoldable pub ttl_many :
      List Text → Option Text → Op (MemoryStore T) (List (Option (Value × Option F)))
  ttl_many ks c = do
    cname ← resolved c
    setup_collection os cname
    col ← get_collection cname
    ttl_each col ks

  -- The entries of a batch, made before any is written.
  unfoldable pub make_each : Option F → List Value → Op (MemoryStore T) (List (ManagedEntry T))
  make_each ttl_secs [] = pure []
  make_each ttl_secs (v ∷ vs) = do
    t ← now
    e ← lift (make os t v ttl_secs)
    rest ← make_each ttl_secs vs
    pure (e ∷ rest)

  -- A revision for each entry.
  unfoldable pub fresh_each : List (ManagedEntry T) → Op (MemoryStore T) (List (RevisionedEntry T))
  fresh_each [] = pure []
  fresh_each (e ∷ es) = do
    r ← fresh
    rest ← fresh_each es
    pure (record { entry = e; revision = r } ∷ rest)

  unfoldable pub put_each : Text → List Text → List (RevisionedEntry T) → Op (MemoryStore T) Done
  put_each cname [] rs = pure tt
  put_each cname (k ∷ ks) [] = pure tt
  put_each cname (k ∷ ks) (r ∷ rs) = put_entry os cname k r >> put_each cname ks rs

  unfoldable pub put_many :
      List Text → List Value → Option Text → Option F → Op (MemoryStore T) Done
  put_many ks vs c ttl_secs = do
    lift (guard (length ks == length vs) (batch_size_mismatch (length ks) (length vs)))
    t ← now
    lift (validate os t ttl_secs)
    cname ← resolved c
    setup_collection os cname
    es ← make_each ttl_secs vs
    rs ← fresh_each es
    put_each cname ks rs
    gone ← enforce_in os cname
    for_each (record_put cname) ks
    for_each (record_delete cname) gone

  -- The loop of `delete_many`, with the keys that it pushes.
  unfoldable pub remove_each : Text → List Text → Op (MemoryStore T) (List Text)
  remove_each cname [] = pure []
  remove_each cname (k ∷ ks) = do
    deleted ← remove_entry cname k
    rest ← remove_each cname ks
    pure (if deleted then k ∷ rest else rest)

  unfoldable pub delete_many : List Text → Option Text → Op (MemoryStore T) ℕ
  delete_many ks c = do
    cname ← resolved c
    setup_collection os cname
    gone ← remove_each cname ks
    for_each (record_delete cname) gone
    pure (length gone)

  unfoldable pub cull_each :
      (ℕ → T) → Assoc (Collection T) → List (Text × Text) × Assoc (Collection T)
  cull_each clock [] = ([], [])
  cull_each clock ((c, col) ∷ m) =
      let (gone, kept) = retain os clock col in
      let (others, rest) = cull_each (λ i. clock (i + length col)) m in
      (map (λ k. (c, k)) gone ++ others, (c, kept) ∷ rest)

  abbrev pub entries_of : Assoc (Collection T) → ℕ
  entries_of [] = 0
  entries_of ((c, col) ∷ m) = length col + entries_of m

  unfoldable pub cull : Op (MemoryStore T) Done
  cull = do
    gone ← (λ m.
        let (gone, rest) = cull_each m.inputs.clock m.collections in
        (
          ok gone,
          record m { collections = rest; inputs = skip (entries_of m.collections) m.inputs },
        ))
    for_each (λ p. record_delete p.0 p.1) gone

  unfoldable pub list_keys : Option Text → Option ℕ → Op (MemoryStore T) (List Text)
  list_keys c limit = do
    cname ← resolved c
    setup_collection os cname
    col ← get_collection cname
    pure (take (min_limit limit) (keys col))

  unfoldable pub list_collections : Option ℕ → Op (MemoryStore T) (List Text)
  list_collections limit = setup os >> reads λ m. take (min_limit limit) (keys m.collections)

  unfoldable pub destroy_collection : Text → Op (MemoryStore T) Bool
  destroy_collection c = do
    setup os
    found ← (λ m. (ok (lookup c m.collections), record m { collections = remove c m.collections }))
    for_each (record_delete c) (keys (or_default found))
    pure (is_present found)

  unfoldable pub destroy : Op (MemoryStore T) Bool
  destroy m = (ok true, record m { collections = []; setup_complete = false })

  -- `impl AsyncKeyValue for MemoryStore`
  unfoldable pub memory_store : KeyValue (MemoryStore T) F
  memory_store = record {
    get = get;
    ttl = get_ttl;
    put = put;
    delete = delete;
    get_many = get_many;
    ttl_many = ttl_many;
    put_many = put_many;
    delete_many = delete_many;
  }
