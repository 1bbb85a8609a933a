-- ===== src/Store/Memory/State.antt =====
-- store/memory/store.rs and config.rs: the state of the in-memory store, and its setup. The readings of the clock and the draws of random bytes that are left stand in the
-- state; a call takes them in its order, and it also takes a reading where the source would skip one, as for
-- the test of expiry of an absent entry or the check of a time to live that is not given.
use openkeyv.Base.{ℕ, ◌+◌}
use openkeyv.Base.{Bool, true, false, Option, none, some, List, [], ◌∷◌}
use openkeyv.Base.{if◌then◌else◌}
use openkeyv.Base.{length}
use openkeyv.Base.{ok, ok_or}
use openkeyv.Base.{invalid_operation, revision_generation}
use openkeyv.Base.Bytes.{Text}
use openkeyv.Platform.{Platform}
use openkeyv.Value.Checked.{Value}
use openkeyv.Entry.{ManagedEntry, make}
use openkeyv.Cas.{Revision}
use openkeyv.Protocol.{Done, Op, ◌>>=◌, ◌>>◌, pure}
use openkeyv.Base.Assoc.{Assoc, lookup, insert}
use openkeyv.Platform.{Inputs}
use openkeyv.Entry.{is_expired, ttl}
use openkeyv.Entry
use openkeyv.Change.{ChangeOperation}
use openkeyv.Store.Memory.Changes.{ChangeLog, new_log, record_change}
use openkeyv.Protocol.Contract.{resolve}
use openkeyv.Store.Simple.{or_default}
use openkeyv.Store.Memory.Capacity.{RevisionedEntry, Collection, enforce_capacity}

pub record MemoryConfig : Type 0 where
  pub max_entries_per_collection : Option ℕ
  pub default_collection : Text
  pub seed : Option (Assoc (Assoc Value))

pub record MemoryStore (T : Type 0) : Type 0 where
  pub config : MemoryConfig
  pub collections : Assoc (Collection T)
  pub setup_complete : Bool
  pub changes : ChangeLog T
  pub inputs : Inputs T

-- "default_collection"
abbrev pub default_name : Text
default_name =
    100 ∷ 101 ∷ 102 ∷ 97 ∷ 117 ∷ 108 ∷ 116 ∷ 95 ∷ 99 ∷ 111 ∷ 108 ∷ 108 ∷ 101 ∷ 99 ∷ 116 ∷ 105 ∷ 111
    ∷ 110 ∷ []

-- `MemoryConfig::new`
unfoldable pub new_config : Option ℕ → Option Text → Option (Assoc (Assoc Value)) → MemoryConfig
new_config max default seed = record {
  max_entries_per_collection = max;
  default_collection = resolve default_name default;
  seed = seed;
}

abbrev pub skip : {T : Type 0} → ℕ → Inputs T → Inputs T
skip n inp = record { clock = λ i. inp.clock (i + n); random = inp.random }

module _ {T : Type 0} where
  -- `MemoryStore::with_config`
  unfoldable pub with_config : MemoryConfig → Inputs T → MemoryStore T
  unfolding new_log
  with_config config inp = record {
    config = config;
    collections = [];
    setup_complete = false;
    changes = new_log;
    inputs = inp;
  }

  -- `Utc::now()`
  unfoldable pub now : Op (MemoryStore T) T
  now m = (ok (m.inputs.clock 0), record m { inputs = skip 1 m.inputs })

  -- `Revision::fresh()`
  unfoldable pub fresh : Op (MemoryStore T) Revision
  fresh m = (
    ok_or (m.inputs.random 0) revision_generation,
    record m { inputs = record { clock = m.inputs.clock; random = λ i. m.inputs.random (i + 1) } },
  )

  -- `collections.entry(name).or_default()`
  unfoldable pub ensure : Text → Op (MemoryStore T) Done
  ensure c m = (
    ok tt,
    record m { collections = insert c (or_default (lookup c m.collections)) m.collections },
  )

  unfoldable pub get_collection : Text → Op (MemoryStore T) (Collection T)
  get_collection c m = (ok_or (lookup c m.collections) invalid_operation, m)

  abbrev pub set_collection : Text → Collection T → MemoryStore T → MemoryStore T
  set_collection c col m = record m { collections = insert c col m.collections }

  unfoldable pub record_put : Text → Text → Op (MemoryStore T) Done
  record_put c k m = (
    ok tt,
    record m {
      changes = record_change (m.inputs.clock 0) c k ChangeOperation.put m.changes;
      inputs = skip 1 m.inputs;
    },
  )

  unfoldable pub record_delete : Text → Text → Op (MemoryStore T) Done
  record_delete c k m = (
    ok tt,
    record m {
      changes = record_change (m.inputs.clock 0) c k ChangeOperation.delete m.changes;
      inputs = skip 1 m.inputs;
    },
  )

  -- `for x in xs { .. }`
  unfoldable pub for_each :
      {A : Type 0} → (A → Op (MemoryStore T) Done) → List A → Op (MemoryStore T) Done
  for_each f [] = pure tt
  for_each f (x ∷ xs) = f x >> for_each f xs

  -- `let x = e;` on the state.
  abbrev pub reads : {A : Type 0} → (MemoryStore T → A) → Op (MemoryStore T) A
  reads f m = (ok (f m), m)

  abbrev pub resolved : Option Text → Op (MemoryStore T) Text
  resolved c = reads λ m. resolve m.config.default_collection c

module _ {T F : Type 0} (os : Platform T F) where
  -- `self.enforce_capacity(&col)` on a collection that is there, with the keys that it dropped.
  unfoldable pub enforce_in : Text → Op (MemoryStore T) (List Text)
  unfolding enforce_capacity
  enforce_in c m =
      let col = or_default (lookup c m.collections) in
      let (gone, rest) =
        enforce_capacity os m.config.max_entries_per_collection m.inputs.clock col in
      (ok gone, record (set_collection c rest m) { inputs = skip (length col) m.inputs })

  abbrev pub put_entry : Text → Text → RevisionedEntry T → Op (MemoryStore T) Done
  put_entry c k r m = (ok tt, set_collection c (insert k r (or_default (lookup c m.collections))) m)

  unfoldable pub seed_item : Text → Text × Value → Op (MemoryStore T) Done
  unfolding now fresh
  seed_item c item = do
    t ← now
    r ← fresh
    put_entry c item.0 (record { entry = Entry.new os t item.1; revision = r })

  unfoldable pub seed_collection : Text × Assoc Value → Op (MemoryStore T) Done
  unfolding ensure seed_item for_each enforce_in
  seed_collection s = do ensure s.0; for_each (seed_item s.0) s.1; enforce_in s.0; pure tt

  abbrev pub seeds : Option (Assoc (Assoc Value)) → Assoc (Assoc Value)
  seeds none = []
  seeds (some s) = s

  abbrev pub complete : Op (MemoryStore T) Done
  complete m = (ok tt, record m { setup_complete = true })

  unfoldable pub setup : Op (MemoryStore T) Done
  unfolding seed_collection for_each
  setup m =
      let seeded = (for_each seed_collection (seeds m.config.seed) >> complete) m in
      if m.setup_complete then (ok tt, m) else seeded

  unfoldable pub setup_collection : Text → Op (MemoryStore T) Done
  unfolding setup ensure
  setup_collection c = setup >> ensure c
