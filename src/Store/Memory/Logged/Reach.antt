-- ===== src/Store/Memory/Logged/Reach.antt =====
-- The states of a memory store that calls reach, in any number and order, and their change logs.
use openkeyv.Base.{ℕ, ◌+◌, ◌^◌, ◌<◌, ◌≡◌}
use openkeyv.Base.{Option, List}
use openkeyv.Base.Bytes.{Text}
use openkeyv.Value.Checked.{Value}
use openkeyv.Cas.{Revision}
use openkeyv.Platform.{Platform, Inputs}
use openkeyv.Store.Memory.Changes.{new_log}
use openkeyv.Store.Memory.Changes.Laws.{IsLog}
use openkeyv.Store.Memory.State.{MemoryStore, MemoryConfig, with_config}
use openkeyv.Store.Memory.Calls
use openkeyv.Store.Memory.Swap
use openkeyv.Store.Memory.Logged.{Adds, none_yet, Adds-trans, Adds-IsLog}
use openkeyv.Store.Memory.Logged.Calls as Kept
use openkeyv.Store.Memory.Logged.Others

-- A call of any trait of the store.
pub data Call (F : Type 0) : Type 0 where
  get get_ttl : Text → Option Text → Call F
  put : Text → Value → Option Text → Option F → Call F
  delete : Text → Option Text → Call F
  get_many ttl_many delete_many : List Text → Option Text → Call F
  put_many : List Text → List Value → Option Text → Option F → Call F
  get_with_revision : Text → Option Text → Call F
  compare_and_swap : Text → Option Revision → Value → Option Text → Option F → Call F
  compare_and_delete : Text → Revision → Option Text → Call F
  cull destroy : Call F
  list_keys : Option Text → Option ℕ → Call F
  list_collections : Option ℕ → Call F
  destroy_collection : Text → Call F

module _ {T F : Type 0} (os : Platform T F) where
  -- The state after a call, whatever its result.
  unfoldable pub after : Call F → MemoryStore T → MemoryStore T
  after (get k c) m = (Calls.get os k c m).1
  after (get_ttl k c) m = (Calls.get_ttl os k c m).1
  after (put k v c t) m = (Calls.put os k v c t m).1
  after (delete k c) m = (Calls.delete os k c m).1
  after (get_many ks c) m = (Calls.get_many os ks c m).1
  after (ttl_many ks c) m = (Calls.ttl_many os ks c m).1
  after (delete_many ks c) m = (Calls.delete_many os ks c m).1
  after (put_many ks vs c t) m = (Calls.put_many os ks vs c t m).1
  after (get_with_revision k c) m = (Swap.get_with_revision os k c m).1
  after (compare_and_swap k x v c t) m = (Swap.compare_and_swap os k x v c t m).1
  after (compare_and_delete k x c) m = (Swap.compare_and_delete os k x c m).1
  after cull m = (Calls.cull os m).1
  after destroy m = (Calls.destroy os m).1
  after (list_keys c l) m = (Calls.list_keys os c l m).1
  after (list_collections l) m = (Calls.list_collections os l m).1
  after (destroy_collection c) m = (Calls.destroy_collection os c m).1

  after-Adds : (x : Call F) (m : MemoryStore T) → (n : ℕ) × Adds m.changes n (after x m).changes
  unfolding after
  after-Adds (get k c) m = Kept.get-Records os k c m
  after-Adds (get_ttl k c) m = Kept.get_ttl-Records os k c m
  after-Adds (put k v c t) m = Kept.put-Records os k v c t m
  after-Adds (delete k c) m = Kept.delete-Records os k c m
  after-Adds (get_many ks c) m = Kept.get_many-Records os ks c m
  after-Adds (ttl_many ks c) m = Kept.ttl_many-Records os ks c m
  after-Adds (delete_many ks c) m = Kept.delete_many-Records os ks c m
  after-Adds (put_many ks vs c t) m = Kept.put_many-Records os ks vs c t m
  after-Adds (get_with_revision k c) m = Others.get_with_revision-Records os k c m
  after-Adds (compare_and_swap k x v c t) m = Others.compare_and_swap-Records os k x v c t m
  after-Adds (compare_and_delete k x c) m = Others.compare_and_delete-Records os k x c m
  after-Adds cull m = Others.cull-Records os m
  after-Adds destroy m = Others.destroy-Records os m
  after-Adds (list_keys c l) m = Others.list_keys-Records os c l m
  after-Adds (list_collections l) m = Others.list_collections-Records os l m
  after-Adds (destroy_collection c) m = Others.destroy_collection-Records os c m

  -- The states that a store reaches from its construction.
  pub data Reachable : MemoryStore T → Type 0 where
    built : (config : MemoryConfig) (inputs : Inputs T) → Reachable (with_config config inputs)
    called : {m : MemoryStore T} → Reachable m → (x : Call F) → Reachable (after x m)

  -- In every state that calls reach, in any number and order and with whatever results, the change
  -- log is what recording some number of changes made of the empty log; and while that number is
  -- below 2^64 the log is well formed, its revisions count without a gap, it keeps the last 10,000
  -- changes at most, and its revision is the number of the changes.
  pub Reachable-IsLog :
      {m : MemoryStore T}
      → Reachable m
      → (n : ℕ) × Adds new_log n m.changes
        × (n < 2 ^ 64 → IsLog m.changes × (m.changes.revision ≡ n))
  unfolding with_config
  Reachable-IsLog (built config inputs) = (0, none_yet, Adds-IsLog none_yet)
  Reachable-IsLog (called {m} r x) =
      let (n, a, _) = Reachable-IsLog r in
      let (k, b) = after-Adds x m in let whole = Adds-trans a b in (k + n, whole, Adds-IsLog whole)
