-- ===== src/Examples/Reached.antt =====
-- The states that calls of the memory store reach, at concrete inputs.
use openkeyv.Base.{ℕ, ◌^◌, ◌<◌, ◌≡◌}
use openkeyv.Base.{none, some}
use openkeyv.Platform.{Inputs}
use openkeyv.Store.Memory.Changes.{new_log}
use openkeyv.Store.Memory.Changes.Laws.{IsLog}
use openkeyv.Store.Memory.State.{MemoryStore, MemoryConfig, new_config, with_config}
use openkeyv.Store.Memory.Logged.{Adds}
use openkeyv.Store.Memory.Logged.Reach.{
  Reachable, built, called, after, put, delete, destroy, Reachable-IsLog,
}
use openkeyv.Examples.Host.{host, jo, greeting, revision}

abbrev inputs : Inputs ℕ
inputs = record { clock = λ i. 7; random = λ i. some revision }

abbrev config : MemoryConfig
config = new_config none none none

-- A write, a deletion and the destruction of a new store.
abbrev used : MemoryStore ℕ
used = after host destroy (
    after host (delete jo none)
      (after host (put jo greeting none none) (with_config config inputs)))

used-Reachable : Reachable host used
used-Reachable =
    called (called (called (built config inputs) (put jo greeting none none)) (delete jo none))
      destroy

Reachable-IsLog_example :
    (n : ℕ) × Adds new_log n used.changes
    × (n < 2 ^ 64 → IsLog used.changes × (used.changes.revision ≡ n))
Reachable-IsLog_example = Reachable-IsLog host used-Reachable
