-- ===== src/Examples/Memory.antt =====
-- The in-memory store at concrete inputs.
use openkeyv.Base.{ℕ, ◌+◌, ◌-◌, ◌≡◌, refl}
use openkeyv.Base.{true, ◌&&◌, none, some, [], ◌∷◌, arith}
use openkeyv.Base.{ltb, if◌then◌else◌}
use openkeyv.Base.{length, drop}
use openkeyv.Base.{ok, err}
use openkeyv.Base.{invalid_change_cursor, change_cursor_expired}
use openkeyv.Base.Bytes.{bytes_eq}
use openkeyv.Base.Assoc.{lookup, insert}
use openkeyv.Entry.{is_expired}
use openkeyv.Utils.Decimal.{decimal}
use openkeyv.Change.{ChangeOperation, after}
use openkeyv.Store.Memory.Changes.{ChangeLog, new_log, record_change, replay_from}
use openkeyv.Store.Memory.Changes.Laws.{IsLog, record_change-IsLog, replay-after}
use openkeyv.Store.Memory.Capacity.{RevisionedEntry, Collection, enforce_capacity}
use openkeyv.Store.Memory.Capacity.Laws.{AllAfter}
use openkeyv.Store.Memory.Capacity.Evicted.{IsMap}
use openkeyv.Store.Memory.Capacity.Kept.{live_count, enforce_capacity-bounds}
use openkeyv.Wrapper.Names.{seen_before}
use openkeyv.Base.{false, get_elem?, leb}
use openkeyv.Base.Bytes.{Text}
use openkeyv.Store.Memory.State.{MemoryStore, new_config, with_config, set_collection}
use openkeyv.Store.Memory.Swap.{swap_at}
use openkeyv.Base.{take, ◌++◌}
use openkeyv.Entry.{make}
use openkeyv.Change.{only_collection}
use openkeyv.Protocol.Contract.{live, resolve, same_place}
use openkeyv.Store.Memory.Swap.{remove_at}
use openkeyv.Store.Memory.Swap.Deletes.{Deletes, remove_at-Deletes}
use openkeyv.Store.Memory.Changes.Stream.{drain, stream, wanted, drain-wanted}
use openkeyv.Store.Memory.Calls.{get, put}
use openkeyv.Store.Memory.Calls.Laws.{shown, get-put_memory}
use openkeyv.Examples.Host.{greeting, made}
use openkeyv.Store.Memory.Swap.Laws.{Decides, swap_at-Decides}
use openkeyv.Examples.Host.{host, hi, jo, entry, revision}

first_log : IsLog {T = ℕ} new_log
unfolding new_log
first_log = record { oldest = 0; counts = refl; bounded = omega arith; is_u64 = omega arith }

-- A log with one change.
abbrev one_change : ChangeLog ℕ
one_change = record_change 7 hi jo ChangeOperation.put new_log

one_log : IsLog one_change
unfolding new_log
one_log = (record_change-IsLog 7 hi jo ChangeOperation.put new_log first_log (omega arith)).0

replay-after_example : replay_from (after (decimal 0)) one_change ≡ (
    if ltb one_change.revision 0
    then err invalid_change_cursor
    else if ltb 0 one_log.oldest && ltb 0 (length one_change.entries)
    then err (change_cursor_expired (decimal 0) (decimal (one_log.oldest + 1)))
    else ok (drop (0 - one_log.oldest) one_change.entries))
replay-after_example = replay-after one_change 0 one_log (omega arith)

abbrev stored_entry : RevisionedEntry ℕ
stored_entry = record { entry = entry; revision = revision }

abbrev crowded : Collection ℕ
crowded = (jo, stored_entry) ∷ (hi, stored_entry) ∷ []

crowded-IsMap : IsMap crowded
unfolding lookup bytes_eq
crowded-IsMap = (refl, (refl, tt))

enforce_capacity-bounds_example :
    (length (enforce_capacity host (some 1) (λ i. 7) crowded).1
      ≡ (if leb (live_count host (λ i. 7) crowded) 1 then live_count host (λ i. 7) crowded else 1))
    × ((k : Text)
        → lookup k crowded ≡ none
        → lookup k (enforce_capacity host (some 1) (λ i. 7) crowded).1 ≡ none)
    × ((i : ℕ) (k : Text) (r : RevisionedEntry ℕ)
        → get_elem? crowded i ≡ some (k, r)
        → is_expired host 7 r.entry ≡ true
        → (lookup k (enforce_capacity host (some 1) (λ i. 7) crowded).1 ≡ none)
          × (seen_before (enforce_capacity host (some 1) (λ i. 7) crowded).0 k ≡ true))
    × ((i : ℕ) (k : Text) (r : RevisionedEntry ℕ)
        → get_elem? crowded i ≡ some (k, r)
        → is_expired host 7 r.entry ≡ false
        → (lookup k (enforce_capacity host (some 1) (λ i. 7) crowded).1 ≡ (
            if seen_before (enforce_capacity host (some 1) (λ i. 7) crowded).0 k
            then none
            else some r))
          × (seen_before (enforce_capacity host (some 1) (λ i. 7) crowded).0 k ≡ true
              → AllAfter k (enforce_capacity host (some 1) (λ i. 7) crowded).1))
enforce_capacity-bounds_example = enforce_capacity-bounds host 1 (λ i. 7) crowded crowded-IsMap

-- A store with one collection of two entries.
abbrev filled : MemoryStore ℕ
filled = set_collection hi crowded (
    with_config (new_config (some 2) none none)
      (record { clock = λ i. 7; random = λ i. some revision }))

found : lookup hi filled.collections ≡ some crowded
unfolding with_config insert lookup bytes_eq
found = refl

swap_at-Decides_example :
    Decides host 7 8 hi jo stored_entry filled true
      (some stored_entry)
      (swap_at host 7 8 hi jo (some revision) stored_entry (some stored_entry) filled)
unfolding is_expired bytes_eq lookup
swap_at-Decides_example =
    swap_at-Decides host 7 8 hi jo stored_entry filled crowded found (some revision)

-- A store that is set up and empty.
abbrev ready : MemoryStore ℕ
ready =
    record (with_config (new_config none none none)
      (record { clock = λ i. 7; random = λ i. some revision })) { setup_complete = true }

no_limit : ready.config.max_entries_per_collection ≡ none
unfolding with_config new_config
no_limit = refl

time : make host (ready.inputs.clock 0) greeting (some 9) ≡ ok made
unfolding with_config make
time = refl

draw : ready.inputs.random 0 ≡ some revision
unfolding with_config
draw = refl

get-put_memory_example :
    ((put host jo greeting none (some 9) ready).0 ≡ ok tt)
    × ((get host jo none (put host jo greeting none (some 9) ready).1).0
        ≡ ok (
            live host ((put host jo greeting none (some 9) ready).1.inputs.clock 0) (
              if same_place
                (resolve ready.config.default_collection none)
                jo
                (resolve ready.config.default_collection none)
                jo
              then some made
              else shown ready (resolve ready.config.default_collection none) jo)))
get-put_memory_example =
    get-put_memory host ready jo greeting none (some 9) made revision jo none refl no_limit time
      draw

drain-wanted_example :
    drain 3 (stream (only_collection hi) one_change.entries [])
    ≡ take 3 (wanted (only_collection hi) (one_change.entries ++ []))
drain-wanted_example = drain-wanted 3 (only_collection hi) one_change.entries []

remove_at-Deletes_example :
    Deletes host 7 8 hi jo filled true
      (some stored_entry)
      (remove_at host 7 8 hi jo revision (some stored_entry) filled)
unfolding is_expired bytes_eq lookup
remove_at-Deletes_example = remove_at-Deletes host 7 8 hi jo filled crowded found revision
