-- ===== src/Store/Memory/Swap.antt =====
-- store/memory/store.rs: the calls that compare revisions. What the source decides under the lock is
-- `swap_at` and `remove_at`, on the entry that the map holds.
pub mod Laws
pub mod Deletes
use openkeyv.Base.{
  ℕ, zero, suc, ◌+◌, ◌-◌, ◌*◌, ◌/◌, ◌%◌, ◌^◌, ◌≤◌, ◌<◌, ◌≡◌, refl, sym, ap, ◌∙◌, fun_ext,
}
use openkeyv.Base.{
  ◌≢◌, ◌↔◌, ◌⊎◌, inl, inr, Bool, true, false, not, ◌&&◌, ◌||◌, Option, none, some, List, [], ◌∷◌,
  ◌++◌, map, append-nil, append_assoc, arith,
}
use openkeyv.Base.{
  ltb, leb, ◌==◌, if◌then◌else◌, Bool-cases, leb→le, le→leb, ltb→lt, lt→ltb, le→ltb,
}
use openkeyv.Base.{
  length, take, drop, get_elem?, All, zip_with, length-append, take-append, drop-append, take-drop,
  length-take, length-take-le, drop-take, length-drop, take_all, All-split, All-drop,
  get_elem?-drop, All-append, length-map,
}
use openkeyv.Base.{
  Error, Result, ok, err, bind, guard, ok_or, map_err, collect, bind-eq-ok, if-eq-ok, ok_or-eq-ok,
}
use openkeyv.Base.{
  serialization, deserialization, invalid_key, invalid_ttl, invalid_value, invalid_operation,
  entry_too_large, entry_too_small, read_only, corrupted_data, batch_size_mismatch,
  invalid_change_cursor, change_cursor_expired, change_feed_lagged, revision_generation,
  out_of_fuel,
}
use openkeyv.Base.Bytes.{
  Bytes, Text, IsByte, bytes_eq, bytes_eq_iff, bytes_eq_refl, bytes_eq-append, starts_with,
  to_le_bytes, from_le_bytes, length-to_le_bytes, to_le_bytes-IsByte, from_le_bytes-to_le_bytes,
  to_le_bytes-from_le_bytes, from_le_bytes-lt,
}
use openkeyv.Platform.{Platform}
use openkeyv.Value.Checked.{Value}
use openkeyv.Entry.{ManagedEntry, make}
use openkeyv.Cas.{Revision, RevisionedValue}
use openkeyv.Protocol.{
  Done, Op, continue, ◌>>=◌, ◌>>◌, pure, lift, KeyValue, CompareAndSwap, SwapResult, DeleteResult,
  Enumerate,
}
use openkeyv.Base.Assoc.{Assoc, lookup, insert, remove, keys}
use openkeyv.Platform.{Inputs}
use openkeyv.Entry.{is_expired, ttl}
use openkeyv.Entry
use openkeyv.Change.{ChangeOperation, StoreChange}
use openkeyv.Store.Memory.Changes.{ChangeLog, new_log, record_change}
use openkeyv.Protocol.Contract.{resolve, is_present}
use openkeyv.Store.Simple.{or_default, min_limit}
use openkeyv.Store.Memory.Capacity.{RevisionedEntry, Collection, retain, enforce_capacity}
use openkeyv.Store.Memory.State.{
  MemoryStore, now, fresh, ensure, get_collection, set_collection, put_entry, record_put,
  record_delete, for_each, reads, resolved, enforce_in, setup, setup_collection, skip,
}
use openkeyv.Store.Simple.{live_ttl, find}
use openkeyv.Protocol.Contract.{live, same_place}
use openkeyv.Store.Memory.Calls.{remove_entry}
use openkeyv.Entry.{validate}
use openkeyv.Protocol.{applied, deleted}

module _ {T F : Type 0} (os : Platform T F) where
  -- `snapshot_to_revisioned_value(rev.snapshot())`
  unfoldable pub snapshot : T → RevisionedEntry T → RevisionedValue F
  snapshot later r = record {
    value = r.entry.value;
    revision = r.revision;
    ttl = ttl os later r.entry;
  }

  abbrev pub live_snapshot : T → T → Option (RevisionedEntry T) → Option (RevisionedValue F)
  live_snapshot t later none = none
  live_snapshot t later (some r) = if is_expired os t r.entry then none else some (snapshot later r)

  unfoldable pub get_with_revision :
      Text → Option Text → Op (MemoryStore T) (Option (RevisionedValue F))
  get_with_revision k c = do
    cname ← resolved c
    setup_collection os cname
    col ← get_collection cname
    t ← now
    later ← now
    pure (live_snapshot t later (lookup k col))

  -- `entry.insert(..)`, `record_change(.., Put)`, `Applied`.
  unfoldable pub apply : Text → Text → RevisionedEntry T → Op (MemoryStore T) (SwapResult F)
  unfolding record_put
  apply cname k new = do put_entry os cname k new; record_put cname k; pure (applied new.revision)

  abbrev pub conflicts : Option (RevisionedValue F) → Op (MemoryStore T) (SwapResult F)
  conflicts current = pure (SwapResult.conflict current)

  unfoldable pub swap_at :
      T
      → T
      → Text
      → Text
      → Option Revision
      → RevisionedEntry T
      → Option (RevisionedEntry T)
      → Op (MemoryStore T) (SwapResult F)
  unfolding apply remove_entry
  swap_at t later cname k none new none = apply cname k new
  swap_at t later cname k (some x) new none = conflicts none
  swap_at t later cname k none new (some r) =
      if is_expired os t r.entry then apply cname k new else conflicts (some (snapshot later r))
  swap_at t later cname k (some x) new (some r) =
      if is_expired os t r.entry
      then (remove_entry os cname k >> conflicts none)
      else if bytes_eq x r.revision
      then apply cname k new
      else conflicts (some (snapshot later r))

  unfoldable pub compare_and_swap :
      Text → Option Revision → Value → Option Text → Option F → Op (MemoryStore T) (SwapResult F)
  unfolding swap_at
  compare_and_swap k x v c ttl_secs = do
    first ← now
    lift (validate os first ttl_secs)
    cname ← resolved c
    setup_collection os cname
    made ← now
    e ← lift (make os made v ttl_secs)
    r ← fresh
    col ← get_collection cname
    t ← now
    later ← now
    swap_at t later cname k x (record { entry = e; revision = r }) (lookup k col)

  abbrev pub keeps : Option (RevisionedValue F) → Op (MemoryStore T) (DeleteResult F)
  keeps current = pure (DeleteResult.conflict current)

  unfoldable pub remove_at :
      T
      → T
      → Text
      → Text
      → Revision
      → Option (RevisionedEntry T)
      → Op (MemoryStore T) (DeleteResult F)
  unfolding remove_entry record_delete
  remove_at t later cname k x none = keeps none
  remove_at t later cname k x (some r) =
      if is_expired os t r.entry
      then (remove_entry os cname k >> keeps none)
      else if bytes_eq x r.revision
      then (remove_entry os cname k >> record_delete cname k >> pure deleted)
      else keeps (some (snapshot later r))

  unfoldable pub compare_and_delete :
      Text → Revision → Option Text → Op (MemoryStore T) (DeleteResult F)
  unfolding remove_at
  compare_and_delete k x c = do
    cname ← resolved c
    setup_collection os cname
    col ← get_collection cname
    t ← now
    later ← now
    remove_at t later cname k x (lookup k col)

  -- `impl AsyncCompareAndSwap for MemoryStore`
  unfoldable pub memory_cas : CompareAndSwap (MemoryStore T) F
  memory_cas = record {
    get_with_revision = get_with_revision;
    compare_and_swap = compare_and_swap;
    compare_and_delete = compare_and_delete;
  }
