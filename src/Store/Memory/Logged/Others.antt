-- ===== src/Store/Memory/Logged/Others.antt =====
-- The change log under the calls that compare revisions, that clear and that list.
use openkeyv.Base.{ℕ, refl}
use openkeyv.Base.{Option, none, some}
use openkeyv.Base.{take}
use openkeyv.Base.{Result, ok}
use openkeyv.Base.Bytes.{Text, bytes_eq}
use openkeyv.Base.Assoc.{lookup, remove, keys}
use openkeyv.Value.Checked.{Value}
use openkeyv.Entry.{make, validate, is_expired}
use openkeyv.Cas.{Revision}
use openkeyv.Platform.{Platform}
use openkeyv.Protocol.{SwapResult, DeleteResult, applied, deleted}
use openkeyv.Protocol.Contract.{is_present}
use openkeyv.Store.Simple.{or_default, min_limit}
use openkeyv.Store.Memory.Capacity.{RevisionedEntry}
use openkeyv.Store.Memory.Calls.{
  entries_of, cull_each, cull, list_keys, list_collections, destroy_collection, destroy,
}
use openkeyv.Store.Memory.Swap.{
  snapshot, live_snapshot, get_with_revision, apply, swap_at, compare_and_swap, remove_at,
  compare_and_delete,
}
use openkeyv.Store.Memory.Logged.{
  none_yet, Records, choice, Recorded, quiet, each_of, noted_put, noted_delete,
}
use openkeyv.Store.Memory.Logged.Steps.{
  ◌>>=◌, ◌>>◌, returned, looked, clock_read, drawn, found, entered, set_up, set_up_collection,
}
use openkeyv.Store.Memory.Logged.Calls.{named, removed}
use openkeyv.Store.Memory.State.{skip}

module _ {T F : Type 0} (os : Platform T F) where
  pub cull-Records : Records (cull os)
  unfolding cull
  cull-Records =
      (do
        gone ←
            quiet
              (λ m.
                let (gone, rest) = cull_each os m.inputs.clock m.collections in
                (
                  ok gone,
                  record m {
                    collections = rest;
                    inputs = skip (entries_of os m.collections) m.inputs;
                  },
                ))
              (λ m. refl)
        each_of (λ p. noted_delete p.0 p.1) gone).records

  pub list_keys-Records : (c : Option Text) (limit : Option ℕ) → Records (list_keys os c limit)
  unfolding list_keys
  list_keys-Records c limit =
      (do
        cname ← named os c
        set_up_collection os cname
        col ← found cname
        returned (ok (take (min_limit limit) (keys col)))).records

  pub list_collections-Records : (limit : Option ℕ) → Records (list_collections os limit)
  unfolding list_collections
  list_collections-Records limit =
      (set_up os >> looked (λ m. take (min_limit limit) (keys m.collections))).records

  pub destroy_collection-Records : (c : Text) → Records (destroy_collection os c)
  unfolding destroy_collection
  destroy_collection-Records c =
      (do
        set_up os
        gone ←
            quiet
              (λ m.
                (ok (lookup c m.collections), record m { collections = remove c m.collections }))
              (λ m. refl)
        each_of (noted_delete c) (keys (or_default gone))
        returned (ok (is_present gone))).records

  pub destroy-Records : Records (destroy os)
  unfolding destroy
  destroy-Records = λ m. (0, none_yet)

  pub get_with_revision-Records : (k : Text) (c : Option Text) → Records (get_with_revision os k c)
  unfolding get_with_revision
  get_with_revision-Records k c =
      (do
        cname ← named os c
        set_up_collection os cname
        col ← found cname
        t ← clock_read
        later ← clock_read
        returned (ok (live_snapshot os t later (lookup k col)))).records

  abbrev swapped : Result (SwapResult F) → Recorded T (SwapResult F)
  swapped r = returned r

  abbrev deletion : Result (DeleteResult F) → Recorded T (DeleteResult F)
  deletion r = returned r

  apply-Records : (c k : Text) (new : RevisionedEntry T) → Records (apply os c k new)
  unfolding apply
  apply-Records c k new =
      (do entered os c k new; noted_put c k; swapped (ok (applied new.revision))).records

  abbrev applied_at : Text → Text → RevisionedEntry T → Recorded T (SwapResult F)
  applied_at c k new = record { op = apply os c k new; records = apply-Records c k new }

  swap_at-Records :
      (t later : T) (c k : Text) (x : Option Revision) (new : RevisionedEntry T)
      (old : Option (RevisionedEntry T))
      → Records (swap_at os t later c k x new old)
  unfolding swap_at
  swap_at-Records t later c k none new none = apply-Records c k new
  swap_at-Records t later c k (some x) new none = λ m. (0, none_yet)
  swap_at-Records t later c k none new (some r) =
      (choice (is_expired os t r.entry) (applied_at c k new)
        (swapped (ok (SwapResult.conflict (some (snapshot os later r)))))).records
  swap_at-Records t later c k (some x) new (some r) =
      (choice (is_expired os t r.entry) (removed os c k >> swapped (ok (SwapResult.conflict none)))
        (choice (bytes_eq x r.revision) (applied_at c k new)
          (swapped (ok (SwapResult.conflict (some (snapshot os later r))))))).records

  pub compare_and_swap-Records :
      (k : Text) (x : Option Revision) (v : Value) (c : Option Text) (ttl : Option F)
      → Records (compare_and_swap os k x v c ttl)
  unfolding compare_and_swap
  compare_and_swap-Records k x v c ttl =
      (do
        first ← clock_read
        returned (validate os first ttl)
        cname ← named os c
        set_up_collection os cname
        made ← clock_read
        e ← returned (make os made v ttl)
        r ← drawn
        col ← found cname
        t ← clock_read
        later ← clock_read
        record {
          op = swap_at os t later cname k x (record { entry = e; revision = r }) (lookup k col);
          records =
              swap_at-Records t later cname k x (record { entry = e; revision = r }) (lookup k col);
        }).records

  remove_at-Records :
      (t later : T) (c k : Text) (x : Revision) (old : Option (RevisionedEntry T))
      → Records (remove_at os t later c k x old)
  unfolding remove_at
  remove_at-Records t later c k x none = λ m. (0, none_yet)
  remove_at-Records t later c k x (some r) =
      (choice (is_expired os t r.entry)
        (removed os c k >> deletion (ok (DeleteResult.conflict none)))
        (choice (bytes_eq x r.revision)
          ((removed os c k >> noted_delete c k) >> deletion (ok deleted))
          (deletion (ok (DeleteResult.conflict (some (snapshot os later r))))))).records

  pub compare_and_delete-Records :
      (k : Text) (x : Revision) (c : Option Text) → Records (compare_and_delete os k x c)
  unfolding compare_and_delete
  compare_and_delete-Records k x c =
      (do
        cname ← named os c
        set_up_collection os cname
        col ← found cname
        t ← clock_read
        later ← clock_read
        record {
          op = remove_at os t later cname k x (lookup k col);
          records = remove_at-Records t later cname k x (lookup k col);
        }).records
