-- ===== src/Store/Memory/Capacity.antt =====
-- store/memory/store.rs, `enforce_capacity`: what is dropped when a collection is full.
pub mod Laws
pub mod Evicted
pub mod Kept
use openkeyv.Base.{
  ℕ, zero, suc, ◌+◌, ◌-◌, ◌*◌, ◌/◌, ◌%◌, ◌^◌, ◌≤◌, ◌<◌, ◌≡◌, refl, sym, ap, ◌∙◌, fun_ext,
}
use openkeyv.Base.{
  ◌≢◌, ◌↔◌, ◌⊎◌, inl, inr, Bool, true, false, not, ◌&&◌, ◌||◌, Option, none, some, List, [], ◌∷◌,
  ◌++◌, map, append-nil, append_assoc, arith,
}
use openkeyv.Base.{
  ltb, leb, ◌==◌, if◌then◌else◌, Bool-cases, leb→le, le→leb, ltb→lt, lt→ltb, le→ltb,
}
use openkeyv.Base.{
  length, take, drop, get_elem?, All, zip_with, length-append, take-append, drop-append, take-drop,
  length-take, length-take-le, drop-take, length-drop, take_all, All-split, All-drop,
  get_elem?-drop, All-append, length-map,
}
use openkeyv.Base.{
  Error, Result, ok, err, bind, guard, ok_or, map_err, collect, bind-eq-ok, if-eq-ok, ok_or-eq-ok,
}
use openkeyv.Base.{
  serialization, deserialization, invalid_key, invalid_ttl, invalid_value, invalid_operation,
  entry_too_large, entry_too_small, read_only, corrupted_data, batch_size_mismatch,
  invalid_change_cursor, change_cursor_expired, change_feed_lagged, revision_generation,
  out_of_fuel,
}
use openkeyv.Base.Bytes.{
  Bytes, Text, IsByte, bytes_eq, bytes_eq_iff, bytes_eq_refl, bytes_eq-append, starts_with,
  to_le_bytes, from_le_bytes, length-to_le_bytes, to_le_bytes-IsByte, from_le_bytes-to_le_bytes,
  to_le_bytes-from_le_bytes, from_le_bytes-lt,
}
use openkeyv.Platform.{Platform}
use openkeyv.Value.Checked.{Value}
use openkeyv.Entry.{ManagedEntry, make}
use openkeyv.Cas.{Revision, RevisionedValue}
use openkeyv.Protocol.{
  Done, Op, continue, ◌>>=◌, ◌>>◌, pure, lift, KeyValue, CompareAndSwap, SwapResult, DeleteResult,
  Enumerate,
}
use openkeyv.Base.Assoc.{Assoc, lookup, insert, remove, keys}
use openkeyv.Platform.{Inputs}
use openkeyv.Entry.{is_expired, ttl}
use openkeyv.Entry
use openkeyv.Change.{ChangeOperation, StoreChange}
use openkeyv.Store.Memory.Changes.{ChangeLog, new_log, record_change}
use openkeyv.Protocol.Contract.{resolve, is_present}
use openkeyv.Store.Simple.{or_default, min_limit}
use openkeyv.Base.Order.{bytes_le}

-- `RevisionedEntry` of store/memory/client.rs.
pub record RevisionedEntry (T : Type 0) : Type 0 where
  pub entry : ManagedEntry T
  pub revision : Revision

-- `DashMap<String, RevisionedEntry>`
abbrev pub Collection : Type 0 → Type 0
Collection T = Assoc (RevisionedEntry T)

-- `col.iter().map(|entry| entry.key().clone()).min()`
unfoldable pub least : {V : Type 0} → Text → Assoc V → Text
least best [] = best
least best ((k, v) ∷ col) = least (if bytes_le best k then best else k) col

unfoldable pub min_key : {V : Type 0} → Assoc V → Option Text
unfolding least
min_key [] = none
min_key ((k, v) ∷ col) = some (least k col)

-- The `while` loop, with the keys that it pushes. Each round drops an entry, so the number of the
-- entries is fuel enough.
unfoldable pub evict : {V : Type 0} → ℕ → ℕ → Assoc V → List Text × Assoc V
unfolding min_key
evict zero max col = ([], col)
evict (suc fuel) max col =
    if ltb max (length col)
    then (elim (min_key col) [
      | none ↦ ([], col)
      | some k ↦
          let (gone, rest) = evict fuel max (remove k col) in
          (if is_present (lookup k col) then k ∷ gone else gone, rest)
    ])
    else ([], col)

module _ {T F : Type 0} (os : Platform T F) where
  -- `col.retain(..)` with the keys that it pushes; one reading of the clock for each entry.
  unfoldable pub retain : (ℕ → T) → Collection T → List Text × Collection T
  retain clock [] = ([], [])
  retain clock ((k, r) ∷ col) =
      let (gone, rest) = retain (λ i. clock (i + 1)) col in
      if is_expired os (clock 0) r.entry then (k ∷ gone, rest) else (gone, (k, r) ∷ rest)

  unfoldable pub enforce_capacity : Option ℕ → (ℕ → T) → Collection T → List Text × Collection T
  unfolding retain evict
  enforce_capacity none clock col = ([], col)
  enforce_capacity (some max) clock col =
      let (gone, kept) = retain clock col in
      let (evicted, rest) = evict (length kept) max kept in (gone ++ evicted, rest)
