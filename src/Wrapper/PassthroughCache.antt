-- ===== src/Wrapper/PassthroughCache.antt =====
-- wrapper/passthrough_cache.rs: reads go to a cache first; writes drop what the cache holds.
pub mod Laws
pub mod Names
use openkeyv.Base.{
  ℕ, zero, suc, ◌+◌, ◌-◌, ◌*◌, ◌/◌, ◌%◌, ◌^◌, ◌≤◌, ◌<◌, ◌≡◌, refl, sym, ap, ◌∙◌, fun_ext,
}
use openkeyv.Base.{
  ◌≢◌, ◌↔◌, ◌⊎◌, inl, inr, Bool, true, false, not, ◌&&◌, ◌||◌, Option, none, some, List, [], ◌∷◌,
  ◌++◌, map, append-nil, append_assoc, arith,
}
use openkeyv.Base.{
  ltb, leb, ◌==◌, if◌then◌else◌, Bool-cases, leb→le, le→leb, ltb→lt, lt→ltb, le→ltb,
}
use openkeyv.Base.{
  length, take, drop, get_elem?, All, zip_with, length-append, take-append, drop-append, take-drop,
  length-take, length-take-le, drop-take, length-drop, take_all, All-split, All-drop,
  get_elem?-drop, All-append, length-map,
}
use openkeyv.Base.{
  Error, Result, ok, err, bind, guard, ok_or, map_err, collect, bind-eq-ok, if-eq-ok, ok_or-eq-ok,
}
use openkeyv.Base.{
  serialization, deserialization, invalid_key, invalid_ttl, invalid_value, invalid_operation,
  entry_too_large, entry_too_small, read_only, corrupted_data, batch_size_mismatch,
  invalid_change_cursor, change_cursor_expired, change_feed_lagged, revision_generation,
  out_of_fuel,
}
use openkeyv.Base.Bytes.{
  Bytes, Text, IsByte, bytes_eq, bytes_eq_iff, bytes_eq_refl, bytes_eq-append, starts_with,
  to_le_bytes, from_le_bytes, length-to_le_bytes, to_le_bytes-IsByte, from_le_bytes-to_le_bytes,
  to_le_bytes-from_le_bytes, from_le_bytes-lt,
}
use openkeyv.Platform.{Platform}
use openkeyv.Value.Checked.{Value}
use openkeyv.Entry.{ManagedEntry, make}
use openkeyv.Cas.{Revision, RevisionedValue}
use openkeyv.Protocol.{
  Done, Op, continue, each, ◌>>=◌, ◌>>◌, pure, lift, KeyValue, CompareAndSwap, SwapResult,
  DeleteResult, Enumerate,
}
use openkeyv.Protocol.Contract.{resolve, live, Model, Contract, same_place}
use openkeyv.Wrapper.Names.{seen_before}

-- The state of the cache and that of the primary store.
module _ {C P A : Type 0} where
  abbrev pub in_cache : Op C A → Op (C × P) A
  in_cache m (c, p) = let (r, c') = m c in (r, (c', p))

  abbrev pub in_primary : Op P A → Op (C × P) A
  in_primary m (c, p) = let (r, p') = m p in (r, (c, p'))

-- The merge of two lists of names without repetition, up to the limit.
unfoldable pub merge_names : Option ℕ → List Text → List Text → List Text
merge_names limit merged [] = merged
merge_names limit merged (x ∷ xs) =
    let merged' = merged ++ x ∷ [] in
    let skip = merge_names limit merged xs in
    let more = merge_names limit merged' xs in
    if seen_before merged x
    then skip
    else if elim limit [ none ↦ false | some n ↦ leb n (length merged') ]
    then merged'
    else more

module _ {C P F : Type 0} (cache_ttl : Option F) (cache : KeyValue C F)
    (primary : KeyValue P F) where
  -- `if let Some(ref v) = value { self.cache.put(..).await?; }`
  unfoldable pub fill : Text → Option Text → Option Value → Op (C × P) Done
  fill k c none = pure tt
  fill k c (some v) = in_cache (cache.put k v c cache_ttl)

  unfoldable pub cached_get : Text → Option Text → Op (C × P) (Option Value)
  cached_get k c = do
    hit ← in_cache (cache.get k c)
    elim hit [
      | some v ↦ pure (some v)
      | none ↦ do v ← in_primary (primary.get k c); fill k c v; pure v
    ]

  abbrev value_of : Option (Value × Option F) → Option Value
  value_of none = none
  value_of (some p) = some p.0

  unfoldable pub cached_ttl : Text → Option Text → Op (C × P) (Option (Value × Option F))
  cached_ttl k c = do
    hit ← in_cache (cache.ttl k c)
    elim hit [
      | some p ↦ pure (some p)
      | none ↦ do r ← in_primary (primary.ttl k c); fill k c (value_of r); pure r
    ]

  unfoldable pub cached_put : Text → Value → Option Text → Option F → Op (C × P) Done
  cached_put k v c t = in_cache (cache.delete k c) >> in_primary (primary.put k v c t)

  unfoldable pub passthrough_cache : KeyValue (C × P) F
  passthrough_cache = record {
    get = cached_get;
    ttl = cached_ttl;
    put = cached_put;
    delete = λ k c. in_cache (cache.delete k c) >> in_primary (primary.delete k c);
    get_many = λ ks c. each (λ k. cached_get k c) ks;
    ttl_many = λ ks c. each (λ k. cached_ttl k c) ks;
    put_many = λ ks vs c t.
        if not (length ks == length vs)
        then lift (err (batch_size_mismatch (length ks) (length vs)))
        else (each (λ k. in_cache (cache.delete k c)) ks
            >> in_primary (primary.put_many ks vs c t));
    delete_many =
        λ ks c. each (λ k. in_cache (cache.delete k c)) ks >> in_primary (primary.delete_many ks c);
  }

  abbrev current : Option (RevisionedValue F) → Option Value
  current none = none
  current (some r) = some r.value

  unfoldable pub passthrough_cas : CompareAndSwap P F → CompareAndSwap (C × P) F
  passthrough_cas inner = record {
    get_with_revision = λ k c. do
      r ← in_primary (inner.get_with_revision k c)
      fill k c (current r)
      pure r;
    compare_and_swap =
        λ k x v c t. in_cache (cache.delete k c) >> in_primary (inner.compare_and_swap k x v c t);
    compare_and_delete =
        λ k x c. in_cache (cache.delete k c) >> in_primary (inner.compare_and_delete k x c);
  }

module _ {C P : Type 0} where
  unfoldable pub passthrough_enumerate : Enumerate C → Enumerate P → Enumerate (C × P)
  passthrough_enumerate cache primary = record {
    keys = λ c limit. do
      a ← in_cache (cache.keys c none)
      b ← in_primary (primary.keys c none)
      pure (merge_names limit [] (a ++ b));
    collections = λ limit. do
      a ← in_cache (cache.collections none)
      b ← in_primary (primary.collections none)
      pure (merge_names limit [] (a ++ b));
  }
