-- ===== src/Wrapper/Routing.antt =====
-- wrapper/routing.rs: each call goes to the store that a function of the user, or the name of the
-- collection, gives for it. `S` is the state of all the stores together, and each store is an interface
-- over it.
pub mod Laws
use openkeyv.Base.{
  ℕ, zero, suc, ◌+◌, ◌-◌, ◌*◌, ◌/◌, ◌%◌, ◌^◌, ◌≤◌, ◌<◌, ◌≡◌, refl, sym, ap, ◌∙◌, fun_ext,
}
use openkeyv.Base.{
  ◌≢◌, ◌↔◌, ◌⊎◌, inl, inr, Bool, true, false, not, ◌&&◌, ◌||◌, Option, none, some, List, [], ◌∷◌,
  ◌++◌, map, append-nil, append_assoc, arith,
}
use openkeyv.Base.{
  ltb, leb, ◌==◌, if◌then◌else◌, Bool-cases, leb→le, le→leb, ltb→lt, lt→ltb, le→ltb,
}
use openkeyv.Base.{
  length, take, drop, get_elem?, All, zip_with, length-append, take-append, drop-append, take-drop,
  length-take, length-take-le, drop-take, length-drop, take_all, All-split, All-drop,
  get_elem?-drop, All-append, length-map,
}
use openkeyv.Base.{
  Error, Result, ok, err, bind, guard, ok_or, map_err, collect, bind-eq-ok, if-eq-ok, ok_or-eq-ok,
  ok-injective,
}
use openkeyv.Base.{
  serialization, deserialization, invalid_key, invalid_ttl, invalid_value, invalid_operation,
  entry_too_large, entry_too_small, read_only, corrupted_data, batch_size_mismatch,
  invalid_change_cursor, change_cursor_expired, change_feed_lagged, revision_generation,
  out_of_fuel,
}
use openkeyv.Base.Bytes.{
  Bytes, Text, IsByte, bytes_eq, bytes_eq_iff, bytes_eq_refl, bytes_eq-append, starts_with,
  to_le_bytes, from_le_bytes, length-to_le_bytes, to_le_bytes-IsByte, from_le_bytes-to_le_bytes,
  to_le_bytes-from_le_bytes, from_le_bytes-lt,
}
use openkeyv.Platform.{Platform}
use openkeyv.Value.Checked.{Value}
use openkeyv.Entry.{ManagedEntry, make}
use openkeyv.Cas.{Revision, RevisionedValue}
use openkeyv.Protocol.{
  Done, Op, continue, ◌>>=◌, ◌>>◌, pure, lift, KeyValue, CompareAndSwap, SwapResult, DeleteResult,
  Enumerate,
}
use openkeyv.Base.Assoc.{Assoc, lookup}
use openkeyv.Protocol.{each}
use openkeyv.Wrapper.Names.{seen_before}

-- `trait RoutedStore`
pub record RoutedStore (S F : Type 0) : Type 0 where
  pub key_value : KeyValue S F
  pub enumerate : Enumerate S

abbrev pub Router : Type 0
Router = Option Text → Text → ℕ

module _ {S F : Type 0} (stores : List (RoutedStore S F)) (router : Router) where
  unfoldable pub route : Option Text → Text → Result (KeyValue S F)
  route c k = bind (ok_or (get_elem? stores (router c k)) invalid_operation) λ r. ok r.key_value

  -- `keys.iter().all(|k| (self.router)(collection, k) == first_idx)`
  unfoldable pub same_store : Option Text → ℕ → List Text → Bool
  same_store c idx [] = true
  same_store c idx (k ∷ ks) = (router c k == idx) && same_store c idx ks

  unfoldable pub routed_get : Text → Option Text → Op S (Option Value)
  unfolding route
  routed_get k c = do store ← lift (route c k); store.get k c

  unfoldable pub routed_ttl : Text → Option Text → Op S (Option (Value × Option F))
  unfolding route
  routed_ttl k c = do store ← lift (route c k); store.ttl k c

  unfoldable pub routed_put : Text → Value → Option Text → Option F → Op S Done
  unfolding route
  routed_put k v c t = do store ← lift (route c k); store.put k v c t

  unfoldable pub routed_delete : Text → Option Text → Op S Bool
  unfolding route
  routed_delete k c = do store ← lift (route c k); store.delete k c

  unfoldable pub routed_get_many : List Text → Option Text → Op S (List (Option Value))
  unfolding routed_get same_store
  routed_get_many [] c = pure []
  routed_get_many (k ∷ ks) c =
      if same_store c (router c k) (k ∷ ks)
      then (lift (route c k) >>= λ store. store.get_many (k ∷ ks) c)
      else each (λ j. routed_get j c) (k ∷ ks)

  unfoldable pub routed_ttl_many : List Text → Option Text → Op S (List (Option (Value × Option F)))
  unfolding routed_ttl same_store
  routed_ttl_many [] c = pure []
  routed_ttl_many (k ∷ ks) c =
      if same_store c (router c k) (k ∷ ks)
      then (lift (route c k) >>= λ store. store.ttl_many (k ∷ ks) c)
      else each (λ j. routed_ttl j c) (k ∷ ks)

  -- The part of `put_many` behind the check of the sizes.
  unfoldable pub put_routed : List Text → List Value → Option Text → Option F → Op S Done
  unfolding routed_put same_store
  put_routed [] vs c t = pure tt
  put_routed (k ∷ ks) vs c t =
      if same_store c (router c k) (k ∷ ks)
      then (lift (route c k) >>= λ store. store.put_many (k ∷ ks) vs c t)
      else (each (λ (j, v). routed_put j v c t) (zip_with (λ j v. (j, v)) (k ∷ ks) vs) >> pure tt)

  unfoldable pub routed_put_many : List Text → List Value → Option Text → Option F → Op S Done
  unfolding put_routed
  routed_put_many ks vs c t =
      if not (length ks == length vs)
      then lift (err (batch_size_mismatch (length ks) (length vs)))
      else put_routed ks vs c t

  -- The counter of the loop of `delete_many`.
  abbrev count_true : List Bool → ℕ
  count_true [] = 0
  count_true (b ∷ bs) = (if b then 1 else 0) + count_true bs

  unfoldable pub routed_delete_many : List Text → Option Text → Op S ℕ
  unfolding routed_delete same_store
  routed_delete_many [] c = pure 0
  routed_delete_many (k ∷ ks) c =
      if same_store c (router c k) (k ∷ ks)
      then (lift (route c k) >>= λ store. store.delete_many (k ∷ ks) c)
      else (each (λ j. routed_delete j c) (k ∷ ks) >>= λ bs. pure (count_true bs))

  unfoldable pub routing_store : KeyValue S F
  routing_store = record {
    get = routed_get;
    ttl = routed_ttl;
    put = routed_put;
    delete = routed_delete;
    get_many = routed_get_many;
    ttl_many = routed_ttl_many;
    put_many = routed_put_many;
    delete_many = routed_delete_many;
  }

-- The loop over the names of one store: the names so far, and whether the limit ended the call.
unfoldable pub merge_into : Option ℕ → List Text → List Text → List Text × Bool
unfolding seen_before
merge_into limit merged [] = (merged, false)
merge_into limit merged (x ∷ xs) =
    let merged' = merged ++ x ∷ [] in
    let skip = merge_into limit merged xs in
    let more = merge_into limit merged' xs in
    if seen_before merged x
    then skip
    else if elim limit [ none ↦ false | some n ↦ leb n (length merged') ]
    then (merged', true)
    else more

-- The loop over the stores.
module _ {S A : Type 0} (names : A → Op S (List Text)) where
  unfoldable pub merge_stores : Option ℕ → List Text → List A → Op S (List Text)
  unfolding merge_into
  merge_stores limit merged [] = pure merged
  merge_stores limit merged (x ∷ xs) = do
    found ← names x
    let (merged', full) = merge_into limit merged found in
        if full then pure merged' else merge_stores limit merged' xs

module _ {S F : Type 0} (stores : List (RoutedStore S F)) where
  unfoldable pub routing_enumerate : Enumerate S
  unfolding merge_stores
  routing_enumerate = record {
    keys = λ c limit. merge_stores (λ r. r.enumerate.keys c none) limit [] stores;
    collections = λ limit. merge_stores (λ r. r.enumerate.collections none) limit [] stores;
  }

-- `CollectionRoutingWrapper`
module _ {S F : Type 0} (stores : Assoc (RoutedStore S F)) where
  unfoldable pub resolve : Option Text → Result (RoutedStore S F)
  resolve c = bind (ok_or c invalid_operation) λ name. ok_or (lookup name stores) invalid_operation

  -- `self.resolve(collection)?`, and a call of the store.
  abbrev on : {A : Type 0} → Option Text → (KeyValue S F → Op S A) → Op S A
  on c call = lift (resolve c) >>= λ r. call r.key_value

  unfoldable pub collection_routing : KeyValue S F
  unfolding resolve
  collection_routing = record {
    get = λ k c. on c λ kv. kv.get k c;
    ttl = λ k c. on c λ kv. kv.ttl k c;
    put = λ k v c t. on c λ kv. kv.put k v c t;
    delete = λ k c. on c λ kv. kv.delete k c;
    get_many = λ ks c. on c λ kv. kv.get_many ks c;
    ttl_many = λ ks c. on c λ kv. kv.ttl_many ks c;
    put_many = λ ks vs c t. on c λ kv. kv.put_many ks vs c t;
    delete_many = λ ks c. on c λ kv. kv.delete_many ks c;
  }

  -- The loop over the routes: the name of each, and then the names that its store gives.
  unfoldable pub merge_routes : Option ℕ → List Text → Assoc (RoutedStore S F) → Op S (List Text)
  unfolding merge_into
  merge_routes limit merged [] = pure merged
  merge_routes limit merged ((name, r) ∷ rs) =
      let (merged', full) = merge_into limit merged (name ∷ []) in
      if full then pure merged' else (do
        found ← r.enumerate.collections none
        let (merged'', full') = merge_into limit merged' found in
            if full' then pure merged'' else merge_routes limit merged'' rs)

  unfoldable pub collection_enumerate : Enumerate S
  unfolding resolve merge_routes
  collection_enumerate = record {
    keys = λ c limit. lift (resolve c) >>= λ r. r.enumerate.keys c limit;
    collections = λ limit. merge_routes limit [] stores;
  }
