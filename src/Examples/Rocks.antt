-- ===== src/Examples/Rocks.antt =====
-- The store over RocksDB at concrete inputs, over a database that is a function.
use openkeyv.Base.{ℕ, ◌%◌, ◌^◌, ◌<◌, ◌≡◌, refl}
use openkeyv.Base.{true, Option, none, some, List, [], ◌∷◌, arith}
use openkeyv.Base.{if◌then◌else◌}
use openkeyv.Base.{length}
use openkeyv.Base.{Result, ok}
use openkeyv.Base.Bytes.{Bytes, bytes_eq, to_le_bytes}
use openkeyv.Entry.{is_expired}
use openkeyv.Entry.Codec
use openkeyv.Platform.{Inputs}
use openkeyv.Protocol.Contract.{is_present}
use openkeyv.Store.Rocks.{RocksDb, RocksStore, BatchOp, get, put_value}
use openkeyv.Store.Rocks.Laws.{IsRocksDb, rocks_get-put}
use openkeyv.Base.{map, All}
use openkeyv.Base.Order.{bytes_le}
use openkeyv.Value.Utf8.{is_utf8}
use openkeyv.Utils.Decimal.{decimal}
use openkeyv.Utils.Compound.{collection_prefix, compound_key}
use openkeyv.Store.Rocks.{list_keys, destroy_collection}
use openkeyv.Store.Rocks.Rows.{Row, stored, from, IsAscending, IsNamed}
use openkeyv.Store.Rocks.Listing.{deletions, list_keys-keys_in, destroy_collection-batch}
use openkeyv.Examples.Host.{
  host, host-IsChrono, hi, jo, greeting, greeting-Wellformed, made, accepted,
}

abbrev Map : Type 0
Map = Bytes → Option Bytes

abbrev apply : List BatchOp → Map → Map
apply [] d = d
apply (BatchOp.put k b ∷ ops) d = apply ops (λ j. if bytes_eq k j then some b else d j)
apply (BatchOp.delete k ∷ ops) d = apply ops (λ j. if bytes_eq k j then none else d j)

abbrev each : List Bytes → Map → List (Result (Option Bytes))
each [] d = []
each (k ∷ ks) d = ok (d k) ∷ each ks d

-- What an iteration gives: two collections, of which the first has two keys.
abbrev entries : List Row
entries = (hi, (hi, [])) ∷ (hi, (jo, [])) ∷ (jo, (hi, [])) ∷ []

entries-IsAscending : IsAscending entries
unfolding compound_key collection_prefix bytes_le decimal
entries-IsAscending = ((refl, (refl, tt)), ((refl, tt), (tt, tt)))

entries-IsNamed : All IsNamed entries
unfolding compound_key collection_prefix decimal is_utf8
entries-IsNamed =
    ((refl, (refl, omega arith)), ((refl, (refl, omega arith)), ((refl, (refl, omega arith)), tt)))

-- A database that never fails and that never says of an absent key that it may be there.
abbrev rocks : RocksDb Map
rocks = record {
  get = λ k d. ok (d k);
  put = λ k b d. (ok tt, λ j. if bytes_eq k j then some b else d j);
  delete = λ k d. (ok tt, λ j. if bytes_eq k j then none else d j);
  key_may_exist = λ k d. is_present (d k);
  multi_get = each;
  write = λ ops d. (ok tt, apply ops d);
  iterator = λ d. map stored entries;
  prefix_iterator = λ p d. map stored (from p entries);
}

may_exist : (o : Option Bytes) {b : Bytes} → o ≡ some b → is_present o ≡ true
may_exist none h = cc
may_exist (some b) h = refl

rocks-IsRocksDb : IsRocksDb rocks (λ d. d)
rocks-IsRocksDb = record {
  gets = λ k d. refl;
  puts = λ k b d. (_, refl, λ j. refl);
  deletes = λ k d. (_, refl, λ j. refl);
  may_exist = λ k d h. may_exist (d k) h;
}

abbrev store : RocksStore Map
store = record { db = λ k. none; default_collection = jo }

abbrev inputs : Inputs ℕ
inputs = record { clock = λ i. 7; random = λ i. none }

made-short : length (Codec.encode host made) < 2 ^ 64
unfolding Codec.encode Codec.entry_flags Codec.encode_time to_le_bytes
made-short = omega arith

rocks_get-put_example :
    ((put_value host rocks hi greeting none (some 9) inputs store).0 ≡ ok tt)
    × ((get host rocks hi
          (some jo)
          inputs
          (put_value host rocks hi greeting none (some 9) inputs store).1).0
        ≡ ok (some greeting))
unfolding bytes_eq is_expired
rocks_get-put_example =
    rocks_get-put host rocks (λ d. d) rocks-IsRocksDb (λ t. t % 2 ^ 64) store hi greeting none
      (some 9) inputs inputs made hi (some jo) host-IsChrono accepted greeting-Wellformed made-short

list_keys-keys_in_example : list_keys host rocks (some hi) none store ≡ (ok (hi ∷ jo ∷ []), store)
unfolding bytes_eq
list_keys-keys_in_example =
    list_keys-keys_in host rocks (λ d. entries) store (some hi) none (λ p d. refl) entries-IsNamed
      entries-IsAscending (omega arith)

destroy_collection-batch_example :
    destroy_collection host rocks hi store
    ≡ (ok true, record store { db = apply (deletions hi (hi ∷ jo ∷ [])) store.db })
unfolding bytes_eq
destroy_collection-batch_example =
    destroy_collection-batch host rocks (λ d. entries) store hi (λ p d. refl) entries-IsNamed
      entries-IsAscending
