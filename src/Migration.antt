-- ===== src/Migration.antt =====
-- migration.rs: a copy of the contents of one store into another, and the replay of changes on the
-- target. The state is that of the source beside that of the target.
pub mod Chunks
pub mod Names
pub mod Items
pub mod Snapshot
pub mod Complete
pub mod Returns
pub mod Sources
pub mod Origin
use openkeyv.Base.{
  ℕ, zero, suc, ◌+◌, ◌-◌, ◌*◌, ◌/◌, ◌%◌, ◌^◌, ◌≤◌, ◌<◌, ◌≡◌, refl, sym, ap, ◌∙◌, fun_ext,
}
use openkeyv.Base.{
  ◌≢◌, ◌↔◌, ◌⊎◌, inl, inr, Bool, true, false, not, ◌&&◌, ◌||◌, Option, none, some, List, [], ◌∷◌,
  ◌++◌, map, append-nil, append_assoc, arith,
}
use openkeyv.Base.{
  ltb, leb, ◌==◌, if◌then◌else◌, Bool-cases, leb→le, le→leb, ltb→lt, lt→ltb, le→ltb,
}
use openkeyv.Base.{
  length, take, drop, get_elem?, All, zip_with, length-append, take-append, drop-append, take-drop,
  length-take, length-take-le, drop-take, length-drop, take_all, All-split, All-drop,
  get_elem?-drop, All-append, length-map,
}
use openkeyv.Base.{
  Error, Result, ok, err, bind, guard, ok_or, map_err, collect, bind-eq-ok, if-eq-ok, ok_or-eq-ok,
  ok-injective,
}
use openkeyv.Base.{
  serialization, deserialization, invalid_key, invalid_ttl, invalid_value, invalid_operation,
  entry_too_large, entry_too_small, read_only, corrupted_data, batch_size_mismatch,
  invalid_change_cursor, change_cursor_expired, change_feed_lagged, revision_generation,
  out_of_fuel,
}
use openkeyv.Base.Bytes.{
  Bytes, Text, IsByte, bytes_eq, bytes_eq_iff, bytes_eq_refl, bytes_eq-append, starts_with,
  to_le_bytes, from_le_bytes, length-to_le_bytes, to_le_bytes-IsByte, from_le_bytes-to_le_bytes,
  to_le_bytes-from_le_bytes, from_le_bytes-lt,
}
use openkeyv.Platform.{Platform}
use openkeyv.Value.Checked.{Value}
use openkeyv.Entry.{ManagedEntry, make}
use openkeyv.Cas.{Revision, RevisionedValue}
use openkeyv.Protocol.{
  Done, Op, continue, ◌>>=◌, ◌>>◌, pure, lift, KeyValue, CompareAndSwap, SwapResult, DeleteResult,
  Enumerate,
}
use openkeyv.Utils.Compound.{strip_prefix}
use openkeyv.Change.{StoreChange, ChangeOperation, has_collection, put, delete}

pub record MigrationOptions : Type 0 where
  -- Empty means all collections.
  pub collections : List Text
  pub collection_prefix : Option (Text × Text)
  pub batch_size : ℕ
  pub preserve_ttl : Bool

-- `MigrationOptions::default`
abbrev pub default_options : MigrationOptions
default_options = record {
  collections = [];
  collection_prefix = none;
  batch_size = 1000;
  preserve_ttl = true;
}

-- Its fields are of the type `u64`.
pub record MigrationReport : Type 0 where
  pub scanned : ℕ
  pub copied : ℕ
  pub skipped_expired : ℕ
  pub replayed : ℕ

-- `MigrationReport::default`
abbrev pub no_report : MigrationReport
no_report = record { scanned = 0; copied = 0; skipped_expired = 0; replayed = 0 }

abbrev pub add_u64 : ℕ → ℕ → ℕ
add_u64 a b = (a + b) % 2 ^ 64

unfoldable pub merge : MigrationReport → MigrationReport → MigrationReport
merge r other = record {
  scanned = add_u64 r.scanned other.scanned;
  copied = add_u64 r.copied other.copied;
  skipped_expired = add_u64 r.skipped_expired other.skipped_expired;
  replayed = add_u64 r.replayed other.replayed;
}

unfoldable pub selected : MigrationOptions → Text → Bool
selected options collection = elim options.collections [
  | [] ↦ true
  | d ∷ ds ↦ has_collection collection (d ∷ ds)
]

unfoldable pub target_collection : MigrationOptions → Text → Option Text
unfolding strip_prefix
target_collection options collection = elim options.collection_prefix [
  | none ↦ some collection
  | some (source, target) ↦ elim (strip_prefix source collection) [
    | none ↦ none
    | some suffix ↦ some (target ++ suffix)
  ]
]

unfoldable pub batch_size : MigrationOptions → ℕ
batch_size options = if options.batch_size == 0 then 1 else options.batch_size

-- `keys.chunks(n)`, where `n` is not 0. The fuel is a bound on the number of chunks.
unfoldable pub chunks : ℕ → ℕ → List Text → List (List Text)
chunks zero n keys = []
chunks (suc fuel) n [] = []
chunks (suc fuel) n (k ∷ ks) = take n (k ∷ ks) ∷ chunks fuel n (drop n (k ∷ ks))

module _ {S T A : Type 0} where
  abbrev pub in_source : Op S A → Op (S × T) A
  in_source m (s, t) = let (r, s') = m s in (r, (s', t))

  abbrev pub in_target : Op T A → Op (S × T) A
  in_target m (s, t) = let (r, t') = m t in (r, (s, t'))

abbrev pub note_scanned : ℕ → MigrationReport → MigrationReport
note_scanned n r = record r { scanned = add_u64 r.scanned n }

abbrev pub note_copied : ℕ → MigrationReport → MigrationReport
note_copied n r = record r { copied = add_u64 r.copied n }

abbrev pub note_skipped : MigrationReport → MigrationReport
note_skipped r = record r { skipped_expired = add_u64 r.skipped_expired 1 }

module _ {S T F : Type 0} (source : KeyValue S F) (names : Enumerate S) (target : KeyValue T F)
    (options : MigrationOptions) where
  -- The loop over a batch where the times to live are kept, into the collection `c` of the target.
  unfoldable pub copy_items :
      Text → List (Text × Option (Value × Option F)) → MigrationReport → Op (S × T) MigrationReport
  copy_items c [] r = pure r
  copy_items c ((k, none) ∷ items) r = copy_items c items (note_skipped r)
  copy_items c ((k, some (v, ttl)) ∷ items) r =
      in_target (target.put k v (some c) ttl) >> copy_items c items (note_copied 1 r)

  -- The loop that collects `keys_to_copy` and `values_to_copy`.
  unfoldable pub values_to_copy :
      List (Text × Option Value) → MigrationReport → List Text × List Value × MigrationReport
  values_to_copy [] r = ([], [], r)
  values_to_copy ((k, none) ∷ items) r = values_to_copy items (note_skipped r)
  values_to_copy ((k, some v) ∷ items) r =
      let (ks, vs, r') = values_to_copy items r in (k ∷ ks, v ∷ vs, r')

  unfoldable pub copy_values :
      Text → List (Text × Option Value) → MigrationReport → Op (S × T) MigrationReport
  unfolding values_to_copy
  copy_values c items r =
      let (ks, vs, r') = values_to_copy items r in
      elim ks [
        | [] ↦ pure r'
        | k ∷ rest ↦ (do
          in_target (target.put_many (k ∷ rest) vs (some c) none)
          pure (note_copied (length (k ∷ rest)) r'))
      ]

  -- One round of the loop over the batches of the collection `c`, which becomes `d`.
  unfoldable pub copy_batch : Text → Text → List Text → MigrationReport → Op (S × T) MigrationReport
  unfolding copy_items copy_values
  copy_batch c d keys r =
      let scanned = note_scanned (length keys) r in
      if options.preserve_ttl
      then (do
        items ← in_source (source.ttl_many keys (some c))
        copy_items d (zip_with (λ k item. (k, item)) keys items) scanned)
      else (do
        values ← in_source (source.get_many keys (some c))
        copy_values d (zip_with (λ k item. (k, item)) keys values) scanned)

  unfoldable pub copy_batches :
      Text → Text → List (List Text) → MigrationReport → Op (S × T) MigrationReport
  unfolding copy_batch
  copy_batches c d [] r = pure r
  copy_batches c d (keys ∷ more) r = copy_batch c d keys r >>= λ r'. copy_batches c d more r'

  -- One round of the loop over the collections.
  unfoldable pub copy_collection : Text → MigrationReport → Op (S × T) MigrationReport
  unfolding selected target_collection batch_size chunks copy_batches
  copy_collection c r =
      if not (selected options c) then pure r else (elim (target_collection options c) [
        | none ↦ pure r
        | some d ↦ (do
          keys ← in_source (names.keys (some c) none)
          copy_batches c d (chunks (length keys) (batch_size options) keys) r)
      ])

  unfoldable pub copy_collections : List Text → MigrationReport → Op (S × T) MigrationReport
  unfolding copy_collection
  copy_collections [] r = pure r
  copy_collections (c ∷ cs) r = copy_collection c r >>= λ r'. copy_collections cs r'

  unfoldable pub copy_snapshot : Op (S × T) MigrationReport
  unfolding copy_collections
  copy_snapshot = do
    collections ← in_source (names.collections none)
    copy_collections collections no_report

  -- `subscribe` is the call of the source's change feed.
  unfoldable pub copy_snapshot_with_feed : {A : Type 0} → Op S A → Op (S × T) (MigrationReport × A)
  unfolding copy_snapshot
  copy_snapshot_with_feed subscribe = do
    subscription ← in_source subscribe
    report ← copy_snapshot
    pure (report, subscription)

  -- The value that a `Put` finds in the source.
  unfoldable pub current_value : Text → Text → Op (S × T) (Option (Value × Option F))
  current_value c k = if options.preserve_ttl then in_source (source.ttl k (some c)) else (do
    v ← in_source (source.get k (some c))
    pure (elim v [ none ↦ none | some x ↦ some (x, none) ]))

  unfoldable pub apply_operation :
      ChangeOperation → Text → Text → Text → MigrationReport → Op (S × T) MigrationReport
  unfolding current_value
  apply_operation delete c d k r = in_target (target.delete k (some d)) >> pure r
  apply_operation put c d k r = do
    found ← current_value c k
    elim found [
      | some (v, ttl) ↦ in_target (target.put k v (some d) ttl) >> pure r
      | none ↦ in_target (target.delete k (some d)) >> pure (record r { skipped_expired = 1 })
    ]

  unfoldable pub apply_change : {C : Type 0} → StoreChange C → Op (S × T) MigrationReport
  unfolding selected target_collection apply_operation
  apply_change change =
      if not (selected options change.collection)
      then pure no_report
      else (elim (target_collection options change.collection) [
        | none ↦ pure no_report
        | some d ↦
            apply_operation change.operation change.collection d change.key
              (record no_report { replayed = 1 })
      ])
