-- ===== src/Examples/Migrations.antt =====
-- A migration at concrete inputs: from a source of one value into an empty store.
use openkeyv.Base.{ℕ, ◌≡◌, refl}
use openkeyv.Base.{◌≢◌, true, none, some, List, [], ◌∷◌, ◌++◌}
use openkeyv.Base.{ok}
use openkeyv.Base.Bytes.{Text, bytes_eq, starts_with}
use openkeyv.Value.Checked.{Value}
use openkeyv.Protocol.{Enumerate, Session}
use openkeyv.Store.Simple.{SimpleStore, simple_store, put}
use openkeyv.Entry.{make}
use openkeyv.Store.Simple.Laws.{simple_model}
use openkeyv.Wrapper.Names.{seen_before}
use openkeyv.Migration.{MigrationOptions, MigrationReport, copy_snapshot}
use openkeyv.Migration.Items.{held}
use openkeyv.Migration.Snapshot.{destination}
use openkeyv.Migration.Origin.{Traced}
use openkeyv.Migration.Complete.{copy_snapshot_complete}
use openkeyv.Migration.Returns.{copy_snapshot_returns}
use openkeyv.Migration.Sources.{
  simple_names, collection_of, content_of, Holds, NoExpiry, simple_store-Frozen,
  simple_store-IsPermanent,
}
use openkeyv.Store.Simple.{min_limit, ttl_many, list_keys, list_collections}
use openkeyv.Base.{Bool-cases, inl, inr, take}
use openkeyv.Base.Assoc.{lookup, keys}
use openkeyv.Entry.{is_expired, ttl}
use openkeyv.Examples.Host.{host, hi, jo, greeting, session, kv, kv-Contract}

-- The source: one value without expiry under `jo` in the collection `hi`.
abbrev stocked : SimpleStore ℕ
stocked = record {
  data_map =
      (hi, (jo, record { value = greeting; created_at = some 5; expires_at = none }) ∷ []) ∷ [];
  default_collection = hi;
}

abbrev from : Session (SimpleStore ℕ) ℕ
from = record { store = stocked; calls = session.calls }

abbrev names : Enumerate (Session (SimpleStore ℕ) ℕ)
names = simple_names host

permanent : (c k : Text) → NoExpiry host stocked (lookup k (collection_of host stocked c))
unfolding lookup
permanent c k = elim (Bool-cases (bytes_eq hi c)) [
  | inr other ↦ rw other tt
  | inl same ↦ elim (Bool-cases (bytes_eq jo k)) [
    | inr absent ↦ rw (same, absent) tt
    | inl present ↦ rw (same, present) refl
  ]
]

-- The collection `hi` becomes `johi`.
abbrev options : MigrationOptions
options = record {
  collections = [];
  collection_prefix = some ([], jo);
  batch_size = 0;
  preserve_ttl = true;
}

-- What the source lists.
abbrev listed : Text → List Text
listed c = take (min_limit none) (keys (collection_of host stocked c))

copy_snapshot_returns_example :
    (r : MigrationReport) × (s' t' : Session (SimpleStore ℕ) ℕ) × (copy_snapshot kv names kv options
        (from, session)
      ≡ (ok r, (s', t')))
    × (s'.store ≡ stocked)
copy_snapshot_returns_example =
    copy_snapshot_returns host kv names kv simple_model kv-Contract options (Holds host stocked)
      (hi ∷ []) listed (content_of host stocked) (simple_store-Frozen host stocked permanent) refl
      (simple_store-IsPermanent host stocked permanent) from session refl

abbrev report : MigrationReport
report = record { scanned = 1; copied = 1; skipped_expired = 0; replayed = 0 }

abbrev target : Session (SimpleStore ℕ) ℕ
target = (kv.put jo greeting (some (jo ++ hi)) none session).1

copies : copy_snapshot kv names kv options (from, session) ≡ (ok report, (from, target))
unfolding copy_snapshot starts_with bytes_eq simple_store put make lookup ttl_many list_keys
    list_collections is_expired ttl
copies = refl

copy_snapshot_complete_example :
    ((c d k : Text) (v : Value)
      → seen_before (hi ∷ []) c ≡ true
      → destination options c ≡ some d
      → seen_before (listed c) k ≡ true
      → content_of host stocked c k ≡ some v
      → held simple_model target d k ≡ some v)
    × ((d k : Text)
        → ((c : Text) → seen_before (hi ∷ []) c ≡ true → destination options c ≢ some d)
        → held simple_model target d k ≡ held simple_model session d k)
    × Traced host kv names kv simple_model options session target
copy_snapshot_complete_example =
    copy_snapshot_complete host kv names kv simple_model kv-Contract options (Holds host stocked)
      (hi ∷ []) listed (content_of host stocked) (simple_store-Frozen host stocked permanent) report
      from from session target refl refl copies
