-- ===== src/Store/Rocks/Laws.antt =====
-- What a client sees of the store over a database that works.
use openkeyv.Base.{◌^◌, ◌<◌, ◌≡◌, refl, sym, ap, ◌∙◌}
use openkeyv.Base.{Bool, true, false, Option, none, some}
use openkeyv.Base.{if◌then◌else◌}
use openkeyv.Base.{length}
use openkeyv.Base.{Result, ok, bind}
use openkeyv.Base.Bytes.{Bytes, Text, bytes_eq}
use mathlib.Core.Path.{ap₂}
use openkeyv.Platform.{Platform, Inputs}
use openkeyv.Value.Checked.{Value}
use openkeyv.Value.Laws.{Wellformed}
use openkeyv.Entry.{ManagedEntry, make, is_expired}
use openkeyv.Entry.Codec
use openkeyv.Entry.RoundTrip.{IsChrono, cut_entry, decode-encode}
use openkeyv.Utils.Compound.{compound_key}
use openkeyv.Utils.Compound.Laws.{bytes_eq-compound_key}
use openkeyv.Protocol.Clients.{continue-pure}
use openkeyv.Protocol.Contract.{resolve, live, same_place}
use openkeyv.Store.Rocks.{
  RocksDb, RocksStore, decode_some, value_of, get_entry, put_entry, get, put_value, delete_key,
}

-- What the store relies on in RocksDB, while the disk works: the database is a map from keys to
-- bytes, a write and a deletion change one key, and no key that is present is said to be surely
-- absent.
pub record IsRocksDb {D : Type 0} (db : RocksDb D) (contents : D → Bytes → Option Bytes)
    : Type 0 where
  pub gets : (k : Bytes) (d : D) → db.get k d ≡ ok (contents d k)
  pub puts :
      (k b : Bytes) (d : D)
      → (d' : D) × (db.put k b d ≡ (ok tt, d'))
        × ((j : Bytes) → contents d' j ≡ (if bytes_eq k j then some b else contents d j))
  pub deletes :
      (k : Bytes) (d : D)
      → (d' : D) × (db.delete k d ≡ (ok tt, d'))
        × ((j : Bytes) → contents d' j ≡ (if bytes_eq k j then none else contents d j))
  pub may_exist :
      (k : Bytes) (d : D) {b : Bytes} → contents d k ≡ some b → db.key_may_exist k d ≡ true

module _ {T F D : Type 0} (os : Platform T F) (db : RocksDb D) (contents : D → Bytes → Option Bytes)
    (works : IsRocksDb db contents) where
  -- What a read shows of the bytes at its place.
  abbrev shown : T → Option Bytes → Result (Option Value)
  shown now o = bind (decode_some os now o) λ e. ok (value_of os e)

  get-shown :
      (s : RocksStore D) (k : Text) (c : Option Text) (inp : Inputs T)
      → (get os db k c inp s).0
        ≡ shown (inp.clock 0) (contents s.db (compound_key (resolve s.default_collection c) k))
  unfolding get get_entry
  get-shown s k c inp = rw (works.gets (compound_key (resolve s.default_collection c) k) s.db) (
      continue-pure
        (decode_some os (inp.clock 0)
          (contents s.db (compound_key (resolve s.default_collection c) k)))
        (value_of os) s)

  put-stored :
      (s : RocksStore D) (k : Text) (v : Value) (c : Option Text) (ttl : Option F) (inp : Inputs T)
      (e : ManagedEntry T)
      → make os (inp.clock 0) v ttl ≡ ok e
      → let at = compound_key (resolve s.default_collection c) k in
        ((put_value os db k v c ttl inp s).0 ≡ ok tt)
        × ((put_value os db k v c ttl inp s).1.default_collection ≡ s.default_collection)
        × ((j : Bytes)
            → contents (put_value os db k v c ttl inp s).1.db j
              ≡ (if bytes_eq at j then some (Codec.encode os e) else contents s.db j))
  unfolding put_value put_entry
  put-stored s k v c ttl inp e made =
      let (d, written, stored) =
        works.puts (compound_key (resolve s.default_collection c) k) (Codec.encode os e) s.db in
      rw (made, written) (refl, refl, stored)

  delete-removed :
      (s : RocksStore D) (k : Text) (c : Option Text)
      → let at = compound_key (resolve s.default_collection c) k in
        ((delete_key os db k c s).0 ≡ ok (db.key_may_exist at s.db))
        × ((delete_key os db k c s).1.default_collection ≡ s.default_collection)
        × ((j : Bytes)
            → contents (delete_key os db k c s).1.db j
              ≡ (if bytes_eq at j then none else contents s.db j))
  unfolding delete_key
  delete-removed s k c =
      let (d, removed, left) =
        works.deletes (compound_key (resolve s.default_collection c) k) s.db in
      rw removed (refl, refl, left)

  shown-stored :
      (cut : T → T) (b : Bool) (now : T) (e : ManagedEntry T) (o : Option Bytes)
      → Codec.decode os (Codec.encode os e) ≡ ok (cut_entry cut e)
      → shown now (if b then some (Codec.encode os e) else o)
        ≡ (if b then ok (live os now (some (cut_entry cut e))) else shown now o)
  unfolding decode_some
  shown-stored cut true now e o h = rw h (go (is_expired os now (cut_entry cut e)))
    where
      go :
          (b : Bool)
          → ok (value_of os (if b then none else some (cut_entry cut e)))
            ≡ ok (if b then none else some e.value)
      go true = refl
      go false = refl
  shown-stored cut false now e o h = refl

  shown-removed :
      (b : Bool) (now : T) (o : Option Bytes)
      → shown now (if b then none else o) ≡ (if b then ok none else shown now o)
  shown-removed true now o = refl
  shown-removed false now o = refl

  shown-some :
      (now : T) (o : Option Bytes) (v : Value)
      → shown now o ≡ ok (some v)
      → (b : Bytes) × (o ≡ some b)
  shown-some now none v h = cc
  shown-some now (some b) v h = (b, refl)

  -- A read in a state of the same default collection, at a place that a test of the identities
  -- singles out.
  get-shown_at :
      (s s' : RocksStore D) (k j : Text) (c d : Option Text) (inp : Inputs T)
      (x : Result (Option Value))
      → s'.default_collection ≡ s.default_collection
      → shown (inp.clock 0) (contents s'.db (compound_key (resolve s.default_collection d) j)) ≡ (
          if bytes_eq
            (compound_key (resolve s.default_collection c) k)
            (compound_key (resolve s.default_collection d) j)
          then x
          else shown
              (inp.clock 0)
              (contents s.db (compound_key (resolve s.default_collection d) j)))
      → (get os db j d inp s').0 ≡ (
          if same_place (resolve s.default_collection c) k (resolve s.default_collection d) j
          then x
          else (get os db j d inp s).0)
  get-shown_at s s' k j c d inp x same reads =
      get-shown s' j d inp
      ∙ ap (λ t. shown (inp.clock 0) (contents s'.db (compound_key (resolve t d) j))) same
      ∙ reads
      ∙ ap₂ (λ b r. if b then x else r)
          (bytes_eq-compound_key (resolve s.default_collection c) k (resolve s.default_collection d)
            j)
          (sym (get-shown s j d inp))

  -- After a write of a value whose payload is well formed for its kind, where the entry can be made
  -- and encodes to less than 2^64 bytes, over a database that works, the write is accepted and a
  -- read shows at its place the new entry, its times cut to the millisecond, for as long as it is
  -- live, and at every other place, of this collection or another, what it showed before, whatever
  -- the names are; given that chrono keeps times to the millisecond. A value of Value::new_unchecked
  -- whose payload is not well formed is not covered.
  pub rocks_get-put :
      (cut : T → T) (s : RocksStore D) (k : Text) (v : Value) (c : Option Text) (ttl : Option F)
      (inp later : Inputs T) (e : ManagedEntry T) (j : Text) (d : Option Text)
      → IsChrono os cut
      → make os (inp.clock 0) v ttl ≡ ok e
      → Wellformed e.value.kind e.value.bytes
      → length (Codec.encode os e) < 2 ^ 64
      → ((put_value os db k v c ttl inp s).0 ≡ ok tt)
        × ((get os db j d later (put_value os db k v c ttl inp s).1).0 ≡ (
            if same_place (resolve s.default_collection c) k (resolve s.default_collection d) j
            then ok (live os (later.clock 0) (some (cut_entry cut e)))
            else (get os db j d later s).0))
  rocks_get-put cut s k v c ttl inp later e j d chrono made w l =
      let (accepted, default, stored) = put-stored s k v c ttl inp e made in
      let at = compound_key (resolve s.default_collection d) j in
      (
        accepted,
        get-shown_at s (put_value os db k v c ttl inp s).1 k j c d later _ default (
            ap (shown (later.clock 0)) (stored at)
            ∙ shown-stored cut _ (later.clock 0) e (contents s.db at)
                (decode-encode os cut chrono e w l)),
      )

  -- A deletion, over a database that works, says that it deleted something when a read just before
  -- it shows a value; a read after it shows nothing at its place, and elsewhere what it showed
  -- before.
  pub rocks_get-delete :
      (s : RocksStore D) (k : Text) (c : Option Text) (now later : Inputs T) (j : Text)
      (d : Option Text)
      → ((v : Value) → (get os db k c now s).0 ≡ ok (some v) → (delete_key os db k c s).0 ≡ ok true)
        × ((get os db j d later (delete_key os db k c s).1).0 ≡ (
            if same_place (resolve s.default_collection c) k (resolve s.default_collection d) j
            then ok none
            else (get os db j d later s).0))
  rocks_get-delete s k c now later j d =
      let (says, default, left) = delete-removed s k c in
      let at = compound_key (resolve s.default_collection d) j in
      (
        λ v read.
            let (b, held) = shown-some (now.clock 0) _ v (sym (get-shown s k c now) ∙ read) in
            says ∙ ap ok (works.may_exist _ s.db held),
        get-shown_at s (delete_key os db k c s).1 k j c d later (ok none) default (
            ap (shown (later.clock 0)) (left at)
            ∙ shown-removed _ (later.clock 0) (contents s.db at)),
      )
