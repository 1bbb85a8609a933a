-- ===== src/Store/Disk/Laws.antt =====
-- What a client sees of the store over a database that works.
use openkeyv.Base.{◌^◌, ◌<◌, ◌≡◌, refl, sym, ap, ◌∙◌}
use openkeyv.Base.{Bool, true, false, ◌&&◌, Option, none, some, ◌++◌}
use openkeyv.Base.{if◌then◌else◌}
use openkeyv.Base.{length, All}
use openkeyv.Base.{Result, ok, bind}
use openkeyv.Base.Bytes.{Bytes, Text, IsByte, bytes_eq}
use mathlib.Core.Path.{subst}
use openkeyv.Platform.{Platform, Inputs}
use openkeyv.Value.Checked.{Value}
use openkeyv.Value.Laws.{Wellformed}
use openkeyv.Entry.{ManagedEntry, make}
use openkeyv.Entry.Codec
use openkeyv.Entry.RoundTrip.{IsChrono, cut_entry, decode-encode}
use openkeyv.Protocol.Clients.{continue-pure}
use openkeyv.Protocol.Contract.{resolve, live, is_present, same_place}
use openkeyv.Store.Disk.Trees.{tree_prefix, hex_digits}
use openkeyv.Store.Disk.Names.{tree_name-ok, bytes_eq-tree_name}
use openkeyv.Store.Disk.{Sled, DiskStore, open_physical_tree, get_tree}
use openkeyv.Store.Disk.Calls.{decode_some, read_value, get, put, delete}

-- What the store relies on in sled, while the disk works: each tree is a map from keys to bytes, an
-- insertion and a removal change one key of one tree, and the other calls change none.
pub record IsSled {D : Type 0} (sled : Sled D) (contents : D → Bytes → Bytes → Option Bytes)
    : Type 0 where
  pub opens :
      (n : Bytes) (d : D)
      → (d' : D) × (sled.open_tree n d ≡ (ok tt, d')) × (contents d' ≡ contents d)
  pub gets :
      (n k : Bytes) (d : D)
      → (d' : D) × (sled.get n k d ≡ (ok (contents d n k), d')) × (contents d' ≡ contents d)
  pub inserts :
      (n k b : Bytes) (d : D)
      → (d' : D) × (sled.insert n k b d ≡ (ok tt, d'))
        × ((n' j : Bytes)
            → contents d' n' j
              ≡ (if bytes_eq n n' && bytes_eq k j then some b else contents d n' j))
  pub removes :
      (n k : Bytes) (d : D)
      → (d' : D) × (sled.remove n k d ≡ (ok (contents d n k), d'))
        × ((n' j : Bytes)
            → contents d' n' j ≡ (if bytes_eq n n' && bytes_eq k j then none else contents d n' j))
  pub flushes :
      (n : Bytes) (d : D) → (d' : D) × (sled.flush n d ≡ (ok tt, d')) × (contents d' ≡ contents d)

-- A collection that has a tree name.
abbrev pub IsNameable : Text → Type 0
IsNameable c = All IsByte c × (length c < 2 ^ 62)

module _ {T F D : Type 0} (os : Platform T F) (sled : Sled D)
    (contents : D → Bytes → Bytes → Option Bytes) (works : IsSled sled contents) where
  -- What a read shows of the bytes at its place.
  abbrev shown : T → Option Bytes → Result (Option Value)
  shown now o = bind (decode_some os sled o) λ e. ok (live os now e)

  abbrev tree : Text → Bytes
  tree c = tree_prefix ++ hex_digits c

  get-shown :
      (s : DiskStore D) (k : Text) (c : Option Text) (inp : Inputs T)
      → IsNameable (resolve s.default_collection c)
      → (get os sled k c inp s).0
        ≡ shown (inp.clock 0) (contents s.db (tree (resolve s.default_collection c)) k)
  unfolding get get_tree open_physical_tree read_value
  get-shown s k c inp (b, l) =
      let n = tree (resolve s.default_collection c) in
      let (d₁, opened, same₁) = works.opens n s.db in
      let (d₂, got, same₂) = works.gets n k d₁ in
      rw (tree_name-ok (resolve s.default_collection c) l, opened, got, same₁)
        (continue-pure (decode_some os sled (contents s.db n k)) (λ e. live os (inp.clock 0) e) _)

  -- The same, in a state whose default collection is that of another.
  get-shown_after :
      (s s' : DiskStore D) (k : Text) (c : Option Text) (inp : Inputs T)
      → s'.default_collection ≡ s.default_collection
      → IsNameable (resolve s.default_collection c)
      → (get os sled k c inp s').0
        ≡ shown (inp.clock 0) (contents s'.db (tree (resolve s.default_collection c)) k)
  get-shown_after s s' k c inp same named =
      get-shown s' k c inp (subst (λ t. IsNameable (resolve t c)) (sym same) named)
      ∙ ap (λ t. shown (inp.clock 0) (contents s'.db (tree (resolve t c)) k)) same

  put-stored :
      (s : DiskStore D) (k : Text) (v : Value) (c : Option Text) (ttl : Option F) (inp : Inputs T)
      (e : ManagedEntry T)
      → IsNameable (resolve s.default_collection c)
      → make os (inp.clock 0) v ttl ≡ ok e
      → ((put os sled k v c ttl inp s).0 ≡ ok tt)
        × ((put os sled k v c ttl inp s).1.default_collection ≡ s.default_collection)
        × ((n j : Bytes)
            → contents (put os sled k v c ttl inp s).1.db n j ≡ (
                if bytes_eq (tree (resolve s.default_collection c)) n && bytes_eq k j
                then some (Codec.encode os e)
                else contents s.db n j))
  unfolding put get_tree open_physical_tree
  put-stored s k v c ttl inp e (b, l) made =
      let n = tree (resolve s.default_collection c) in
      let (d₁, opened, same₁) = works.opens n s.db in
      let (d₂, inserted, stored) = works.inserts n k (Codec.encode os e) d₁ in
      let (d₃, flushed, same₃) = works.flushes n d₂ in
      rw (made, tree_name-ok (resolve s.default_collection c) l, opened, inserted, flushed)
        (
          refl,
          refl,
          λ n' j.
              ap (λ f. f n' j) same₃
              ∙ stored n' j
              ∙ ap (λ f. if bytes_eq n n' && bytes_eq k j then some (Codec.encode os e) else f n' j)
                  same₁,
        )

  delete-removed :
      (s : DiskStore D) (k : Text) (c : Option Text)
      → IsNameable (resolve s.default_collection c)
      → let n = tree (resolve s.default_collection c) in
        ((delete os sled k c s).0 ≡ ok (is_present (contents s.db n k)))
        × ((delete os sled k c s).1.default_collection ≡ s.default_collection)
        × ((n' j : Bytes)
            → contents (delete os sled k c s).1.db n' j
              ≡ (if bytes_eq n n' && bytes_eq k j then none else contents s.db n' j))
  unfolding delete get_tree open_physical_tree
  delete-removed s k c (b, l) =
      let n = tree (resolve s.default_collection c) in
      let (d₁, opened, same₁) = works.opens n s.db in
      let (d₂, removed, left) = works.removes n k d₁ in
      rw (tree_name-ok (resolve s.default_collection c) l, opened, removed)
        (
          ap (λ f. ok (is_present (f n k))) same₁,
          refl,
          λ n' j.
              left n' j ∙ ap (λ f. if bytes_eq n n' && bytes_eq k j then none else f n' j) same₁,
        )

  shown-stored :
      (cut : T → T) (b : Bool) (now : T) (e : ManagedEntry T) (o : Option Bytes)
      → Codec.decode os (Codec.encode os e) ≡ ok (cut_entry cut e)
      → shown now (if b then some (Codec.encode os e) else o)
        ≡ (if b then ok (live os now (some (cut_entry cut e))) else shown now o)
  unfolding decode_some
  shown-stored cut true now e o h = rw h refl
  shown-stored cut false now e o h = refl

  shown-removed :
      (b : Bool) (now : T) (o : Option Bytes)
      → shown now (if b then none else o) ≡ (if b then ok none else shown now o)
  unfolding decode_some
  shown-removed true now o = refl
  shown-removed false now o = refl

  shown-present :
      (now : T) (o : Option Bytes) (v : Value) → shown now o ≡ ok (some v) → is_present o ≡ true
  unfolding decode_some
  shown-present now none v h = cc
  shown-present now (some b) v h = refl

  -- After a write of a value whose payload is well formed for its kind, where the entry can be made
  -- and encodes to less than 2^64 bytes, over a database that works, the write is accepted and a
  -- read shows at its place the new entry, its times cut to the millisecond, for as long as it is
  -- live, and at every other place, of this collection or another, what it showed before. The names
  -- of both collections are bytes, fewer than 2^62 of them, and chrono keeps times to the
  -- millisecond. A value of Value::new_unchecked whose payload is not well formed is not covered.
  pub disk_get-put :
      (cut : T → T) (s : DiskStore D) (k : Text) (v : Value) (c : Option Text) (ttl : Option F)
      (inp later : Inputs T) (e : ManagedEntry T) (j : Text) (d : Option Text)
      → IsChrono os cut
      → IsNameable (resolve s.default_collection c)
      → IsNameable (resolve s.default_collection d)
      → make os (inp.clock 0) v ttl ≡ ok e
      → Wellformed e.value.kind e.value.bytes
      → length (Codec.encode os e) < 2 ^ 64
      → ((put os sled k v c ttl inp s).0 ≡ ok tt)
        × ((get os sled j d later (put os sled k v c ttl inp s).1).0 ≡ (
            if same_place (resolve s.default_collection c) k (resolve s.default_collection d) j
            then ok (live os (later.clock 0) (some (cut_entry cut e)))
            else (get os sled j d later s).0))
  disk_get-put cut s k v c ttl inp later e j d chrono named named' made w l =
      let (accepted, default, stored) = put-stored s k v c ttl inp e named made in
      let n = tree (resolve s.default_collection c) in
      let n' = tree (resolve s.default_collection d) in
      let place : (bytes_eq n n' && bytes_eq k j)
          ≡ same_place (resolve s.default_collection c) k (resolve s.default_collection d) j =
        ap (λ b. b && bytes_eq k j)
          (bytes_eq-tree_name (resolve s.default_collection c) (resolve s.default_collection d)
            named.0 named'.0) in
      (
        accepted,
        get-shown_after s (put os sled k v c ttl inp s).1 j d later default named'
            ∙ ap (shown (later.clock 0)) (stored n' j)
            ∙ shown-stored cut (bytes_eq n n' && bytes_eq k j) (later.clock 0) e
                (contents s.db n' j) (decode-encode os cut chrono e w l)
            ∙ ap
                (λ b.
                  if b
                  then ok (live os (later.clock 0) (some (cut_entry cut e)))
                  else shown (later.clock 0) (contents s.db n' j))
                place
            ∙ ap
                (λ r.
                  if same_place (resolve s.default_collection c) k (resolve s.default_collection d)
                    j
                  then ok (live os (later.clock 0) (some (cut_entry cut e)))
                  else r)
                (sym (get-shown s j d later named')),
      )

  -- A deletion, over a database that works, says that it deleted something when a read just before
  -- it shows a value; a read after it shows nothing at its place, and elsewhere what it showed
  -- before.
  pub disk_get-delete :
      (s : DiskStore D) (k : Text) (c : Option Text) (now later : Inputs T) (j : Text)
      (d : Option Text)
      → IsNameable (resolve s.default_collection c)
      → IsNameable (resolve s.default_collection d)
      → ((v : Value) → (get os sled k c now s).0 ≡ ok (some v) → (delete os sled k c s).0 ≡ ok true)
        × ((get os sled j d later (delete os sled k c s).1).0 ≡ (
            if same_place (resolve s.default_collection c) k (resolve s.default_collection d) j
            then ok none
            else (get os sled j d later s).0))
  disk_get-delete s k c now later j d named named' =
      let (says, default, left) = delete-removed s k c named in
      let n = tree (resolve s.default_collection c) in
      let n' = tree (resolve s.default_collection d) in
      let place : (bytes_eq n n' && bytes_eq k j)
          ≡ same_place (resolve s.default_collection c) k (resolve s.default_collection d) j =
        ap (λ b. b && bytes_eq k j)
          (bytes_eq-tree_name (resolve s.default_collection c) (resolve s.default_collection d)
            named.0 named'.0) in
      (
        λ v read.
            says
            ∙ ap ok (
                shown-present (now.clock 0) (contents s.db n k) v
                  (sym (get-shown s k c now named) ∙ read)),
        get-shown_after s (delete os sled k c s).1 j d later default named'
            ∙ ap (shown (later.clock 0)) (left n' j)
            ∙ shown-removed (bytes_eq n n' && bytes_eq k j) (later.clock 0) (contents s.db n' j)
            ∙ ap (λ b. if b then ok none else shown (later.clock 0) (contents s.db n' j)) place
            ∙ ap
                (λ r.
                  if same_place (resolve s.default_collection c) k (resolve s.default_collection d)
                    j
                  then ok none
                  else r)
                (sym (get-shown s j d later named')),
      )
