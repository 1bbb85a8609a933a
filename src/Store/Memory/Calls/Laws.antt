-- ===== src/Store/Memory/Calls/Laws.antt =====
-- What a read and a write of the in-memory store do together.
use openkeyv.Base.{◌≡◌, refl, ap, ◌∙◌}
use openkeyv.Base.{inl, inr, Bool, true, false, Option, none, some}
use openkeyv.Base.{if◌then◌else◌, Bool-cases}
use openkeyv.Base.{ok}
use openkeyv.Base.Bytes.{Text, bytes_eq, bytes_eq_iff, bytes_eq_refl}
use openkeyv.Platform.{Platform}
use openkeyv.Value.Checked.{Value}
use openkeyv.Entry.{ManagedEntry, make}
use openkeyv.Cas.{Revision}
use openkeyv.Base.Assoc.{Assoc, lookup, insert}
use openkeyv.Protocol.Contract.{resolve}
use openkeyv.Store.Simple.{or_default}
use openkeyv.Store.Memory.Capacity.{RevisionedEntry, Collection, enforce_capacity}
use openkeyv.Store.Memory.State.{
  MemoryStore, now, fresh, ensure, get_collection, record_put, for_each, enforce_in, setup,
  setup_collection,
}
use openkeyv.Store.Simple.{find}
use openkeyv.Protocol.Contract.{live, same_place}
use openkeyv.Base.Assoc.{lookup-insert}
use openkeyv.Store.Simple.Laws.{find-put, find-insert}
use openkeyv.Store.Memory.Calls.{entry_of, get, put}

-- The entry that the store holds under a collection and a key.
abbrev pub shown : {T : Type 0} → MemoryStore T → Text → Text → Option (ManagedEntry T)
shown m c k = entry_of (find m.collections c k)

module _ {T F : Type 0} (os : Platform T F) where
  found_after_ensure :
      (m : Assoc (Collection T)) (c k : Text)
      → lookup c (insert c (or_default (lookup c m)) m) ≡ some (or_default (lookup c m))
  found_after_ensure m c k =
      rw (lookup-insert c c (or_default (lookup c m)) m, bytes_eq_refl c) refl

  lookup-or_default :
      (m : Assoc (Collection T)) (c k : Text) (o : Option (Collection T))
      → lookup c m ≡ o
      → lookup k (or_default o) ≡ find m c k
  unfolding find lookup
  lookup-or_default m c k none h = rw (h, find) refl
  lookup-or_default m c k (some col) h = rw (h, find) refl

  find-ensure :
      (m : Assoc (Collection T)) (c d j : Text)
      → find (insert c (or_default (lookup c m)) m) d j ≡ find m d j
  find-ensure m c d j =
      find-insert m c j (or_default (lookup c m)) d j ∙ elim (Bool-cases (bytes_eq c d)) [
        | inl here ↦
            rw (here, lookup-or_default m c j (lookup c m) refl)
              (ap (λ x. find m x j) ((bytes_eq_iff c d).0 here))
        | inr away ↦ rw away refl
      ]

  entry_of-if :
      (b : Bool) (r : RevisionedEntry T) (o : Option (RevisionedEntry T))
      → entry_of (if b then some r else o) ≡ (if b then some r.entry else entry_of o)
  entry_of-if true r o = refl
  entry_of-if false r o = refl

  get-shown :
      (m : MemoryStore T) (k : Text) (c : Option Text)
      → m.setup_complete ≡ true
      → (get os k c m).0
        ≡ ok (live os (m.inputs.clock 0) (shown m (resolve m.config.default_collection c) k))
  unfolding get setup_collection setup ensure get_collection now
  get-shown m k c done =
      let cname = resolve m.config.default_collection c in
      rw
        (
          done,
          found_after_ensure m.collections cname k,
          lookup-or_default m.collections cname k (lookup cname m.collections) refl,
        )
        refl

  -- A write without a limit on collections, with a time to live that is accepted and a revision
  -- that is drawn.
  put-shown :
      (m : MemoryStore T) (k : Text) (v : Value) (c : Option Text) (ttl_secs : Option F)
      (e : ManagedEntry T) (r : Revision)
      → m.setup_complete ≡ true
      → m.config.max_entries_per_collection ≡ none
      → make os (m.inputs.clock 0) v ttl_secs ≡ ok e
      → m.inputs.random 0 ≡ some r
      → ((put os k v c ttl_secs m).0 ≡ ok tt)
        × ((put os k v c ttl_secs m).1.setup_complete ≡ true)
        × ((put os k v c ttl_secs m).1.config ≡ m.config)
        × ((d j : Text)
            → shown (put os k v c ttl_secs m).1 d j ≡ (
                if same_place (resolve m.config.default_collection c) k d j
                then some e
                else shown m d j))
  unfolding put setup_collection setup ensure now fresh enforce_in enforce_capacity for_each
      record_put
  put-shown m k v c ttl_secs e r done free made drawn =
      rw (done, made, drawn, free)
        (
          refl,
          refl,
          refl,
          λ d j.
              let cname = resolve m.config.default_collection c in
              let there = insert cname (or_default (lookup cname m.collections)) m.collections in
              let new : RevisionedEntry T = record { entry = e; revision = r } in
              let stored = insert cname (insert k new (or_default (lookup cname there))) there in
              ap entry_of (
                find-ensure stored cname d j
                ∙ find-put there cname k new d j
                ∙ ap (λ x. if same_place cname k d j then some new else x)
                    (find-ensure m.collections cname d j))
              ∙ entry_of-if (same_place cname k d j) new (find m.collections d j),
        )

  -- In a store that is set up and has no limit on collections, a write with a time to live that is
  -- accepted and a revision that is drawn succeeds, and a read after it shows the new entry at its
  -- place for as long as it is live, and elsewhere what was there.
  pub get-put_memory :
      (m : MemoryStore T) (k : Text) (v : Value) (c : Option Text) (ttl_secs : Option F)
      (e : ManagedEntry T) (r : Revision) (j : Text) (d : Option Text)
      → m.setup_complete ≡ true
      → m.config.max_entries_per_collection ≡ none
      → make os (m.inputs.clock 0) v ttl_secs ≡ ok e
      → m.inputs.random 0 ≡ some r
      → ((put os k v c ttl_secs m).0 ≡ ok tt)
        × ((get os j d (put os k v c ttl_secs m).1).0
            ≡ ok (
                live os ((put os k v c ttl_secs m).1.inputs.clock 0) (
                  if same_place
                    (resolve m.config.default_collection c)
                    k
                    (resolve m.config.default_collection d)
                    j
                  then some e
                  else shown m (resolve m.config.default_collection d) j)))
  get-put_memory m k v c ttl_secs e r j d done free made drawn =
      let (accepted, still, same, stored) = put-shown m k v c ttl_secs e r done free made drawn in
      (
        accepted,
        get-shown (put os k v c ttl_secs m).1 j d still
            ∙ rw same (rw (stored (resolve m.config.default_collection d) j) refl),
      )
