-- ===== src/Store/Memory/Swap/Deletes.antt =====
-- What a deletion that compares revisions decides, for the entries as a client sees them.
use openkeyv.Base.{◌≡◌, refl}
use openkeyv.Base.{inl, inr, Bool, true, false, ◌&&◌, Option, none, some}
use openkeyv.Base.{if◌then◌else◌, Bool-cases}
use openkeyv.Base.{Result, ok}
use openkeyv.Base.Bytes.{Text, bytes_eq}
use openkeyv.Platform.{Platform}
use openkeyv.Cas.{Revision}
use openkeyv.Protocol.{DeleteResult}
use openkeyv.Base.Assoc.{lookup, insert, remove}
use openkeyv.Entry.{is_expired}
use openkeyv.Change.{ChangeOperation}
use openkeyv.Store.Memory.Changes.{record_change}
use openkeyv.Store.Memory.Capacity.{RevisionedEntry, Collection}
use openkeyv.Store.Memory.State.{MemoryStore, get_collection, set_collection, record_delete}
use openkeyv.Store.Simple.{find}
use openkeyv.Protocol.Contract.{same_place}
use openkeyv.Store.Memory.Calls.{remove_entry}
use openkeyv.Store.Memory.Swap.{remove_at}
use openkeyv.Store.Memory.Swap.Laws.{live_entry, agrees, seen}
use openkeyv.Store.Simple.Laws.{find-there, find-delete}
use openkeyv.Protocol.{deleted}

module _ {T F : Type 0} (os : Platform T F) (t later : T) (cname k : Text) (m : MemoryStore T) where
  -- What a deletion ends with, when it is carried out or not and a client sees `current`.
  abbrev pub Deletes :
      Bool → Option (RevisionedEntry T) → Result (DeleteResult F) × MemoryStore T → Type 0
  Deletes agreed current done =
      (done.0 ≡ ok (if agreed then deleted else DeleteResult.conflict (seen os later current)))
      × ((d j : Text)
          → live_entry os t (find done.1.collections d j) ≡ (
              if agreed && same_place cname k d j
              then none
              else live_entry os t (find m.collections d j)))
      × (done.1.changes ≡ (
          if agreed
          then record_change (m.inputs.clock 0) cname k ChangeOperation.delete m.changes
          else m.changes))

  module _ (col : Collection T) (there : lookup cname m.collections ≡ some col) where
    keeps-Deletes :
        (current : Option (RevisionedEntry T))
        → Deletes false current (ok (DeleteResult.conflict (seen os later current)), m)
    keeps-Deletes current = (refl, λ d j. refl, refl)

    expired-Deletes :
        (r : RevisionedEntry T)
        → lookup k col ≡ some r
        → is_expired os t r.entry ≡ true
        → Deletes false none
            (ok (DeleteResult.conflict none), set_collection cname (remove k col) m)
    expired-Deletes r h x = (
      refl,
      λ d j.
          rw (find-delete m.collections cname k col d j there)
            (elim (Bool-cases (same_place cname k d j)) [
              | inl here ↦ rw (here, find-there m.collections cname k col d j there here, h, x) refl
              | inr away ↦ rw away refl
            ]),
      refl,
    )

    removed :
        (d j : Text)
        → live_entry os t (find (insert cname (remove k col) m.collections) d j)
          ≡ (if same_place cname k d j then none else live_entry os t (find m.collections d j))
    removed d j =
        rw (find-delete m.collections cname k col d j there)
          (elim (Bool-cases (same_place cname k d j)) [
            | inl here ↦ rw here refl
            | inr away ↦ rw away refl
          ])

    decided :
        (x : Revision) (o : Option (RevisionedEntry T))
        → lookup k col ≡ o
        → Deletes
            (agrees os (some x) (live_entry os t o))
            (live_entry os t o)
            (remove_at os t later cname k x o m)
    unfolding remove_at remove_entry get_collection record_delete
    decided x none h = keeps-Deletes none
    decided x (some r) h = elim (Bool-cases (is_expired os t r.entry)) [
      | inl gone ↦ rw (gone, there) (expired-Deletes r h gone)
      | inr kept ↦ elim (Bool-cases (bytes_eq x r.revision)) [
        | inl same ↦ rw (kept, same, there) (refl, removed, refl)
        | inr other ↦ rw (kept, other) (keeps-Deletes (some r))
      ]
    ]

    -- A deletion is carried out exactly when what a client sees has the expected revision; otherwise
    -- the conflict shows what it sees. When it is carried out a client sees nothing at its place and
    -- the log holds one more change; when it is not, the log stays. No other place changes, as a
    -- client sees it. Given that the collection is there.
    pub remove_at-Deletes :
        (x : Revision)
        → Deletes
            (agrees os (some x) (live_entry os t (lookup k col)))
            (live_entry os t (lookup k col))
            (remove_at os t later cname k x (lookup k col) m)
    remove_at-Deletes x = decided x (lookup k col) refl
