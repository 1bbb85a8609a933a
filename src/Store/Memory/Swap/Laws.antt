-- ===== src/Store/Memory/Swap/Laws.antt =====
-- What a comparison of revisions decides, for the entries as a client sees them: one that has expired
-- is as good as absent.
use openkeyv.Base.{◌≡◌, refl}
use openkeyv.Base.{inl, inr, Bool, true, false, ◌&&◌, Option, none, some}
use openkeyv.Base.{if◌then◌else◌, Bool-cases}
use openkeyv.Base.{Result, ok}
use openkeyv.Base.Bytes.{Text, bytes_eq}
use openkeyv.Platform.{Platform}
use openkeyv.Cas.{Revision, RevisionedValue}
use openkeyv.Protocol.{SwapResult}
use openkeyv.Base.Assoc.{lookup, remove}
use openkeyv.Entry.{is_expired}
use openkeyv.Change.{ChangeOperation}
use openkeyv.Store.Memory.Changes.{record_change}
use openkeyv.Store.Memory.Capacity.{RevisionedEntry, Collection}
use openkeyv.Store.Memory.State.{MemoryStore, get_collection, set_collection, record_put}
use openkeyv.Store.Simple.{find}
use openkeyv.Protocol.Contract.{same_place}
use openkeyv.Store.Memory.Calls.{remove_entry}
use openkeyv.Store.Memory.Swap.{snapshot, apply, swap_at}
use openkeyv.Store.Simple.Laws.{find-there, find-put, find-delete}
use openkeyv.Protocol.{applied}

module _ {T F : Type 0} (os : Platform T F) where
  -- The entry that a client sees at the time `t`.
  abbrev pub live_entry : T → Option (RevisionedEntry T) → Option (RevisionedEntry T)
  live_entry t none = none
  live_entry t (some r) = if is_expired os t r.entry then none else some r

  -- An absent entry was expected and there is none, or the entry has the expected revision.
  abbrev pub agrees : Option Revision → Option (RevisionedEntry T) → Bool
  agrees none none = true
  agrees none (some r) = false
  agrees (some x) none = false
  agrees (some x) (some r) = bytes_eq x r.revision

  abbrev pub seen : T → Option (RevisionedEntry T) → Option (RevisionedValue F)
  seen later none = none
  seen later (some r) = some (snapshot os later r)

  module _ (t later : T) (cname k : Text) (new : RevisionedEntry T) (m : MemoryStore T) where
    -- What a swap ends with, when it is applied or not and a client sees `current`.
    abbrev pub Decides :
        Bool → Option (RevisionedEntry T) → Result (SwapResult F) × MemoryStore T → Type 0
    Decides agreed current done =
        (done.0
          ≡ ok (if agreed then applied new.revision else SwapResult.conflict (seen later current)))
        × ((d j : Text)
            → live_entry t (find done.1.collections d j) ≡ (
                if agreed && same_place cname k d j
                then live_entry t (some new)
                else live_entry t (find m.collections d j)))
        × (done.1.changes ≡ (
            if agreed
            then record_change (m.inputs.clock 0) cname k ChangeOperation.put m.changes
            else m.changes))

    apply-Decides :
        (current : Option (RevisionedEntry T)) → Decides true current (apply os cname k new m)
    unfolding apply record_put
    apply-Decides current = (
      refl,
      λ d j.
          rw (find-put m.collections cname k new d j) (elim (Bool-cases (same_place cname k d j)) [
            | inl here ↦ rw here refl
            | inr away ↦ rw away refl
          ]),
      refl,
    )

    conflicts-Decides :
        (current : Option (RevisionedEntry T))
        → Decides false current (ok (SwapResult.conflict (seen later current)), m)
    conflicts-Decides current = (refl, λ d j. refl, refl)

    module _ (col : Collection T) (there : lookup cname m.collections ≡ some col) where
      expired-Decides :
          (r : RevisionedEntry T)
          → lookup k col ≡ some r
          → is_expired os t r.entry ≡ true
          → Decides false none
              (ok (SwapResult.conflict none), set_collection cname (remove k col) m)
      expired-Decides r h x = (
        refl,
        λ d j.
            rw (find-delete m.collections cname k col d j there)
              (elim (Bool-cases (same_place cname k d j)) [
                | inl here ↦
                    rw (here, find-there m.collections cname k col d j there here, h, x) refl
                | inr away ↦ rw away refl
              ]),
        refl,
      )

      decided :
          (expected : Option Revision) (o : Option (RevisionedEntry T))
          → lookup k col ≡ o
          → Decides
              (agrees expected (live_entry t o))
              (live_entry t o)
              (swap_at os t later cname k expected new o m)
      unfolding swap_at remove_entry get_collection
      decided none none h = apply-Decides none
      decided (some x) none h = conflicts-Decides none
      decided none (some r) h = elim (Bool-cases (is_expired os t r.entry)) [
        | inl gone ↦ rw gone (apply-Decides none)
        | inr kept ↦ rw kept (conflicts-Decides (some r))
      ]
      decided (some x) (some r) h = elim (Bool-cases (is_expired os t r.entry)) [
        | inl gone ↦ rw (gone, there) (expired-Decides r h gone)
        | inr kept ↦ elim (Bool-cases (bytes_eq x r.revision)) [
          | inl same ↦ rw (kept, same) (apply-Decides (some r))
          | inr other ↦ rw (kept, other) (conflicts-Decides (some r))
        ]
      ]

      -- A swap is applied exactly when what a client sees has the expected revision, or is absent and
      -- was expected to be; otherwise the conflict shows what it sees. When it is applied the new
      -- entry is what a client sees at its place and the log holds one more change; when it is not,
      -- the log stays. No other place changes, as a client sees it. Given that the collection is
      -- there.
      pub swap_at-Decides :
          (expected : Option Revision)
          → Decides
              (agrees expected (live_entry t (lookup k col)))
              (live_entry t (lookup k col))
              (swap_at os t later cname k expected new (lookup k col) m)
      swap_at-Decides expected = decided expected (lookup k col) refl
