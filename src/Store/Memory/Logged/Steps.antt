-- ===== src/Store/Memory/Logged/Steps.antt =====
-- The parts that the calls of the memory store share, with what they do to the log.
use openkeyv.Base.{◌≡◌, refl}
use openkeyv.Base.{List}
use openkeyv.Base.{Result, ok}
use openkeyv.Base.Bytes.{Text}
use openkeyv.Base.Assoc.{Assoc}
use openkeyv.Value.Checked.{Value}
use openkeyv.Entry
use openkeyv.Cas.{Revision}
use openkeyv.Platform.{Platform}
use openkeyv.Protocol.{Done}
use openkeyv.Store.Memory.Capacity.{RevisionedEntry, Collection}
use openkeyv.Store.Memory.State.{
  MemoryStore, now, fresh, ensure, get_collection, reads, enforce_in, put_entry, seed_item,
  seed_collection, setup, setup_collection, seeds, complete,
}
use openkeyv.Store.Memory.Logged.{none_yet, Records, Records-if, Recorded, and_then, quiet, each_of}

module _ {T A B : Type 0} where
  infixl 10 ◌>>=◌ ◌>>◌
  abbrev pub ◌>>=◌ : Recorded T A → (A → Recorded T B) → Recorded T B
  x >>= f = and_then x f

  abbrev pub ◌>>◌ : Recorded T A → Recorded T B → Recorded T B
  x >> y = and_then x λ _. y

module _ {T : Type 0} where
  abbrev pub returned : {A : Type 0} → Result A → Recorded T A
  returned r = quiet (λ m. (r, m)) (λ m. refl)

  abbrev pub looked : {A : Type 0} → (MemoryStore T → A) → Recorded T A
  looked f = quiet (reads f) (λ m. refl)

  pub now-quiet : (m : MemoryStore T) → (now m).1.changes ≡ m.changes
  unfolding now
  now-quiet m = refl

  pub fresh-quiet : (m : MemoryStore T) → (fresh m).1.changes ≡ m.changes
  unfolding fresh
  fresh-quiet m = refl

  pub ensure-quiet : (c : Text) (m : MemoryStore T) → (ensure c m).1.changes ≡ m.changes
  unfolding ensure
  ensure-quiet c m = refl

  pub get_collection-quiet :
      (c : Text) (m : MemoryStore T) → (get_collection c m).1.changes ≡ m.changes
  unfolding get_collection
  get_collection-quiet c m = refl

  abbrev pub clock_read : Recorded T T
  clock_read = quiet now now-quiet

  abbrev pub drawn : Recorded T Revision
  drawn = quiet fresh fresh-quiet

  abbrev pub ensured : Text → Recorded T Done
  ensured c = quiet (ensure c) (ensure-quiet c)

  abbrev pub found : Text → Recorded T (Collection T)
  found c = quiet (get_collection c) (get_collection-quiet c)

module _ {T F : Type 0} (os : Platform T F) where
  pub enforce_in-quiet : (c : Text) (m : MemoryStore T) → (enforce_in os c m).1.changes ≡ m.changes
  unfolding enforce_in
  enforce_in-quiet c m = refl

  abbrev pub enforced : Text → Recorded T (List Text)
  enforced c = quiet (enforce_in os c) (enforce_in-quiet c)

  abbrev pub entered : Text → Text → RevisionedEntry T → Recorded T Done
  entered c k r = quiet (put_entry os c k r) (λ m. refl)

  pub seed_item-Records : (c : Text) (item : Text × Value) → Records (seed_item os c item)
  unfolding seed_item
  seed_item-Records c item =
      (do
        t ← clock_read
        r ← drawn
        entered c item.0 (record { entry = Entry.new os t item.1; revision = r })).records

  abbrev seeded_item : Text → Text × Value → Recorded T Done
  seeded_item c item = record { op = seed_item os c item; records = seed_item-Records c item }

  pub seed_collection-Records : (s : Text × Assoc Value) → Records (seed_collection os s)
  unfolding seed_collection
  seed_collection-Records s =
      (do ensured s.0; each_of (seeded_item s.0) s.1; enforced s.0; returned (ok tt)).records

  abbrev seeded : Text × Assoc Value → Recorded T Done
  seeded s = record { op = seed_collection os s; records = seed_collection-Records s }

  pub setup-Records : Records (setup os)
  unfolding setup
  setup-Records m =
      Records-if m m.setup_complete (ok tt, m) _ (0, none_yet)
        ((each_of seeded (seeds os m.config.seed) >> quiet (complete os) (λ x. refl)).records m)

  abbrev pub set_up : Recorded T Done
  set_up = record { op = setup os; records = setup-Records }

  pub setup_collection-Records : (c : Text) → Records (setup_collection os c)
  unfolding setup_collection
  setup_collection-Records c = (set_up >> ensured c).records

  abbrev pub set_up_collection : Text → Recorded T Done
  set_up_collection c = record { op = setup_collection os c; records = setup_collection-Records c }
