-- ===== src/Store/Memory/Logged.antt =====
-- Every call of the memory store changes its change log by recording changes and in no other way.
pub mod Steps
pub mod Calls
pub mod Others
pub mod Reach
use openkeyv.Base.{
  ℕ, zero, suc, ◌+◌, ◌-◌, ◌*◌, ◌/◌, ◌%◌, ◌^◌, ◌≤◌, ◌<◌, ◌≡◌, refl, sym, ap, ◌∙◌, fun_ext,
}
use openkeyv.Base.{
  ◌≢◌, ◌↔◌, ◌⊎◌, inl, inr, Bool, true, false, not, ◌&&◌, ◌||◌, Option, none, some, List, [], ◌∷◌,
  ◌++◌, map, append-nil, append_assoc, arith,
}
use openkeyv.Base.{
  ltb, leb, ◌==◌, if◌then◌else◌, Bool-cases, leb→le, le→leb, ltb→lt, lt→ltb, le→ltb,
}
use openkeyv.Base.{
  length, take, drop, get_elem?, All, zip_with, length-append, take-append, drop-append, take-drop,
  length-take, length-take-le, drop-take, length-drop, take_all, All-split, All-drop,
  get_elem?-drop, All-append, length-map,
}
use openkeyv.Base.{
  Error, Result, ok, err, bind, guard, ok_or, map_err, collect, bind-eq-ok, if-eq-ok, ok_or-eq-ok,
  ok-injective, Result-cases,
}
use openkeyv.Base.{
  serialization, deserialization, invalid_key, invalid_ttl, invalid_value, invalid_operation,
  entry_too_large, entry_too_small, read_only, corrupted_data, batch_size_mismatch,
  invalid_change_cursor, change_cursor_expired, change_feed_lagged, revision_generation,
  out_of_fuel,
}
use openkeyv.Base.Bytes.{
  Bytes, Text, IsByte, bytes_eq, bytes_eq_iff, bytes_eq_refl, bytes_eq-append, starts_with,
  starts_with-append, to_le_bytes, from_le_bytes, length-to_le_bytes, to_le_bytes-IsByte,
  from_le_bytes-to_le_bytes, to_le_bytes-from_le_bytes, from_le_bytes-lt,
}
use mathlib.Core.Path.{subst}
use openkeyv.Platform.{Platform, Inputs}
use openkeyv.Value.Checked.{Value}
use openkeyv.Entry.{ManagedEntry, make, validate, is_expired}
use openkeyv.Entry
use openkeyv.Base.Assoc.{Assoc, keys}
use openkeyv.Cas.{Revision, RevisionedValue}
use openkeyv.Change.{ChangeOperation}
use openkeyv.Protocol.{Done, Op, continue, ◌>>=◌, ◌>>◌, pure, lift}
use openkeyv.Store.Simple.{or_default}
use openkeyv.Store.Memory.Changes.{ChangeLog, new_log, record_change}
use openkeyv.Store.Memory.Changes.Laws.{IsLog, record_change-IsLog}
use openkeyv.Store.Memory.Capacity.{RevisionedEntry, Collection}
use openkeyv.Store.Memory.State.{
  MemoryStore, MemoryConfig, with_config, now, fresh, ensure, get_collection, record_put,
  record_delete, for_each, reads, resolved, enforce_in, put_entry, seed_item, seed_collection,
  setup, setup_collection,
}

-- The log `l'` is `l` after so many recorded changes.
pub data Adds {T : Type 0} (l : ChangeLog T) : ℕ → ChangeLog T → Type 0 where
  none_yet : Adds l 0 l
  one_more :
      {n : ℕ} {l' : ChangeLog T}
      → Adds l n l'
      → (t : T) (c k : Text) (o : ChangeOperation) → Adds l (suc n) (record_change t c k o l')

recount : {T : Type 0} {l l' : ChangeLog T} {n n' : ℕ} → n ≡ n' → Adds l n l' → Adds l n' l'
recount {l = l} {l' = l'} e a = subst (λ k. Adds l k l') e a

pub Adds-trans :
    {T : Type 0} {l l' l'' : ChangeLog T} {n n' : ℕ}
    → Adds l n l'
    → Adds l' n' l''
    → Adds l (n' + n) l''
Adds-trans a none_yet = recount (omega arith) a
Adds-trans a (one_more b t c k o) = recount (omega arith) (one_more (Adds-trans a b) t c k o)

-- A log with fewer than 2^64 changes is well formed, and its revision is their number.
pub Adds-IsLog :
    {T : Type 0} {n : ℕ} {l : ChangeLog T}
    → Adds new_log n l
    → n < 2 ^ 64
    → IsLog l × (l.revision ≡ n)
unfolding new_log
Adds-IsLog none_yet b =
    (record { oldest = 0; counts = refl; bounded = omega arith; is_u64 = omega arith }, refl)
Adds-IsLog (one_more {n} {l'} a t c k o) b =
    let (log, rev) = Adds-IsLog a (omega arith) in
    let (log', rev') = record_change-IsLog t c k o l' log (omega (arith, rev)) in
    (log', rev' ∙ omega (arith, rev))

module _ {T : Type 0} where
  -- The call records changes, and leaves the log alone otherwise.
  abbrev pub Records : {A : Type 0} → Op (MemoryStore T) A → Type 0
  Records op = (m : MemoryStore T) → (n : ℕ) × Adds m.changes n (op m).1.changes

  pub Records-bind :
      {A B : Type 0} (op : Op (MemoryStore T) A) (f : A → Op (MemoryStore T) B)
      → Records op
      → ((a : A) → Records (f a))
      → Records (op >>= f)
  Records-bind {A = A} op f h k m = go (op m) (h m)
    where
      go :
          (r : Result A × MemoryStore T)
          → (n : ℕ) × Adds m.changes n r.1.changes
          → (n : ℕ) × Adds m.changes n (continue r.0 f r.1).1.changes
      go (ok a, m') (n, x) = let (n', y) = k a m' in (n' + n, Adds-trans x y)
      go (err e, m') (n, x) = (n, x)

  pub Records-quiet :
      {A : Type 0} (op : Op (MemoryStore T) A)
      → ((m : MemoryStore T) → (op m).1.changes ≡ m.changes)
      → Records op
  Records-quiet op h m = (0, subst (Adds m.changes 0) (sym (h m)) none_yet)

  pub Records-for_each :
      {A : Type 0} (f : A → Op (MemoryStore T) Done)
      → ((a : A) → Records (f a))
      → (xs : List A) → Records (for_each f xs)
  unfolding for_each
  Records-for_each f h [] = λ m. (0, none_yet)
  Records-for_each f h (x ∷ xs) = Records-bind (f x) _ (h x) λ _. Records-for_each f h xs

  pub record_put-Records : (c k : Text) → Records (record_put c k)
  unfolding record_put
  record_put-Records c k m = (1, one_more none_yet (m.inputs.clock 0) c k ChangeOperation.put)

  pub record_delete-Records : (c k : Text) → Records (record_delete c k)
  unfolding record_delete
  record_delete-Records c k m = (1, one_more none_yet (m.inputs.clock 0) c k ChangeOperation.delete)

  -- A test that a call makes at its end.
  pub Records-if :
      {A : Type 0} (m : MemoryStore T) (b : Bool) (p q : Result A × MemoryStore T)
      → (n : ℕ) × Adds m.changes n p.1.changes
      → (n : ℕ) × Adds m.changes n q.1.changes
      → (n : ℕ) × Adds m.changes n (if b then p else q).1.changes
  Records-if m true p q h k = h
  Records-if m false p q h k = k

-- A call with what it does to the log.
pub record Recorded (T A : Type 0) : Type 0 where
  pub op : Op (MemoryStore T) A
  pub records : Records op

module _ {T : Type 0} where
  abbrev pub and_then : {A B : Type 0} → Recorded T A → (A → Recorded T B) → Recorded T B
  and_then x f = record {
    op = x.op >>= λ a. (f a).op;
    records = Records-bind x.op (λ a. (f a).op) x.records (λ a. (f a).records);
  }

  pub Records-choice :
      {A : Type 0} (b : Bool) (x y : Recorded T A) → Records (if b then x.op else y.op)
  Records-choice true x y = x.records
  Records-choice false x y = y.records

  abbrev pub choice : {A : Type 0} → Bool → Recorded T A → Recorded T A → Recorded T A
  choice b x y = record { op = if b then x.op else y.op; records = Records-choice b x y }

  -- A call that leaves the log alone.
  abbrev pub quiet :
      {A : Type 0} (op : Op (MemoryStore T) A)
      → ((m : MemoryStore T) → (op m).1.changes ≡ m.changes)
      → Recorded T A
  quiet op h = record { op = op; records = Records-quiet op h }

  abbrev pub each_of : {A : Type 0} → (A → Recorded T Done) → List A → Recorded T Done
  each_of f xs = record {
    op = for_each (λ a. (f a).op) xs;
    records = Records-for_each (λ a. (f a).op) (λ a. (f a).records) xs;
  }

  abbrev pub noted_put : Text → Text → Recorded T Done
  noted_put c k = record { op = record_put c k; records = record_put-Records c k }

  abbrev pub noted_delete : Text → Text → Recorded T Done
  noted_delete c k = record { op = record_delete c k; records = record_delete-Records c k }
