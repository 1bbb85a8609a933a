-- ===== src/Wrapper/ReadOnly.antt =====
-- wrapper/readonly.rs: reads pass, writes are refused.
use openkeyv.Base.{ℕ, ◌≡◌, refl}
use openkeyv.Base.{inl, inr, Bool, true, false, Option, List}
use openkeyv.Base.{if◌then◌else◌, Bool-cases}
use openkeyv.Base.{Result, ok, err, bind}
use openkeyv.Base.{read_only}
use openkeyv.Base.Bytes.{Text}
use openkeyv.Value.Checked.{Value}
use openkeyv.Protocol.{Op, KeyValue, Enumerate}

module _ {S F : Type 0} where
  unfoldable pub read_only_store : KeyValue S F → KeyValue S F
  read_only_store inner = record {
    get = inner.get;
    ttl = inner.ttl;
    put = λ k v c t s. (err read_only, s);
    delete = λ k c s. (err read_only, s);
    get_many = inner.get_many;
    ttl_many = inner.ttl_many;
    put_many = λ ks vs c t s. (err read_only, s);
    delete_many = λ ks c s. (err read_only, s);
  }

-- `impl AsyncEnumerateKeys` and `impl AsyncEnumerateCollections`
module _ {S : Type 0} where
  unfoldable pub read_only_enumerate : Enumerate S → Enumerate S
  read_only_enumerate inner = record { keys = inner.keys; collections = inner.collections }

-- A call of a client.
pub data Call (F : Type 0) : Type 0 where
  get ttl delete : Text → Option Text → Call F
  put : Text → Value → Option Text → Option F → Call F
  get_many ttl_many delete_many : List Text → Option Text → Call F
  put_many : List Text → List Value → Option Text → Option F → Call F
  keys : Option Text → Option ℕ → Call F
  collections : Option ℕ → Call F

-- What a call gives.
pub data Answer (F : Type 0) : Type 0 where
  value : Option Value → Answer F
  item : Option (Value × Option F) → Answer F
  done : Answer F
  deleted : Bool → Answer F
  values : List (Option Value) → Answer F
  items : List (Option (Value × Option F)) → Answer F
  count : ℕ → Answer F
  names : List Text → Answer F

abbrev pub is_write : {F : Type 0} → Call F → Bool
is_write (put k v c t) = true
is_write (delete k c) = true
is_write (put_many ks vs c t) = true
is_write (delete_many ks c) = true
is_write (get k c) = false
is_write (ttl k c) = false
is_write (get_many ks c) = false
is_write (ttl_many ks c) = false
is_write (keys c limit) = false
is_write (collections limit) = false

-- A client that chooses each call by the answers to those before it, and ends with a result.
pub data Client (F R : Type 0) : Type 0 where
  end : R → Client F R
  ask : Call F → (Result (Answer F) → Client F R) → Client F R

module _ {S F : Type 0} where
  answered : {A : Type 0} → (A → Answer F) → Result A × S → Result (Answer F) × S
  answered f (r, s) = (bind r λ a. ok (f a), s)

  unfoldable pub perform : KeyValue S F → Enumerate S → Call F → Op S (Answer F)
  unfolding answered
  perform kv en (get k c) s = answered value (kv.get k c s)
  perform kv en (ttl k c) s = answered item (kv.ttl k c s)
  perform kv en (put k v c t) s = answered (λ u. done) (kv.put k v c t s)
  perform kv en (delete k c) s = answered deleted (kv.delete k c s)
  perform kv en (get_many ks c) s = answered values (kv.get_many ks c s)
  perform kv en (ttl_many ks c) s = answered items (kv.ttl_many ks c s)
  perform kv en (put_many ks vs c t) s = answered (λ u. done) (kv.put_many ks vs c t s)
  perform kv en (delete_many ks c) s = answered count (kv.delete_many ks c s)
  perform kv en (keys c limit) s = answered names (en.keys c limit s)
  perform kv en (collections limit) s = answered names (en.collections limit s)

  unfoldable pub run : {R : Type 0} → KeyValue S F → Enumerate S → Client F R → S → R × S
  unfolding perform
  run kv en (end r) s = (r, s)
  run kv en (ask c next) s = let (r, s') = perform kv en c s in run kv en (next r) s'

module _ {F R : Type 0} where
  -- The client that is refused each write at once, and makes its reads only.
  unfoldable pub refused : Client F R → Client F R
  refused (end r) = end r
  refused (ask c next) =
      if is_write c then refused (next (err read_only)) else ask c (λ r. refused (next r))

  -- A client that asks for no write, whatever it is answered.
  abbrev pub AsksNoWrite : Client F R → Type 0
  AsksNoWrite (end r) = Unit {0}
  AsksNoWrite (ask c next) = (is_write c ≡ false) × ((r : Result (Answer F)) → AsksNoWrite (next r))

  refused-AsksNoWrite : (p : Client F R) → AsksNoWrite (refused p)
  unfolding refused
  refused-AsksNoWrite (end r) = tt
  refused-AsksNoWrite (ask c next) = elim (Bool-cases (is_write c)) [
    | inl write ↦ rw write (refused-AsksNoWrite (next (err read_only)))
    | inr read ↦ rw read (read, λ r. refused-AsksNoWrite (next r))
  ]

module _ {S F : Type 0} (inner : KeyValue S F) (en : Enumerate S) where
  perform-read_only :
      (c : Call F) (s : S)
      → perform (read_only_store inner) (read_only_enumerate en) c s
        ≡ (if is_write c then (err read_only, s) else perform inner en c s)
  unfolding perform read_only_store read_only_enumerate
  perform-read_only (get k c) s = refl
  perform-read_only (ttl k c) s = refl
  perform-read_only (put k v c t) s = refl
  perform-read_only (delete k c) s = refl
  perform-read_only (get_many ks c) s = refl
  perform-read_only (ttl_many ks c) s = refl
  perform-read_only (put_many ks vs c t) s = refl
  perform-read_only (delete_many ks c) s = refl
  perform-read_only (keys c limit) s = refl
  perform-read_only (collections limit) s = refl

  run-refused :
      {R : Type 0} (p : Client F R) (s : S)
      → run (read_only_store inner) (read_only_enumerate en) p s ≡ run inner en (refused p) s
  unfolding run refused
  run-refused (end r) s = refl
  run-refused (ask c next) s = elim (Bool-cases (is_write c)) [
    | inl write ↦ rw (perform-read_only c s, write) (run-refused (next (err read_only)) s)
    | inr read ↦
        rw (perform-read_only c s, read)
          (run-refused (next (perform inner en c s).0) (perform inner en c s).1)
  ]

  -- A client of the read-only wrapper, whatever calls of the key-value store and of its lists it
  -- makes and however it chooses them by the answers, ends with the same result and leaves the same
  -- store as a client of the store below that makes only the reads among these calls, each answered
  -- by the store below, and takes the read-only error for the answer to each write.
  pub read_only-run :
      {R : Type 0} (p : Client F R) (s : S)
      → (run (read_only_store inner) (read_only_enumerate en) p s ≡ run inner en (refused p) s)
        × AsksNoWrite (refused p)
  read_only-run p s = (run-refused p s, refused-AsksNoWrite p)
