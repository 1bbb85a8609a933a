-- ===== src/Wrapper/Statistics.antt =====
-- wrapper/statistics.rs: counters of the calls, beside the store. A counter is an `AtomicUsize`.
use openkeyv.Base.{ℕ, suc, ◌+◌, ◌%◌, ◌^◌, ◌<◌, ◌≡◌, refl}
use openkeyv.Base.{Bool, true, false, Option, none, some, List, [], ◌∷◌, arith}
use openkeyv.Base.{length}
use openkeyv.Base.{ok}
use openkeyv.Base.Bytes.{Text}
use openkeyv.Value.Checked.{Value}
use openkeyv.Protocol.{Done, Op, ◌>>=◌, ◌>>◌, pure, KeyValue, CompareAndSwap, Enumerate, Manage}

pub record Statistics : Type 0 where
  pub gets : ℕ
  pub puts : ℕ
  pub deletes : ℕ
  pub get_many : ℕ
  pub put_many : ℕ
  pub delete_many : ℕ
  pub hits : ℕ
  pub misses : ℕ

-- `counter.fetch_add(1)`, which wraps.
abbrev pub bump : ℕ → ℕ
bump n = (n + 1) % 2 ^ 64

abbrev is_some {ℓ} : {A : Type ℓ} → Option A → Bool
is_some none = false
is_some (some a) = true

unfoldable pub note_hit : {A : Type 0} → Option A → Statistics → Statistics
note_hit none n = record n { misses = bump n.misses }
note_hit (some a) n = record n { hits = bump n.hits }

-- `for r in &results { .. }`
unfoldable pub note_hits : {A : Type 0} → List (Option A) → Statistics → Statistics
unfolding note_hit
note_hits [] n = n
note_hits (r ∷ rs) n = note_hits rs (note_hit r n)

-- The store below and the counters of the wrapper.
abbrev pub Counted : Type 0 → Type 0
Counted S = S × Statistics

module _ {S A : Type 0} where
  abbrev pub below : Op S A → Op (Counted S) A
  below m (s, n) = let (r, s') = m s in (r, (s', n))

module _ {S : Type 0} where
  abbrev pub tally : (Statistics → Statistics) → Op (Counted S) Done
  tally f (s, n) = (ok tt, (s, f n))

module _ {S F : Type 0} where
  unfoldable pub statistics : KeyValue S F → KeyValue (Counted S) F
  statistics inner = record {
    get = λ k c. do
      tally (λ n. record n { gets = bump n.gets })
      r ← below (inner.get k c)
      tally (note_hit r)
      pure r;
    ttl = λ k c. below (inner.ttl k c);
    put = λ k v c t. tally (λ n. record n { puts = bump n.puts }) >> below (inner.put k v c t);
    delete = λ k c. tally (λ n. record n { deletes = bump n.deletes }) >> below (inner.delete k c);
    get_many = λ ks c. do
      tally (λ n. record n { get_many = bump n.get_many })
      rs ← below (inner.get_many ks c)
      tally (note_hits rs)
      pure rs;
    ttl_many = λ ks c. below (inner.ttl_many ks c);
    put_many = λ ks vs c t.
        tally (λ n. record n { put_many = bump n.put_many }) >> below (inner.put_many ks vs c t);
    delete_many = λ ks c.
        tally (λ n. record n { delete_many = bump n.delete_many })
        >> below (inner.delete_many ks c);
  }

  unfoldable pub statistics_cas : CompareAndSwap S F → CompareAndSwap (Counted S) F
  statistics_cas inner = record {
    get_with_revision = λ k c. below (inner.get_with_revision k c);
    compare_and_swap = λ k x v c t. below (inner.compare_and_swap k x v c t);
    compare_and_delete = λ k x c. below (inner.compare_and_delete k x c);
  }

-- `impl AsyncEnumerateKeys` and `impl AsyncEnumerateCollections`
module _ {S : Type 0} where
  unfoldable pub statistics_enumerate : Enumerate S → Enumerate (Counted S)
  statistics_enumerate inner = record {
    keys = λ c limit. below (inner.keys c limit);
    collections = λ limit. below (inner.collections limit);
  }

  -- `impl AsyncCull`, `impl AsyncDestroyCollection` and `impl AsyncDestroyStore`
  unfoldable pub statistics_manage : Manage S → Manage (Counted S)
  statistics_manage inner = record {
    cull = below inner.cull;
    destroy_collection = λ c. below (inner.destroy_collection c);
    destroy = below inner.destroy;
  }

abbrev pub count_some : {A : Type 0} → List (Option A) → ℕ
count_some [] = 0
count_some (none ∷ rs) = count_some rs
count_some (some a ∷ rs) = suc (count_some rs)

note_hits_lem :
    {A : Type 0} (rs : List (Option A)) (n : Statistics)
    → n.hits + count_some rs < 2 ^ 64
    → n.misses + length rs < 2 ^ 64
    → ((note_hits rs n).hits ≡ n.hits + count_some rs)
      × ((note_hits rs n).misses + count_some rs ≡ n.misses + length rs)
unfolding note_hits
note_hits_lem [] n h k = (omega arith, omega arith)
note_hits_lem (none ∷ rs) n h k =
    let (p, q) = note_hits_lem rs (record n { misses = bump n.misses }) h (omega arith) in
    (p, omega (arith, q))
note_hits_lem (some a ∷ rs) n h k =
    let (p, q) = note_hits_lem rs (record n { hits = bump n.hits }) (omega arith) (omega arith) in
    (omega (arith, p), omega (arith, q))

module _ {S F : Type 0} (inner : KeyValue S F) where
  -- A batch read that succeeds gives what the store below gives; the values that it found are added
  -- to the hits and the other keys to the misses, given that these counters do not wrap.
  pub statistics-get_many :
      (s s' : S) (n : Statistics) (ks : List Text) (c : Option Text) (rs : List (Option Value))
      → inner.get_many ks c s ≡ (ok rs, s')
      → n.hits + count_some rs < 2 ^ 64
      → n.misses + length rs < 2 ^ 64
      → (((statistics inner).get_many ks c (s, n)).0 ≡ ok rs)
        × (((statistics inner).get_many ks c (s, n)).1.0 ≡ s')
        × (((statistics inner).get_many ks c (s, n)).1.1.hits ≡ n.hits + count_some rs)
        × (((statistics inner).get_many ks c (s, n)).1.1.misses + count_some rs
            ≡ n.misses + length rs)
  unfolding statistics
  statistics-get_many s s' n ks c rs h p q =
      let (a, b) = note_hits_lem rs (record n { get_many = bump n.get_many }) p q in
      rw h (refl, refl, a, b)
