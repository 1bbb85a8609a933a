-- ===== src/Wrapper/Timeout.antt =====
-- wrapper/timeout.rs: each call has a longest duration. tokio's timer is a parameter: it gives the result
-- of a call, or none where the time is up, with the state that the call left behind.
use openkeyv.Base.{Option, none, some}
use openkeyv.Base.{Result, err}
use openkeyv.Base.{timeout}
use openkeyv.Protocol.{Op, KeyValue, CompareAndSwap, Enumerate}
use openkeyv.Protocol.{Manage}

module _ {S : Type 0} (timer : (A : Type 0) → Op S A → S → Option (Result A) × S) where
  -- `match timeout(self.duration, call).await { Ok(result) => result, Err(_) => Err(Timeout) }`
  unfoldable pub timed : {A : Type 0} → Op S A → Op S A
  timed {A} call s =
      let (r, s') = timer A call s in
      elim r [ some result ↦ (result, s') | none ↦ (err timeout, s') ]

  unfoldable pub timeout_store : {F : Type 0} → KeyValue S F → KeyValue S F
  unfolding timed
  timeout_store inner = record {
    get = λ k c. timed (inner.get k c);
    ttl = λ k c. timed (inner.ttl k c);
    put = λ k v c t. timed (inner.put k v c t);
    delete = λ k c. timed (inner.delete k c);
    get_many = λ ks c. timed (inner.get_many ks c);
    ttl_many = λ ks c. timed (inner.ttl_many ks c);
    put_many = λ ks vs c t. timed (inner.put_many ks vs c t);
    delete_many = λ ks c. timed (inner.delete_many ks c);
  }

  unfoldable pub timeout_cas : {F : Type 0} → CompareAndSwap S F → CompareAndSwap S F
  unfolding timed
  timeout_cas inner = record {
    get_with_revision = λ k c. timed (inner.get_with_revision k c);
    compare_and_swap = λ k x v c t. timed (inner.compare_and_swap k x v c t);
    compare_and_delete = λ k x c. timed (inner.compare_and_delete k x c);
  }

  unfoldable pub timeout_enumerate : Enumerate S → Enumerate S
  unfolding timed
  timeout_enumerate inner = record {
    keys = λ c limit. timed (inner.keys c limit);
    collections = λ limit. timed (inner.collections limit);
  }

  unfoldable pub timeout_manage : Manage S → Manage S
  unfolding timed
  timeout_manage inner = record {
    cull = timed inner.cull;
    destroy_collection = λ c. timed (inner.destroy_collection c);
    destroy = timed inner.destroy;
  }
