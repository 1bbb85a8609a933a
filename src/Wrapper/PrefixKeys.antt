-- ===== src/Wrapper/PrefixKeys.antt =====
-- wrapper/prefix_keys.rs: every key gets a prefix before it reaches the store below.
use openkeyv.Base.{refl}
use openkeyv.Base.{none, ◌++◌, map}
use openkeyv.Base.{take}
use openkeyv.Base.Bytes.{Text, bytes_eq-append}
use openkeyv.Platform.{Platform}
use openkeyv.Protocol.{◌>>=◌, pure, KeyValue, CompareAndSwap, Enumerate}
use openkeyv.Protocol.Contract.{Model, Contract}
use openkeyv.Wrapper.Names.{or_usize_max, strip_all}

unfoldable pub prefixed : Text → Text → Text
prefixed prefix key = prefix ++ key

module _ {S F : Type 0} (prefix : Text) where
  unfoldable pub prefix_keys : KeyValue S F → KeyValue S F
  prefix_keys inner = record {
    get = λ k c. inner.get (prefixed prefix k) c;
    ttl = λ k c. inner.ttl (prefixed prefix k) c;
    put = λ k v c t. inner.put (prefixed prefix k) v c t;
    delete = λ k c. inner.delete (prefixed prefix k) c;
    get_many = λ ks c. inner.get_many (map (prefixed prefix) ks) c;
    ttl_many = λ ks c. inner.ttl_many (map (prefixed prefix) ks) c;
    put_many = λ ks vs c t. inner.put_many (map (prefixed prefix) ks) vs c t;
    delete_many = λ ks c. inner.delete_many (map (prefixed prefix) ks) c;
  }

  unfoldable pub prefix_keys_cas : CompareAndSwap S F → CompareAndSwap S F
  prefix_keys_cas inner = record {
    get_with_revision = λ k c. inner.get_with_revision (prefixed prefix k) c;
    compare_and_swap = λ k x v c t. inner.compare_and_swap (prefixed prefix k) x v c t;
    compare_and_delete = λ k x c. inner.compare_and_delete (prefixed prefix k) x c;
  }

module _ {S : Type 0} (prefix : Text) where
  unfoldable pub prefix_keys_enumerate : Enumerate S → Enumerate S
  prefix_keys_enumerate inner = record {
    keys = λ c limit. do
      ks ← inner.keys c none
      pure (take (or_usize_max limit) (strip_all prefix ks));
    collections = λ limit. inner.collections limit;
  }

module _ {T S F : Type 0} (os : Platform T F) (prefix : Text) (inner : KeyValue S F)
    (m : Model S T) where
  -- The store below, looked at through the prefix.
  abbrev pub prefix_model : Model S T
  prefix_model = record {
    view = λ s c k. m.view s c (prefixed prefix k);
    default = m.default;
    now = m.now;
  }

  -- A prefix on the keys of a store that keeps the contract gives a store that keeps it: it shows
  -- the entries whose keys carry the prefix, under the keys without it.
  pub prefix_keys-Contract :
      Contract os inner m → Contract os (prefix_keys prefix inner) prefix_model
  unfolding prefix_keys prefixed
  prefix_keys-Contract h = record {
    get_shows = λ s k c. h.get_shows s (prefix ++ k) c;
    get_keeps = λ s k c d j. h.get_keeps s (prefix ++ k) c d (prefix ++ j);
    get_default = λ s k c. h.get_default s (prefix ++ k) c;
    put_accepts = λ s k v c ttl e x. h.put_accepts s (prefix ++ k) v c ttl e x;
    put_stores = λ s k v c ttl e x d j.
        rw (h.put_stores s (prefix ++ k) v c ttl e x d (prefix ++ j), bytes_eq-append) refl;
    put_refuses = λ s k v c ttl e x. h.put_refuses s (prefix ++ k) v c ttl e x;
    refused_keeps =
        λ s k v c ttl e x d j. h.refused_keeps s (prefix ++ k) v c ttl e x d (prefix ++ j);
    put_default = λ s k v c ttl. h.put_default s (prefix ++ k) v c ttl;
    delete_says = λ s k c. h.delete_says s (prefix ++ k) c;
    delete_empties =
        λ s k c d j. rw (h.delete_empties s (prefix ++ k) c d (prefix ++ j), bytes_eq-append) refl;
    delete_default = λ s k c. h.delete_default s (prefix ++ k) c;
  }
