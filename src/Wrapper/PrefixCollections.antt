-- ===== src/Wrapper/PrefixCollections.antt =====
-- wrapper/prefix_collections.rs: every collection gets a prefix before it reaches the store below.
use openkeyv.Base.{refl}
use openkeyv.Base.{Option, none, some, ◌++◌}
use openkeyv.Base.{take}
use openkeyv.Base.Bytes.{Text, bytes_eq-append}
use openkeyv.Platform.{Platform}
use openkeyv.Protocol.{◌>>=◌, pure, KeyValue, CompareAndSwap, Enumerate}
use openkeyv.Protocol.Contract.{resolve, Model, Contract}
use openkeyv.Wrapper.Names.{or_usize_max, strip_all, default_collection}

unfoldable pub prefixed_collection : Text → Option Text → Text
prefixed_collection prefix c = prefix ++ resolve default_collection c

module _ {S F : Type 0} (prefix : Text) where
  unfoldable pub prefix_collections : KeyValue S F → KeyValue S F
  prefix_collections inner = record {
    get = λ k c. inner.get k (some (prefixed_collection prefix c));
    ttl = λ k c. inner.ttl k (some (prefixed_collection prefix c));
    put = λ k v c t. inner.put k v (some (prefixed_collection prefix c)) t;
    delete = λ k c. inner.delete k (some (prefixed_collection prefix c));
    get_many = λ ks c. inner.get_many ks (some (prefixed_collection prefix c));
    ttl_many = λ ks c. inner.ttl_many ks (some (prefixed_collection prefix c));
    put_many = λ ks vs c t. inner.put_many ks vs (some (prefixed_collection prefix c)) t;
    delete_many = λ ks c. inner.delete_many ks (some (prefixed_collection prefix c));
  }

  unfoldable pub prefix_collections_cas : CompareAndSwap S F → CompareAndSwap S F
  prefix_collections_cas inner = record {
    get_with_revision = λ k c. inner.get_with_revision k (some (prefixed_collection prefix c));
    compare_and_swap =
        λ k x v c t. inner.compare_and_swap k x v (some (prefixed_collection prefix c)) t;
    compare_and_delete =
        λ k x c. inner.compare_and_delete k x (some (prefixed_collection prefix c));
  }

module _ {S : Type 0} (prefix : Text) where
  unfoldable pub prefix_collections_enumerate : Enumerate S → Enumerate S
  prefix_collections_enumerate inner = record {
    keys = λ c limit. inner.keys (some (prefixed_collection prefix c)) limit;
    collections = λ limit. do
      cs ← inner.collections none
      pure (take (or_usize_max limit) (strip_all prefix cs));
  }

module _ {T S F : Type 0} (os : Platform T F) (prefix : Text) (inner : KeyValue S F)
    (m : Model S T) where
  abbrev pub prefix_collections_model : Model S T
  prefix_collections_model = record {
    view = λ s c k. m.view s (prefix ++ c) k;
    default = λ s. default_collection;
    now = m.now;
  }

  -- A prefix on the collections of a store that keeps the contract gives a store that keeps it: it
  -- shows the collections whose names carry the prefix, under the names without it, and its default
  -- collection is "default_collection", whatever the default of the store below.
  pub prefix_collections-Contract :
      Contract os inner m → Contract os (prefix_collections prefix inner) prefix_collections_model
  unfolding prefix_collections prefixed_collection
  prefix_collections-Contract h = record {
    get_shows = λ s k c. h.get_shows s k (some (prefixed_collection prefix c));
    get_keeps = λ s k c d j. h.get_keeps s k (some (prefixed_collection prefix c)) (prefix ++ d) j;
    get_default = λ s k c. refl;
    put_accepts =
        λ s k v c ttl e x. h.put_accepts s k v (some (prefixed_collection prefix c)) ttl e x;
    put_stores = λ s k v c ttl e x d j.
        rw
          (
            h.put_stores s k v (some (prefixed_collection prefix c)) ttl e x (prefix ++ d) j,
            bytes_eq-append,
          )
          refl;
    put_refuses =
        λ s k v c ttl e x. h.put_refuses s k v (some (prefixed_collection prefix c)) ttl e x;
    refused_keeps = λ s k v c ttl e x d j.
        h.refused_keeps s k v (some (prefixed_collection prefix c)) ttl e x (prefix ++ d) j;
    put_default = λ s k v c ttl. refl;
    delete_says = λ s k c. h.delete_says s k (some (prefixed_collection prefix c));
    delete_empties = λ s k c d j.
        rw
          (
            h.delete_empties s k (some (prefixed_collection prefix c)) (prefix ++ d) j,
            bytes_eq-append,
          )
          refl;
    delete_default = λ s k c. refl;
  }
