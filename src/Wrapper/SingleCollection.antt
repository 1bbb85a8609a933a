-- ===== src/Wrapper/SingleCollection.antt =====
-- wrapper/single_collection.rs: all collections inside one, by compound identities.
use openkeyv.Base.{ℕ, ◌^◌, ◌<◌, ◌≡◌, refl}
use openkeyv.Base.{true, Option, none, some, List, [], ◌∷◌, ◌++◌, map, arith}
use openkeyv.Base.{◌==◌, if◌then◌else◌}
use openkeyv.Base.{length, take, All}
use openkeyv.Base.{Result, ok, err, bind}
use openkeyv.Base.Bytes.{Text, bytes_eq, bytes_eq_refl}
use openkeyv.Platform.{Platform}
use openkeyv.Protocol.{◌>>=◌, pure, lift, KeyValue, CompareAndSwap, Enumerate}
use openkeyv.Value.Utf8.{is_utf8}
use openkeyv.Utils.Compound.{compound_key, decompound_key}
use openkeyv.Utils.Compound.Laws.{bytes_eq-compound_key, decompound_key-compound_key}
use openkeyv.Protocol.Contract.{resolve, Model, Contract}
use openkeyv.Wrapper.Names.{or_usize_max, seen_before, default_collection}

unfoldable pub identity : Option Text → Text → Text
identity c k = compound_key (resolve default_collection c) k

-- The loop of `keys`: the first identity that does not decode ends it.
unfoldable pub keys_of : Text → List Text → Result (List Text)
keys_of c [] = ok []
keys_of c (i ∷ is) =
    let rest = keys_of c is in
    bind (decompound_key i) λ (d, k). bind rest λ ks. ok (if bytes_eq d c then k ∷ ks else ks)

-- The loop of `collections`, with what it has pushed; it breaks off at the limit.
unfoldable pub collections_of : ℕ → List Text → List Text → Result (List Text)
collections_of limit found [] = ok found
collections_of limit found (i ∷ is) = elim (decompound_key i) [
  | err e ↦ err e
  | ok p ↦
      let found' = (if seen_before found p.0 then found else found ++ p.0 ∷ []) in
      let rest = collections_of limit found' is in
      if length found' == limit then ok found' else rest
]

abbrev truncate : Option ℕ → List Text → List Text
truncate none ks = ks
truncate (some n) ks = take n ks

module _ {S F : Type 0} (backing : Text) where
  unfoldable pub single_collection : KeyValue S F → KeyValue S F
  single_collection inner = record {
    get = λ k c. inner.get (identity c k) (some backing);
    ttl = λ k c. inner.ttl (identity c k) (some backing);
    put = λ k v c t. inner.put (identity c k) v (some backing) t;
    delete = λ k c. inner.delete (identity c k) (some backing);
    get_many = λ ks c. inner.get_many (map (identity c) ks) (some backing);
    ttl_many = λ ks c. inner.ttl_many (map (identity c) ks) (some backing);
    put_many = λ ks vs c t. inner.put_many (map (identity c) ks) vs (some backing) t;
    delete_many = λ ks c. inner.delete_many (map (identity c) ks) (some backing);
  }

  unfoldable pub single_collection_cas : CompareAndSwap S F → CompareAndSwap S F
  single_collection_cas inner = record {
    get_with_revision = λ k c. inner.get_with_revision (identity c k) (some backing);
    compare_and_swap = λ k x v c t. inner.compare_and_swap (identity c k) x v (some backing) t;
    compare_and_delete = λ k x c. inner.compare_and_delete (identity c k) x (some backing);
  }

module _ {S : Type 0} (backing : Text) where
  unfoldable pub single_collection_enumerate : Enumerate S → Enumerate S
  single_collection_enumerate inner = record {
    keys = λ c limit. do
      is ← inner.keys (some backing) none
      ks ← lift (keys_of (resolve default_collection c) is)
      pure (truncate limit ks);
    collections = λ limit.
        if or_usize_max limit == 0
        then pure []
        else (inner.keys (some backing) none >>= λ is.
            lift (collections_of (or_usize_max limit) [] is));
  }

module _ {T S F : Type 0} (os : Platform T F) (backing : Text) (inner : KeyValue S F)
    (m : Model S T) where
  abbrev pub single_model : Model S T
  single_model = record {
    view = λ s c k. m.view s backing (compound_key c k);
    default = λ s. default_collection;
    now = m.now;
  }

  -- All collections inside one of a store that keeps the contract give a store that keeps it: no
  -- write or deletion in one collection touches another, whatever the names and keys.
  pub single_collection-Contract :
      Contract os inner m → Contract os (single_collection backing inner) single_model
  unfolding single_collection identity
  single_collection-Contract h = record {
    get_shows = λ s k c. h.get_shows s (identity c k) (some backing);
    get_keeps = λ s k c d j. h.get_keeps s (identity c k) (some backing) backing (compound_key d j);
    get_default = λ s k c. refl;
    put_accepts = λ s k v c ttl e x. h.put_accepts s (identity c k) v (some backing) ttl e x;
    put_stores = λ s k v c ttl e x d j.
        rw
          (
            h.put_stores s (identity c k) v (some backing) ttl e x backing (compound_key d j),
            bytes_eq_refl backing,
            bytes_eq-compound_key,
          )
          refl;
    put_refuses = λ s k v c ttl e x. h.put_refuses s (identity c k) v (some backing) ttl e x;
    refused_keeps = λ s k v c ttl e x d j.
        h.refused_keeps s (identity c k) v (some backing) ttl e x backing (compound_key d j);
    put_default = λ s k v c ttl. refl;
    delete_says = λ s k c. h.delete_says s (identity c k) (some backing);
    delete_empties = λ s k c d j.
        rw
          (
            h.delete_empties s (identity c k) (some backing) backing (compound_key d j),
            bytes_eq_refl backing,
            bytes_eq-compound_key,
          )
          refl;
    delete_default = λ s k c. refl;
  }

-- The keys of a collection among pairs of a collection and a key.
abbrev pub keys_in : Text → List (Text × Text) → List Text
keys_in c [] = []
keys_in c ((d, k) ∷ ps) = if bytes_eq d c then k ∷ keys_in c ps else keys_in c ps

-- A list of identities that the wrapper made is read back as the keys of the asked collection, in
-- their order, for keys that are valid UTF-8 and collections shorter than 2^64 bytes.
pub keys_of-compound_key :
    (c : Text) (ps : List (Text × Text))
    → All (λ p. (is_utf8 p.1 ≡ true) × (length p.0 < 2 ^ 64)) ps
    → keys_of c (map (λ (d, k). compound_key d k) ps) ≡ ok (keys_in c ps)
unfolding keys_of
keys_of-compound_key c [] h = refl
keys_of-compound_key c ((d, k) ∷ ps) ((u, n), hs) =
    rw (decompound_key-compound_key d k u n, keys_of-compound_key c ps hs) (ground arith)
