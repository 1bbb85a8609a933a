-- ===== src/Store/Simple/Laws.antt =====
-- The in-memory store keeps the contract of stores.
use openkeyv.Base.{true}
use openkeyv.Base.{◌≡◌, refl}
use openkeyv.Base.{Option, none, some, arith}
use openkeyv.Base.{if◌then◌else◌}
use openkeyv.Base.{Error, ok, err}
use openkeyv.Base.Bytes.{Text, bytes_eq, bytes_eq_iff}
use openkeyv.Base.Assoc.{Assoc, lookup, insert, remove, lookup-insert, lookup-remove}
use openkeyv.Platform.{Platform, Inputs}
use openkeyv.Value.Checked.{Value}
use openkeyv.Entry.{ManagedEntry, make}
use openkeyv.Protocol.{Session}
use openkeyv.Protocol.Contract.{resolve, same_place, is_present, Model, Contract}
use openkeyv.Store.Simple.{SimpleStore, find, or_default, get, put, delete, simple_store}

module _ {V : Type 0} where
  pub find-insert :
      (m : Assoc (Assoc V)) (c k : Text) (col : Assoc V) (d j : Text)
      → find (insert c col m) d j ≡ (if bytes_eq c d then lookup j col else find m d j)
  unfolding find
  find-insert m c k col d j = ground (arith, lookup-insert c d col m)

  lookup-or_default :
      (m : Assoc (Assoc V)) (c j : Text) → lookup j (or_default (lookup c m)) ≡ find m c j
  unfolding find lookup
  lookup-or_default m c j = ground arith

  pub find-put :
      (m : Assoc (Assoc V)) (c k : Text) (e : V) (d j : Text)
      → find (insert c (insert k e (or_default (lookup c m))) m) d j
        ≡ (if same_place c k d j then some e else find m d j)
  find-put m c k e d j = ground (
    arith,
    find-insert m c k (insert k e (or_default (lookup c m))) d j,
    lookup-insert k j e (or_default (lookup c m)),
    lookup-or_default m c j,
    bytes_eq_iff c d,
  )

  pub find-delete :
      (m : Assoc (Assoc V)) (c k : Text) (col : Assoc V) (d j : Text)
      → lookup c m ≡ some col
      → find (insert c (remove k col) m) d j ≡ (if same_place c k d j then none else find m d j)
  unfolding find
  find-delete m c k col d j h = ground (
    arith,
    lookup-insert c d (remove k col) m,
    lookup-remove k j col,
    bytes_eq_iff c d,
    bytes_eq_iff k j,
  )

  find-none : (m : Assoc (Assoc V)) (c k : Text) → lookup c m ≡ none → find m c k ≡ none
  unfolding find
  find-none m c k e = rw (e, find) refl

  find-some :
      (m : Assoc (Assoc V)) (c k : Text) (col : Assoc V)
      → lookup c m ≡ some col
      → find m c k ≡ lookup k col
  unfolding find
  find-some m c k col e = rw (e, find) refl

  find-nothing :
      (m : Assoc (Assoc V)) (c k d j : Text)
      → lookup c m ≡ none
      → find m d j ≡ (if same_place c k d j then none else find m d j)
  find-nothing m c k d j e = ground (arith, find-none m c j e, bytes_eq_iff c d)

  pub find-there :
      (m : Assoc (Assoc V)) (c k : Text) (col : Assoc V) (d j : Text)
      → lookup c m ≡ some col
      → same_place c k d j ≡ true
      → find m d j ≡ lookup k col
  unfolding find
  find-there m c k col d j there h = ground (arith, there, h, bytes_eq_iff c d, bytes_eq_iff k j)

-- The maps as a client sees them.
abbrev pub simple_model : {T : Type 0} → Model (Session (SimpleStore T) T) T
simple_model = record {
  view = λ s. find s.store.data_map;
  default = λ s. s.store.default_collection;
  now = λ s. (s.calls 0).clock 0;
}

module _ {T F : Type 0} (os : Platform T F) where
  put_ok :
      (s : SimpleStore T) (inp : Inputs T) (k : Text) (v : Value) (c : Option Text) (ttl : Option F)
      (e : ManagedEntry T)
      → make os (inp.clock 0) v ttl ≡ ok e
      → ((put os k v c ttl inp s).0 ≡ ok tt)
        × ((d j : Text)
            → find (put os k v c ttl inp s).1.data_map d j ≡ (
                if same_place (resolve s.default_collection c) k d j
                then some e
                else find s.data_map d j))
  unfolding put
  put_ok s inp k v c ttl e h =
      rw (h, put) (refl, find-put s.data_map (resolve s.default_collection c) k e)

  put_err :
      (s : SimpleStore T) (inp : Inputs T) (k : Text) (v : Value) (c : Option Text) (ttl : Option F)
      (x : Error)
      → make os (inp.clock 0) v ttl ≡ err x
      → put os k v c ttl inp s ≡ (err x, s)
  unfolding put
  put_err s inp k v c ttl x h = rw (h, put) refl

  delete_lem :
      (s : SimpleStore T) (inp : Inputs T) (k : Text) (c : Option Text)
      → ((delete os k c inp s).0
          ≡ ok (is_present (find s.data_map (resolve s.default_collection c) k)))
        × ((d j : Text)
            → find (delete os k c inp s).1.data_map d j ≡ (
                if same_place (resolve s.default_collection c) k d j
                then none
                else find s.data_map d j))
  unfolding delete
  delete_lem s inp k c = go (lookup cname s.data_map) refl
    where
      cname : Text
      cname = resolve s.default_collection c

      go :
          (o : Option (Assoc (ManagedEntry T)))
          → lookup cname s.data_map ≡ o
          → ((delete os k c inp s).0 ≡ ok (is_present (find s.data_map cname k)))
            × ((d j : Text)
                → find (delete os k c inp s).1.data_map d j
                  ≡ (if same_place cname k d j then none else find s.data_map d j))
      go none e = (
        rw (e, delete, find-none s.data_map cname k e) refl,
        λ d j. rw (e, delete) (find-nothing s.data_map cname k d j e),
      )
      go (some col) e = (
        rw (e, delete, find-some s.data_map cname k col e) refl,
        λ d j. rw (e, delete) (find-delete s.data_map cname k col d j e),
      )

  put_default :
      (s : SimpleStore T) (inp : Inputs T) (k : Text) (v : Value) (c : Option Text) (ttl : Option F)
      → (put os k v c ttl inp s).1.default_collection ≡ s.default_collection
  unfolding put
  put_default s inp k v c ttl = ground arith

  delete_default :
      (s : SimpleStore T) (inp : Inputs T) (k : Text) (c : Option Text)
      → (delete os k c inp s).1.default_collection ≡ s.default_collection
  unfolding delete
  delete_default s inp k c = ground arith

  -- `SimpleStore` keeps the contract of stores: what it shows is the entry that its maps hold under
  -- the collection and the key.
  pub simple_store-Contract : Contract os (simple_store os) simple_model
  unfolding simple_store get
  simple_store-Contract = record {
    get_shows = λ s k c. refl;
    get_keeps = λ s k c d j. refl;
    get_default = λ s k c. refl;
    put_accepts = λ s k v c ttl e h. (put_ok s.store (s.calls 0) k v c ttl e h).0;
    put_stores = λ s k v c ttl e h. (put_ok s.store (s.calls 0) k v c ttl e h).1;
    put_refuses = λ s k v c ttl x h. rw (put_err s.store (s.calls 0) k v c ttl x h) refl;
    refused_keeps = λ s k v c ttl x h d j. rw (put_err s.store (s.calls 0) k v c ttl x h) refl;
    put_default = λ s k v c ttl. put_default s.store (s.calls 0) k v c ttl;
    delete_says = λ s k c. (delete_lem s.store (s.calls 0) k c).0;
    delete_empties = λ s k c. (delete_lem s.store (s.calls 0) k c).1;
    delete_default = λ s k c. delete_default s.store (s.calls 0) k c;
  }
