-- ===== src/Protocol/Clients.antt =====
-- What follows for a client from the contract, whatever the store.
use openkeyv.Base.{◌≡◌, refl, sym, ap}
use openkeyv.Base.{false, Option, none, some}
use openkeyv.Base.{if◌then◌else◌}
use openkeyv.Base.{Result, ok, err, bind, bind-eq-ok, ok-injective}
use openkeyv.Base.Bytes.{Text, bytes_eq_refl}
use openkeyv.Platform.{Platform}
use openkeyv.Value.Checked.{Value}
use openkeyv.Entry.{new, with_ttl, expiration_at, ManagedEntry, make}
use openkeyv.Protocol.{KeyValue, continue, pure}
use openkeyv.Protocol.Contract.{resolve, same_place, live, Model, Contract}

-- A call that ends in a value made of another's result.
pub continue-pure :
    {S A B : Type 0} (r : Result A) (g : A → B) (s : S)
    → (continue r (λ x. pure (g x)) s).0 ≡ bind r (λ x. ok (g x))
continue-pure (ok a) g s = refl
continue-pure (err x) g s = refl

-- The value of a new entry is the value that it was made of.
pub value-make :
    {T F : Type 0} (os : Platform T F) (now : T) (v : Value) (ttl : Option F) (e : ManagedEntry T)
    → make os now v ttl ≡ ok e
    → e.value ≡ v
unfolding make with_ttl new
value-make os now v none e h = sym (ap (λ x. x.value) (ok-injective h))
value-make os now v (some t) e h =
    let (at, _, h₁) = bind-eq-ok (expiration_at os now t) _ h in
    sym (ap (λ x. x.value) (ok-injective h₁))

module _ {T F S : Type 0} (os : Platform T F) (kv : KeyValue S F) (m : Model S T)
    (store : Contract os kv m) where
  -- A read after an accepted write shows the new entry at its place for as long as it is live, and
  -- elsewhere what was there.
  pub get-put :
      (s : S) (k : Text) (v : Value) (c : Option Text) (ttl : Option F) (e : ManagedEntry T)
      → make os (m.now s) v ttl ≡ ok e
      → (j : Text) (d : Option Text)
      → (kv.get j d (kv.put k v c ttl s).1).0
        ≡ ok (
            live os (m.now (kv.put k v c ttl s).1) (
              if same_place (resolve (m.default s) c) k (resolve (m.default s) d) j
              then some e
              else m.view s (resolve (m.default s) d) j))
  get-put s k v c ttl e h j d =
      rw
        (
          store.get_shows (kv.put k v c ttl s).1 j d,
          store.put_default s k v c ttl,
          store.put_stores s k v c ttl e h (resolve (m.default s) d) j,
        )
        refl

  -- A deletion leaves nothing to read at its place, and a second one finds nothing to delete.
  pub get-delete :
      (s : S) (k : Text) (c : Option Text)
      → ((kv.get k c (kv.delete k c s).1).0 ≡ ok none)
        × ((kv.delete k c (kv.delete k c s).1).0 ≡ ok false)
  get-delete s k c = (
    rw
        (
          store.get_shows (kv.delete k c s).1 k c,
          store.delete_default s k c,
          store.delete_empties s k c (resolve (m.default s) c) k,
          bytes_eq_refl (resolve (m.default s) c),
          bytes_eq_refl k,
        )
        refl,
    rw
        (
          store.delete_says (kv.delete k c s).1 k c,
          store.delete_default s k c,
          store.delete_empties s k c (resolve (m.default s) c) k,
          bytes_eq_refl (resolve (m.default s) c),
          bytes_eq_refl k,
        )
        refl,
  )
