-- ===== src/Migration/Sources.antt =====
-- The simple store as a source: while nothing is written to it, and none of its entries has an expiry,
-- its contents stay as they are.
use openkeyv.Base.{ℕ, ◌+◌, ◌≡◌, refl, ap, ◌∙◌, sym}
use openkeyv.Base.{Option, none, some, List, [], ◌∷◌, map}
use openkeyv.Base.{take, All}
use openkeyv.Base.{ok, ok-injective}
use openkeyv.Base.Bytes.{Text}
use openkeyv.Base.Assoc.{Assoc, lookup, keys}
use mathlib.Core.Path.{subst, ap₂}
use openkeyv.Platform.{Platform}
use openkeyv.Value.Checked.{Value}
use openkeyv.Entry.{ManagedEntry, is_expired, ttl}
use openkeyv.Protocol.{Enumerate, Session, at_call}
use openkeyv.Store.Simple.{
  SimpleStore, simple_store, or_default, live_ttl, ttl_each, ttl_many, list_keys, list_collections,
  min_limit,
}
use openkeyv.Migration.Items.{value_of}
use openkeyv.Migration.Snapshot.{Frozen}
use openkeyv.Migration.Returns.{IsPermanent}

module _ {T F : Type 0} (os : Platform T F) where
  -- The names that the simple store lists, between calls.
  abbrev pub simple_names : Enumerate (Session (SimpleStore T) T)
  simple_names = record {
    keys = λ c limit. at_call (λ inp. list_keys os c limit);
    collections = λ limit. at_call (λ inp. list_collections os limit);
  }

module _ {T F : Type 0} (os : Platform T F) (st : SimpleStore T) where
  -- A collection of the store, and the value of a key of it, live or not.
  abbrev pub collection_of : Text → Assoc (ManagedEntry T)
  collection_of c = or_default (lookup c st.data_map)

  abbrev value_in : Option (ManagedEntry T) → Option Value
  value_in none = none
  value_in (some e) = some e.value

  abbrev pub content_of : Text → Text → Option Value
  content_of c k = value_in (lookup k (collection_of c))

  -- A session whose store is the given one.
  abbrev pub Holds : Session (SimpleStore T) T → Type 0
  Holds s = s.store ≡ st

  abbrev pub NoExpiry : Option (ManagedEntry T) → Type 0
  NoExpiry none = Unit {0}
  NoExpiry (some e) = e.expires_at ≡ none

  module _ (permanent : (c k : Text) → NoExpiry (lookup k (collection_of c))) where
    live_ttl-NoExpiry :
        (now later : T) (o : Option (ManagedEntry T))
        → NoExpiry o
        → (value_of (live_ttl os now later o) ≡ value_in o) × IsPermanent (live_ttl os now later o)
    unfolding live_ttl is_expired ttl
    live_ttl-NoExpiry now later none h = (refl, tt)
    live_ttl-NoExpiry now later (some e) h = rw h (refl, refl)

    ttl_each-NoExpiry :
        (clock : ℕ → T) (c : Text) (ks : List Text)
        → let items = ttl_each os clock (lookup c st.data_map) ks in
          (map value_of items ≡ map (content_of c) ks) × All IsPermanent items
    unfolding ttl_each
    ttl_each-NoExpiry clock c [] = (refl, tt)
    ttl_each-NoExpiry clock c (k ∷ ks) =
        let (here, p) = live_ttl-NoExpiry (clock 0) (clock 1) _ (permanent c k) in
        let (rest, ps) = ttl_each-NoExpiry (λ i. clock (i + 2)) c ks in
        (ap₂ (λ x xs. x ∷ xs) here rest, (p, ps))

    pub simple_store-Frozen :
        Frozen
          (simple_store os)
          (simple_names os)
          Holds
          (take (min_limit none) (keys st.data_map))
          (λ c. take (min_limit none) (keys (collection_of c)))
          content_of
    unfolding simple_store ttl_many list_keys list_collections
    simple_store-Frozen = record {
      collections_read =
          λ s q. (record { store = s.store; calls = λ i. s.calls (i + 1) }, rw q refl, q);
      keys_read = λ s c q. (record { store = s.store; calls = λ i. s.calls (i + 1) }, rw q refl, q);
      values_read = λ s c ks q. (
        ttl_each os (s.calls 0).clock (lookup c st.data_map) ks,
        record { store = s.store; calls = λ i. s.calls (i + 1) },
        rw q refl,
        (ttl_each-NoExpiry (s.calls 0).clock c ks).0,
        q,
      );
    }

    pub simple_store-IsPermanent :
        (s : Session (SimpleStore T) T) (c : Text) (ks : List Text)
        (items : List (Option (Value × Option F))) (s' : Session (SimpleStore T) T)
        → Holds s
        → (simple_store os).ttl_many ks (some c) s ≡ (ok items, s')
        → All IsPermanent items
    unfolding simple_store ttl_many
    simple_store-IsPermanent s c ks items s' q h =
        let same : ttl_each os (s.calls 0).clock (lookup c s.store.data_map) ks ≡ items =
          ok-injective (ap (λ p. p.0) h) in
        subst (All IsPermanent)
          (ap (λ x. ttl_each os (s.calls 0).clock (lookup c x.data_map) ks) (sym q) ∙ same)
          (ttl_each-NoExpiry (s.calls 0).clock c ks).1
