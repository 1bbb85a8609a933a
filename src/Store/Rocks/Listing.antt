-- ===== src/Store/Rocks/Listing.antt =====
-- The keys that the store lists, and those that the destruction of a collection deletes.
use openkeyv.Base.{ℕ, zero, suc, ◌≤◌, ◌<◌, ◌≡◌, refl, sym, ap, ◌∙◌}
use openkeyv.Base.{
  inl, inr, Bool, true, false, Option, List, [], ◌∷◌, ◌++◌, map, append-nil, append_assoc, arith,
}
use openkeyv.Base.{leb, ◌==◌, if◌then◌else◌, Bool-cases}
use openkeyv.Base.{length, take, All, length-append, take-append}
use openkeyv.Base.{Result, ok}
use openkeyv.Base.Bytes.{Bytes, Text, bytes_eq, bytes_eq_iff}
use openkeyv.Base.Order.{bytes_le}
use openkeyv.Platform.{Platform}
use openkeyv.Utils.Compound.{collection_prefix, compound_key}
use openkeyv.Utils.Compound.Laws.{decompound_key-compound_key}
use openkeyv.Protocol.{Op, ◌>>◌, pure}
use openkeyv.Protocol.Contract.{resolve}
use openkeyv.Store.Simple.{min_limit}
use openkeyv.Store.Rocks.{
  BatchOp, RocksDb, RocksStore, in_db, collection_batch, destroy_collection, parts_of, keys_each,
  list_keys,
}
use openkeyv.Store.Rocks.Rows.{
  Row, identity, stored, from, keys_in, IsAscending, IsNamed, keys_in-none, member-above,
}

take_full : (ks ls : List Text) (n : ℕ) → length ks ≡ n → take n (ks ++ ls) ≡ ks
take_full ks ls n e = ap (λ m. take m (ks ++ ls)) (sym e) ∙ take-append ks ls

take_short : {A : Type 0} (n : ℕ) (xs : List A) → length xs ≤ n → take n xs ≡ xs
take_short zero [] h = refl
take_short zero (x ∷ xs) h = absurd (omega arith)
take_short (suc n) [] h = refl
take_short (suc n) (x ∷ xs) h = ap (λ t. x ∷ t) (take_short n xs (omega arith))

none-left :
    (limit : ℕ) (keys rest : List Text)
    → length keys < limit
    → rest ≡ []
    → ok keys ≡ ok (take limit (keys ++ rest))
none-left limit keys rest few e = ap ok (
    sym (
      ap (λ l. take limit (keys ++ l)) e
      ∙ ap (take limit) (append-nil keys)
      ∙ take_short limit keys (omega arith)))

-- What the loop does behind a key that it takes.
next-take :
    (limit : ℕ) (keys : List Text) (k : Text) (rest : List Text) (more : Result (List Text))
    → length keys < limit
    → (length (keys ++ k ∷ []) < limit → more ≡ ok (take limit ((keys ++ k ∷ []) ++ rest)))
    → (if leb limit (length (keys ++ k ∷ [])) then ok (keys ++ k ∷ []) else more)
      ≡ ok (take limit (keys ++ k ∷ rest))
next-take limit keys k rest more few onward =
    elim (Bool-cases (leb limit (length (keys ++ k ∷ [])))) [
      | inl last ↦ rw last (
          ap ok (
            sym (
              ap (take limit) (sym (append_assoc keys (k ∷ []) rest))
              ∙ take_full (keys ++ k ∷ []) rest limit
                  (ground (arith, length-append keys (k ∷ []))))))
      | inr going ↦
          rw going
            (onward (ground arith) ∙ ap (λ l. ok (take limit l)) (append_assoc keys (k ∷ []) rest))
    ]

-- What the store relies on in RocksDB for its lists: an iteration from a prefix gives, without an
-- error, the entries that are not below it, in their order.
abbrev pub Iterates : {D : Type 0} → RocksDb D → (D → List Row) → Type 0
Iterates {D} db rows = (p : Bytes) (d : D) → db.prefix_iterator p d ≡ map stored (from p (rows d))

abbrev pub deletions : Text → List Text → List BatchOp
deletions c ks = map (λ k. BatchOp.delete (compound_key c k)) ks

module _ {T F D : Type 0} (os : Platform T F) (db : RocksDb D) where
  parts_of-stored :
      (r : Row) → IsNamed r → parts_of os db (stored r) ≡ ok (identity r, (r.0, r.1.0))
  unfolding parts_of
  parts_of-stored (c, (k, b)) (text, (text', short)) =
      rw (text, decompound_key-compound_key c k text' short) refl

  keys_each-ascending :
      (c : Text) (limit : ℕ) (keys : List Text) (rows : List Row)
      → length keys < limit
      → All IsNamed rows
      → IsAscending rows
      → keys_each os db c limit keys (map stored (from (collection_prefix c) rows))
        ≡ ok (take limit (keys ++ keys_in c rows))
  unfolding keys_each
  keys_each-ascending c limit keys [] few named sorted = none-left limit keys [] few refl
  keys_each-ascending c limit keys ((d, (k, b)) ∷ rows) few (name, named) (above, sorted) =
      elim (Bool-cases (bytes_eq d c)) [
        | inl member ↦
            rw (member-above c d k member, member, parts_of-stored (d, (k, b)) name, member)
              (next-take limit keys k (keys_in c rows) _ few
                λ fewer. keys_each-ascending c limit (keys ++ k ∷ []) rows fewer named sorted)
        | inr not_member ↦ elim (Bool-cases (bytes_le (collection_prefix c) (compound_key d k))) [
          | inl over ↦
              rw (over, not_member, parts_of-stored (d, (k, b)) name, not_member)
                (none-left limit keys (keys_in c rows) few
                  (keys_in-none c d k rows over not_member above))
          | inr below ↦
              rw (below, not_member) (keys_each-ascending c limit keys rows few named sorted)
        ]
      ]

  collection_batch-ascending :
      (c : Text) (rows : List Row)
      → All IsNamed rows
      → IsAscending rows
      → collection_batch os db c (map stored (from (collection_prefix c) rows))
        ≡ ok (deletions c (keys_in c rows))
  unfolding collection_batch
  collection_batch-ascending c [] named sorted = refl
  collection_batch-ascending c ((d, (k, b)) ∷ rows) (name, named) (above, sorted) =
      elim (Bool-cases (bytes_eq d c)) [
        | inl member ↦
            rw
              (
                member-above c d k member,
                member,
                parts_of-stored (d, (k, b)) name,
                member,
                collection_batch-ascending c rows named sorted,
              )
              (ap (λ t. ok (BatchOp.delete (compound_key t k) ∷ deletions c (keys_in c rows)))
                ((bytes_eq_iff d c).0 member))
        | inr not_member ↦ elim (Bool-cases (bytes_le (collection_prefix c) (compound_key d k))) [
          | inl over ↦
              rw (over, not_member, parts_of-stored (d, (k, b)) name, not_member)
                (ap (λ ks. ok (deletions c ks))
                  (sym (keys_in-none c d k rows over not_member above)))
          | inr below ↦ rw (below, not_member) (collection_batch-ascending c rows named sorted)
        ]
      ]

  delete_all :
      (c : Text) (ks : List Text) (s : RocksStore D)
      → (elim (deletions c ks) as (λ x. Op (RocksStore D) Bool) [
        | [] ↦ pure false
        | op ∷ rest ↦ in_db (db.write (op ∷ rest)) >> pure true
      ])
          s
        ≡ (if length ks == 0
            then (ok false, s)
            else (in_db (db.write (deletions c ks)) >> pure true) s)
  delete_all c [] s = refl
  delete_all c (k ∷ ks) s =
      let some_key : (length (k ∷ ks) == 0) ≡ false = ground arith in rw some_key refl

  -- Over a database whose entries ascend by their keys and are all identities of the store, and that
  -- iterates without an error, a list with a limit above 0 holds exactly the keys of the collection,
  -- as many as the limit and 10,000 allow, and changes nothing.
  pub list_keys-keys_in :
      (rows : D → List Row) (s : RocksStore D) (c : Option Text) (limit : Option ℕ)
      → Iterates db rows
      → All IsNamed (rows s.db)
      → IsAscending (rows s.db)
      → 0 < min_limit limit
      → list_keys os db c limit s
        ≡ (ok (take (min_limit limit) (keys_in (resolve s.default_collection c) (rows s.db))), s)
  unfolding list_keys
  list_keys-keys_in rows s c limit iterates named sorted few = rw (
    iterates (collection_prefix (resolve s.default_collection c)) s.db,
    keys_each-ascending (resolve s.default_collection c) (min_limit limit) [] (rows s.db) few named
        sorted,
  )

  -- Over a database whose entries ascend by their keys and are all identities of the store, and that
  -- iterates without an error, the destruction of a collection writes one batch, which deletes
  -- exactly the keys of the collection, and says that it did when the write succeeds; where the
  -- collection has none, it writes nothing and says so.
  pub destroy_collection-batch :
      (rows : D → List Row) (s : RocksStore D) (c : Text)
      → Iterates db rows
      → All IsNamed (rows s.db)
      → IsAscending (rows s.db)
      → destroy_collection os db c s ≡ (
          if length (keys_in c (rows s.db)) == 0
          then (ok false, s)
          else (in_db (db.write (deletions c (keys_in c (rows s.db)))) >> pure true) s)
  unfolding destroy_collection
  destroy_collection-batch rows s c iterates named sorted =
      rw
        (iterates (collection_prefix c) s.db, collection_batch-ascending c (rows s.db) named sorted)
        (delete_all c (keys_in c (rows s.db)) s)
