-- ===== src/Migration/Returns.antt =====
-- The copy of a snapshot of entries without expiry returns.
use openkeyv.Base.{◌≡◌, refl, ap}
use openkeyv.Base.{inl, inr, true, Option, none, some, List, [], ◌∷◌}
use openkeyv.Base.{Bool-cases}
use openkeyv.Base.{length, All, zip_with}
use openkeyv.Base.{ok}
use openkeyv.Base.Bytes.{Text}
use openkeyv.Platform.{Platform}
use openkeyv.Value.Checked.{Value}
use openkeyv.Entry.{make, new}
use openkeyv.Protocol.{Op, ◌>>=◌, pure, KeyValue, Enumerate}
use openkeyv.Protocol.Contract.{Model, Contract}
use openkeyv.Migration.{
  MigrationOptions, MigrationReport, no_report, note_scanned, note_copied, note_skipped, selected,
  target_collection, batch_size, chunks, in_source, copy_items, copy_batch, copy_batches,
  copy_collection, copy_collections, copy_snapshot,
}
use openkeyv.Migration.Snapshot.{Frozen, Option-cases}

-- An item that is missing, or has no time to live.
abbrev pub IsPermanent : {F : Type 0} → Option (Value × Option F) → Type 0
IsPermanent none = Unit {0}
IsPermanent (some (v, ttl)) = ttl ≡ none

new-make :
    {T F : Type 0} (os : Platform T F) (now : T) (v : Value)
    → make os now v none ≡ ok (new os now v)
unfolding make
new-make os now v = refl

module _ {S T C F : Type 0} (os : Platform C F) (source : KeyValue S F) (names : Enumerate S)
    (target : KeyValue T F) (m : Model T C) (store : Contract os target m)
    (options : MigrationOptions) (Q : S → Type 0) (cols : List Text) (listed : Text → List Text)
    (content : Text → Text → Option Value) (frozen : Frozen source names Q cols listed content)
    (keeps_ttl : options.preserve_ttl ≡ true)
    (permanent : (s : S) (c : Text) (ks : List Text) (items : List (Option (Value × Option F)))
        (s' : S)
      → Q s
      → source.ttl_many ks (some c) s ≡ (ok items, s')
      → All IsPermanent items) where
  -- A run from a source with `Q` returns, and leaves a source with `Q`.
  abbrev Returns : Op (S × T) MigrationReport → Type 0
  Returns run =
      (s : S) (t : T)
      → Q s
      → (r : MigrationReport) × (s' : S) × (t' : T) × (run (s, t) ≡ (ok r, (s', t'))) × Q s'

  Returns-pure : (r : MigrationReport) → Returns (pure r)
  Returns-pure r s t q = (r, s, t, refl, q)

  Returns-bind :
      (run : Op (S × T) MigrationReport) (next : MigrationReport → Op (S × T) MigrationReport)
      → Returns run
      → ((r : MigrationReport) → Returns (next r))
      → Returns (run >>= next)
  Returns-bind run next h k s t q =
      let (r, s₁, t₁, e, q₁) = h s t q in
      let (r', s', t', e', q') = k r s₁ t₁ q₁ in (r', s', t', rw e e', q')

  -- A read of the source in front of a run.
  Returns-read :
      {A : Type 0} (read : Op S A) (next : A → Op (S × T) MigrationReport)
      → ((s : S) → Q s → (a : A) × (s' : S) × (read s ≡ (ok a, s')) × Q s' × Returns (next a))
      → Returns (in_source read >>= next)
  Returns-read read next h s t q =
      let (a, s₁, e, q₁, k) = h s q in
      let (r, s', t', e', q') = k s₁ t q₁ in (r, s', t', rw e e', q')

  put_permanent :
      (d k : Text) (v : Value) (t : T) → (t' : T) × (target.put k v (some d) none t ≡ (ok tt, t'))
  put_permanent d k v t = (
    (target.put k v (some d) none t).1,
    ap (λ r. (r, (target.put k v (some d) none t).1))
        (store.put_accepts t k v (some d) none (new os (m.now t) v) (new-make os (m.now t) v)),
  )

  copy_items-Returns :
      (d : Text) (ks : List Text) (items : List (Option (Value × Option F))) (r : MigrationReport)
      → All IsPermanent items
      → Returns
          (copy_items source names target options d (zip_with (λ k item. (k, item)) ks items) r)
  unfolding copy_items
  copy_items-Returns d [] items r p = Returns-pure r
  copy_items-Returns d (k ∷ ks) [] r p = Returns-pure r
  copy_items-Returns d (k ∷ ks) (none ∷ items) r (p, ps) =
      copy_items-Returns d ks items (note_skipped r) ps
  copy_items-Returns d (k ∷ ks) (some (v, ttl) ∷ items) r (p, ps) = λ s t q.
      let (t₁, stored) = put_permanent d k v t in
      let (r', s', t', e, q') = copy_items-Returns d ks items (note_copied 1 r) ps s t₁ q in
      (r', s', t', rw (p, stored) e, q')

  copy_batch-Returns :
      (c d : Text) (ks : List Text) (r : MigrationReport)
      → Returns (copy_batch source names target options c d ks r)
  unfolding copy_batch
  copy_batch-Returns c d ks r = rw keeps_ttl (
      Returns-read (source.ttl_many ks (some c)) _ λ s q.
        let (items, s', e, same, q') = frozen.values_read s c ks q in
        (
          items,
          s',
          e,
          q',
          copy_items-Returns d ks items (note_scanned (length ks) r)
              (permanent s c ks items s' q e),
        ))

  copy_batches-Returns :
      (c d : Text) (kss : List (List Text)) (r : MigrationReport)
      → Returns (copy_batches source names target options c d kss r)
  unfolding copy_batches
  copy_batches-Returns c d [] r = Returns-pure r
  copy_batches-Returns c d (ks ∷ kss) r =
      Returns-bind (copy_batch source names target options c d ks r) _ (copy_batch-Returns c d ks r)
        (copy_batches-Returns c d kss)

  copy_collection-Returns :
      (c : Text) (r : MigrationReport) → Returns (copy_collection source names target options c r)
  unfolding copy_collection
  copy_collection-Returns c r = elim (Bool-cases (selected options c)) [
    | inr skipped ↦ rw skipped (Returns-pure r)
    | inl chosen ↦ elim (Option-cases (target_collection options c)) [
      | inl unmapped ↦ rw (chosen, unmapped) (Returns-pure r)
      | inr (d, mapped) ↦
          rw (chosen, mapped)
            (Returns-read (names.keys (some c) none) _ λ s q.
              let (s', e, q') = frozen.keys_read s c q in
              (
                listed c,
                s',
                e,
                q',
                copy_batches-Returns c d
                    (chunks (length (listed c)) (batch_size options) (listed c)) r,
              ))
    ]
  ]

  copy_collections-Returns :
      (cs : List Text) (r : MigrationReport)
      → Returns (copy_collections source names target options cs r)
  unfolding copy_collections
  copy_collections-Returns [] r = Returns-pure r
  copy_collections-Returns (c ∷ cs) r =
      Returns-bind (copy_collection source names target options c r) _ (copy_collection-Returns c r)
        (copy_collections-Returns cs)

  -- A copy with the times to live kept returns a report, from a source whose contents stay as they
  -- are while it is read and, in the states that the copy meets, have no expiry, to a target that
  -- keeps the contract.
  pub copy_snapshot_returns :
      (s : S) (t : T)
      → Q s
      → (r : MigrationReport) × (s' : S) × (t' : T) × (copy_snapshot source names target options
            (s, t)
          ≡ (ok r, (s', t')))
        × Q s'
  unfolding copy_snapshot
  copy_snapshot_returns = Returns-read (names.collections none) _ λ s q.
      let (s', e, q') = frozen.collections_read s q in
      (cols, s', e, q', copy_collections-Returns cols no_report)
