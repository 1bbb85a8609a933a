-- ===== src/Migration/Origin.antt =====
-- Where the entries of the target come from: a copy keeps the time to live that a read of the source
-- gave with the value.
use openkeyv.Base.{ℕ, zero, suc, ◌≡◌, refl, sym, ap, ◌∙◌}
use openkeyv.Base.{◌⊎◌, inl, inr, true, Option, none, some, List, [], ◌∷◌}
use openkeyv.Base.{if◌then◌else◌, Bool-cases}
use openkeyv.Base.{length, get_elem?, All, zip_with}
use openkeyv.Base.{ok, Result-cases}
use openkeyv.Base.Bytes.{Text}
use mathlib.Core.Path.{subst}
use openkeyv.Platform.{Platform}
use openkeyv.Value.Checked.{Value}
use openkeyv.Entry.{ManagedEntry, make}
use openkeyv.Protocol.{Op, ◌>>=◌, pure, KeyValue, Enumerate}
use openkeyv.Protocol.Contract.{Model, Contract, same_place, same_place-true}
use openkeyv.Migration.{
  MigrationOptions, MigrationReport, in_source, in_target, note_scanned, note_copied, note_skipped,
  selected, target_collection, batch_size, chunks, copy_items, copy_batch, copy_batches,
  copy_collection, copy_collections, copy_snapshot, no_report,
}
use openkeyv.Migration.Items.{bind-run, differ}
use openkeyv.Migration.Snapshot.{Option-cases, destination}

-- Every element, by what its position tells.
All-elem :
    {A : Type 0} (P : A → Type 0) (xs : List A)
    → ((i : ℕ) (x : A) → get_elem? xs i ≡ some x → P x)
    → All P xs
All-elem P [] f = tt
All-elem P (x ∷ xs) f = (f zero x refl, All-elem P xs λ i y h. f (suc i) y h)

-- The items of a batch, by their keys.
abbrev pub items_of :
    {F : Type 0}
    → List Text
    → List (Option (Value × Option F))
    → List (Text × Option (Value × Option F))
items_of ks items = zip_with (λ k item. (k, item)) ks items

module _ {S T C F : Type 0} (os : Platform C F) (source : KeyValue S F) (names : Enumerate S)
    (target : KeyValue T F) (m : Model T C) (options : MigrationOptions) where
  -- A read of the source, for a batch of keys of a collection, that gave an item for a key.
  abbrev pub Read : Text → Text → Option (Value × Option F) → Type 0
  Read c k item =
      (ks : List Text) × (items : List (Option (Value × Option F))) × (s s' : S) × (source.ttl_many
          ks (some c) s
        ≡ (ok items, s'))
      × (i : ℕ) × (get_elem? (items_of ks items) i ≡ some (k, item))

  -- An entry that a write makes of a value and the time to live that a read gave with it, by the
  -- clock of the target, from a collection that is copied to `d`.
  abbrev pub Origin : Text → Text → ManagedEntry C → Type 0
  Origin d k e =
      (c : Text) × (v : Value) × (ttl : Option F) × (t : T) × (destination options c ≡ some d)
      × Read c k (some (v, ttl))
      × (make os (m.now t) v ttl ≡ ok e)

  -- Each entry of the target is as it was, or has such an origin.
  abbrev pub Traced : T → T → Type 0
  Traced t t' =
      (d k : Text)
      → (m.view t' d k ≡ m.view t d k)
        ⊎ ((e : ManagedEntry C) × (m.view t' d k ≡ some e) × Origin d k e)

  Traced-then : (t t₁ t' : T) → Traced t t₁ → Traced t₁ t' → Traced t t'
  Traced-then t t₁ t' f g d k = elim (g d k) [
    | inr later ↦ inr later
    | inl same ↦ elim (f d k) [
      | inl before ↦ inl (same ∙ before)
      | inr (e, there, origin) ↦ inr (e, same ∙ there, origin)
    ]
  ]

  -- A run that leaves the target traced whenever it returns.
  abbrev Traces : Op (S × T) MigrationReport → Type 0
  Traces run =
      (r : MigrationReport) (s s' : S) (t t' : T) → run (s, t) ≡ (ok r, (s', t')) → Traced t t'

  Traces-pure : (r : MigrationReport) → Traces (pure r)
  Traces-pure r r' s s' t t' h d k = inl (ap (λ p. m.view p.1.1 d k) (sym h))

  Traces-bind :
      (run : Op (S × T) MigrationReport) (next : MigrationReport → Op (S × T) MigrationReport)
      → Traces run
      → ((r : MigrationReport) → Traces (next r))
      → Traces (run >>= next)
  Traces-bind run next f g r s s' t t' h =
      let (r₁, (s₁, t₁), first, rest) = bind-run run next (s, t) (s', t') r h in
      Traced-then t t₁ t' (f r₁ s s₁ t t₁ first) (g r₁ r s₁ s' t₁ t' rest)

  -- A read of the source in front of a run.
  Traces-read :
      {A : Type 0} (read : Op S A) (next : A → Op (S × T) MigrationReport)
      → ((a : A) (s s' : S) → read s ≡ (ok a, s') → Traces (next a))
      → Traces (in_source read >>= next)
  Traces-read read next f r s s' t t' h =
      let (a, (s₁, t₁), first, rest) = bind-run (in_source read) next (s, t) (s', t') r h in
      let kept : t₁ ≡ t = ap (λ p. p.1.1) (sym first) in
      subst (λ x. Traced x t') kept (f a s s₁ (ap (λ p. (p.0, p.1.0)) first) r s₁ s' t₁ t' rest)

  module _ (store : Contract os target m) where
    put-Traced :
        (c d k : Text) (v : Value) (ttl : Option F) (t t' : T)
        → destination options c ≡ some d
        → Read c k (some (v, ttl))
        → target.put k v (some d) ttl t ≡ (ok tt, t')
        → Traced t t'
    put-Traced c d k v ttl t t' to read h d' j = elim (Result-cases (make os (m.now t) v ttl)) [
      | inr (x, refused) ↦
          absurd (differ (sym (store.put_refuses t k v (some d) ttl x refused) ∙ ap (λ p. p.0) h))
      | inl (e, made) ↦
          let view : m.view t' d' j ≡ (if same_place d k d' j then some e else m.view t d' j) =
            ap (λ p. m.view p.1 d' j) (sym h) ∙ store.put_stores t k v (some d) ttl e made d' j in
          elim (Bool-cases (same_place d k d' j)) [
            | inr other ↦ inl (rw other at view)
            | inl same ↦
                let (p, q) = same_place-true d k d' j same in
                inr (
                  e,
                  rw same at view,
                  subst (λ x. Origin x j e) p
                      (subst (λ x. Origin d x e) q (c, v, ttl, t, to, read, made)),
                )
          ]
    ]

    copy_items-Traced :
        (c d : Text) (items : List (Text × Option (Value × Option F))) (r : MigrationReport)
        → destination options c ≡ some d
        → All (λ p. Read c p.0 p.1) items
        → Traces (copy_items source names target options d items r)
    unfolding copy_items
    copy_items-Traced c d [] r to read = Traces-pure r
    copy_items-Traced c d ((k, none) ∷ items) r to (_, read) =
        copy_items-Traced c d items (note_skipped r) to read
    copy_items-Traced c d ((k, some (v, ttl)) ∷ items) r to (here, read) = λ r' s s' t t' h.
        let (u, (s₁, t₁), stored, rest) =
          bind-run (in_target (target.put k v (some d) ttl)) _ (s, t) (s', t') r' h in
        Traced-then t t₁ t' (put-Traced c d k v ttl t t₁ to here (ap (λ p. (p.0, p.1.1)) stored))
          (copy_items-Traced c d items (note_copied 1 r) to read r' s₁ s' t₁ t' rest)

    module _ (keeps_ttl : options.preserve_ttl ≡ true) where
      copy_batch-Traced :
          (c d : Text) (ks : List Text) (r : MigrationReport)
          → destination options c ≡ some d
          → Traces (copy_batch source names target options c d ks r)
      unfolding copy_batch destination selected target_collection
      copy_batch-Traced c d ks r to = rw keeps_ttl (
          Traces-read (source.ttl_many ks (some c)) _ λ items s s' e.
            copy_items-Traced c d (items_of ks items) (note_scanned (length ks) r) to (
              All-elem (λ p. Read c p.0 p.1) (items_of ks items)
                λ i p at. (ks, items, s, s', e, i, at)))

      copy_batches-Traced :
          (c d : Text) (kss : List (List Text)) (r : MigrationReport)
          → destination options c ≡ some d
          → Traces (copy_batches source names target options c d kss r)
      unfolding copy_batches
      copy_batches-Traced c d [] r to = Traces-pure r
      copy_batches-Traced c d (ks ∷ kss) r to =
          Traces-bind (copy_batch source names target options c d ks r) _
            (copy_batch-Traced c d ks r to) λ r'. copy_batches-Traced c d kss r' to

      copy_collection-Traced :
          (c : Text) (r : MigrationReport)
          → Traces (copy_collection source names target options c r)
      unfolding copy_collection destination
      copy_collection-Traced c r = elim (Bool-cases (selected options c)) [
        | inr skipped ↦ rw skipped (Traces-pure r)
        | inl chosen ↦ elim (Option-cases (target_collection options c)) [
          | inl unmapped ↦ rw (chosen, unmapped) (Traces-pure r)
          | inr (d, mapped) ↦
              rw (chosen, mapped)
                (Traces-read (names.keys (some c) none) _ λ ks s s' e.
                  copy_batches-Traced c d (chunks (length ks) (batch_size options) ks) r
                    (rw chosen mapped))
        ]
      ]

      copy_collections-Traced :
          (cs : List Text) (r : MigrationReport)
          → Traces (copy_collections source names target options cs r)
      unfolding copy_collections
      copy_collections-Traced [] r = Traces-pure r
      copy_collections-Traced (c ∷ cs) r =
          Traces-bind (copy_collection source names target options c r) _
            (copy_collection-Traced c r) (copy_collections-Traced cs)

      -- Each entry that a copy leaves in the target is as it was, or made of a value and the time to
      -- live that a read of the source gave with it for that key.
      pub copy_snapshot-Traced : Traces (copy_snapshot source names target options)
      unfolding copy_snapshot
      copy_snapshot-Traced =
          Traces-read (names.collections none) _ λ cs s s' e. copy_collections-Traced cs no_report
