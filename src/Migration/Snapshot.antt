-- ===== src/Migration/Snapshot.antt =====
-- The copy of a snapshot: what it leaves in the target, collection by collection.
use openkeyv.Base.{◌≡◌, refl, sym, ap, ◌∙◌}
use openkeyv.Base.{
  ◌⊎◌, inl, inr, Bool, true, false, ◌&&◌, ◌||◌, Option, none, some, List, [], ◌∷◌, map,
}
use openkeyv.Base.{if◌then◌else◌, Bool-cases}
use openkeyv.Base.{length, zip_with}
use openkeyv.Base.{ok}
use openkeyv.Base.Bytes.{Text, bytes_eq}
use openkeyv.Platform.{Platform}
use openkeyv.Value.Checked.{Value}
use openkeyv.Protocol.{pure, KeyValue, Enumerate}
use mathlib.Core.Path.{subst}
use openkeyv.Protocol.Contract.{Model, Contract}
use openkeyv.Wrapper.Names.{seen_before, seen_before-append}
use openkeyv.Migration.{
  MigrationOptions, MigrationReport, note_scanned, selected, target_collection, batch_size, chunks,
  copy_items, copy_batch, copy_batches, copy_collection, copy_collections,
}
use openkeyv.Migration.Chunks.{join, join-chunks}
use openkeyv.Migration.Items.{bind-run, pick, pick-pick, pick_none, value_of, held, copy_items-held}

-- A source whose contents do not change while they are read: in every state with `Q`, reads give the
-- collections, the keys of each and the value of each key, and leave a state with `Q`.
pub record Frozen {S F : Type 0} (source : KeyValue S F) (names : Enumerate S) (Q : S → Type 0)
    (collections : List Text) (listed : Text → List Text) (content : Text → Text → Option Value)
    : Type 0 where
  pub collections_read :
      (s : S) → Q s → (s' : S) × (names.collections none s ≡ (ok collections, s')) × Q s'
  pub keys_read :
      (s : S) (c : Text)
      → Q s
      → (s' : S) × (names.keys (some c) none s ≡ (ok (listed c), s')) × Q s'
  pub values_read :
      (s : S) (c : Text) (ks : List Text)
      → Q s
      → (items : List (Option (Value × Option F))) × (s' : S) × (source.ttl_many ks (some c) s
          ≡ (ok items, s'))
        × (map value_of items ≡ map (content c) ks)
        × Q s'

both : (b x y : Bool) → (b && x || b && y) ≡ (b && (x || y))
both true x y = refl
both false x y = refl

pub Option-cases : {A : Type 0} (o : Option A) → (o ≡ none) ⊎ ((a : A) × (o ≡ some a))
Option-cases none = inl refl
Option-cases (some a) = inr (a, refl)

-- The collection of the target that the options give for a collection, if it is copied.
unfoldable pub destination : MigrationOptions → Text → Option Text
destination options c = if selected options c then target_collection options c else none

-- Whether the collection `c` is copied to `d`.
unfoldable pub goes_to : MigrationOptions → Text → Text → Bool
goes_to options c d = elim (destination options c) [ none ↦ false | some d' ↦ bytes_eq d' d ]

pub goes_to-some :
    (options : MigrationOptions) (c d d' : Text)
    → destination options c ≡ some d
    → goes_to options c d' ≡ bytes_eq d d'
unfolding goes_to
goes_to-some options c d d' h = ap (λ o. elim o [ none ↦ false | some x ↦ bytes_eq x d' ]) h

goes_to-none :
    (options : MigrationOptions) (c d' : Text)
    → destination options c ≡ none
    → goes_to options c d' ≡ false
unfolding goes_to
goes_to-none options c d' h = ap (λ o. elim o [ none ↦ false | some x ↦ bytes_eq x d' ]) h

-- The value at a place of the target after the rounds of the collections.
unfoldable pub after_rounds :
    MigrationOptions
    → (Text → List Text)
    → (Text → Text → Option Value)
    → List Text
    → Text
    → Text
    → Option Value
    → Option Value
after_rounds options listed content [] d j old = old
after_rounds options listed content (c ∷ cs) d j old =
    after_rounds options listed content cs d j
      (pick (goes_to options c d && seen_before (listed c) j) (content c j) old)

module _ {S T C F : Type 0} (os : Platform C F) (source : KeyValue S F) (names : Enumerate S)
    (target : KeyValue T F) (m : Model T C) (store : Contract os target m)
    (options : MigrationOptions) (Q : S → Type 0) (cols : List Text) (listed : Text → List Text)
    (content : Text → Text → Option Value) (frozen : Frozen source names Q cols listed content)
    (keeps_ttl : options.preserve_ttl ≡ true) where
  -- The values of the target after the keys `ks` of the collection `c` went to `d`.
  abbrev Copied : Text → Text → List Text → T → T → Type 0
  Copied c d ks t t' =
      (d' j : Text)
      → held m t' d' j ≡ pick (bytes_eq d d' && seen_before ks j) (content c j) (held m t d' j)

  copy_batch-Copied :
      (c d : Text) (ks : List Text) (r r' : MigrationReport) (s s' : S) (t t' : T)
      → Q s
      → copy_batch source names target options c d ks r (s, t) ≡ (ok r', (s', t'))
      → Q s' × Copied c d ks t t'
  unfolding copy_batch
  copy_batch-Copied c d ks r r' s s' t t' q run =
      let (items, s₁, read, same, q₁) = frozen.values_read s c ks q in
      let run₁ : copy_items source names target options d (zip_with (λ k item. (k, item)) ks items)
            (note_scanned (length ks) r) (s₁, t)
          ≡ (ok r', (s', t')) =
        rw (keeps_ttl, read) at run in
      let (kept, copied) =
        copy_items-held os source names target m store options d (content c) ks items
          (note_scanned (length ks) r) r' s₁ s' t t' same run₁ in
      (subst Q (sym kept) q₁, copied)

  copy_batches-Copied :
      (c d : Text) (kss : List (List Text)) (r r' : MigrationReport) (s s' : S) (t t' : T)
      → Q s
      → copy_batches source names target options c d kss r (s, t) ≡ (ok r', (s', t'))
      → Q s' × Copied c d (join kss) t t'
  unfolding copy_batches seen_before
  copy_batches-Copied c d [] r r' s s' t t' q run = (
    subst (λ p. Q p.1.0) run q,
    λ d' j.
        ap (λ p. held m p.1.1 d' j) (sym run)
        ∙ sym (pick_none (bytes_eq d d') (content c j) (held m t d' j)),
  )
  copy_batches-Copied c d (ks ∷ kss) r r' s s' t t' q run =
      let (r₁, (s₁, t₁), run₁, run₂) =
        bind-run (copy_batch source names target options c d ks r) _ (s, t) (s', t') r' run in
      let (q₁, copied₁) = copy_batch-Copied c d ks r r₁ s s₁ t t₁ q run₁ in
      let (q₂, copied₂) = copy_batches-Copied c d kss r₁ r' s₁ s' t₁ t' q₁ run₂ in
      (
        q₂,
        λ d' j.
            copied₂ d' j
            ∙ ap (pick (bytes_eq d d' && seen_before (join kss) j) (content c j)) (copied₁ d' j)
            ∙ pick-pick (bytes_eq d d' && seen_before ks j)
                (bytes_eq d d' && seen_before (join kss) j) (content c j) (held m t d' j)
            ∙ ap (λ b. pick b (content c j) (held m t d' j))
                (both (bytes_eq d d') (seen_before ks j) (seen_before (join kss) j)
                  ∙ ap (λ b. bytes_eq d d' && b) (sym (seen_before-append ks (join kss) j))),
      )

  -- What one round of the loop over the collections leaves.
  abbrev Round : Text → T → T → Type 0
  Round c t t' =
      (d' j : Text)
      → held m t' d' j
        ≡ pick (goes_to options c d' && seen_before (listed c) j) (content c j) (held m t d' j)

  copy_nothing :
      (c : Text) (r r' : MigrationReport) (s s' : S) (t t' : T)
      → destination options c ≡ none
      → Q s
      → pure {S = S × T} r (s, t) ≡ (ok r', (s', t'))
      → Q s' × Round c t t'
  unfolding pick
  copy_nothing c r r' s s' t t' nowhere q run = (
    subst (λ p. Q p.1.0) run q,
    λ d' j.
        ap (λ p. held m p.1.1 d' j) (sym run) ∙ sym (rw (goes_to-none options c d' nowhere) refl),
  )

  copy_collection-Round :
      (c : Text) (r r' : MigrationReport) (s s' : S) (t t' : T)
      → Q s
      → copy_collection source names target options c r (s, t) ≡ (ok r', (s', t'))
      → Q s' × Round c t t'
  unfolding copy_collection destination
  copy_collection-Round c r r' s s' t t' q run = elim (Bool-cases (selected options c)) [
    | inr skipped ↦ copy_nothing c r r' s s' t t' (rw skipped refl) q (rw skipped at run)
    | inl chosen ↦ elim (Option-cases (target_collection options c)) [
      | inl unmapped ↦
          copy_nothing c r r' s s' t t' (rw (chosen, unmapped) refl) q
            (rw (chosen, unmapped) at run)
      | inr (d, mapped) ↦
          let (s₁, read, q₁) = frozen.keys_read s c q in
          let (q₂, copied) =
            copy_batches-Copied c d (chunks (length (listed c)) (batch_size options) (listed c)) r
              r' s₁ s' t t' q₁ (rw (chosen, mapped, read) at run) in
          (
            q₂,
            λ d' j.
                copied d' j
                ∙ rw
                    (
                      (join-chunks options (listed c)).0,
                      goes_to-some options c d d' (rw chosen mapped),
                    )
                    refl,
          )
    ]
  ]

  pub copy_collections-Held :
      (cs : List Text) (r r' : MigrationReport) (s s' : S) (t t' : T)
      → Q s
      → copy_collections source names target options cs r (s, t) ≡ (ok r', (s', t'))
      → (d j : Text) → held m t' d j ≡ after_rounds options listed content cs d j (held m t d j)
  unfolding copy_collections after_rounds
  copy_collections-Held [] r r' s s' t t' q run d j = ap (λ p. held m p.1.1 d j) (sym run)
  copy_collections-Held (c ∷ cs) r r' s s' t t' q run d j =
      let (r₁, (s₁, t₁), run₁, run₂) =
        bind-run (copy_collection source names target options c r) _ (s, t) (s', t') r' run in
      let (q₁, round) = copy_collection-Round c r r₁ s s₁ t t₁ q run₁ in
      copy_collections-Held cs r₁ r' s₁ s' t₁ t' q₁ run₂ d j
      ∙ ap (after_rounds options listed content cs d j) (round d j)
