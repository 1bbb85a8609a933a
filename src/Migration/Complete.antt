-- ===== src/Migration/Complete.antt =====
-- The copy of a snapshot is complete, and writes nowhere else.
use openkeyv.Base.{◌≡◌, refl, ap, ◌∙◌}
use openkeyv.Base.{◌≢◌, inl, inr, Bool, true, false, ◌&&◌, Option, none, some, List, [], ◌∷◌, arith}
use openkeyv.Base.{Bool-cases}
use openkeyv.Base.{ok}
use openkeyv.Base.Bytes.{Text, bytes_eq, bytes_eq_iff, bytes_eq_refl}
use openkeyv.Platform.{Platform}
use openkeyv.Value.Checked.{Value}
use openkeyv.Protocol.{KeyValue, Enumerate}
use openkeyv.Protocol.Contract.{Model, Contract}
use openkeyv.Wrapper.Names.{seen_before}
use openkeyv.Migration.{MigrationOptions, MigrationReport, selected, no_report, copy_snapshot}
use openkeyv.Migration.Names.{target_collection-injective}
use openkeyv.Migration.Items.{pick, held}
use openkeyv.Migration.Origin.{Traced, copy_snapshot-Traced}
use openkeyv.Migration.Snapshot.{
  Frozen, destination, goes_to, goes_to-some, after_rounds, copy_collections-Held,
}

pick_same : (b : Bool) (v : Value) → pick b (some v) (some v) ≡ some v
unfolding pick
pick_same true v = refl
pick_same false v = refl

module _ (options : MigrationOptions) (listed : Text → List Text)
    (content : Text → Text → Option Value) where
  destination-injective :
      (c c' d : Text) → destination options c ≡ some d → destination options c' ≡ some d → c ≡ c'
  unfolding destination
  destination-injective c c' d h h' = elim (Bool-cases (selected options c)) [
    | inr skipped ↦ cc (rw skipped at h)
    | inl chosen ↦ elim (Bool-cases (selected options c')) [
      | inr skipped ↦ cc (rw skipped at h')
      | inl chosen' ↦ target_collection-injective options c c' d (rw chosen at h) (rw chosen' at h')
    ]
  ]

  goes_to-destination : (c d : Text) → goes_to options c d ≡ true → destination options c ≡ some d
  unfolding goes_to
  goes_to-destination c d h = go (destination options c) h
    where
      go :
          (o : Option Text)
          → (elim o [ none ↦ false | some d' ↦ bytes_eq d' d ]) ≡ true
          → o ≡ some d
      go none e = cc
      go (some d') e = ap some ((bytes_eq_iff d' d).0 e)

  destination-goes_to : (c d : Text) → destination options c ≡ some d → goes_to options c d ≡ true
  destination-goes_to c d h = goes_to-some options c d d h ∙ bytes_eq_refl d

  rounds-kept :
      (c₀ d j : Text) (v : Value)
      → destination options c₀ ≡ some d
      → content c₀ j ≡ some v
      → (cs : List Text) → after_rounds options listed content cs d j (some v) ≡ some v
  unfolding after_rounds pick
  rounds-kept c₀ d j v to value [] = refl
  rounds-kept c₀ d j v to value (c ∷ cs) = elim (Bool-cases (goes_to options c d)) [
    | inr elsewhere ↦ rw elsewhere (rounds-kept c₀ d j v to value cs)
    | inl here ↦
        let same = destination-injective c c₀ d (goes_to-destination c d here) to in
        let found : content c j ≡ some v = ap (λ x. content x j) same ∙ value in
        rw (found, pick_same (goes_to options c d && seen_before (listed c) j) v)
          (rounds-kept c₀ d j v to value cs)
  ]

  rounds-reach :
      (c₀ d j : Text) (v : Value)
      → destination options c₀ ≡ some d
      → seen_before (listed c₀) j ≡ true
      → content c₀ j ≡ some v
      → (cs : List Text) (old : Option Value) → seen_before cs c₀ ≡ true
      → after_rounds options listed content cs d j old ≡ some v
  unfolding after_rounds pick seen_before
  rounds-reach c₀ d j v to there value [] old h = cc
  rounds-reach c₀ d j v to there value (c ∷ cs) old h = elim (Bool-cases (bytes_eq c c₀)) [
    | inr other ↦ rounds-reach c₀ d j v to there value cs _ (rw other at h)
    | inl same ↦
        rw ((bytes_eq_iff c c₀).0 same, destination-goes_to c₀ d to, there, value)
          (rounds-kept c₀ d j v to value cs)
  ]

  rounds-elsewhere :
      (d j : Text) (old : Option Value) (cs : List Text)
      → ((c : Text) → seen_before cs c ≡ true → destination options c ≢ some d)
      → after_rounds options listed content cs d j old ≡ old
  unfolding after_rounds pick seen_before
  rounds-elsewhere d j old [] h = refl
  rounds-elsewhere d j old (c ∷ cs) h = elim (Bool-cases (goes_to options c d)) [
    | inl here ↦ absurd (h c (rw (bytes_eq_refl c) refl) (goes_to-destination c d here))
    | inr elsewhere ↦
        rw elsewhere (rounds-elsewhere d j old cs λ c' seen. h c' (ground (arith, seen)))
  ]

module _ {S T C F : Type 0} (os : Platform C F) (source : KeyValue S F) (names : Enumerate S)
    (target : KeyValue T F) (m : Model T C) (store : Contract os target m)
    (options : MigrationOptions) (Q : S → Type 0) (cols : List Text) (listed : Text → List Text)
    (content : Text → Text → Option Value)
    (frozen : Frozen source names Q cols listed content) where
  -- A copy that returns, with preserve_ttl set, from a source whose contents stay as they are to a
  -- target that keeps the contract, leaves in the target each value that the source lists: for each
  -- collection that its list of collections gives and that is selected and mapped, and each key that
  -- its list of the keys of that collection gives, the value of that key, whatever the batch size,
  -- the order of the lists and their repetitions. A collection of the target that none of the listed
  -- ones is mapped to keeps its values. Each entry of the target is as it was, or was made, by the
  -- clock of the target, of a value and the time to live that a read of the source gave with it for
  -- that key in a collection that is mapped to the entry's. What a source leaves out of its lists,
  -- such as names beyond 10,000, is not covered.
  pub copy_snapshot_complete :
      (r : MigrationReport) (s s' : S) (t t' : T)
      → options.preserve_ttl ≡ true
      → Q s
      → copy_snapshot source names target options (s, t) ≡ (ok r, (s', t'))
      → ((c d k : Text) (v : Value)
          → seen_before cols c ≡ true
          → destination options c ≡ some d
          → seen_before (listed c) k ≡ true
          → content c k ≡ some v
          → held m t' d k ≡ some v)
        × ((d k : Text)
            → ((c : Text) → seen_before cols c ≡ true → destination options c ≢ some d)
            → held m t' d k ≡ held m t d k)
        × Traced os source names target m options t t'
  unfolding copy_snapshot
  copy_snapshot_complete r s s' t t' ttl q run =
      let (s₁, read, q₁) = frozen.collections_read s q in
      let after =
        copy_collections-Held os source names target m store options Q cols listed content frozen
          ttl cols no_report r s₁ s' t t' q₁ (rw read at run) in
      (
        λ c d k v listed_c to there value.
            after d k
            ∙ rounds-reach options listed content c d k v to there value cols (held m t d k)
                listed_c,
        λ d k none_to.
            after d k ∙ rounds-elsewhere options listed content d k (held m t d k) cols none_to,
        copy_snapshot-Traced os source names target m options store ttl r s s' t t' run,
      )
