-- ===== src/Migration/Items.antt =====
-- What the loop over a batch leaves in the target: the values of the batch over what was there.
use openkeyv.Base.{◌≡◌, refl, sym, ap, ◌∙◌}
use openkeyv.Base.{
  ◌≢◌, inl, inr, Bool, true, false, ◌&&◌, ◌||◌, Option, none, some, List, [], ◌∷◌, map,
}
use openkeyv.Base.{if◌then◌else◌, Bool-cases}
use openkeyv.Base.{zip_with}
use openkeyv.Base.{Error, Result, ok, err, Result-cases}
use openkeyv.Base.Bytes.{Text, bytes_eq, bytes_eq_iff}
use openkeyv.Platform.{Platform}
use openkeyv.Value.Checked.{Value}
use openkeyv.Entry.{ManagedEntry, make}
use openkeyv.Protocol.{Op, continue, ◌>>=◌, KeyValue, Enumerate}
use openkeyv.Protocol.Contract.{Model, Contract, same_place}
use openkeyv.Protocol.Clients.{value-make}
use openkeyv.Wrapper.Names.{seen_before}
use openkeyv.Migration.{
  MigrationOptions, MigrationReport, in_target, copy_items, note_copied, note_skipped,
}

-- A run that returns has run its first part and then the rest.
pub bind-run :
    {W A B : Type 0} (m : Op W A) (f : A → Op W B) (w w' : W) (b : B)
    → (m >>= f) w ≡ (ok b, w')
    → (a : A) × (w₁ : W) × (m w ≡ (ok a, w₁)) × (f a w₁ ≡ (ok b, w'))
bind-run {W = W} {A = A} {B = B} m f w w' b h = go (m w) refl h
  where
    go :
        (r : Result A × W)
        → m w ≡ r
        → continue r.0 f r.1 ≡ (ok b, w')
        → (a : A) × (w₁ : W) × (m w ≡ (ok a, w₁)) × (f a w₁ ≡ (ok b, w'))
    go (ok a, w₁) e k = (a, w₁, e, k)
    go (err x, w₁) e k = cc

-- The value that is copied over the one that was there.
unfoldable pub pick : Bool → Option Value → Option Value → Option Value
pick false new old = old
pick true none old = old
pick true (some v) old = some v

pub pick-pick :
    (a b : Bool) (new old : Option Value) → pick b new (pick a new old) ≡ pick (a || b) new old
unfolding pick
pick-pick false false new old = refl
pick-pick false true new old = refl
pick-pick true false none old = refl
pick-pick true false (some v) old = refl
pick-pick true true none old = refl
pick-pick true true (some v) old = refl

abbrev pub value_of : {F : Type 0} → Option (Value × Option F) → Option Value
value_of none = none
value_of (some p) = some p.0

module _ {T : Type 0} where
  abbrev pub entry_value : Option (ManagedEntry T) → Option Value
  entry_value none = none
  entry_value (some e) = some e.value

-- The values that a target holds.
abbrev pub held : {S T : Type 0} → Model S T → S → Text → Text → Option Value
held m s d j = entry_value (m.view s d j)

entry_value-if :
    {T : Type 0} (b : Bool) (e : ManagedEntry T) (v : Value) (o : Option (ManagedEntry T))
    → e.value ≡ v
    → entry_value (if b then some e else o) ≡ (if b then some v else entry_value o)
entry_value-if true e v o h = ap some h
entry_value-if false e v o h = refl

pub differ : {A : Type 0} {x : Error} {a : A} → ◌≢◌ {A = Result A} (err x) (ok a)
differ h = cc

pub pick_none : (b : Bool) (new old : Option Value) → pick (b && false) new old ≡ old
unfolding pick
pick_none true new old = refl
pick_none false new old = refl

pick_nothing : (b : Bool) (old : Option Value) → pick b none old ≡ old
unfolding pick
pick_nothing true old = refl
pick_nothing false old = refl

-- A key without a value to copy makes no difference.
pick-absent :
    (b : Bool) (k j : Text) (seen : Bool) (content : Text → Option Value) (old : Option Value)
    → content k ≡ none
    → pick (b && seen) (content j) old ≡ pick (b && (bytes_eq k j || seen)) (content j) old
pick-absent b k j seen content old h = elim (Bool-cases (bytes_eq k j)) [
  | inr differ ↦ rw differ refl
  | inl same ↦
      let nothing = ap content (sym ((bytes_eq_iff k j).0 same)) ∙ h in
      rw nothing
        (pick_nothing (b && seen) old ∙ sym (pick_nothing (b && (bytes_eq k j || seen)) old))
]

pick_same :
    (b seen : Bool) (v : Value) (old : Option Value)
    → pick (b && seen) (some v) (if b && true then some v else old) ≡ pick (b && true) (some v) old
unfolding pick
pick_same true true v old = refl
pick_same true false v old = refl
pick_same false seen v old = refl

pick_differ :
    (b seen : Bool) (x : Value) (v old : Option Value)
    → pick (b && seen) v (if b && false then some x else old) ≡ pick (b && seen) v old
pick_differ true seen x v old = refl
pick_differ false seen x v old = refl

-- A key whose value was just put.
pick-present :
    (b : Bool) (k j : Text) (seen : Bool) (content : Text → Option Value) (v : Value)
    (old : Option Value)
    → content k ≡ some v
    → pick (b && seen) (content j) (if b && bytes_eq k j then some v else old)
      ≡ pick (b && (bytes_eq k j || seen)) (content j) old
pick-present b k j seen content v old h = elim (Bool-cases (bytes_eq k j)) [
  | inr differ ↦ rw differ (pick_differ b seen v (content j) old)
  | inl same ↦
      let there = ap content (sym ((bytes_eq_iff k j).0 same)) ∙ h in
      rw (there, same) (pick_same b seen v old)
]

module _ {S T C F : Type 0} (os : Platform C F) (source : KeyValue S F) (names : Enumerate S)
    (target : KeyValue T F) (m : Model T C) (store : Contract os target m)
    (options : MigrationOptions) where
  put-held :
      (d k : Text) (v : Value) (ttl : Option F) (t t' : T)
      → target.put k v (some d) ttl t ≡ (ok tt, t')
      → (d' j : Text) → held m t' d' j ≡ (if same_place d k d' j then some v else held m t d' j)
  put-held d k v ttl t t' h d' j =
      let moved = ap (λ p. p.1) h in
      elim (Result-cases (make os (m.now t) v ttl)) [
        | inl (e, made) ↦
            ap (λ x. held m x d' j) (sym moved)
            ∙ ap entry_value (store.put_stores t k v (some d) ttl e made d' j)
            ∙ entry_value-if (same_place d k d' j) e v (m.view t d' j)
                (value-make os (m.now t) v ttl e made)
        | inr (x, refused) ↦
            absurd (differ (sym (store.put_refuses t k v (some d) ttl x refused) ∙ ap (λ p. p.0) h))
      ]

  pub copy_items-held :
      (d : Text) (content : Text → Option Value) (keys : List Text)
      (items : List (Option (Value × Option F))) (r r' : MigrationReport) (s s' : S) (t t' : T)
      → map value_of items ≡ map content keys
      → copy_items source names target options d
          (zip_with (λ k item. (k, item)) keys items)
          r
          (s, t)
        ≡ (ok r', (s', t'))
      → (s' ≡ s)
        × ((d' j : Text)
            → held m t' d' j
              ≡ pick (bytes_eq d d' && seen_before keys j) (content j) (held m t d' j))
  unfolding copy_items seen_before
  copy_items-held d content [] items r r' s s' t t' h run = (
    ap (λ p. p.1.0) (sym run),
    λ d' j.
        ap (λ p. held m p.1.1 d' j) (sym run)
        ∙ sym (pick_none (bytes_eq d d') (content j) (held m t d' j)),
  )
  copy_items-held d content (k ∷ keys) [] r r' s s' t t' h run = cc
  copy_items-held d content (k ∷ keys) (none ∷ items) r r' s s' t t' h run =
      let (same, rest) =
        copy_items-held d content keys items (note_skipped r) r' s s' t t' (cc) run in
      (
        same,
        λ d' j.
            rest d' j
            ∙ pick-absent (bytes_eq d d') k j (seen_before keys j) content (held m t d' j) (cc),
      )
  copy_items-held d content (k ∷ keys) (some (v, ttl) ∷ items) r r' s s' t t' h run =
      let (u, (s₁, t₁), stored, run₁) =
        bind-run (in_target (target.put k v (some d) ttl)) _ (s, t) (s', t') r' run in
      let (same, rest) =
        copy_items-held d content keys items (note_copied 1 r) r' s₁ s' t₁ t' (cc) run₁ in
      let put₁ = ap (λ p. (p.0, p.1.1)) stored in
      (
        same ∙ ap (λ p. p.1.0) (sym stored),
        λ d' j.
            rest d' j
            ∙ ap (λ o. pick (bytes_eq d d' && seen_before keys j) (content j) o)
                (put-held d k v ttl t t₁ put₁ d' j)
            ∙ pick-present (bytes_eq d d') k j (seen_before keys j) content v (held m t d' j) (cc),
      )
