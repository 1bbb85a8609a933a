-- ===== src/Migration/Names.antt =====
-- Different collections are copied to different collections.
use openkeyv.Base.{◌≡◌, refl, sym, ap, ◌∙◌}
use openkeyv.Base.{Option, none, some, ◌++◌}
use openkeyv.Base.Bytes.{Text, bytes_eq_iff, bytes_eq-append}
use openkeyv.Utils.Compound.{strip_prefix}
use openkeyv.Utils.Compound.Laws.{strip_prefix-some}
use openkeyv.Migration.{MigrationOptions, target_collection}

append-cancel : (p a b : Text) → p ++ a ≡ p ++ b → a ≡ b
append-cancel p a b h =
    (bytes_eq_iff a b).0 (sym (bytes_eq-append p a b) ∙ (bytes_eq_iff (p ++ a) (p ++ b)).1 h)

-- Two collections that are copied to the same collection are one.
pub target_collection-injective :
    (options : MigrationOptions) (c c' d : Text)
    → target_collection options c ≡ some d
    → target_collection options c' ≡ some d
    → c ≡ c'
unfolding target_collection
target_collection-injective options c c' d h h' = go options.collection_prefix h h'
  where
    moved : Text → Option Text → Option Text
    moved target o = elim o [ none ↦ none | some suffix ↦ some (target ++ suffix) ]

    suffixes :
        (target : Text) (o o' : Option Text)
        → moved target o ≡ some d
        → moved target o' ≡ some d
        → (x : Text) × (o ≡ some x) × (o' ≡ some x)
    suffixes target none o' e e' = cc
    suffixes target (some x) none e e' = cc
    suffixes target (some x) (some y) e e' = (x, refl, ap some (append-cancel target y x (cc)))

    go :
        (prefixes : Option (Text × Text))
        → (elim prefixes [
          | none ↦ some c
          | some (source, target) ↦ moved target (strip_prefix source c)
        ])
          ≡ some d
        → (elim prefixes [
          | none ↦ some c'
          | some (source, target) ↦ moved target (strip_prefix source c')
        ])
          ≡ some d
        → c ≡ c'
    go none e e' = cc
    go (some (source, target)) e e' =
        let (x, s, s') = suffixes target (strip_prefix source c) (strip_prefix source c') e e' in
        strip_prefix-some source c s ∙ sym (strip_prefix-some source c' s')
