-- ===== src/Store/Memory/Capacity/Evicted.antt =====
-- The eviction drops no more than it has to, and tells what it drops.
use openkeyv.Base.{ℕ, zero, suc, ◌+◌, ◌≤◌, ◌≡◌, refl, sym, ap, ◌∙◌}
use openkeyv.Base.{inl, inr, true, none, some, [], ◌∷◌, arith}
use openkeyv.Base.{ltb, if◌then◌else◌, Bool-cases, le→ltb, leb}
use openkeyv.Base.{length, get_elem?}
use openkeyv.Base.Bytes.{Text, bytes_eq, bytes_eq_iff}
use openkeyv.Base.Assoc.{Assoc, lookup, remove, lookup-remove}
use openkeyv.Protocol.Contract.{is_present}
use mathlib.Core.Option.{some-injective}
use openkeyv.Wrapper.Names.{seen_before}
use openkeyv.Store.Memory.Capacity.{least, min_key, evict}
use openkeyv.Store.Memory.Capacity.Laws.{least-found, evict-room}

module _ {V : Type 0} where
  -- No key stands twice, as in a map.
  abbrev pub IsMap : Assoc V → Type 0
  IsMap [] = Unit {0}
  IsMap ((k, v) ∷ m) = (lookup k m ≡ none) × IsMap m

  lookup-absent : (k j : Text) (m : Assoc V) → lookup k m ≡ none → lookup k (remove j m) ≡ none
  lookup-absent k j m h = rw (lookup-remove j k m, h) (ground arith)

  IsMap-remove : (k : Text) (m : Assoc V) → IsMap m → IsMap (remove k m)
  unfolding remove
  IsMap-remove k [] h = tt
  IsMap-remove k ((j, v) ∷ m) (fresh, h) = elim (Bool-cases (bytes_eq j k)) [
    | inl same ↦ rw same (IsMap-remove k m h)
    | inr other ↦ rw other (lookup-absent j k m fresh, IsMap-remove k m h)
  ]

  remove_absent : (k : Text) (m : Assoc V) → lookup k m ≡ none → length (remove k m) ≡ length m
  unfolding lookup remove
  remove_absent k [] h = refl
  remove_absent k ((j, v) ∷ m) h = ground (arith, remove_absent k m)

  remove_present :
      (k : Text) (m : Assoc V)
      → IsMap m
      → is_present (lookup k m) ≡ true
      → length (remove k m) + 1 ≡ length m
  unfolding lookup remove
  remove_present k [] h p = cc
  remove_present k ((j, v) ∷ m) (fresh, h) p = elim (Bool-cases (bytes_eq j k)) [
    | inl same ↦
        let gone : lookup k m ≡ none =
          ap (λ x. lookup x m) (sym ((bytes_eq_iff j k).0 same)) ∙ fresh in
        rw same (ground (arith, remove_absent k m gone))
    | inr other ↦ rw other (ground (arith, remove_present k m h (rw other at p)))
  ]

  -- The eviction drops no more than it has to.
  evict-length :
      (fuel max : ℕ) (m : Assoc V)
      → IsMap m
      → max ≤ length m
      → length m ≤ fuel
      → length (evict fuel max m).1 ≡ max
  unfolding evict min_key
  evict-length zero max [] h l f = omega arith
  evict-length zero max (p ∷ m) h l f = absurd (omega arith)
  evict-length (suc fuel) max [] h l f = ground arith
  evict-length (suc fuel) max ((j, v) ∷ m) h l f =
      let one = remove_present (least j m) ((j, v) ∷ m) h (least-found j v m) in
      elim (Bool-cases (ltb max (length ((j, v) ∷ m)))) [
        | inl full ↦ rw full (
            evict-length fuel max (remove (least j m) ((j, v) ∷ m))
              (IsMap-remove (least j m) ((j, v) ∷ m) h) (ground (arith, one)) (ground (arith, one)))
        | inr room ↦ rw room (ground arith)
      ]

  pub evict-count :
      (max : ℕ) (m : Assoc V)
      → IsMap m
      → length (evict (length m) max m).1 ≡ (if leb (length m) max then length m else max)
  evict-count max m h = elim (Bool-cases (leb (length m) max)) [
    | inl room ↦ rw (room, evict-room (length m) max m (ground arith)) refl
    | inr full ↦ rw full (evict-length (length m) max m h (ground arith) (omega arith))
  ]

  -- An entry stays as it is unless it is named among the evicted.
  pub evict-lookup :
      (fuel max : ℕ) (m : Assoc V) (k : Text)
      → lookup k (evict fuel max m).1
        ≡ (if seen_before (evict fuel max m).0 k then none else lookup k m)
  unfolding evict min_key seen_before
  evict-lookup zero max m k = refl
  evict-lookup (suc fuel) max [] k = rw (le→ltb max 0 (omega arith)) refl
  evict-lookup (suc fuel) max ((j, v) ∷ m) k =
      let rest = evict-lookup fuel max (remove (least j m) ((j, v) ∷ m)) k in
      let gone = lookup-remove (least j m) k ((j, v) ∷ m) in
      elim (Bool-cases (ltb max (length ((j, v) ∷ m)))) [
        | inl full ↦ rw (full, least-found j v m) (ground (arith, rest, gone))
        | inr room ↦ rw room refl
      ]

  pub get_elem?-present :
      (i : ℕ) (m : Assoc V) (k : Text) (v : V)
      → get_elem? m i ≡ some (k, v)
      → is_present (lookup k m) ≡ true
  unfolding lookup
  get_elem?-present i [] k v h = cc
  get_elem?-present zero ((j, w) ∷ m) k v h =
      let same : j ≡ k = ap (λ p. p.0) (some-injective (j, w) (k, v) h) in
      rw ((bytes_eq_iff j k).1 same) refl
  get_elem?-present (suc i) ((j, w) ∷ m) k v h = ground (arith, get_elem?-present i m k v h)
