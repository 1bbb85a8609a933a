-- ===== src/Store/Memory/Capacity/Laws.antt =====
-- The eviction ends within the limit, and what it drops has lesser keys than what it leaves.
use openkeyv.Base.{ℕ, zero, suc, ◌≤◌, ◌<◌, ◌≡◌, refl}
use openkeyv.Base.{◌⊎◌, inl, inr, true, [], ◌∷◌, arith}
use openkeyv.Base.{ltb, if◌then◌else◌, Bool-cases, le→ltb}
use openkeyv.Base.{length, All}
use openkeyv.Base.Bytes.{Text, bytes_eq, bytes_eq_refl}
use openkeyv.Base.Assoc.{Assoc, lookup, remove, length-remove}
use openkeyv.Protocol.Contract.{is_present}
use openkeyv.Base.Order.{bytes_le, bytes_le_total, bytes_le_trans}
use openkeyv.Store.Memory.Capacity.{least, min_key, evict}

bytes_le_refl : (k : Text) → bytes_le k k ≡ true
unfolding bytes_le
bytes_le_refl [] = refl
bytes_le_refl (b ∷ bs) = ground (arith, bytes_le_refl bs)

lesser : Text → Text → Text
lesser best k = if bytes_le best k then best else k

lesser-le :
    (best k : Text) → (bytes_le (lesser best k) best ≡ true) × (bytes_le (lesser best k) k ≡ true)
unfolding lesser
lesser-le best k = elim (Bool-cases (bytes_le best k)) [
  | inl early ↦ rw early (bytes_le_refl best, early)
  | inr late ↦ rw late (bytes_le_total best k late, bytes_le_refl k)
]

module _ {V : Type 0} where
  -- Every key of the map is at or after `k`.
  abbrev pub AllAfter : Text → Assoc V → Type 0
  AllAfter k [] = Unit {0}
  AllAfter k ((j, v) ∷ col) = (bytes_le k j ≡ true) × AllAfter k col

  AllAfter-le : (k j : Text) (col : Assoc V) → bytes_le k j ≡ true → AllAfter j col → AllAfter k col
  AllAfter-le k j [] h a = tt
  AllAfter-le k j ((i, v) ∷ col) h a = (bytes_le_trans k j i h a.0, AllAfter-le k j col h a.1)

  AllAfter-remove : (k j : Text) (col : Assoc V) → AllAfter k col → AllAfter k (remove j col)
  unfolding remove
  AllAfter-remove k j [] a = tt
  AllAfter-remove k j ((i, v) ∷ col) a = elim (Bool-cases (bytes_eq i j)) [
    | inl same ↦ rw same (AllAfter-remove k j col a.1)
    | inr other ↦ rw other (a.0, AllAfter-remove k j col a.1)
  ]

  least-AllAfter :
      (best : Text) (col : Assoc V)
      → (bytes_le (least best col) best ≡ true) × AllAfter (least best col) col
  unfolding least lesser
  least-AllAfter best [] = (bytes_le_refl best, tt)
  least-AllAfter best ((k, v) ∷ col) =
      let (below, after) = least-AllAfter (lesser best k) col in
      let (le_best, le_key) = lesser-le best k in
      (
        bytes_le_trans _ (lesser best k) best below le_best,
        (bytes_le_trans _ (lesser best k) k below le_key, after),
      )

  least-present :
      (best : Text) (col : Assoc V)
      → (least best col ≡ best) ⊎ (is_present (lookup (least best col) col) ≡ true)
  unfolding least lookup
  least-present best [] = inl refl
  least-present best ((k, v) ∷ col) =
      ground (arith, least-present best col, least-present k col, bytes_eq_refl k)

  length-remove-present :
      (k : Text) (col : Assoc V)
      → is_present (lookup k col) ≡ true
      → length (remove k col) < length col
  unfolding remove lookup
  length-remove-present k [] h = cc
  length-remove-present k ((j, v) ∷ col) h =
      ground (arith, h, length-remove k col, length-remove-present k col)

  pub least-found :
      (j : Text) (v : V) (col : Assoc V) → is_present (lookup (least j col) ((j, v) ∷ col)) ≡ true
  unfolding lookup
  least-found j v col = ground (arith, least-present j col, bytes_eq_refl j)

  pub evict-bounded :
      (fuel max : ℕ) (col : Assoc V) → length col ≤ fuel → length (evict fuel max col).1 ≤ max
  unfolding evict min_key
  evict-bounded zero max [] h = omega arith
  evict-bounded zero max (p ∷ col) h = absurd (omega arith)
  evict-bounded (suc fuel) max [] h = ground arith
  evict-bounded (suc fuel) max ((j, v) ∷ col) h =
      let smaller = length-remove-present (least j col) ((j, v) ∷ col) (least-found j v col) in
      let rest =
        evict-bounded fuel max (remove (least j col) ((j, v) ∷ col)) (omega (arith, smaller)) in
      ground (arith, rest)

  evict-AllAfter :
      (k : Text) (fuel max : ℕ) (col : Assoc V) → AllAfter k col → AllAfter k (evict fuel max col).1
  unfolding evict min_key
  evict-AllAfter k zero max col a = a
  evict-AllAfter k (suc fuel) max [] a = ground arith
  evict-AllAfter k (suc fuel) max ((j, v) ∷ col) a =
      let rest =
        evict-AllAfter k fuel max (remove (least j col) ((j, v) ∷ col))
          (AllAfter-remove k (least j col) ((j, v) ∷ col) a) in
      elim (Bool-cases (ltb max (length ((j, v) ∷ col)))) [
        | inl full ↦ rw full rest
        | inr room ↦ rw room a
      ]

  pub evict-order :
      (fuel max : ℕ) (col : Assoc V)
      → All (λ k. AllAfter k (evict fuel max col).1) (evict fuel max col).0
  unfolding evict min_key
  evict-order zero max col = tt
  evict-order (suc fuel) max [] = rw (le→ltb max 0 (omega arith)) tt
  evict-order (suc fuel) max ((j, v) ∷ col) =
      let (first, after) = least-AllAfter j col in
      let smallest =
        evict-AllAfter (least j col) fuel max (remove (least j col) ((j, v) ∷ col))
          (AllAfter-remove (least j col) (least j col) ((j, v) ∷ col) (first, after)) in
      elim (Bool-cases (ltb max (length ((j, v) ∷ col)))) [
        | inl full ↦
            rw (full, least-found j v col)
              (smallest, evict-order fuel max (remove (least j col) ((j, v) ∷ col)))
        | inr room ↦ rw room tt
      ]

  pub evict-room :
      (fuel max : ℕ) (col : Assoc V) → length col ≤ max → evict fuel max col ≡ ([], col)
  unfolding evict
  evict-room zero max col h = refl
  evict-room (suc fuel) max col h = rw (le→ltb max (length col) h) refl
