-- ===== src/Store/Memory/Capacity/Kept.antt =====
-- The capacity of a collection: of the entries that have not expired, as many stay as the limit
-- allows, and those of the greatest keys.
use openkeyv.Base.{ℕ, zero, suc, ◌+◌, ◌≡◌, refl, sym, ap, ◌∙◌}
use openkeyv.Base.{inl, inr, true, false, none, some, List, [], ◌∷◌, ◌++◌, arith}
use openkeyv.Base.{if◌then◌else◌, Bool-cases, leb}
use openkeyv.Base.{length, get_elem?, All}
use openkeyv.Base.Bytes.{Text, bytes_eq, bytes_eq_refl, bytes_eq_iff}
use openkeyv.Platform.{Platform}
use openkeyv.Entry.{is_expired}
use openkeyv.Base.Assoc.{lookup}
use openkeyv.Protocol.Contract.{is_present}
use mathlib.Core.Path.{subst}
use mathlib.Core.Option.{some-injective}
use openkeyv.Wrapper.Names.{seen_before, seen_before-append}
use openkeyv.Store.Memory.Capacity.{RevisionedEntry, Collection, evict, retain, enforce_capacity}
use openkeyv.Store.Memory.Capacity.Laws.{AllAfter, evict-order}
use openkeyv.Store.Memory.Capacity.Evicted.{IsMap, evict-count, evict-lookup, get_elem?-present}

seen_before-All :
    (P : Text → Type 0) (xs : List Text) (k : Text) → All P xs → seen_before xs k ≡ true → P k
unfolding seen_before
seen_before-All P [] k h seen = cc
seen_before-All P (x ∷ xs) k (h, hs) seen = elim (Bool-cases (bytes_eq x k)) [
  | inl same ↦ subst P ((bytes_eq_iff x k).0 same) h
  | inr other ↦ seen_before-All P xs k hs (rw other at seen)
]

module _ {T F : Type 0} (os : Platform T F) where
  -- How many entries have not expired, each by its own reading of the clock.
  unfoldable pub live_count : (ℕ → T) → Collection T → ℕ
  live_count clock [] = 0
  live_count clock ((k, r) ∷ col) =
      (if is_expired os (clock 0) r.entry then 0 else 1) + live_count (λ i. clock (i + 1)) col

  retain-length :
      (clock : ℕ → T) (col : Collection T) → length (retain os clock col).1 ≡ live_count clock col
  unfolding retain live_count
  retain-length clock [] = refl
  retain-length clock ((k, r) ∷ col) = ground (arith, retain-length (λ i. clock (i + 1)) col)

  retain-absent :
      (clock : ℕ → T) (col : Collection T) (k : Text)
      → lookup k col ≡ none
      → (lookup k (retain os clock col).1 ≡ none) × (seen_before (retain os clock col).0 k ≡ false)
  unfolding retain lookup seen_before
  retain-absent clock [] k h = (refl, refl)
  retain-absent clock ((j, r) ∷ col) k h = elim (Bool-cases (bytes_eq j k)) [
    | inl same ↦ cc (rw same at h)
    | inr other ↦
        let (a, b) = retain-absent (λ i. clock (i + 1)) col k (rw other at h) in
        elim (Bool-cases (is_expired os (clock 0) r.entry)) [
          | inl old ↦ rw old (a, rw other b)
          | inr fresh ↦ rw (fresh, other) (a, b)
        ]
  ]

  retain-IsMap : (clock : ℕ → T) (col : Collection T) → IsMap col → IsMap (retain os clock col).1
  unfolding retain
  retain-IsMap clock [] h = tt
  retain-IsMap clock ((k, r) ∷ col) (fresh_key, h) =
      let rest = retain-IsMap (λ i. clock (i + 1)) col h in
      elim (Bool-cases (is_expired os (clock 0) r.entry)) [
        | inl old ↦ rw old rest
        | inr fresh ↦ rw fresh ((retain-absent (λ i. clock (i + 1)) col k fresh_key).0, rest)
      ]

  -- What the first pass does with the entry at a position.
  retain-at :
      (clock : ℕ → T) (col : Collection T) (i : ℕ) (k : Text) (r : RevisionedEntry T)
      → IsMap col
      → get_elem? col i ≡ some (k, r)
      → (lookup k (retain os clock col).1
          ≡ (if is_expired os (clock i) r.entry then none else some r))
        × (seen_before (retain os clock col).0 k ≡ is_expired os (clock i) r.entry)
  unfolding retain lookup seen_before
  retain-at clock [] i k r h at = cc
  retain-at clock ((j, q) ∷ col) zero k r (fresh_key, h) at =
      let same : (j, q) ≡ (k, r) = some-injective (j, q) (k, r) at in
      let (a, b) = retain-absent (λ i. clock (i + 1)) col j fresh_key in
      subst
        (λ p.
          (lookup p.0 (retain os clock ((j, q) ∷ col)).1
            ≡ (if is_expired os (clock 0) p.1.entry then none else some p.1))
          × (seen_before (retain os clock ((j, q) ∷ col)).0 p.0
              ≡ is_expired os (clock 0) p.1.entry))
        same
        (elim (Bool-cases (is_expired os (clock 0) q.entry)) [
          | inl old ↦ rw (old, bytes_eq_refl j) (a, refl)
          | inr fresh ↦ rw (fresh, bytes_eq_refl j) (refl, b)
        ])
  retain-at clock ((j, q) ∷ col) (suc i) k r (fresh_key, h) at =
      let next : i + 1 ≡ suc i = omega arith in
      let (a, b) =
        subst
          (λ n.
            (lookup k (retain os (λ m. clock (m + 1)) col).1
              ≡ (if is_expired os (clock n) r.entry then none else some r))
            × (seen_before (retain os (λ m. clock (m + 1)) col).0 k
                ≡ is_expired os (clock n) r.entry))
          next (retain-at (λ n. clock (n + 1)) col i k r h at) in
      elim (Bool-cases (bytes_eq j k)) [
        | inl same ↦
            let there : is_present (lookup j col) ≡ true =
              ap (λ x. is_present (lookup x col)) ((bytes_eq_iff j k).0 same)
              ∙ get_elem?-present i col k r at in
            cc (rw fresh_key at there)
        | inr other ↦ elim (Bool-cases (is_expired os (clock 0) q.entry)) [
          | inl old ↦ rw old (a, rw other b)
          | inr fresh ↦ rw (fresh, other) (a, b)
        ]
      ]

  -- The entries that have not expired, each by its own reading of the clock, stay as they are, as
  -- many as the limit allows: when they are more, as many as the limit, and those that go have keys
  -- at or before every key that stays. No other entry stays, and every key that goes is among the
  -- keys that are handed on. Given that no key of the collection stands twice.
  pub enforce_capacity-bounds :
      (max : ℕ) (clock : ℕ → T) (col : Collection T)
      → IsMap col
      → let (gone, left) = enforce_capacity os (some max) clock col in
        (length left ≡ (if leb (live_count clock col) max then live_count clock col else max))
        × ((k : Text) → lookup k col ≡ none → lookup k left ≡ none)
        × ((i : ℕ) (k : Text) (r : RevisionedEntry T)
            → get_elem? col i ≡ some (k, r)
            → is_expired os (clock i) r.entry ≡ true
            → (lookup k left ≡ none) × (seen_before gone k ≡ true))
        × ((i : ℕ) (k : Text) (r : RevisionedEntry T)
            → get_elem? col i ≡ some (k, r)
            → is_expired os (clock i) r.entry ≡ false
            → (lookup k left ≡ (if seen_before gone k then none else some r))
              × (seen_before gone k ≡ true → AllAfter k left))
  unfolding enforce_capacity
  enforce_capacity-bounds max clock col map =
      let kept = (retain os clock col).1 in
      let expired = (retain os clock col).0 in
      let evicted = (evict (length kept) max kept).0 in
      let is_map = retain-IsMap clock col map in
      let told = evict-lookup (length kept) max kept in
      let named = seen_before-append expired evicted in
      (
        evict-count max kept is_map
            ∙ ap (λ n. if leb n max then n else max) (retain-length clock col),
        λ k absent. rw (told k, (retain-absent clock col k absent).0) (ground arith),
        λ i k r at old.
            let (a, b) = retain-at clock col i k r map at in
            (rw (told k, a, old) (ground arith), rw (named k, b, old) refl),
        λ i k r at fresh.
            let (a, b) = retain-at clock col i k r map at in
            let only : seen_before (expired ++ evicted) k ≡ seen_before evicted k =
              rw (named k, b, fresh) refl in
            (
              rw (told k, a, fresh, only) refl,
              λ seen.
                  seen_before-All (λ x. AllAfter x (evict (length kept) max kept).1) evicted k
                    (evict-order (length kept) max kept) (sym only ∙ seen),
            ),
      )
