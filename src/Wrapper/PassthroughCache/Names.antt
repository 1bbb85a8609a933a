-- ===== src/Wrapper/PassthroughCache/Names.antt =====
-- The merge of the names of the cache and of the primary store.
use openkeyv.Base.{ℕ, ◌≤◌, ◌<◌, ◌≡◌, refl}
use openkeyv.Base.{inl, inr, false, ◌||◌, Option, none, some, List, [], ◌∷◌, ◌++◌, arith}
use openkeyv.Base.{leb, ◌==◌, if◌then◌else◌, Bool-cases}
use openkeyv.Base.{length, length-append}
use openkeyv.Base.Bytes.{Text, bytes_eq, bytes_eq_iff}
use openkeyv.Wrapper.Names.{seen_before}
use openkeyv.Wrapper.PassthroughCache.{merge_names}

-- No name stands in the list twice.
abbrev pub Distinct : List Text → Type 0
Distinct [] = Unit {0}
Distinct (x ∷ xs) = (seen_before xs x ≡ false) × Distinct xs

-- At least one.
abbrev pub room : ℕ → ℕ
room n = if n == 0 then 1 else n

seen_before-snoc :
    (xs : List Text) (x y : Text)
    → seen_before (xs ++ x ∷ []) y ≡ (seen_before xs y || bytes_eq x y)
unfolding seen_before
seen_before-snoc [] x y = ground arith
seen_before-snoc (z ∷ xs) x y = ground (arith, seen_before-snoc xs x y)

Distinct-snoc :
    (xs : List Text) (x : Text) → Distinct xs → seen_before xs x ≡ false → Distinct (xs ++ x ∷ [])
unfolding seen_before
Distinct-snoc [] x d h = (refl, tt)
Distinct-snoc (y ∷ xs) x d h = (
  rw (seen_before-snoc xs x y) (ground (arith, d, h, bytes_eq_iff y x, bytes_eq_iff x y)),
  Distinct-snoc xs x d.1 (ground (arith, h)),
)

merged-Distinct :
    (limit : Option ℕ) (merged xs : List Text)
    → Distinct merged
    → Distinct (merge_names limit merged xs)
unfolding merge_names
merged-Distinct limit merged [] d = d
merged-Distinct limit merged (x ∷ xs) d = elim (Bool-cases (seen_before merged x)) [
  | inl old ↦ rw old (merged-Distinct limit merged xs d)
  | inr fresh ↦
      let next = Distinct-snoc merged x d fresh in
      let rest = merged-Distinct limit (merged ++ x ∷ []) xs next in
      elim (Bool-cases (elim limit [ none ↦ false | some n ↦ leb n (length (merged ++ x ∷ [])) ])) [
        | inl full ↦ rw (fresh, full) next
        | inr space ↦ rw (fresh, space) rest
      ]
]

merged-bounded :
    (n : ℕ) (merged xs : List Text)
    → length merged < room n
    → length (merge_names (some n) merged xs) ≤ room n
unfolding merge_names
merged-bounded n merged [] h = omega (arith, h)
merged-bounded n merged (x ∷ xs) h = elim (Bool-cases (seen_before merged x)) [
  | inl old ↦ rw old (merged-bounded n merged xs h)
  | inr fresh ↦ elim (Bool-cases (leb n (length (merged ++ x ∷ [])))) [
    | inl full ↦ rw (fresh, full) (ground (arith, h, length-append merged (x ∷ [])))
    | inr space ↦
        rw (fresh, space)
          (merged-bounded n (merged ++ x ∷ []) xs
            (ground (arith, h, space, length-append merged (x ∷ []))))
  ]
]

-- The merged names hold no name twice, and at most as many as the limit; with a limit of nothing
-- they hold one.
pub merge_names-Distinct :
    (n : ℕ) (x : Text) (xs : List Text)
    → Distinct (merge_names (some n) [] (x ∷ xs))
      × (length (merge_names (some n) [] (x ∷ xs)) ≤ room n)
      × (merge_names (some 0) [] (x ∷ xs) ≡ x ∷ [])
unfolding merge_names seen_before
merge_names-Distinct n x xs =
    (merged-Distinct (some n) [] (x ∷ xs) tt, merged-bounded n [] (x ∷ xs) (ground arith), refl)
