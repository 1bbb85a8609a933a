-- ===== src/Base/Lists.antt =====
-- List functions over the native numbers, and the laws of slices.
use Prim.Native.Nat.{ℕ, zero, suc, ◌+◌, ◌≤◌}
use mathlib.Core.Path.{◌≡◌, refl, sym, ap}
use mathlib.Core.Option.{Option, none, some, some-injective}
use mathlib.Core.List.{List, [], ◌∷◌, ◌++◌, map}
use native.Mathlib.Nat.{zero-add, suc-add}
use native.Mathlib.Omega.{arith}

module _ {ℓ} {A : Type ℓ} where
  abbrev pub length : List A → ℕ
  length [] = 0
  length (x ∷ xs) = suc (length xs)

  abbrev pub take : ℕ → List A → List A
  take zero xs = []
  take (suc n) [] = []
  take (suc n) (x ∷ xs) = x ∷ take n xs

  abbrev pub drop : ℕ → List A → List A
  drop zero xs = xs
  drop (suc n) [] = []
  drop (suc n) (x ∷ xs) = drop n xs

  abbrev pub get_elem? : List A → ℕ → Option A
  get_elem? [] i = none
  get_elem? (x ∷ xs) zero = some x
  get_elem? (x ∷ xs) (suc i) = get_elem? xs i

  abbrev pub All {κ} : (A → Type κ) → List A → Type κ
  All P [] = Unit {κ}
  All P (x ∷ xs) = P x × All P xs

  abbrev pub zip_with {κ μ} : {B : Type κ} {C : Type μ} → (A → B → C) → List A → List B → List C
  zip_with f [] ys = []
  zip_with f (x ∷ xs) [] = []
  zip_with f (x ∷ xs) (y ∷ ys) = f x y ∷ zip_with f xs ys

  pub length-append : (xs ys : List A) → length (xs ++ ys) ≡ length xs + length ys
  length-append [] ys = omega arith
  length-append (x ∷ xs) ys = omega (arith, length-append xs ys)

  pub take-append : (xs ys : List A) → take (length xs) (xs ++ ys) ≡ xs
  take-append [] ys = refl
  take-append (x ∷ xs) ys = λ i. x ∷ take-append xs ys i

  pub drop-append : (xs ys : List A) → drop (length xs) (xs ++ ys) ≡ ys
  drop-append [] ys = refl
  drop-append (x ∷ xs) ys = drop-append xs ys

  pub take-drop : (n : ℕ) (xs : List A) → take n xs ++ drop n xs ≡ xs
  take-drop zero xs = refl
  take-drop (suc n) [] = refl
  take-drop (suc n) (x ∷ xs) = λ i. x ∷ take-drop n xs i

  pub length-take : (n : ℕ) (xs : List A) → n ≤ length xs → length (take n xs) ≡ n
  length-take zero xs h = refl
  length-take (suc n) [] h = omega arith
  length-take (suc n) (x ∷ xs) h = omega (arith, length-take n xs)

  -- The part of `xs` from `o` on begins with the slice of `n` elements there.
  pub drop-take :
      (o n : ℕ) (xs : List A)
      → o + n ≤ length xs
      → (drop o xs ≡ take n (drop o xs) ++ drop (o + n) xs) × (length (take n (drop o xs)) ≡ n)
  drop-take zero n xs h = rw zero-add (sym (take-drop n xs), length-take n xs (omega arith))
  drop-take (suc o) n [] h = absurd (omega arith)
  drop-take (suc o) n (x ∷ xs) h = rw suc-add (drop-take o n xs (omega arith))

  pub length-drop : (o : ℕ) (xs : List A) → o ≤ length xs → length (drop o xs) + o ≡ length xs
  length-drop zero xs h = omega arith
  length-drop (suc o) [] h = absurd (omega arith)
  length-drop (suc o) (x ∷ xs) h = omega (arith, length-drop o xs (omega arith))

  pub take_all : (xs : List A) → take (length xs) xs ≡ xs
  take_all [] = refl
  take_all (x ∷ xs) = λ i. x ∷ take_all xs i

  pub All-split {κ} : (P : A → Type κ) (xs ys : List A) → All P (xs ++ ys) → All P xs × All P ys
  All-split P [] ys h = (tt, h)
  All-split P (x ∷ xs) ys (h, hs) = let (l, r) = All-split P xs ys hs in ((h, l), r)

  pub All-drop {κ} : (P : A → Type κ) (o : ℕ) (xs : List A) → All P xs → All P (drop o xs)
  All-drop P zero xs h = h
  All-drop P (suc o) [] h = tt
  All-drop P (suc o) (x ∷ xs) (h, hs) = All-drop P o xs hs

  pub All-take {κ} : (P : A → Type κ) (n : ℕ) (xs : List A) → All P xs → All P (take n xs)
  All-take P zero xs h = tt
  All-take P (suc n) [] h = tt
  All-take P (suc n) (x ∷ xs) (h, hs) = (h, All-take P n xs hs)

  pub get_elem?-drop :
      (xs : List A) (o : ℕ) (x : A) → get_elem? xs o ≡ some x → drop o xs ≡ x ∷ drop (o + 1) xs
  get_elem?-drop [] o x h = cc
  get_elem?-drop (y ∷ xs) zero x h = ap (λ z. z ∷ xs) (some-injective y x h)
  get_elem?-drop (y ∷ xs) (suc o) x h = rw suc-add (get_elem?-drop xs o x h)

  pub length-take-le : (n : ℕ) (xs : List A) → length (take n xs) ≤ n
  length-take-le zero xs = omega arith
  length-take-le (suc n) [] = omega arith
  length-take-le (suc n) (x ∷ xs) = omega (arith, length-take-le n xs)

  pub All-append {κ} : (P : A → Type κ) (xs ys : List A) → All P xs → All P ys → All P (xs ++ ys)
  All-append P [] ys h k = k
  All-append P (x ∷ xs) ys (h, hs) k = (h, All-append P xs ys hs k)

pub length-map {ℓ κ} :
    {A : Type ℓ} {B : Type κ} (f : A → B) (xs : List A) → length (map f xs) ≡ length xs
length-map f [] = refl
length-map f (x ∷ xs) = omega (arith, length-map f xs)
