-- ===== src/Migration/Chunks.antt =====
-- A list of keys is cut into batches that hold all of its keys.
use openkeyv.Base.{ℕ, zero, suc, ◌≤◌, ◌<◌, ◌≡◌, refl, ap}
use openkeyv.Base.{List, [], ◌∷◌, ◌++◌, arith}
use openkeyv.Base.{◌==◌, if◌then◌else◌}
use openkeyv.Base.{length, drop, All, take-drop, length-take-le}
use openkeyv.Base.Bytes.{Text}
use openkeyv.Migration.{MigrationOptions, batch_size, chunks}

abbrev pub join : List (List Text) → List Text
join [] = []
join (ks ∷ kss) = ks ++ join kss

-- What every batch is.
abbrev pub IsBatch : ℕ → List Text → Type 0
IsBatch n ks = (0 < length ks) × (length ks ≤ n)

drop-shorter : (n : ℕ) (ks : List Text) → length (drop n ks) ≤ length ks
drop-shorter zero ks = omega arith
drop-shorter (suc n) [] = omega arith
drop-shorter (suc n) (k ∷ ks) = omega (arith, drop-shorter n ks)

join-chunks-suc :
    (fuel n : ℕ) (ks : List Text) → length ks ≤ fuel → join (chunks fuel (suc n) ks) ≡ ks
unfolding chunks
join-chunks-suc zero n [] h = refl
join-chunks-suc zero n (k ∷ ks) h = absurd (omega arith)
join-chunks-suc (suc fuel) n [] h = refl
join-chunks-suc (suc fuel) n (k ∷ ks) h =
    rw (join-chunks-suc fuel n (drop n ks) (omega (arith, drop-shorter n ks)))
      (ap (λ t. k ∷ t) (take-drop n ks))

chunks-IsBatch : (fuel n : ℕ) (ks : List Text) → All (IsBatch (suc n)) (chunks fuel (suc n) ks)
unfolding chunks
chunks-IsBatch zero n ks = tt
chunks-IsBatch (suc fuel) n [] = tt
chunks-IsBatch (suc fuel) n (k ∷ ks) =
    ((omega arith, omega (arith, length-take-le n ks)), chunks-IsBatch fuel n (drop n ks))

batch_size-suc :
    (options : MigrationOptions)
    → (m : ℕ) × (batch_size options ≡ suc m) × (options.batch_size ≤ batch_size options)
unfolding batch_size
batch_size-suc options = go options.batch_size
  where
    go : (n : ℕ) → (m : ℕ) × ((if n == 0 then 1 else n) ≡ suc m) × (n ≤ (if n == 0 then 1 else n))
    go zero = (0, refl, omega arith)
    go (suc n) = (n, ground arith, ground arith)

-- Whatever batch size the options give, 0 included, a list of keys falls into batches that hold its
-- keys in their order, none of them empty or larger than the size; as many as there are keys is fuel
-- enough.
pub join-chunks :
    (options : MigrationOptions) (ks : List Text)
    → (join (chunks (length ks) (batch_size options) ks) ≡ ks)
      × All (IsBatch (batch_size options)) (chunks (length ks) (batch_size options) ks)
      × ((0 < batch_size options) × (options.batch_size ≤ batch_size options))
join-chunks options ks =
    let (m, eq, le) = batch_size-suc options in
    rw eq (
      join-chunks-suc (length ks) m ks (omega arith),
      chunks-IsBatch (length ks) m ks,
      (omega arith, rw (← eq) le),
    )
