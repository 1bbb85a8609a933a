-- ===== src/Change.antt =====
-- change.rs: the records of a store's change history, and what a subscriber asks for.
use openkeyv.Base.{ℕ}
use openkeyv.Base.{Bool, true, false, ◌&&◌, ◌||◌, List, [], ◌∷◌}
use openkeyv.Base.Bytes.{Text, bytes_eq}

pub data ChangeOperation : Type 0 where
  put : ChangeOperation
  delete : ChangeOperation

-- `ChangeCursor(String)`
abbrev pub ChangeCursor : Type 0
ChangeCursor = Text

pub record StoreChange (T : Type 0) : Type 0 where
  pub cursor : ChangeCursor
  pub revision : ℕ
  pub collection : Text
  pub key : Text
  pub operation : ChangeOperation
  pub occurred_at : T

pub data ChangeStart : Type 0 where
  beginning : ChangeStart
  after : ChangeCursor → ChangeStart
  latest : ChangeStart

pub record ChangeFilter : Type 0 where
  pub collections : List Text
  pub operations : List ChangeOperation

unfoldable pub same_operation : ChangeOperation → ChangeOperation → Bool
same_operation put put = true
same_operation put delete = false
same_operation delete put = false
same_operation delete delete = true

-- `collections.contains(..)`, `operations.contains(..)`
unfoldable pub has_collection : Text → List Text → Bool
has_collection c [] = false
has_collection c (d ∷ ds) = bytes_eq d c || has_collection c ds

unfoldable pub has_operation : ChangeOperation → List ChangeOperation → Bool
unfolding same_operation
has_operation o [] = false
has_operation o (p ∷ ps) = same_operation p o || has_operation o ps

abbrev is_empty {ℓ} : {A : Type ℓ} → List A → Bool
is_empty [] = true
is_empty (a ∷ rest) = false

-- `ChangeFilter::collection`
unfoldable pub only_collection : Text → ChangeFilter
only_collection c = record { collections = c ∷ []; operations = [] }

unfoldable pub matches : {T : Type 0} → ChangeFilter → StoreChange T → Bool
unfolding has_collection has_operation
matches f change =
    (is_empty f.collections || has_collection change.collection f.collections)
    && (is_empty f.operations || has_operation change.operation f.operations)
