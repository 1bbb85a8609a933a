-- ===== src/Protocol.antt =====
-- protocol.rs: the interfaces of stores and wrappers. An operation takes the state of the store to
-- its result and the new state; what was written before an error stays written.
pub mod Contract
pub mod Clients
use openkeyv.Base.{
  ℕ, zero, suc, ◌+◌, ◌-◌, ◌*◌, ◌/◌, ◌%◌, ◌^◌, ◌≤◌, ◌<◌, ◌≡◌, refl, sym, ap, ◌∙◌, fun_ext,
}
use openkeyv.Base.{
  ◌≢◌, ◌↔◌, ◌⊎◌, inl, inr, Bool, true, false, not, ◌&&◌, ◌||◌, Option, none, some, List, [], ◌∷◌,
  ◌++◌, map, append-nil, append_assoc, arith,
}
use openkeyv.Base.{
  ltb, leb, ◌==◌, if◌then◌else◌, Bool-cases, leb→le, le→leb, ltb→lt, lt→ltb, le→ltb,
}
use openkeyv.Base.{
  length, take, drop, get_elem?, All, zip_with, length-append, take-append, drop-append, take-drop,
  length-take, length-take-le, drop-take, length-drop, take_all, All-split, All-drop,
  get_elem?-drop, All-append, length-map,
}
use openkeyv.Base.{
  Error, Result, ok, err, bind, guard, ok_or, map_err, collect, bind-eq-ok, if-eq-ok, ok_or-eq-ok,
}
use openkeyv.Base.{
  serialization, deserialization, invalid_key, invalid_ttl, invalid_value, invalid_operation,
  entry_too_large, entry_too_small, read_only, corrupted_data, batch_size_mismatch,
  invalid_change_cursor, change_cursor_expired, change_feed_lagged, revision_generation,
  out_of_fuel,
}
use openkeyv.Base.Bytes.{
  Bytes, Text, IsByte, bytes_eq, bytes_eq_iff, bytes_eq_refl, starts_with, to_le_bytes,
  from_le_bytes, length-to_le_bytes, to_le_bytes-IsByte, from_le_bytes-to_le_bytes,
  to_le_bytes-from_le_bytes, from_le_bytes-lt,
}
use openkeyv.Platform.{Inputs}
use openkeyv.Value.Checked.{Value}
use openkeyv.Cas.{Revision, RevisionedValue}

abbrev pub Done : Type 0
Done = Unit {0}

abbrev pub Op : Type 0 → Type 0 → Type 0
Op S A = S → Result A × S

module _ {S A B : Type 0} where
  -- `?`: an error leaves the rest of the call undone.
  abbrev pub continue : Result A → (A → Op S B) → Op S B
  continue (ok a) f s = f a s
  continue (err e) f s = (err e, s)

  infixl 10 ◌>>=◌ ◌>>◌
  abbrev pub ◌>>=◌ : Op S A → (A → Op S B) → Op S B
  ◌>>=◌ m f s = let (r, s') = m s in continue r f s'

  abbrev pub ◌>>◌ : Op S A → Op S B → Op S B
  m >> n = m >>= λ _. n

module _ {S A : Type 0} where
  abbrev pub pure : A → Op S A
  pure a s = (ok a, s)

  abbrev pub lift : Result A → Op S A
  lift r s = (r, s)

module _ {S A B : Type 0} where
  -- `for key in keys { .. }`, with the results of the rounds.
  unfoldable pub each : (A → Op S B) → List A → Op S (List B)
  each f [] = pure []
  each f (x ∷ xs) = f x >>= λ y. each f xs >>= λ ys. pure (y ∷ ys)

-- `trait AsyncKeyValue`, over the state of the store; `F` is `f64`.
pub record KeyValue (S F : Type 0) : Type 0 where
  pub get : Text → Option Text → Op S (Option Value)
  pub ttl : Text → Option Text → Op S (Option (Value × Option F))
  pub put : Text → Value → Option Text → Option F → Op S Done
  pub delete : Text → Option Text → Op S Bool
  pub get_many : List Text → Option Text → Op S (List (Option Value))
  pub ttl_many : List Text → Option Text → Op S (List (Option (Value × Option F)))
  pub put_many : List Text → List Value → Option Text → Option F → Op S Done
  pub delete_many : List Text → Option Text → Op S ℕ

pub data SwapResult (F : Type 0) : Type 0 where
  applied : Revision → SwapResult F
  conflict : Option (RevisionedValue F) → SwapResult F

pub data DeleteResult (F : Type 0) : Type 0 where
  deleted : DeleteResult F
  conflict : Option (RevisionedValue F) → DeleteResult F

-- `trait AsyncCompareAndSwap`
pub record CompareAndSwap (S F : Type 0) : Type 0 where
  pub get_with_revision : Text → Option Text → Op S (Option (RevisionedValue F))
  pub compare_and_swap :
      Text → Option Revision → Value → Option Text → Option F → Op S (SwapResult F)
  pub compare_and_delete : Text → Revision → Option Text → Op S (DeleteResult F)

-- `trait AsyncEnumerateKeys` and `trait AsyncEnumerateCollections`
pub record Enumerate (S : Type 0) : Type 0 where
  pub keys : Option Text → Option ℕ → Op S (List Text)
  pub collections : Option ℕ → Op S (List Text)

-- `trait AsyncCull`, `trait AsyncDestroyCollection` and `trait AsyncDestroyStore`
pub record Manage (S : Type 0) : Type 0 where
  pub cull : Op S Done
  pub destroy_collection : Text → Op S Bool
  pub destroy : Op S Bool

-- A store between calls, with what the calls to come will read from outside.
pub record Session (S T : Type 0) : Type 0 where
  pub store : S
  pub calls : ℕ → Inputs T

-- One call of an operation that reads from outside.
abbrev pub at_call : {S T A : Type 0} → (Inputs T → Op S A) → Op (Session S T) A
at_call f w =
    let (r, s) = f (w.calls 0) w.store in (r, record { store = s; calls = λ i. w.calls (i + 1) })
