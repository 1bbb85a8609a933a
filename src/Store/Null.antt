-- ===== src/Store/Null.antt =====
-- store/null/store.rs: a store that accepts every call and keeps nothing.
use openkeyv.Base.{true, false, not, Option, none, List, [], ◌∷◌}
use openkeyv.Base.{◌==◌, if◌then◌else◌}
use openkeyv.Base.{length}
use openkeyv.Base.{err}
use openkeyv.Base.{batch_size_mismatch}
use openkeyv.Base.Bytes.{Text}
use openkeyv.Platform.{Platform, Inputs}
use openkeyv.Value.Checked.{Value}
use openkeyv.Entry.{validate}
use openkeyv.Protocol.{Done, Op, KeyValue, Enumerate, Manage, Session, pure, at_call}

-- Its client and its configuration are empty.
abbrev pub NullStore : Type 0
NullStore = Unit {0}

-- `vec![None; keys.len()]`
abbrev pub nones : {A : Type 0} → List Text → List (Option A)
nones [] = []
nones (k ∷ ks) = none ∷ nones ks

module _ {T F : Type 0} (os : Platform T F) where
  unfoldable pub put : Option F → Inputs T → Op NullStore Done
  put ttl_secs inp s = (validate os (inp.clock 0) ttl_secs, s)

  unfoldable pub put_many : List Text → List Value → Option F → Inputs T → Op NullStore Done
  put_many ks vs ttl_secs inp s =
      if not (length ks == length vs)
      then (err (batch_size_mismatch (length ks) (length vs)), s)
      else (validate os (inp.clock 0) ttl_secs, s)

  unfoldable pub null_store : KeyValue (Session NullStore T) F
  unfolding put put_many
  null_store = record {
    get = λ k c. at_call λ inp. pure none;
    ttl = λ k c. at_call λ inp. pure none;
    put = λ k v c t. at_call (put t);
    delete = λ k c. at_call λ inp. pure false;
    get_many = λ ks c. at_call λ inp. pure (nones ks);
    ttl_many = λ ks c. at_call λ inp. pure (nones ks);
    put_many = λ ks vs c t. at_call (put_many ks vs t);
    delete_many = λ ks c. at_call λ inp. pure 0;
  }

unfoldable pub null_enumerate : Enumerate NullStore
null_enumerate = record { keys = λ c limit. pure []; collections = λ limit. pure [] }

unfoldable pub null_manage : Manage NullStore
null_manage = record { cull = pure tt; destroy_collection = λ c. pure false; destroy = pure true }
