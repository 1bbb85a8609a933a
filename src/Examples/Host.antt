-- ===== src/Examples/Host.antt =====
-- What the examples share: a time is a number of milliseconds and a floating number a natural
-- number; the clock stands still.
use openkeyv.Base.{ℕ, ◌+◌, ◌-◌, ◌*◌, ◌/◌, ◌%◌, ◌^◌, ◌≡◌, refl}
use openkeyv.Base.{true, none, some, [], ◌∷◌, arith}
use openkeyv.Base.{ltb, leb, if◌then◌else◌}
use openkeyv.Base.{ok}
use openkeyv.Base.Bytes.{Text}
use openkeyv.Platform.{Platform}
use openkeyv.Value.Checked.{Value}
use openkeyv.Entry.{ManagedEntry, make}
use openkeyv.Cas.{Revision}
use openkeyv.Protocol.{KeyValue}
use openkeyv.Value.Checked.{utf8}
use openkeyv.Value.Utf8.{is_utf8}
use openkeyv.Value.Laws.{Wellformed}
use openkeyv.Entry.RoundTrip.{IsChrono}
use openkeyv.Entry.Canonical.{ReadsMillis}
use openkeyv.Protocol.{Session}
use openkeyv.Protocol.Contract.{Contract}
use openkeyv.Store.Simple.{SimpleStore, simple_store}
use openkeyv.Store.Simple.Laws.{simple_model, simple_store-Contract}
use openkeyv.Wrapper.TtlClamp.{IsOrdered}

abbrev pub host : Platform ℕ ℕ
host = record {
  zero_float = 0;
  thousand = 1000;
  i64_max = 2 ^ 63;
  is_finite = λ x. true;
  le_float = leb;
  lt_float = ltb;
  mul = λ x y. x * y;
  div = λ x y. x / y;
  max_float = λ x y. if ltb x y then y else x;
  min_float = λ x y. if ltb x y then x else y;
  float_of_i64 = λ i. i;
  i64_of_float = λ x. x;
  at_or_before = leb;
  timestamp_millis = λ t. t % 2 ^ 64;
  timestamp_millis_opt = λ i. if ltb i (2 ^ 64) then some i else none;
  checked_add_millis = λ t i. some (t + i);
  millis_between = λ a b. a - b;
}

pub host-IsChrono : IsChrono host (λ t. t % 2 ^ 64)
host-IsChrono = record { to_millis = λ t. ground arith; is_i64 = λ t. omega arith }

pub host-ReadsMillis : ReadsMillis host
host-ReadsMillis = record { of_millis = λ i t h. ground arith }

-- "hi"
abbrev pub hi : Text
hi = 104 ∷ 105 ∷ []

-- "jo"
abbrev pub jo : Text
jo = 106 ∷ 111 ∷ []

abbrev pub greeting : Value
greeting = record { kind = utf8; bytes = hi }

abbrev pub entry : ManagedEntry ℕ
entry = record { value = greeting; created_at = some 5; expires_at = some 2005 }

pub hi-is_utf8 : is_utf8 hi ≡ true
unfolding is_utf8
hi-is_utf8 = refl

pub jo-is_utf8 : is_utf8 jo ≡ true
unfolding is_utf8
jo-is_utf8 = refl

pub greeting-Wellformed : Wellformed greeting.kind greeting.bytes
greeting-Wellformed = hi-is_utf8

-- 16 bytes.
abbrev pub revision : Revision
revision = 1 ∷ 2 ∷ 3 ∷ 4 ∷ 5 ∷ 6 ∷ 7 ∷ 8 ∷ 1 ∷ 2 ∷ 3 ∷ 4 ∷ 5 ∷ 6 ∷ 7 ∷ 8 ∷ []

-- An empty store.
abbrev pub session : Session (SimpleStore ℕ) ℕ
session = record {
  store = record { data_map = []; default_collection = 100 ∷ [] };
  calls = λ i. record { clock = λ j. 7; random = λ j. none };
}

abbrev pub kv : KeyValue (Session (SimpleStore ℕ) ℕ) ℕ
kv = simple_store host

pub kv-Contract : Contract host kv simple_model
kv-Contract = simple_store-Contract host

abbrev pub made : ManagedEntry ℕ
made = record { value = greeting; created_at = some 7; expires_at = some 9007 }

pub accepted : make host 7 greeting (some 9) ≡ ok made
unfolding make
accepted = refl

pub host-IsOrdered : IsOrdered host
host-IsOrdered = record {
  numbers = λ x y h. (ground arith, ground arith);
  le-max = λ x y h. ground arith;
  min-le = λ x y h. ground arith;
  le-min = λ z x y h g. ground arith;
}
