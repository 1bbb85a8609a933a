-- ===== src/Value/Checked.antt =====
-- value/kind.rs and value/mod.rs: the kinds of a value with their tags, and checked values.
use openkeyv.Base.{ℕ}
use openkeyv.Base.{Bool, true, false, ◌||◌, Option, none, some, [], ◌∷◌}
use openkeyv.Base.{◌==◌, if◌then◌else◌}
use openkeyv.Base.{length}
use openkeyv.Base.{Result, ok, err, bind, guard, map_err}
use openkeyv.Base.{invalid_value}
use openkeyv.Base.Bytes.{Bytes, Text, to_le_bytes}
use openkeyv.Value.Utf8.{is_utf8}
use openkeyv.Value.Structured.{StructuredValue, encode}
use openkeyv.Value.Decode.{decode}

pub data ValueKind : Type 0 where
  binary utf8 integer unsigned_integer float bool null structured : ValueKind

unfoldable pub tag : ValueKind → ℕ
tag binary = 0
tag utf8 = 1
tag integer = 2
tag float = 3
tag bool = 4
tag null = 5
tag structured = 6
tag unsigned_integer = 7

unfoldable pub from_tag : ℕ → Option ValueKind
from_tag t =
    if t == 0
    then some binary
    else if t == 1
    then some utf8
    else if t == 2
    then some integer
    else if t == 3
    then some float
    else if t == 4
    then some bool
    else if t == 5
    then some null
    else if t == 6
    then some structured
    else if t == 7
    then some unsigned_integer
    else none

pub record Value : Type 0 where
  pub kind : ValueKind
  pub bytes : Bytes

unfoldable pub validate_fixed_width : Bytes → ℕ → Result (Unit {0})
validate_fixed_width bytes expected = guard (length bytes == expected) invalid_value

-- `matches!(bytes, [0] | [1])`
unfoldable pub is_bool_payload : Bytes → Bool
is_bool_payload [] = false
is_bool_payload (b ∷ []) = b == 0 || b == 1
is_bool_payload (b ∷ c ∷ bs) = false

unfoldable pub validate_payload : ValueKind → Bytes → Result (Unit {0})
unfolding validate_fixed_width is_bool_payload
validate_payload binary bytes = ok tt
validate_payload utf8 bytes = guard (is_utf8 bytes) invalid_value
validate_payload integer bytes = validate_fixed_width bytes 8
validate_payload unsigned_integer bytes = validate_fixed_width bytes 8
validate_payload float bytes = validate_fixed_width bytes 8
validate_payload bool bytes = guard (is_bool_payload bytes) invalid_value
validate_payload null bytes = guard (length bytes == 0) invalid_value
validate_payload structured bytes = bind (map_err (decode bytes) invalid_value) λ _. ok tt

unfoldable pub new_unchecked : ValueKind → Bytes → Value
new_unchecked kind bytes = record { kind = kind; bytes = bytes }

unfoldable pub new : ValueKind → Bytes → Result Value
unfolding validate_payload new_unchecked
new kind bytes = bind (validate_payload kind bytes) λ _. ok (new_unchecked kind bytes)

-- The typed constructors. A signed or floating number comes as its 64-bit pattern.
unfoldable pub of_binary : Bytes → Value
of_binary = new_unchecked binary

unfoldable pub of_utf8 : Text → Value
of_utf8 = new_unchecked utf8

unfoldable pub of_integer : ℕ → Value
of_integer w = new_unchecked integer (to_le_bytes 8 w)

unfoldable pub of_unsigned_integer : ℕ → Value
of_unsigned_integer w = new_unchecked unsigned_integer (to_le_bytes 8 w)

unfoldable pub of_float : ℕ → Value
of_float w = new_unchecked float (to_le_bytes 8 w)

unfoldable pub of_bool : Bool → Value
of_bool b = new_unchecked bool ((if b then 1 else 0) ∷ [])

unfoldable pub of_null : Value
of_null = new_unchecked null []

unfoldable pub structured_unchecked : Bytes → Value
structured_unchecked = new_unchecked structured

unfoldable pub from_structured : StructuredValue → Result Value
from_structured v = bind (encode v) λ b. ok (structured_unchecked b)

unfoldable pub is_structured : ValueKind → Bool
is_structured structured = true
is_structured _ = false

unfoldable pub decode_structured : Value → Result StructuredValue
unfolding is_structured
decode_structured v = if is_structured v.kind then decode v.bytes else err invalid_value
