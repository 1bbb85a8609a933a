-- ===== src/Value/Laws.antt =====
-- What the tags and the check of payloads promise.
use openkeyv.Base.{ℕ, ◌≡◌, refl, sym}
use openkeyv.Base.{◌↔◌, ◌⊎◌, inl, inr, Bool, true, false, some, [], ◌∷◌, arith}
use openkeyv.Base.{◌==◌, if◌then◌else◌}
use openkeyv.Base.{length}
use openkeyv.Base.{Error, Result, ok, err, bind, guard, map_err}
use openkeyv.Base.{invalid_value}
use openkeyv.Base.Bytes.{Bytes, Text, IsByte, to_le_bytes, length-to_le_bytes}
use openkeyv.Value.Utf8.{is_utf8}
use openkeyv.Value.Structured.{StructuredValue}
use openkeyv.Value.Decode.{decode}
use openkeyv.Value.Checked.{
  ValueKind, binary, utf8, integer, unsigned_integer, float, bool, null, structured, tag, from_tag,
  Value, validate_payload, is_bool_payload, new, new_unchecked,
}
use openkeyv.Value.Checked.{
  of_binary, of_utf8, of_integer, of_unsigned_integer, of_float, of_bool, of_null,
}

-- Reading back the tag of a kind gives the kind, tags are bytes, and a number that `from_tag`
-- accepts is the tag of the kind that it gives.
pub from_tag-tag :
    ((k : ValueKind) → (from_tag (tag k) ≡ some k) × IsByte (tag k))
    × ((t : ℕ) (k : ValueKind) → from_tag t ≡ some k → tag k ≡ t)
unfolding from_tag tag
from_tag-tag = (tags, back)
  where
    tags : (k : ValueKind) → (from_tag (tag k) ≡ some k) × IsByte (tag k)
    tags binary = (refl, omega arith)
    tags utf8 = (refl, omega arith)
    tags integer = (refl, omega arith)
    tags unsigned_integer = (refl, omega arith)
    tags float = (refl, omega arith)
    tags bool = (refl, omega arith)
    tags null = (refl, omega arith)
    tags structured = (refl, omega arith)

    back : (t : ℕ) (k : ValueKind) → from_tag t ≡ some k → tag k ≡ t
    back t k h = ground arith

pub from_tag-tag_lem : (k : ValueKind) → from_tag (tag k) ≡ some k
from_tag-tag_lem k = (from_tag-tag.0 k).0

-- What the payload of a kind has to be, apart from the code that checks it.
abbrev pub Wellformed : ValueKind → Bytes → Type 0
Wellformed binary bytes = Unit {0}
Wellformed utf8 bytes = is_utf8 bytes ≡ true
Wellformed integer bytes = length bytes ≡ 8
Wellformed unsigned_integer bytes = length bytes ≡ 8
Wellformed float bytes = length bytes ≡ 8
Wellformed bool bytes = (bytes ≡ 0 ∷ []) ⊎ (bytes ≡ 1 ∷ [])
Wellformed null bytes = bytes ≡ []
Wellformed structured bytes = (v : StructuredValue) × (decode bytes ≡ ok v)

bool_payload : (bytes : Bytes) → is_bool_payload bytes ≡ true → Wellformed bool bytes
unfolding is_bool_payload
bool_payload [] h = cc
bool_payload (b ∷ []) h = ground arith
bool_payload (b ∷ c ∷ bs) h = cc

empty_payload : (bytes : Bytes) → (length bytes == 0) ≡ true → bytes ≡ []
empty_payload [] h = refl
empty_payload (b ∷ bs) h = ground arith

decoded_payload :
    (bytes : Bytes) (r : Result StructuredValue)
    → r ≡ decode bytes
    → bind (map_err r invalid_value) (λ _. ok (tt {0})) ≡ ok tt
    → Wellformed structured bytes
decoded_payload bytes (ok v) e h = (v, sym e)
decoded_payload bytes (err x) e h = cc

guarded : (b : Bool) (e : Error) → guard b e ≡ ok tt → b ≡ true
guarded true e h = refl
guarded false e h = cc

payload_sound :
    (k : ValueKind) (bytes : Bytes) → validate_payload k bytes ≡ ok tt → Wellformed k bytes
unfolding validate_payload
payload_sound binary bytes h = tt
payload_sound utf8 bytes h = guarded (is_utf8 bytes) invalid_value h
payload_sound integer bytes h = ground arith
payload_sound unsigned_integer bytes h = ground arith
payload_sound float bytes h = ground arith
payload_sound bool bytes h = bool_payload bytes (guarded (is_bool_payload bytes) invalid_value h)
payload_sound null bytes h = empty_payload bytes (guarded (length bytes == 0) invalid_value h)
payload_sound structured bytes h = decoded_payload bytes (decode bytes) refl h

pub payload_complete :
    (k : ValueKind) (bytes : Bytes) → Wellformed k bytes → validate_payload k bytes ≡ ok tt
unfolding validate_payload
payload_complete binary bytes h = refl
payload_complete utf8 bytes h = rw h
payload_complete integer bytes h = ground arith
payload_complete unsigned_integer bytes h = ground arith
payload_complete float bytes h = ground arith
payload_complete bool bytes (inl h) = rw h
payload_complete bool bytes (inr h) = rw h
payload_complete null bytes h = rw h
payload_complete structured bytes (v, h) = rw h

unit_outcome : (r : Result (Unit {0})) (v : Value) → bind r (λ _. ok v) ≡ ok v → r ≡ ok tt
unit_outcome (ok tt) v h = refl
unit_outcome (err e) v h = cc

-- `Value::new` succeeds exactly when the payload is well formed for the kind, and the value that it
-- makes has that kind and that payload.
pub new-Wellformed :
    (k : ValueKind) (bytes : Bytes)
    → ((new k bytes ≡ ok (new_unchecked k bytes)) ↔ Wellformed k bytes)
      × ((v : Value) → new k bytes ≡ ok v → (v.kind ≡ k) × (v.bytes ≡ bytes))
unfolding new
new-Wellformed k bytes = (
  (
    λ h. payload_sound k bytes (unit_outcome (validate_payload k bytes) (new_unchecked k bytes) h),
    λ w. rw (payload_complete k bytes w),
  ),
  λ v h. ground arith,
)

-- The typed constructors make values that the check accepts; text is taken from valid UTF-8.
pub constructors-Wellformed :
    ((b : Bytes) → new binary b ≡ ok (of_binary b))
    × ((s : Text) → is_utf8 s ≡ true → new utf8 s ≡ ok (of_utf8 s))
    × ((w : ℕ) → new integer (to_le_bytes 8 w) ≡ ok (of_integer w))
    × ((w : ℕ) → new unsigned_integer (to_le_bytes 8 w) ≡ ok (of_unsigned_integer w))
    × ((w : ℕ) → new float (to_le_bytes 8 w) ≡ ok (of_float w))
    × ((b : Bool) → new bool ((if b then 1 else 0) ∷ []) ≡ ok (of_bool b))
    × (new null [] ≡ ok of_null)
unfolding of_binary of_utf8 of_integer of_unsigned_integer of_float of_bool of_null
constructors-Wellformed = (
  λ b. (new-Wellformed binary b).0.1 tt,
  λ s h. (new-Wellformed utf8 s).0.1 h,
  λ w. (new-Wellformed integer (to_le_bytes 8 w)).0.1 (length-to_le_bytes 8 w),
  λ w. (new-Wellformed unsigned_integer (to_le_bytes 8 w)).0.1 (length-to_le_bytes 8 w),
  λ w. (new-Wellformed float (to_le_bytes 8 w)).0.1 (length-to_le_bytes 8 w),
  elim [
    | true ↦ (new-Wellformed bool (1 ∷ [])).0.1 (inr refl)
    | false ↦ (new-Wellformed bool (0 ∷ [])).0.1 (inl refl)
  ],
  (new-Wellformed null []).0.1 refl,
)
