-- ===== src/Utils/Sanitize.antt =====
-- utils/sanitize.rs: the strategies that check and rewrite keys.
pub mod Laws
use openkeyv.Base.{
  ℕ, zero, suc, ◌+◌, ◌-◌, ◌*◌, ◌/◌, ◌%◌, ◌^◌, ◌≤◌, ◌<◌, ◌≡◌, refl, sym, ap, ◌∙◌, fun_ext,
}
use openkeyv.Base.{
  ◌≢◌, ◌↔◌, ◌⊎◌, inl, inr, Bool, true, false, not, ◌&&◌, ◌||◌, Option, none, some, List, [], ◌∷◌,
  ◌++◌, map, append-nil, append_assoc, arith,
}
use openkeyv.Base.{
  ltb, leb, ◌==◌, if◌then◌else◌, Bool-cases, leb→le, le→leb, ltb→lt, lt→ltb, le→ltb,
}
use openkeyv.Base.{
  length, take, drop, get_elem?, All, zip_with, length-append, take-append, drop-append, take-drop,
  length-take, length-take-le, drop-take, length-drop, take_all, All-split, All-drop,
  get_elem?-drop, All-append, length-map,
}
use openkeyv.Base.{
  Error, Result, ok, err, bind, guard, ok_or, map_err, collect, bind-eq-ok, if-eq-ok, ok_or-eq-ok,
}
use openkeyv.Base.{
  serialization, deserialization, invalid_key, invalid_ttl, invalid_value, invalid_operation,
  entry_too_large, entry_too_small, read_only, corrupted_data, batch_size_mismatch,
  invalid_change_cursor, change_cursor_expired, change_feed_lagged, revision_generation,
  out_of_fuel,
}
use openkeyv.Base.Bytes.{
  Bytes, Text, IsByte, bytes_eq, bytes_eq_iff, bytes_eq_refl, starts_with, to_le_bytes,
  from_le_bytes, length-to_le_bytes, to_le_bytes-IsByte, from_le_bytes-to_le_bytes,
  to_le_bytes-from_le_bytes, from_le_bytes-lt,
}
use openkeyv.Value.Utf8.{starts_char}

-- The characters of a text, by their code points, and the number of bytes that each takes.
abbrev pub Chars : Type 0
Chars = List ℕ

abbrev pub char_len : ℕ → ℕ
char_len c = if ltb c 0x80 then 1 else if ltb c 0x800 then 2 else if ltb c 0x1_0000 then 3 else 4

unfoldable pub byte_len : Chars → ℕ
byte_len [] = 0
byte_len (c ∷ cs) = char_len c + byte_len cs

-- `Cow<str>`
pub data Cow : Type 0 where
  borrowed owned : Chars → Cow

abbrev pub into_owned : Cow → Chars
into_owned (borrowed s) = s
into_owned (owned s) = s

unfoldable pub invalid : Chars → ℕ → Bool
invalid [] c = false
invalid (d ∷ ds) c = c == d || invalid ds c

-- `value.chars().find(..)`
unfoldable pub find_invalid : Chars → Chars → Option ℕ
find_invalid bad [] = none
find_invalid bad (c ∷ cs) = if invalid bad c then some c else find_invalid bad cs

-- `CharacterBlacklistStrategy`
unfoldable pub blacklist_validate : Chars → Chars → Result (Unit {0})
blacklist_validate bad value = elim (find_invalid bad value) [
  | none ↦ ok tt
  | some c ↦ err invalid_key
]

unfoldable pub kept : Chars → Chars → Chars
kept bad [] = []
kept bad (c ∷ cs) = let rest = kept bad cs in if invalid bad c then rest else c ∷ rest

unfoldable pub blacklist_sanitize : Chars → Chars → Cow
blacklist_sanitize bad value =
    if byte_len (kept bad value) == byte_len value then borrowed value else owned (kept bad value)

-- `HashExcessLengthStrategy`, over the bytes of the value. `none` is a panic: a slice that does not
-- end between two characters. `hash_hex` is `blake3::hash(..).to_hex()`.
unfoldable pub hash_excess_validate : Bytes → Result (Unit {0})
hash_excess_validate value = if length value == 0 then err invalid_key else ok tt

unfoldable pub hash_excess_sanitize : (Bytes → Text) → ℕ → Bytes → Option Text
hash_excess_sanitize hash_hex max_length value =
    if leb (length value) max_length
    then some value
    else if max_length == 0 || starts_char (drop max_length value)
    then some (take max_length value ++ (0x5f ∷ hash_hex (drop max_length value)))
    else none
