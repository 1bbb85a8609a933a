-- ===== src/Utils/Compound.antt =====
-- utils/compound.rs: one identity for a collection and a key, with the length of the collection in front.
pub mod Laws
use openkeyv.Base.{
  ℕ, zero, suc, ◌+◌, ◌-◌, ◌*◌, ◌/◌, ◌%◌, ◌^◌, ◌≤◌, ◌<◌, ◌≡◌, refl, sym, ap, ◌∙◌, fun_ext,
}
use openkeyv.Base.{
  ◌≢◌, ◌↔◌, ◌⊎◌, inl, inr, Bool, true, false, not, ◌&&◌, ◌||◌, Option, none, some, List, [], ◌∷◌,
  ◌++◌, map, append-nil, append_assoc, arith,
}
use openkeyv.Base.{
  ltb, leb, ◌==◌, if◌then◌else◌, Bool-cases, leb→le, le→leb, ltb→lt, lt→ltb, le→ltb,
}
use openkeyv.Base.{
  length, take, drop, get_elem?, All, zip_with, length-append, take-append, drop-append, take-drop,
  length-take, length-take-le, drop-take, length-drop, take_all, All-split, All-drop,
  get_elem?-drop, All-append, length-map,
}
use openkeyv.Base.{
  Error, Result, ok, err, bind, guard, ok_or, map_err, collect, bind-eq-ok, if-eq-ok, ok_or-eq-ok,
}
use openkeyv.Base.{
  serialization, deserialization, invalid_key, invalid_ttl, invalid_value, invalid_operation,
  entry_too_large, entry_too_small, read_only, corrupted_data, batch_size_mismatch,
  invalid_change_cursor, change_cursor_expired, change_feed_lagged, revision_generation,
  out_of_fuel,
}
use openkeyv.Base.Bytes.{
  Bytes, Text, IsByte, bytes_eq, bytes_eq_iff, bytes_eq_refl, starts_with, to_le_bytes,
  from_le_bytes, length-to_le_bytes, to_le_bytes-IsByte, from_le_bytes-to_le_bytes,
  to_le_bytes-from_le_bytes, from_le_bytes-lt,
}
use openkeyv.Value.Utf8.{starts_char}
use openkeyv.Utils.Decimal.{decimal, all_digits, parse_usize, leading}

-- b':'
abbrev pub colon : ℕ
colon = 58

-- `Subspace(String)`
abbrev pub Subspace : Type 0
Subspace = Text

-- `format!("{}:{}", text.len(), text)`
unfoldable pub collection_prefix : Text → Text
collection_prefix collection = decimal (length collection) ++ colon ∷ collection

unfoldable pub subspace_prefix : Subspace → Text
unfolding collection_prefix
subspace_prefix [] = []
subspace_prefix (c ∷ s) = collection_prefix (c ∷ s)

unfoldable pub scope : Subspace → Text → Text
unfolding subspace_prefix
scope s key = subspace_prefix s ++ key

unfoldable pub compound_key : Text → Text → Text
compound_key collection key = collection_prefix collection ++ key

unfoldable pub subspace_compound_key : Subspace → Text → Text → Text
subspace_compound_key s collection key = scope s (compound_key collection key)

-- `text.split_once(':')`
unfoldable pub split_once : Text → Option (Text × Text)
split_once [] = none
split_once (c ∷ cs) =
    let rest = split_once cs in
    if c == colon then some ([], cs) else elim rest [ none ↦ none | some (a, b) ↦ some (c ∷ a, b) ]

-- `payload.get(..n)` and what follows it: there must be `n` bytes, and a character must begin or
-- the text end behind them.
unfoldable pub split_at : ℕ → Text → Result (Text × Text)
split_at n payload =
    if ltb (length payload) n
    then err invalid_key
    else if not (n == 0 || starts_char (drop n payload))
    then err invalid_key
    else ok (take n payload, drop n payload)

unfoldable pub decode_length : Text → Result ℕ
decode_length len =
    if length len == 0 || not (all_digits len)
    then err invalid_key
    else if ltb 1 (length len) && (leading len == 48)
    then err invalid_key
    else ok_or (parse_usize len) invalid_key

unfoldable pub decompound_key : Text → Result (Text × Text)
decompound_key compound =
    bind (ok_or (split_once compound) invalid_key)
      λ (len, payload). bind (decode_length len) λ n. split_at n payload

-- `text.strip_prefix(prefix)`
unfoldable pub strip_prefix : Text → Text → Option Text
strip_prefix prefix text =
    if starts_with prefix text then some (drop (length prefix) text) else none

abbrev pub ok_option {ℓ} : {A : Type ℓ} → Result A → Option A
ok_option (ok a) = some a
ok_option (err e) = none

abbrev pub and_then {ℓ κ} : {A : Type ℓ} {B : Type κ} → Option A → (A → Option B) → Option B
and_then none f = none
and_then (some a) f = f a

unfoldable pub subspace_decompound_key : Subspace → Text → Option (Text × Text)
subspace_decompound_key s compound =
    and_then (strip_prefix (subspace_prefix s) compound)
      λ identity. ok_option (decompound_key identity)
