-- ===== src/Value/Decode.antt =====
-- The decoder of value/codec.rs.
use openkeyv.Base.{ℕ, zero, suc, ◌+◌, ◌-◌, ◌^◌}
use openkeyv.Base.{Bool, true, false, ◌||◌, List, [], ◌∷◌}
use openkeyv.Base.{ltb, leb, ◌==◌, if◌then◌else◌}
use openkeyv.Base.{length, take, drop}
use openkeyv.Base.{Result, ok, err, bind}
use openkeyv.Base.{deserialization, out_of_fuel}
use openkeyv.Base.Bytes.{Bytes, Text, bytes_eq, starts_with, from_le_bytes}
use openkeyv.Value.Utf8.{is_utf8}
use openkeyv.Value.Structured.{
  StructuredValue, Items, Entries, null, bool, integer, unsigned_integer, float, string, bytes,
  list, dict, nil, cons, end, entry, structured_magic,
}

pub record Cursor : Type 0 where
  pub input : Bytes
  pub pos : ℕ

-- A parser reads at the cursor and moves it.
abbrev pub Parser : Type 0 → Type 0
Parser A = Cursor → Result (A × Cursor)

unfoldable pub remaining : Cursor → ℕ
remaining c = length c.input - c.pos

unfoldable pub read_bytes : ℕ → Parser Bytes
read_bytes len c =
    let stop = c.pos + len in
    if leb (2 ^ 64) stop
    then err deserialization
    else if ltb (length c.input) stop
    then err deserialization
    else ok (take len (drop c.pos c.input), record c { pos = stop })

abbrev first : Bytes → ℕ
first [] = 0
first (b ∷ bs) = b

-- `bytes[0]` of a slice of one byte.
unfoldable pub read_u8 : Parser ℕ
read_u8 c = bind (read_bytes 1 c) λ (b, c'). ok (first b, c')

-- `from_le_bytes(read_array::<N>())`
unfoldable pub read_word : ℕ → Parser ℕ
read_word n c = bind (read_bytes n c) λ (b, c'). ok (from_le_bytes b, c')

unfoldable pub read_len : Parser ℕ
unfolding read_word
read_len = read_word 4

unfoldable pub read_text : Parser Text
read_text c = bind (read_len c) λ (len, c₁).
    bind (read_bytes len c₁) λ (b, c₂). if is_utf8 b then ok (b, c₂) else err deserialization

unfoldable pub contains : List Text → Text → Bool
contains [] k = false
contains (j ∷ js) k = bytes_eq j k || contains js k

-- `for _ in 0..len`, over a parser of one value.
unfoldable pub decode_items : Parser StructuredValue → ℕ → Parser Items
decode_items value zero c = ok (nil, c)
decode_items value (suc n) c =
    bind (value c) λ (v, c₁). bind (decode_items value n c₁) λ (xs, c₂). ok (cons v xs, c₂)

-- `seen` is the set of the keys that the loop has met.
unfoldable pub decode_entries : Parser StructuredValue → ℕ → List Text → Parser Entries
unfolding contains
decode_entries value zero seen c = ok (end, c)
decode_entries value (suc n) seen c = bind (read_text c) λ (k, c₁).
    if contains seen k
    then err deserialization
    else (bind (value c₁)
        λ (v, c₂). bind (decode_entries value n (k ∷ seen) c₂) λ (es, c₃). ok (entry k v es, c₃))

-- The arms of the `match` on the tag, over a parser of the nested values. The capacity that
-- `Vec::with_capacity` reserves for a list or a dict, by the length that the input names, is left out.
unfoldable pub decode_tag : Parser StructuredValue → ℕ → Parser StructuredValue
unfolding read_len read_text decode_items decode_entries
decode_tag value tag c =
    if tag == 0
    then ok (null, c)
    else if tag == 1
    then ok (bool false, c)
    else if tag == 2
    then ok (bool true, c)
    else if tag == 3
    then (bind (read_word 8 c) λ (w, c'). ok (integer w, c'))
    else if tag == 9
    then (bind (read_word 8 c) λ (w, c'). ok (unsigned_integer w, c'))
    else if tag == 4
    then (bind (read_word 8 c) λ (w, c'). ok (float w, c'))
    else if tag == 5
    then (bind (read_text c) λ (s, c'). ok (string s, c'))
    else if tag == 6
    then (bind (read_len c) λ (n, c₁). bind (read_bytes n c₁) λ (b, c₂). ok (bytes b, c₂))
    else if tag == 7
    then (bind (read_len c) λ (n, c₁). bind (decode_items value n c₁) λ (xs, c₂). ok (list xs, c₂))
    else if tag == 8
    then (bind (read_len c)
        λ (n, c₁). bind (decode_entries value n [] c₁) λ (es, c₂). ok (dict es, c₂))
    else err deserialization

-- The fuel bounds how deep values nest; the depth of the stack of the machine is left out.
unfoldable pub decode_value : ℕ → Parser StructuredValue
unfolding read_u8 decode_tag
decode_value zero c = err out_of_fuel
decode_value (suc f) c = bind (read_u8 c) λ (tag, c'). decode_tag (decode_value f) tag c'

unfoldable pub decode : Bytes → Result StructuredValue
unfolding decode_value starts_with remaining read_bytes
decode input =
    if starts_with structured_magic input
    then (let body = drop (length structured_magic) input in
        bind (decode_value (suc (length body)) (record { input = body; pos = 0 }))
          λ (v, c). if remaining c == 0 then ok v else err deserialization)
    else err deserialization
