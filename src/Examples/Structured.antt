-- ===== src/Examples/Structured.antt =====
-- Structured values at concrete inputs.
use openkeyv.Base.{◌≡◌, refl, ◌⊎◌, [], ◌∷◌, arith, ok, err, deserialization}
use openkeyv.Base.Bytes.{Bytes, to_le_bytes, bytes_eq}
use openkeyv.Value.Structured.{
  StructuredValue, null, integer, list, dict, nil, cons, end, entry, encode, write_len,
  write_entries,
}
use openkeyv.Value.Decode.{decode}
use openkeyv.Value.Canonical.{IsTyped, canonical}
use openkeyv.Value.RoundTrip.{decode-encode_structured}
use openkeyv.Value.Total.{decode_total}
use openkeyv.Base.Order.{bytes_le}
use openkeyv.Examples.Host.{hi, jo, hi-is_utf8, jo-is_utf8}

-- A dict whose keys stand out of order.
abbrev pair : StructuredValue
pair = dict (entry jo (list (cons null nil)) (entry hi (integer 5) end))

pair-IsTyped : IsTyped pair
unfolding IsTyped
pair-IsTyped = (jo-is_utf8, (tt, tt), (hi-is_utf8, omega arith, tt))

-- "OKV1", a dict of two entries, an integer and a list of one value.
abbrev pair_bytes : Bytes
pair_bytes =
    0x4f ∷ 0x4b ∷ 0x56 ∷ 0x31 ∷ 8 ∷ 2 ∷ 0 ∷ 0 ∷ 0 ∷ 2 ∷ 0 ∷ 0 ∷ 0 ∷ 104 ∷ 105 ∷ 3 ∷ 5 ∷ 0 ∷ 0 ∷ 0
    ∷ 0 ∷ 0 ∷ 0 ∷ 0 ∷ 2 ∷ 0 ∷ 0 ∷ 0 ∷ 106 ∷ 111 ∷ 7 ∷ 1 ∷ 0 ∷ 0 ∷ 0 ∷ 0 ∷ []

pair_encodes : encode pair ≡ ok pair_bytes
unfolding encode write_len write_entries bytes_le to_le_bytes bytes_eq
pair_encodes = refl

decode-encode_structured_example :
    decode pair_bytes ≡ ok (dict (entry hi (integer 5) (entry jo (list (cons null nil)) end)))
unfolding canonical bytes_le
decode-encode_structured_example =
    decode-encode_structured pair pair_bytes pair-IsTyped pair_encodes (omega arith)

decode_total_example :
    ((v : StructuredValue) × (decode (9 ∷ []) ≡ ok v) × IsTyped v)
    ⊎ (decode (9 ∷ []) ≡ err deserialization)
decode_total_example = decode_total (9 ∷ []) (omega arith, tt)
