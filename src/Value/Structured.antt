-- ===== src/Value/Structured.antt =====
-- value/structured.rs and value/codec.rs: structured values, and their OKV1 bytes.
use openkeyv.Base.{ℕ, suc, ◌^◌}
use openkeyv.Base.{Bool, true, false, Option, none, some, List, [], ◌∷◌, ◌++◌}
use openkeyv.Base.{ltb, if◌then◌else◌}
use openkeyv.Base.{length}
use openkeyv.Base.{Result, ok, err, bind}
use openkeyv.Base.{serialization}
use openkeyv.Base.Bytes.{Bytes, Text, bytes_eq, to_le_bytes}
use openkeyv.Base.Order.{bytes_le}

-- An `i64`, a `u64` and an `f64` stand as their 64-bit patterns.
mutual
  pub data StructuredValue : Type 0 where
    null : StructuredValue
    bool : Bool → StructuredValue
    integer unsigned_integer float : ℕ → StructuredValue
    string : Text → StructuredValue
    bytes : Bytes → StructuredValue
    list : Items → StructuredValue
    dict : Entries → StructuredValue

  pub data Items : Type 0 where
    nil : Items
    cons : StructuredValue → Items → Items

  pub data Entries : Type 0 where
    end : Entries
    entry : Text → StructuredValue → Entries → Entries

abbrev pub count_items : Items → ℕ
count_items nil = 0
count_items (cons v xs) = suc (count_items xs)

abbrev pub count_entries : Entries → ℕ
count_entries end = 0
count_entries (entry k v es) = suc (count_entries es)

-- b"OKV1"
abbrev pub structured_magic : Bytes
structured_magic = 0x4f ∷ 0x4b ∷ 0x56 ∷ 0x31 ∷ []

unfoldable pub write_len : ℕ → Result Bytes
write_len len = if ltb len (2 ^ 32) then ok (to_le_bytes 4 len) else err serialization

-- The entries of a dict in key order. What each entry's value would write is at hand already; it
-- is looked at when the loop reaches the entry, so errors come in the order of the loop.
abbrev pub Pending : Type 0
Pending = List (Text × Result Bytes)

unfoldable pub insert_sorted : Text → Result Bytes → Pending → Pending
insert_sorted k r [] = (k, r) ∷ []
insert_sorted k r ((j, s) ∷ es) =
    if bytes_le k j then (k, r) ∷ (j, s) ∷ es else (j, s) ∷ insert_sorted k r es

unfoldable pub sort_entries : Pending → Pending
sort_entries [] = []
sort_entries ((k, r) ∷ es) = insert_sorted k r (sort_entries es)

abbrev pub is_previous : Option Text → Text → Bool
is_previous none k = false
is_previous (some j) k = bytes_eq j k

unfoldable pub write_entries : Option Text → Pending → Result Bytes
unfolding write_len
write_entries previous [] = ok []
write_entries previous ((k, r) ∷ es) =
    let rest = write_entries (some k) es in
    if is_previous previous k
    then err serialization
    else (bind (write_len (length k)) λ n. bind r λ v. bind rest λ more. ok (n ++ k ++ v ++ more))

unfoldable mutual
  unfolding write_len write_entries sort_entries insert_sorted

  -- `encode_value(value, out)`: the bytes that it adds to `out`.
  pub encode_value : StructuredValue → Result Bytes
  encode_value null = ok (0 ∷ [])
  encode_value (bool false) = ok (1 ∷ [])
  encode_value (bool true) = ok (2 ∷ [])
  encode_value (integer w) = ok (3 ∷ to_le_bytes 8 w)
  encode_value (unsigned_integer w) = ok (9 ∷ to_le_bytes 8 w)
  encode_value (float w) = ok (4 ∷ to_le_bytes 8 w)
  encode_value (string s) = bind (write_len (length s)) λ n. ok (5 ∷ (n ++ s))
  encode_value (bytes b) = bind (write_len (length b)) λ n. ok (6 ∷ (n ++ b))
  encode_value (list xs) =
      bind (write_len (count_items xs)) λ n. bind (encode_items xs) λ b. ok (7 ∷ (n ++ b))
  encode_value (dict es) =
      bind (write_len (count_entries es))
        λ n. bind (write_entries none (sort_entries (encode_entries es))) λ b. ok (8 ∷ (n ++ b))

  pub encode_items : Items → Result Bytes
  encode_items nil = ok []
  encode_items (cons v xs) = bind (encode_value v) λ b. bind (encode_items xs) λ bs. ok (b ++ bs)

  pub encode_entries : Entries → Pending
  encode_entries end = []
  encode_entries (entry k v es) = (k, encode_value v) ∷ encode_entries es

unfoldable pub encode : StructuredValue → Result Bytes
unfolding encode_value
encode v = bind (encode_value v) λ b. ok (structured_magic ++ b)
