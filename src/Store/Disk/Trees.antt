-- ===== src/Store/Disk/Trees.antt =====
-- store/disk/store.rs: the names of the trees.
use openkeyv.Base.{ℕ, ◌+◌, ◌-◌, ◌*◌, ◌/◌, ◌%◌, ◌^◌}
use openkeyv.Base.{not, ◌&&◌, Option, none, some, [], ◌∷◌, ◌++◌}
use openkeyv.Base.{ltb, leb, ◌==◌, if◌then◌else◌}
use openkeyv.Base.{length, drop}
use openkeyv.Base.{Result, ok, err, bind}
use openkeyv.Base.{invalid_key}
use openkeyv.Base.Bytes.{Bytes, Text, bytes_eq, starts_with}
use openkeyv.Value.Utf8.{is_utf8}

-- "okv1-"
abbrev pub tree_prefix : Bytes
tree_prefix = 0x6f ∷ 0x6b ∷ 0x76 ∷ 0x31 ∷ 0x2d ∷ []

-- `HEX[n]`
unfoldable pub hex_digit : ℕ → ℕ
hex_digit n = if ltb n 10 then 48 + n else 87 + n

unfoldable pub hex_digits : Bytes → Bytes
unfolding hex_digit
hex_digits [] = []
hex_digits (b ∷ bs) = hex_digit (b / 16) ∷ hex_digit (b % 16) ∷ hex_digits bs

unfoldable pub encode_tree_name : Text → Result Bytes
unfolding hex_digits
encode_tree_name collection =
    if leb (2 ^ 64) (length collection * 2)
    then err invalid_key
    else if leb (2 ^ 64) (length tree_prefix + length collection * 2)
    then err invalid_key
    else ok (tree_prefix ++ hex_digits collection)

-- The closure `digit`.
unfoldable pub digit : ℕ → Result ℕ
digit b =
    if leb 48 b && leb b 57
    then ok (b - 48)
    else if leb 97 b && leb b 102
    then ok (b - 97 + 10)
    else err invalid_key

-- The loop over `chunks_exact(2)`.
unfoldable pub decode_digits : Bytes → Result Bytes
unfolding digit
decode_digits [] = ok []
decode_digits (b ∷ []) = ok []
decode_digits (a ∷ b ∷ rest) =
    bind (digit a)
      λ hi. bind (digit b) λ lo. bind (decode_digits rest) λ bs. ok ((hi * 16 + lo) ∷ bs)

unfoldable pub decode_tree_name : Bytes → Result (Option (Bytes × Text))
unfolding decode_digits
decode_tree_name name =
    let encoded = drop (length tree_prefix) name in
    if not (starts_with tree_prefix name)
    then ok none
    else if not (is_utf8 name)
    then err invalid_key
    else if not (length encoded % 2 == 0)
    then err invalid_key
    else (bind (decode_digits encoded) λ collection.
        if not (is_utf8 collection)
        then err invalid_key
        else (bind (encode_tree_name collection) λ physical.
            if not (bytes_eq physical name) then err invalid_key else ok (some (name, collection))))
