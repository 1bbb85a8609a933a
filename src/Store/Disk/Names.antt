-- ===== src/Store/Disk/Names.antt =====
-- A collection is read back from the name of its tree.
use openkeyv.Base.{ℕ, ◌+◌, ◌*◌, ◌/◌, ◌%◌, ◌^◌, ◌<◌, ◌≡◌, refl, sym, ◌∙◌}
use openkeyv.Base.{inl, inr, true, some, [], ◌∷◌, ◌++◌, arith}
use openkeyv.Base.{leb, ◌==◌, Bool-cases}
use openkeyv.Base.{length, drop, All, drop-append}
use openkeyv.Base.{ok, if-eq-ok, ok-injective}
use openkeyv.Base.{invalid_key}
use openkeyv.Base.Bytes.{
  Bytes, Text, IsByte, bytes_eq, bytes_eq_iff, bytes_eq_refl, bytes_eq-append, starts_with,
  starts_with-append,
}
use openkeyv.Value.Utf8.{is_utf8, utf8_run, utf8_step, utf8_lead, start}
use openkeyv.Store.Disk.Trees.{
  tree_prefix, hex_digit, hex_digits, encode_tree_name, digit, decode_digits, decode_tree_name,
}

abbrev IsAscii : ℕ → Type 0
IsAscii b = b < 128

IsAscii-run : (bs : Bytes) → All IsAscii bs → utf8_run start bs ≡ true
unfolding utf8_run utf8_step utf8_lead
IsAscii-run [] h = refl
IsAscii-run (b ∷ bs) (h, hs) = ground (arith, IsAscii-run bs hs)

hex_digit-IsAscii : (n : ℕ) → n < 16 → IsAscii (hex_digit n)
unfolding hex_digit
hex_digit-IsAscii n h = ground arith

hex_digits-IsAscii : (bs : Bytes) → All IsByte bs → All IsAscii (hex_digits bs)
unfolding hex_digits
hex_digits-IsAscii [] h = tt
hex_digits-IsAscii (b ∷ bs) (h, hs) = (
  hex_digit-IsAscii (b / 16) (omega arith),
  (hex_digit-IsAscii (b % 16) (omega arith), hex_digits-IsAscii bs hs),
)

digit-hex_digit : (n : ℕ) → n < 16 → digit (hex_digit n) ≡ ok n
unfolding digit hex_digit
digit-hex_digit n h = ground arith

length-hex_digits : (bs : Bytes) → length (hex_digits bs) ≡ length bs * 2
unfolding hex_digits
length-hex_digits [] = refl
length-hex_digits (b ∷ bs) = omega (arith, length-hex_digits bs)

decode_digits-hex_digits : (bs : Bytes) → All IsByte bs → decode_digits (hex_digits bs) ≡ ok bs
unfolding decode_digits hex_digits
decode_digits-hex_digits [] h = refl
decode_digits-hex_digits (b ∷ bs) (h, hs) =
    let whole : (b / 16) * 16 + b % 16 ≡ b = omega arith in
    rw
      (
        digit-hex_digit (b / 16) (omega arith),
        digit-hex_digit (b % 16) (omega arith),
        decode_digits-hex_digits bs hs,
        whole,
      )
      refl

pub tree_name-ok :
    (c : Text) → length c < 2 ^ 62 → encode_tree_name c ≡ ok (tree_prefix ++ hex_digits c)
unfolding encode_tree_name
tree_name-ok c h = ground (arith, h)

name-is_utf8 : (c : Text) → All IsByte c → is_utf8 (tree_prefix ++ hex_digits c) ≡ true
unfolding is_utf8
name-is_utf8 c b = IsAscii-run (tree_prefix ++ hex_digits c) (
  omega arith,
  (omega arith, (omega arith, (omega arith, (omega arith, hex_digits-IsAscii c b)))),
)

is_even : (n : ℕ) → ((n * 2) % 2 == 0) ≡ true
is_even n = ground arith

read_back :
    (c : Text) (name : Bytes)
    → name ≡ tree_prefix ++ hex_digits c
    → is_utf8 c ≡ true
    → All IsByte c
    → encode_tree_name c ≡ ok name
    → decode_tree_name name ≡ ok (some (name, c))
unfolding decode_tree_name
read_back c name e u b enc =
    let front : starts_with tree_prefix name ≡ true =
      rw e (starts_with-append tree_prefix (hex_digits c)) in
    let rest : drop (length tree_prefix) name ≡ hex_digits c =
      rw e (drop-append tree_prefix (hex_digits c)) in
    let text : is_utf8 name ≡ true = rw e (name-is_utf8 c b) in
    rw
      (
        front,
        text,
        rest,
        length-hex_digits c,
        is_even (length c),
        decode_digits-hex_digits c b,
        u,
        enc,
        bytes_eq_refl name,
      )
      refl

-- The name of the tree of a collection decodes to the collection, for every UTF-8 text that is
-- shorter than 2^62 bytes, and the tree's name itself comes with it.
pub decode_tree_name-encode_tree_name :
    (c : Text)
    → is_utf8 c ≡ true
    → All IsByte c
    → length c < 2 ^ 62
    → (name : Bytes) × (encode_tree_name c ≡ ok name)
      × (decode_tree_name name ≡ ok (some (name, c)))
decode_tree_name-encode_tree_name c u b l = (
  tree_prefix ++ hex_digits c,
  tree_name-ok c l,
  read_back c (tree_prefix ++ hex_digits c) refl u b (tree_name-ok c l),
)

name-of :
    (c : Text) (name : Bytes) → encode_tree_name c ≡ ok name → name ≡ tree_prefix ++ hex_digits c
unfolding encode_tree_name
name-of c name h =
    let (_, h₁) = if-eq-ok (leb (2 ^ 64) (length c * 2)) invalid_key _ h in
    let (_, h₂) = if-eq-ok (leb (2 ^ 64) (length tree_prefix + length c * 2)) invalid_key _ h₁ in
    sym (ok-injective h₂)

-- Two collections with the same tree are one.
pub encode_tree_name-injective :
    (c d : Text) (name : Bytes)
    → is_utf8 c ≡ true
    → is_utf8 d ≡ true
    → All IsByte c
    → All IsByte d
    → encode_tree_name c ≡ ok name
    → encode_tree_name d ≡ ok name
    → c ≡ d
encode_tree_name-injective c d name u v b b' h k =
    cc (read_back c name (name-of c name h) u b h, read_back d name (name-of d name k) v b' k)

digits_eq :
    (c d : Text)
    → All IsByte c
    → All IsByte d
    → bytes_eq (hex_digits c) (hex_digits d) ≡ bytes_eq c d
digits_eq c d b b' = elim (Bool-cases (bytes_eq c d)) [
  | inl same ↦ rw ((bytes_eq_iff c d).0 same) (bytes_eq_refl (hex_digits d) ∙ sym (bytes_eq_refl d))
  | inr differ ↦ elim (Bool-cases (bytes_eq (hex_digits c) (hex_digits d))) [
    | inr apart ↦ rw (differ, apart) refl
    | inl same ↦
        let equal = (bytes_eq_iff (hex_digits c) (hex_digits d)).0 same in
        let c_is_d : c ≡ d = cc (decode_digits-hex_digits c b, decode_digits-hex_digits d b') in
        same ∙ sym ((bytes_eq_iff c d).1 c_is_d)
  ]
]

pub bytes_eq-tree_name :
    (c d : Text)
    → All IsByte c
    → All IsByte d
    → bytes_eq (tree_prefix ++ hex_digits c) (tree_prefix ++ hex_digits d) ≡ bytes_eq c d
bytes_eq-tree_name c d b b' =
    bytes_eq-append tree_prefix (hex_digits c) (hex_digits d) ∙ digits_eq c d b b'
