-- ===== src/Value/Total.antt =====
-- The decoder ends on every input that leaves it memory and stack, with a value of the source's type or
-- the deserialization error.
use openkeyv.Base.{ℕ, zero, suc, ◌+◌, ◌^◌, ◌≤◌, ◌<◌, ◌≡◌, sym}
use openkeyv.Base.{◌⊎◌, true, List, [], ◌∷◌, arith}
use openkeyv.Base.{ltb, leb, ◌==◌}
use openkeyv.Base.{length, drop, All, length-take, length-drop, All-drop, All-take}
use openkeyv.Base.{Result, ok, err, bind}
use openkeyv.Base.{deserialization}
use openkeyv.Base.Bytes.{Bytes, Text, IsByte, starts_with, from_le_bytes-lt}
use openkeyv.Base.Ensures.{
  Ensures, holds, rejected, Ensures-map, Ensures-cases, Ensures-if, Ensures-bind,
}
use openkeyv.Value.Utf8.{is_utf8}
use openkeyv.Value.Structured.{
  StructuredValue, integer, unsigned_integer, float, string, bytes, list, dict, structured_magic,
}
use openkeyv.Value.Decode.{
  Cursor, Parser, remaining, read_bytes, read_u8, read_word, read_len, read_text, contains,
  decode_items, decode_entries, decode_tag, decode_value, decode,
}
use openkeyv.Value.Canonical.{IsTyped, AllTyped, EntriesTyped}

-- The cursor `d` stands `n` bytes or more behind `c`, on the same input of bytes.
abbrev IsAhead : ℕ → Cursor → Cursor → Type 0
IsAhead n c d = (remaining d + n ≤ remaining c) × All IsByte d.input

-- What a reader from `c` ensures: a value with `P`, at a cursor that is ahead.
abbrev Read : {A : Type 0} → (A → Type 0) → ℕ → Cursor → Result (A × Cursor) → Type 0
Read P n c r = Ensures deserialization (λ (a, d). P a × IsAhead n c d) r

read_bytes-Ensures :
    (n : ℕ) (c : Cursor)
    → All IsByte c.input
    → Read (λ b. (length b ≡ n) × All IsByte b) n c (read_bytes n c)
unfolding read_bytes remaining
read_bytes-Ensures n c h =
    Ensures-if (leb (2 ^ 64) (c.pos + n)) (λ big. rejected)
      λ small.
        Ensures-if (ltb (length c.input) (c.pos + n)) (λ short. rejected)
          λ fits.
            let fit : c.pos + n ≤ length c.input = ground arith in
            holds (
              (
                length-take n (drop c.pos c.input)
                    (omega (arith, length-drop c.pos c.input (omega arith))),
                All-take IsByte n _ (All-drop IsByte c.pos c.input h),
              ),
              (omega arith, h),
            )

read_u8-Ensures : (c : Cursor) → All IsByte c.input → Read (λ t. Unit {0}) 1 c (read_u8 c)
unfolding read_u8
read_u8-Ensures c h = Ensures-bind (read_bytes-Ensures 1 c h) λ (b, d) (p, a). holds (tt, a)

read_word-Ensures :
    (n : ℕ) (c : Cursor) → All IsByte c.input → Read (λ w. w < 256 ^ n) n c (read_word n c)
unfolding read_word
read_word-Ensures n c h =
    Ensures-bind (read_bytes-Ensures n c h)
      λ (b, d) ((len, p), a). holds (from_le_bytes-lt b n (sym len) p, a)

read_text-Ensures :
    (c : Cursor) → All IsByte c.input → Read (λ s. is_utf8 s ≡ true) 0 c (read_text c)
unfolding read_text read_len
read_text-Ensures c h = Ensures-bind (read_word-Ensures 4 c h) λ (n, d) (small, (l, a)).
    Ensures-bind (read_bytes-Ensures n d a) λ (b, e) (p, (l', a')).
      Ensures-if (is_utf8 b) (λ u. holds (u, (omega arith, a'))) (λ u. rejected)

-- A reader of values, for every cursor of at most `f` bytes before its end.
abbrev Values : ℕ → Parser StructuredValue → Type 0
Values f value = (c : Cursor) → remaining c < f → All IsByte c.input → Read IsTyped 0 c (value c)

items-Ensures :
    (f : ℕ) (value : Parser StructuredValue)
    → Values f value
    → (n : ℕ) (c : Cursor) → remaining c < f
    → All IsByte c.input
    → Read AllTyped 0 c (decode_items value n c)
unfolding decode_items IsTyped
items-Ensures f value v zero c l h = holds (tt, (omega arith, h))
items-Ensures f value v (suc n) c l h = Ensures-bind (v c l h) λ (x, d) (t, (le, a)).
    Ensures-bind (items-Ensures f value v n d (omega arith) a)
      λ (xs, e) (ts, (le', a')). holds ((t, ts), (omega arith, a'))

entries-Ensures :
    (f : ℕ) (value : Parser StructuredValue)
    → Values f value
    → (n : ℕ) (seen : List Text) (c : Cursor) → remaining c < f
    → All IsByte c.input
    → Read EntriesTyped 0 c (decode_entries value n seen c)
unfolding decode_entries IsTyped
entries-Ensures f value v zero seen c l h = holds (tt, (omega arith, h))
entries-Ensures f value v (suc n) seen c l h =
    Ensures-bind (read_text-Ensures c h) λ (k, c₁) (u, (l₁, a₁)).
      Ensures-if (contains seen k) (λ dup. rejected)
        λ fresh. Ensures-bind (v c₁ (omega arith) a₁) λ (x, c₂) (t, (l₂, a₂)).
          Ensures-bind (entries-Ensures f value v n (k ∷ seen) c₂ (omega arith) a₂)
            λ (es, c₃) (ts, (l₃, a₃)). holds ((u, t, ts), (omega arith, a₃))

-- A part that is read from a cursor ahead of `c`, and wrapped.
wrapped :
    {A : Type 0} {P : A → Type 0} (n : ℕ) (c : Cursor) (r : Result (A × Cursor))
    (g : A → StructuredValue)
    → Read P n c r
    → ((a : A) → P a → IsTyped (g a))
    → Read IsTyped 0 c (bind r λ (a, d). ok (g a, d))
wrapped n c r g h k =
    Ensures-bind h λ (a, d) (p, (le, b)). holds {a = (g a, d)} (k a p, (omega arith, b))

-- A length, and a part of that many elements.
counted :
    (c : Cursor) (p : ℕ → Parser StructuredValue)
    → All IsByte c.input
    → ((n : ℕ) (d : Cursor)
        → remaining d ≤ remaining c
        → All IsByte d.input
        → Read IsTyped 0 d (p n d))
    → Read IsTyped 0 c (bind (read_len c) λ (n, d). p n d)
unfolding read_len
counted c p h k = Ensures-bind (read_word-Ensures 4 c h) λ (n, d) (small, (le, a)).
    Ensures-map (k n d (omega arith) a) λ (v, e) (t, (le', a')). (t, (omega arith, a'))

tag-Ensures :
    (f : ℕ) (value : Parser StructuredValue)
    → Values f value
    → (tag : ℕ) (c : Cursor) → remaining c < f
    → All IsByte c.input
    → Read IsTyped 0 c (decode_tag value tag c)
unfolding decode_tag IsTyped
tag-Ensures f value v tag c l h =
    let still : IsAhead 0 c c = (omega arith, h) in
    let word = read_word-Ensures 8 c h in
    Ensures-if (tag == 0) (λ _. holds (tt, still))
      λ _.
        Ensures-if (tag == 1) (λ _. holds (tt, still))
          λ _.
            Ensures-if (tag == 2) (λ _. holds (tt, still))
              λ _.
                Ensures-if (tag == 3) (λ _. wrapped 8 c (read_word 8 c) integer word λ w b. b)
                  λ _.
                    Ensures-if (tag == 9)
                      (λ _. wrapped 8 c (read_word 8 c) unsigned_integer word λ w b. b)
                      λ _.
                        Ensures-if (tag == 4) (λ _. wrapped 8 c (read_word 8 c) float word λ w b. b)
                          λ _.
                            Ensures-if (tag == 5)
                              (λ _.
                                wrapped 0 c (read_text c) string (read_text-Ensures c h) λ s u. u)
                              λ _.
                                Ensures-if (tag == 6)
                                  (λ _.
                                    counted c
                                      (λ n d. bind (read_bytes n d) λ (b, e). ok (bytes b, e)) h
                                      λ n d le a.
                                        wrapped n d (read_bytes n d) bytes
                                          (read_bytes-Ensures n d a) λ b p. tt)
                                  λ _.
                                    Ensures-if (tag == 7)
                                      (λ _.
                                        counted c
                                          (λ n d.
                                            bind (decode_items value n d)
                                              λ (xs, e). ok (list xs, e))
                                          h
                                          λ n d le a.
                                            wrapped 0 d (decode_items value n d) list
                                              (items-Ensures f value v n d (omega arith) a)
                                              λ xs p. p)
                                      λ _.
                                        Ensures-if (tag == 8)
                                          (λ _.
                                            counted c
                                              (λ n d.
                                                bind (decode_entries value n [] d)
                                                  λ (es, e). ok (dict es, e))
                                              h
                                              λ n d le a.
                                                wrapped 0 d (decode_entries value n [] d) dict
                                                  (entries-Ensures f value v n [] d (omega arith) a)
                                                  λ es p. p)
                                          λ _. rejected

value-Ensures : (f : ℕ) → Values f (decode_value f)
unfolding decode_value
value-Ensures zero c l h = absurd (omega arith)
value-Ensures (suc f) c l h = Ensures-bind (read_u8-Ensures c h) λ (t, d) (_, (le, a)).
    Ensures-map (tag-Ensures f (decode_value f) (value-Ensures f) t d (omega arith) a)
      λ (v, e) (p, (le', a')). (p, (omega arith, a'))

decode-Ensures : (input : Bytes) → All IsByte input → Ensures deserialization IsTyped (decode input)
unfolding decode remaining
decode-Ensures input h =
    Ensures-if (starts_with structured_magic input)
      (λ m.
        let body = drop (length structured_magic) input in
        Ensures-bind
          (value-Ensures (suc (length body)) (record { input = body; pos = 0 }) (omega arith)
            (All-drop IsByte (length structured_magic) input h))
          λ (v, c) (t, a). Ensures-if (remaining c == 0) (λ e. holds t) (λ e. rejected))
      (λ m. rejected)

-- Decoding, where memory can be reserved for each length that the input names and the stack is deep
-- enough for its nesting, ends on every input of bytes: it gives a value of the source's type, or the
-- deserialization error and no other. The code checks neither: the model has a list without a
-- reserved capacity in place of Vec::with_capacity, and recursion without a stack, so an input whose
-- length field or nesting exhausts the machine, which ends the program, is outside this claim.
pub decode_total :
    (input : Bytes)
    → All IsByte input
    → ((v : StructuredValue) × (decode input ≡ ok v) × IsTyped v)
      ⊎ (decode input ≡ err deserialization)
decode_total input h = Ensures-cases (decode-Ensures input h)
