-- ===== src/Value/Reads.antt =====
-- Readers that take given bytes off the input, and how they compose.
use openkeyv.Base.{ℕ, ◌+◌, ◌^◌, ◌≤◌, ◌<◌, ◌≡◌, refl, sym, ap, ◌∙◌}
use openkeyv.Base.{true, [], ◌∷◌, ◌++◌, append_assoc, arith}
use openkeyv.Base.{if◌then◌else◌}
use openkeyv.Base.{length, take, drop, length-append, take-append, drop-append}
use openkeyv.Base.{ok, err, bind}
use openkeyv.Base.{deserialization}
use openkeyv.Base.Bytes.{Bytes, Text, to_le_bytes, length-to_le_bytes, from_le_bytes-to_le_bytes}
use openkeyv.Value.Utf8.{is_utf8}
use openkeyv.Value.Decode.{Parser, read_bytes, read_u8, read_word, read_len, read_text}

-- The reader takes `b` off the input, wherever it stands, and gives `a`.
abbrev pub Reads : {A : Type 0} → Parser A → Bytes → A → Type 0
Reads p b a =
    (input front rest : Bytes) (pos : ℕ)
    → input ≡ front ++ (b ++ rest)
    → pos ≡ length front
    → length input < 2 ^ 64
    → p (record { input = input; pos = pos })
      ≡ ok (a, record { input = input; pos = pos + length b })

pub Reads-pure : {A : Type 0} (a : A) → Reads (λ c. ok (a, c)) [] a
Reads-pure a input front rest pos h p l =
    ap (λ n. ok (a, record { input = input; pos = n })) (omega arith)

pub Reads-bind :
    {A B : Type 0} (p : Parser A) (q : A → Parser B) (b b' : Bytes) (a : A) (a' : B)
    → Reads p b a
    → Reads (q a) b' a'
    → Reads (λ c. bind (p c) λ (x, c'). q x c') (b ++ b') a'
Reads-bind p q b b' a a' r s input front rest pos h e l =
    rw (r input front (b' ++ rest) pos (h ∙ ap (λ t. front ++ t) (append_assoc b b' rest)) e l) (
      s input (front ++ b) rest (pos + length b) (h ∙ simp append_assoc)
        (rw length-append (omega (arith, e))) l
      ∙ ap (λ n. ok (a', record { input = input; pos = n })) (rw length-append (omega arith)))

slice : (front b rest : Bytes) → take (length b) (drop (length front) (front ++ (b ++ rest))) ≡ b
slice front b rest = rw (drop-append front (b ++ rest), take-append b rest) refl

pub read_bytes-Reads : (b : Bytes) → Reads (read_bytes (length b)) b b
unfolding read_bytes
read_bytes-Reads b input front rest pos h e l =
    let fits : pos + length b ≤ length input =
      rw (h, length-append, length-append) (omega (arith, e)) in
    let cut : take (length b) (drop pos input) ≡ b = rw (h, e) (slice front b rest) in
    rw (cut) (ground (arith, fits))

pub read_u8-Reads : (t : ℕ) → Reads read_u8 (t ∷ []) t
unfolding read_u8
read_u8-Reads t input front rest pos h e l =
    rw (read_bytes-Reads (t ∷ []) input front rest pos h e l) refl

pub read_word-Reads : (n w : ℕ) → w < 256 ^ n → Reads (read_word n) (to_le_bytes n w) w
unfolding read_word
read_word-Reads n w b input front rest pos h e l =
    rw
      (
        ap (λ k. read_bytes k (record { input = input; pos = pos })) (sym (length-to_le_bytes n w)),
        read_bytes-Reads (to_le_bytes n w) input front rest pos h e l,
        from_le_bytes-to_le_bytes n w b,
      )
      refl

pub read_text-Reads :
    (s : Text)
    → is_utf8 s ≡ true
    → length s < 2 ^ 32
    → Reads read_text (to_le_bytes 4 (length s) ++ s) s
unfolding read_text read_len
read_text-Reads s u b =
    Reads-bind read_len
      (λ len c.
        bind (read_bytes len c) λ (t, c'). if is_utf8 t then ok (t, c') else err deserialization)
      (to_le_bytes 4 (length s)) s (length s) s (read_word-Reads 4 (length s) b)
      (λ input front rest pos h e l. rw (read_bytes-Reads s input front rest pos h e l, u) refl)
