-- ===== src/Value/RoundTrip.antt =====
-- A structured value that is encoded and decoded again is itself, with its dicts in key order.
pub mod Dict
use openkeyv.Base.{
  ℕ, zero, suc, ◌+◌, ◌-◌, ◌*◌, ◌/◌, ◌%◌, ◌^◌, ◌≤◌, ◌<◌, ◌≡◌, refl, sym, ap, ◌∙◌, fun_ext,
}
use openkeyv.Base.{
  ◌≢◌, ◌↔◌, ◌⊎◌, inl, inr, Bool, true, false, not, ◌&&◌, ◌||◌, Option, none, some, List, [], ◌∷◌,
  ◌++◌, map, append-nil, append_assoc, arith,
}
use openkeyv.Base.{
  ltb, leb, ◌==◌, if◌then◌else◌, Bool-cases, leb→le, le→leb, ltb→lt, lt→ltb, le→ltb,
}
use openkeyv.Base.{
  length, take, drop, get_elem?, All, zip_with, length-append, take-append, drop-append, take-drop,
  length-take, length-take-le, drop-take, length-drop, take_all, All-split, All-drop,
  get_elem?-drop, All-append, length-map,
}
use openkeyv.Base.{
  Error, Result, ok, err, bind, guard, ok_or, map_err, collect, bind-eq-ok, if-eq-ok, ok_or-eq-ok,
  ok-injective,
}
use openkeyv.Base.{
  serialization, deserialization, invalid_key, invalid_ttl, invalid_value, invalid_operation,
  entry_too_large, entry_too_small, read_only, corrupted_data, batch_size_mismatch,
  invalid_change_cursor, change_cursor_expired, change_feed_lagged, revision_generation,
  out_of_fuel,
}
use openkeyv.Base.Bytes.{
  Bytes, Text, IsByte, bytes_eq, bytes_eq_iff, bytes_eq_refl, bytes_eq-append, starts_with,
  starts_with-append, to_le_bytes, from_le_bytes, length-to_le_bytes, to_le_bytes-IsByte,
  from_le_bytes-to_le_bytes, to_le_bytes-from_le_bytes, from_le_bytes-lt,
}
use mathlib.Core.Path.{subst}
use openkeyv.Value.Utf8.{is_utf8}
use openkeyv.Value.Structured.{
  StructuredValue, Items, Entries, null, bool, integer, unsigned_integer, float, string, bytes,
  list, dict, nil, cons, end, entry, Pending, count_items, count_entries, structured_magic,
  write_len, insert_sorted, sort_entries, write_entries, encode_value, encode_items, encode_entries,
  encode,
}
use openkeyv.Value.Decode.{
  Cursor, Parser, remaining, read_bytes, read_u8, read_word, read_len, read_text, decode_items,
  decode_entries, decode_tag, decode_value, decode,
}
use openkeyv.Value.Reads.{
  Reads, Reads-pure, Reads-bind, read_bytes-Reads, read_u8-Reads, read_word-Reads, read_text-Reads,
}
use openkeyv.Value.Canonical.{
  canonical, canonical_items, canonical_entries, IsTyped, AllTyped, EntriesTyped,
}
use openkeyv.Value.RoundTrip.Dict.{
  Decodes, Matches, insert-Matches, After, sort-After, write_len-eq-ok, entries-Reads,
}

tagged :
    (f t : ℕ) (body : Bytes) (a : StructuredValue)
    → Reads (decode_tag (decode_value f) t) body a
    → Reads (decode_value (suc f)) (t ∷ body) a
unfolding decode_value
tagged f t body a r =
    Reads-bind read_u8 (λ tag. decode_tag (decode_value f) tag) (t ∷ []) body t a (read_u8-Reads t)
      r

-- A reader of one part, whose value is wrapped.
Reads-map :
    {A B : Type 0} (p : Parser A) (g : A → B) (b : Bytes) (a : A)
    → Reads p b a
    → Reads (λ c. bind (p c) λ (x, c'). ok (g x, c')) b (g a)
Reads-map p g b a r input front rest pos h e l = rw (r input front rest pos h e l) refl

-- A length, and a part that it announces.
counted :
    {A : Type 0} (len : ℕ) (p : ℕ → Parser A) (b : Bytes) (a : A)
    → len < 2 ^ 32
    → Reads (p len) b a
    → Reads (λ c. bind (read_len c) λ (n, c'). p n c') (to_le_bytes 4 len ++ b) a
unfolding read_len
counted len p b a l r =
    Reads-bind read_len p (to_le_bytes 4 len) b len a (read_word-Reads 4 len l) r

length-insert_sorted :
    (k : Text) (r : Result Bytes) (ps : Pending) → length (insert_sorted k r ps) ≡ suc (length ps)
unfolding insert_sorted
length-insert_sorted k r [] = refl
length-insert_sorted k r (p ∷ ps) = ground (arith, length-insert_sorted k r ps)

length-sort_entries : (ps : Pending) → length (sort_entries ps) ≡ length ps
unfolding sort_entries
length-sort_entries [] = refl
length-sort_entries ((k, r) ∷ ps) =
    length-insert_sorted k r (sort_entries ps) ∙ ap suc (length-sort_entries ps)

length-encode_entries : (es : Entries) → length (encode_entries es) ≡ count_entries es
unfolding encode_entries
length-encode_entries end = refl
length-encode_entries (entry k v es) = ap suc (length-encode_entries es)

-- A value of one tag, from the reader of what stands behind the tag.
from_tagged :
    (t : ℕ) (body : Bytes) (a : StructuredValue)
    → ((f : ℕ) → length body < f → Reads (decode_tag (decode_value f) t) body a)
    → Decodes (ok (t ∷ body)) a
from_tagged t body a r b h zero l = absurd (omega arith)
from_tagged t body a r b h (suc f) l =
    let eq = ok-injective h in
    subst (λ x. Reads (decode_value (suc f)) x a) eq
      (tagged f t body a (r f (omega (arith, ap length eq))))

-- A tag and a length in front of the rest.
from_counted :
    (t len : ℕ) (r : Result Bytes) (a : StructuredValue)
    → ((body : Bytes)
        → r ≡ ok body
        → len < 2 ^ 32
        → (f : ℕ) → length body < f
        → Reads (decode_tag (decode_value f) t) (to_le_bytes 4 len ++ body) a)
    → Decodes (bind (write_len len) λ n. bind r λ body. ok (t ∷ (n ++ body))) a
from_counted t len r a read b h f l =
    let (n, len_ok, h₁) = bind-eq-ok (write_len len) _ h in
    let (body, of_r, h₂) = bind-eq-ok r _ h₁ in
    let (short, n_eq) = write_len-eq-ok len n len_ok in
    from_tagged t (to_le_bytes 4 len ++ body) a
      (λ g lt. read body of_r short g (omega (arith, length-append {0} (to_le_bytes 4 len) body))) b
      (rw (← n_eq) h₂) f l

mutual
  unfolding encode_value canonical IsTyped decode_tag decode_items

  value-Decodes : (v : StructuredValue) → IsTyped v → Decodes (encode_value v) (canonical v)
  value-Decodes null t = from_tagged 0 [] null λ f l. Reads-pure null
  value-Decodes (bool false) t = from_tagged 1 [] (bool false) λ f l. Reads-pure (bool false)
  value-Decodes (bool true) t = from_tagged 2 [] (bool true) λ f l. Reads-pure (bool true)
  value-Decodes (integer w) t =
      from_tagged 3 (to_le_bytes 8 w) (integer w)
        λ f l. Reads-map (read_word 8) integer (to_le_bytes 8 w) w (read_word-Reads 8 w t)
  value-Decodes (unsigned_integer w) t =
      from_tagged 9 (to_le_bytes 8 w) (unsigned_integer w)
        λ f l. Reads-map (read_word 8) unsigned_integer (to_le_bytes 8 w) w (read_word-Reads 8 w t)
  value-Decodes (float w) t =
      from_tagged 4 (to_le_bytes 8 w) (float w)
        λ f l. Reads-map (read_word 8) float (to_le_bytes 8 w) w (read_word-Reads 8 w t)
  value-Decodes (string s) t = from_counted 5 (length s) (ok s) (string s) λ body eq short f l.
      subst (λ x. Reads (decode_tag (decode_value f) 5) (to_le_bytes 4 (length s) ++ x) (string s))
        (ok-injective eq)
        (Reads-map read_text string (to_le_bytes 4 (length s) ++ s) s (read_text-Reads s t short))
  value-Decodes (bytes s) t = from_counted 6 (length s) (ok s) (bytes s) λ body eq short f l.
      subst (λ x. Reads (decode_tag (decode_value f) 6) (to_le_bytes 4 (length s) ++ x) (bytes s))
        (ok-injective eq)
        (counted (length s) (λ n c. bind (read_bytes n c) λ (b, c'). ok (bytes b, c')) s (bytes s)
          short (Reads-map (read_bytes (length s)) bytes s s (read_bytes-Reads s)))
  value-Decodes (list xs) t =
      from_counted 7 (count_items xs) (encode_items xs) (list (canonical_items xs))
        λ body eq short f l.
          counted (count_items xs)
            (λ n c. bind (decode_items (decode_value f) n c) λ (ys, c'). ok (list ys, c')) body
            (list (canonical_items xs)) short
            (Reads-map (decode_items (decode_value f) (count_items xs)) list body
              (canonical_items xs) (items-Reads xs t body eq f l))
  value-Decodes (dict es) t =
      let ps = sort_entries (encode_entries es) in
      let counts : length ps ≡ count_entries es =
        length-sort_entries (encode_entries es) ∙ length-encode_entries es in
      from_counted 8 (count_entries es) (write_entries none ps) (dict (canonical_entries es))
        λ body eq short f l.
          counted (count_entries es)
            (λ n c. bind (decode_entries (decode_value f) n [] c) λ (fs, c'). ok (dict fs, c')) body
            (dict (canonical_entries es)) short
            (Reads-map (decode_entries (decode_value f) (count_entries es) []) dict body
              (canonical_entries es)
              (subst (λ n. Reads (decode_entries (decode_value f) n []) body (canonical_entries es))
                counts
                (entries-Reads ps (canonical_entries es) none [] f body (entries-Matches es t)
                  (sort-After (encode_entries es)) refl eq l)))

  items-Reads :
      (xs : Items)
      → AllTyped xs
      → (b : Bytes) → encode_items xs ≡ ok b
      → (f : ℕ) → length b < f
      → Reads (decode_items (decode_value f) (count_items xs)) b (canonical_items xs)
  items-Reads nil t b h f l =
      subst (λ x. Reads (λ c. ok (nil, c)) x nil) (ok-injective h) (Reads-pure nil)
  items-Reads (cons v xs) (tv, ts) b h f l =
      let (x, of_v, h₁) = bind-eq-ok (encode_value v) _ h in
      let (more, of_xs, h₂) = bind-eq-ok (encode_items xs) _ h₁ in
      let whole : x ++ more ≡ b = ok-injective h₂ in
      let total : length x + length more ≡ length b =
        sym (length-append x more) ∙ ap length whole in
      subst
        (λ y.
          Reads (decode_items (decode_value f) (suc (count_items xs))) y
            (cons (canonical v) (canonical_items xs)))
        (ap (λ y. x ++ y) (append-nil more) ∙ whole)
        (Reads-bind (decode_value f)
          (λ w c.
            bind (decode_items (decode_value f) (count_items xs) c) λ (ys, c'). ok (cons w ys, c'))
          x (more ++ []) (canonical v) (cons (canonical v) (canonical_items xs))
          (value-Decodes v tv x of_v f (omega (arith, total)))
          (Reads-bind (decode_items (decode_value f) (count_items xs))
            (λ ys c. ok (cons (canonical v) ys, c)) more [] (canonical_items xs)
            (cons (canonical v) (canonical_items xs))
            (items-Reads xs ts more of_xs f (omega (arith, total)))
            (Reads-pure (cons (canonical v) (canonical_items xs)))))

  entries-Matches :
      (es : Entries)
      → EntriesTyped es
      → Matches (sort_entries (encode_entries es)) (canonical_entries es)
  entries-Matches end t = tt
  entries-Matches (entry k v es) (u, tv, ts) =
      insert-Matches k (encode_value v) (canonical v) (sort_entries (encode_entries es))
        (canonical_entries es) u (value-Decodes v tv) (entries-Matches es ts)

-- A body that the reader of one value takes whole.
decode_body-Reads :
    (body : Bytes) (a : StructuredValue)
    → length body < 2 ^ 64
    → Reads (decode_value (suc (length body))) body a
    → decode (structured_magic ++ body) ≡ ok a
unfolding decode remaining
decode_body-Reads body a l r =
    rw
      (
        starts_with-append structured_magic body,
        drop-append structured_magic body,
        r body [] [] 0 (sym (append-nil body)) refl l,
      )
      (ground arith)

-- Decoding what a structured value encodes to gives the value with its dicts in the order of their
-- keys: for every value of the source's type whose encoding succeeds and is shorter than 2^64 bytes.
pub decode-encode_structured :
    (v : StructuredValue) (b : Bytes)
    → IsTyped v
    → encode v ≡ ok b
    → length b < 2 ^ 64
    → decode b ≡ ok (canonical v)
unfolding encode
decode-encode_structured v b t h l =
    let (body, of_v, h₁) = bind-eq-ok (encode_value v) _ h in
    let whole : structured_magic ++ body ≡ b = ok-injective h₁ in
    subst (λ x. decode x ≡ ok (canonical v)) whole
      (decode_body-Reads body (canonical v)
        (omega (arith, length-append structured_magic body, ap length whole, l))
        (value-Decodes v t body of_v (suc (length body)) (omega arith)))
