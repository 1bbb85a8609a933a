-- ===== src/Utils/Compound/Laws.antt =====
-- Compound identities are unambiguous.
use openkeyv.Base.{ℕ, ◌^◌, ◌<◌, ◌≡◌, refl, sym, ap, ◌∙◌}
use openkeyv.Base.{
  ◌≢◌, inl, inr, true, ◌&&◌, Option, none, some, [], ◌∷◌, ◌++◌, append_assoc, arith,
}
use openkeyv.Base.{Bool-cases}
use openkeyv.Base.{length, take, length-append, take-append, drop-append, take-drop}
use openkeyv.Base.{ok}
use openkeyv.Base.Bytes.{Text, bytes_eq, bytes_eq_iff, bytes_eq_refl, starts_with}
use mathlib.Core.Path.{ap₂}
use openkeyv.Value.Utf8.{is_utf8, is_utf8-starts_char}
use openkeyv.Utils.Decimal.{decimal, all_digits, decimal-IsDecimal, parse_usize-decimal}
use openkeyv.Utils.Compound.{
  colon, Subspace, collection_prefix, subspace_prefix, scope, compound_key, subspace_compound_key,
  split_once, split_at, decode_length, decompound_key, strip_prefix, ok_option, and_then,
  subspace_decompound_key,
}

split_once-digits :
    (d rest : Text) → all_digits d ≡ true → split_once (d ++ colon ∷ rest) ≡ some (d, rest)
unfolding split_once all_digits
split_once-digits [] rest h = refl
split_once-digits (c ∷ d) rest h = ground (arith, split_once-digits d rest)

decode_length-decimal : (n : ℕ) → n < 2 ^ 64 → decode_length (decimal n) ≡ ok n
unfolding decode_length
decode_length-decimal n h =
    let d = decimal-IsDecimal n in
    ground (arith, d.digits, d.nonempty, d.canonical, d.short, parse_usize-decimal n h)

split_at-append : (c k : Text) → is_utf8 k ≡ true → split_at (length c) (c ++ k) ≡ ok (c, k)
unfolding split_at
split_at-append c k h =
    rw (take-append c k, drop-append c k)
      (ground (arith, length-append c k, is_utf8-starts_char k h))

decompound-framed :
    (c k : Text)
    → is_utf8 k ≡ true
    → length c < 2 ^ 64
    → decompound_key (decimal (length c) ++ colon ∷ (c ++ k)) ≡ ok (c, k)
unfolding decompound_key
decompound-framed c k h n =
    rw
      (
        split_once-digits (decimal (length c)) (c ++ k) (decimal-IsDecimal (length c)).digits,
        decode_length-decimal (length c) n,
      )
      (split_at-append c k h)

-- Decoding an identity gives the collection and the key back, whatever bytes they hold, for every
-- key that is valid UTF-8 and every collection shorter than 2^64 bytes.
pub decompound_key-compound_key :
    (collection key : Text)
    → is_utf8 key ≡ true
    → length collection < 2 ^ 64
    → decompound_key (compound_key collection key) ≡ ok (collection, key)
unfolding compound_key collection_prefix
decompound_key-compound_key c k h n = rw append_assoc (decompound-framed c k h n)

strip_prefix-append : (p k : Text) → strip_prefix p (p ++ k) ≡ some k
unfolding strip_prefix starts_with
strip_prefix-append p k = rw (take-append p k, drop-append p k, bytes_eq_refl p)

pub strip_prefix-some : (p t : Text) {k : Text} → strip_prefix p t ≡ some k → t ≡ p ++ k
unfolding strip_prefix starts_with
strip_prefix-some p t {k} h = elim (Bool-cases (bytes_eq (take (length p) t) p)) [
  | inl same ↦ ground (arith, take-drop (length p) t, bytes_eq_iff (take (length p) t) p)
  | inr differ ↦ cc (rw differ at h)
]

-- The frame of a text tells its end: texts framed alike in front of anything are the same.
pub framed_unique : (s t a b : Text) → collection_prefix s ++ a ≡ collection_prefix t ++ b → s ≡ t
unfolding collection_prefix
framed_unique s t a b e =
    let e' : decimal (length s) ++ colon ∷ (s ++ a) ≡ decimal (length t) ++ colon ∷ (t ++ b) =
      simp append_assoc at e in
    let p = split_once-digits (decimal (length s)) (s ++ a) (decimal-IsDecimal (length s)).digits in
    let q = split_once-digits (decimal (length t)) (t ++ b) (decimal-IsDecimal (length t)).digits in
    let same_digits : decimal (length s) ≡ decimal (length t) = cc (e', p, q) in
    let same_rest : s ++ a ≡ t ++ b = cc (e', p, q) in
    let same_length : length s ≡ length t =
      cc
        (same_digits, (decimal-IsDecimal (length s)).value, (decimal-IsDecimal (length t)).value) in
    cc (same_length, same_rest, take-append s a, take-append t b)

-- Two pairs of a collection and a key with the same identity are the same pair, whatever the texts.
pub compound_key-injective :
    (c k d j : Text) → compound_key c k ≡ compound_key d j → (c ≡ d) × (k ≡ j)
unfolding compound_key
compound_key-injective c k d j e =
    let same : c ≡ d = framed_unique c d k j e in
    let front = ap collection_prefix same in
    let len = ap length front in
    (
      same,
      cc (e, front, len, drop-append (collection_prefix c) k, drop-append (collection_prefix d) j),
    )

pub bytes_eq-compound_key :
    (c k d j : Text)
    → bytes_eq (compound_key c k) (compound_key d j) ≡ (bytes_eq c d && bytes_eq k j)
bytes_eq-compound_key c k d j = elim (Bool-cases (bytes_eq (compound_key c k) (compound_key d j))) [
  | inl same ↦
      let (p, q) = compound_key-injective c k d j ((bytes_eq_iff _ _).0 same) in
      rw (same, p, q, bytes_eq_refl d, bytes_eq_refl j) refl
  | inr differ ↦ elim (Bool-cases (bytes_eq c d && bytes_eq k j)) [
    | inl both ↦
        let p : c ≡ d = (bytes_eq_iff c d).0 (ground arith) in
        let q : k ≡ j = (bytes_eq_iff k j).0 (ground arith) in
        cc (differ, (bytes_eq_iff (compound_key c k) (compound_key d j)).1 (ap₂ compound_key p q))
    | inr not_both ↦ differ ∙ sym not_both
  ]
]

-- Inside a subspace an identity gives the collection and the key back, for every key that is valid
-- UTF-8 and every collection shorter than 2^64 bytes.
pub subspace_decompound-compound :
    (s : Subspace) (collection key : Text)
    → is_utf8 key ≡ true
    → length collection < 2 ^ 64
    → subspace_decompound_key s (subspace_compound_key s collection key) ≡ some (collection, key)
unfolding subspace_decompound_key subspace_compound_key scope
subspace_decompound-compound s c k h n = rw (
  strip_prefix-append (subspace_prefix s) (compound_key c k),
  decompound_key-compound_key c k h n,
)

-- An identity of one subspace is none of another: for two different subspaces that are not empty,
-- decoding in one what the other made gives nothing.
pub subspace_isolation :
    (s t : Subspace) (collection key : Text)
    → s ≢ []
    → t ≢ []
    → s ≢ t
    → subspace_decompound_key t (subspace_compound_key s collection key) ≡ none
unfolding subspace_decompound_key subspace_compound_key scope subspace_prefix
subspace_isolation [] t c k hs ht ne = absurd (hs refl)
subspace_isolation (x ∷ s) [] c k hs ht ne = absurd (ht refl)
subspace_isolation (x ∷ s) (y ∷ t) c k hs ht ne =
    go (strip_prefix (subspace_prefix (y ∷ t)) (subspace_prefix (x ∷ s) ++ compound_key c k)) refl
  where
    go :
        (o : Option Text)
        → strip_prefix (subspace_prefix (y ∷ t)) (subspace_prefix (x ∷ s) ++ compound_key c k) ≡ o
        → and_then
            (strip_prefix (subspace_prefix (y ∷ t)) (subspace_prefix (x ∷ s) ++ compound_key c k))
            (λ identity. ok_option (decompound_key identity))
          ≡ none
    go none e = rw e
    go (some rest) e =
        absurd
          (ne (framed_unique (x ∷ s) (y ∷ t) (compound_key c k) rest (strip_prefix-some _ _ e)))
