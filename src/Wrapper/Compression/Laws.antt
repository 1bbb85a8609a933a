-- ===== src/Wrapper/Compression/Laws.antt =====
-- What is compressed is decompressed to itself, alone and through a store.
use openkeyv.Base.{ℕ, ◌<◌, ◌≡◌, refl, sym, ap, ◌∙◌}
use openkeyv.Base.{inl, inr, Bool, true, false, not, Option, none, some, [], ◌∷◌, ◌++◌, arith}
use openkeyv.Base.{◌==◌, if◌then◌else◌, Bool-cases}
use openkeyv.Base.{length}
use openkeyv.Base.{Result, ok, ok_or, bind-eq-ok, ok_or-eq-ok, ok-injective}
use openkeyv.Base.{serialization}
use openkeyv.Base.Bytes.{Bytes, Text, bytes_eq, starts_with}
use mathlib.Core.Path.{subst}
use openkeyv.Platform.{Platform}
use openkeyv.Value.Checked.{Value}
use openkeyv.Entry.{ManagedEntry, make, is_expired}
use openkeyv.Protocol.{KeyValue}
use openkeyv.Value.Checked.{ValueKind, tag, from_tag, of_binary}
use openkeyv.Value.Checked
use openkeyv.Value.Laws.{Wellformed, new-Wellformed, from_tag-tag_lem}
use openkeyv.Protocol.Contract.{Model, Contract, live, resolve, same_place, same_place_refl}
use openkeyv.Protocol.Clients.{get-put, value-make}
use openkeyv.Wrapper.Compression.{
  compression_magic, escaped_kind, should_compress, compress, decompress_value, decompress_some,
  compression_store,
}

-- What holds of the value of a test whose first branch is a value.
if-ok :
    {A : Type 0} (b : Bool) (P : A → Type 0) {x a : A} {r : Result A}
    → (if b then ok x else r) ≡ ok a
    → (b ≡ true → P x)
    → (b ≡ false → r ≡ ok a → P a)
    → P a
if-ok true P h k k' = subst P (ok-injective h) (k refl)
if-ok false P h k k' = k' refl h

module _ (gzip gunzip : Bytes → Option Bytes) where
  -- What the program relies on in the compressor: a stream is never empty, and decompresses to
  -- what was compressed.
  abbrev pub IsCompressor : Type 0
  IsCompressor = (b z : Bytes) → gzip b ≡ some z → (0 < length z) × (gunzip z ≡ some b)

  tag_is_kind : (k : ValueKind) → (tag k == escaped_kind) ≡ false
  unfolding tag
  tag_is_kind k = ground arith

  decompress-escaped :
      (v : Value)
      → Wellformed v.kind v.bytes
      → decompress_value gunzip
          (of_binary (compression_magic ++ (escaped_kind ∷ (tag v.kind ∷ v.bytes))))
        ≡ ok v
  unfolding decompress_value of_binary Checked.new_unchecked starts_with bytes_eq
  decompress-escaped v w =
      rw (from_tag-tag_lem v.kind, (new-Wellformed v.kind v.bytes).0.1 w) (ground arith)

  decompress-stream :
      (v : Value) (z : Bytes)
      → Wellformed v.kind v.bytes
      → 0 < length z
      → gunzip z ≡ some v.bytes
      → decompress_value gunzip (of_binary (compression_magic ++ (tag v.kind ∷ z))) ≡ ok v
  unfolding decompress_value of_binary Checked.new_unchecked starts_with bytes_eq
  decompress-stream v (x ∷ z) w l g =
      rw (tag_is_kind v.kind, from_tag-tag_lem v.kind, g, (new-Wellformed v.kind v.bytes).0.1 w)
        (ground arith)
  decompress-stream v [] w l g = absurd (omega arith)

  decompress-plain :
      (v : Value) → starts_with compression_magic v.bytes ≡ false → decompress_value gunzip v ≡ ok v
  unfolding decompress_value
  decompress-plain v h = rw h refl

  -- A value whose payload is well formed is given back by the decompression, kind included, whether
  -- it was compressed, left as it is for its size, or escaped since it looks compressed.
  pub decompress-compress :
      (min_size : ℕ) (v e : Value)
      → IsCompressor
      → Wellformed v.kind v.bytes
      → compress gzip min_size v ≡ ok e
      → decompress_value gunzip e ≡ ok v
  unfolding compress
  decompress-compress min_size v e inverse w h =
      let P : Value → Type 0 = λ x. decompress_value gunzip x ≡ ok v in
      if-ok (starts_with compression_magic v.bytes) P h (λ looks. decompress-escaped v w)
        λ plain h₁.
          if-ok (not (should_compress min_size v)) P h₁ (λ small. decompress-plain v plain)
            λ large h₂.
              let (z, zipped, h₃) = bind-eq-ok (ok_or (gzip v.bytes) serialization) _ h₂ in
              let (some_byte, back) =
                inverse v.bytes z (ok_or-eq-ok (gzip v.bytes) serialization zipped) in
              subst P (ok-injective h₃) (decompress-stream v z w some_byte back)

shown :
    {T F : Type 0} (os : Platform T F) (gunzip : Bytes → Option Bytes) (now : T) (v : Value)
    (e : ManagedEntry T)
    → decompress_value gunzip e.value ≡ ok v
    → decompress_some gunzip (live os now (some e))
      ≡ ok (if is_expired os now e then none else some v)
unfolding decompress_some
shown os gunzip now v e h = elim (Bool-cases (is_expired os now e)) [
  | inl old ↦ rw old refl
  | inr fresh ↦ rw (fresh, h) refl
]

module _ {T F S : Type 0} (os : Platform T F) (gzip gunzip : Bytes → Option Bytes)
    (inner : KeyValue S F) (m : Model S T) (store : Contract os inner m) where
  -- A value whose payload is well formed for its kind, and that the wrapper and the store accept, is
  -- what a read through the wrapper just after shows for as long as its entry has not expired, and
  -- then nothing; the store below keeps the contract, and gunzip undoes gzip, which gives no empty
  -- stream. A value of Value::new_unchecked whose payload is not well formed is not covered.
  pub compressed_get-put :
      (min_size : ℕ) (s : S) (k : Text) (v z : Value) (c : Option Text) (ttl : Option F)
      (e : ManagedEntry T)
      → IsCompressor gzip gunzip
      → Wellformed v.kind v.bytes
      → compress gzip min_size v ≡ ok z
      → make os (m.now s) z ttl ≡ ok e
      → let wrapped = compression_store gzip gunzip min_size inner in
        let s' = (wrapped.put k v c ttl s).1 in
        (wrapped.get k c s').0 ≡ ok (if is_expired os (m.now s') e then none else some v)
  unfolding compression_store decompress_some
  compressed_get-put min_size s k v z c ttl e inverse w h made =
      let s' = (inner.put k z c ttl s).1 in
      let there : same_place (resolve (m.default s) c) k (resolve (m.default s) c) k ≡ true =
        same_place_refl (resolve (m.default s) c) k in
      rw
        (
          h,
          get-put os inner m store s k z c ttl e made k c,
          there,
          shown os gunzip (m.now s') v e (
              decompress-compress gzip gunzip min_size v e.value inverse w
                (h ∙ ap ok (sym (value-make os (m.now s) z ttl e made)))),
        )
        refl
