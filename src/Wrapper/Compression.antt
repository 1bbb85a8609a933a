-- ===== src/Wrapper/Compression.antt =====
-- wrapper/compression.rs: values are compressed before they reach the store below. The compressor, of
-- the flate2 package, is a parameter: its two directions give nothing where they fail.
pub mod Laws
use openkeyv.Base.{
  ℕ, zero, suc, ◌+◌, ◌-◌, ◌*◌, ◌/◌, ◌%◌, ◌^◌, ◌≤◌, ◌<◌, ◌≡◌, refl, sym, ap, ◌∙◌, fun_ext,
}
use openkeyv.Base.{
  ◌≢◌, ◌↔◌, ◌⊎◌, inl, inr, Bool, true, false, not, ◌&&◌, ◌||◌, Option, none, some, List, [], ◌∷◌,
  ◌++◌, map, append-nil, append_assoc, arith,
}
use openkeyv.Base.{
  ltb, leb, ◌==◌, if◌then◌else◌, Bool-cases, leb→le, le→leb, ltb→lt, lt→ltb, le→ltb,
}
use openkeyv.Base.{
  length, take, drop, get_elem?, All, zip_with, length-append, take-append, drop-append, take-drop,
  length-take, length-take-le, drop-take, length-drop, take_all, All-split, All-drop,
  get_elem?-drop, All-append, length-map,
}
use openkeyv.Base.{
  Error, Result, ok, err, bind, guard, ok_or, map_err, collect, bind-eq-ok, if-eq-ok, ok_or-eq-ok,
  ok-injective,
}
use openkeyv.Base.{
  serialization, deserialization, invalid_key, invalid_ttl, invalid_value, invalid_operation,
  entry_too_large, entry_too_small, read_only, corrupted_data, batch_size_mismatch,
  invalid_change_cursor, change_cursor_expired, change_feed_lagged, revision_generation,
  out_of_fuel,
}
use openkeyv.Base.Bytes.{
  Bytes, Text, IsByte, bytes_eq, bytes_eq_iff, bytes_eq_refl, bytes_eq-append, starts_with,
  to_le_bytes, from_le_bytes, length-to_le_bytes, to_le_bytes-IsByte, from_le_bytes-to_le_bytes,
  to_le_bytes-from_le_bytes, from_le_bytes-lt,
}
use openkeyv.Platform.{Platform}
use openkeyv.Value.Checked.{Value}
use openkeyv.Entry.{ManagedEntry, make}
use openkeyv.Cas.{Revision, RevisionedValue}
use openkeyv.Protocol.{
  Done, Op, continue, ◌>>=◌, ◌>>◌, pure, lift, KeyValue, CompareAndSwap, SwapResult, DeleteResult,
  Enumerate,
}
use openkeyv.Value.Checked.{ValueKind, tag, from_tag, of_binary}
use openkeyv.Value.Checked
use openkeyv.Protocol.{applied}

-- b"OKVZ1"
abbrev pub compression_magic : Bytes
compression_magic = 0x4f ∷ 0x4b ∷ 0x56 ∷ 0x5a ∷ 0x31 ∷ []

abbrev pub escaped_kind : ℕ
escaped_kind = 255

abbrev pub default_min_size : ℕ
default_min_size = 1024

abbrev first : Bytes → ℕ
first [] = 0
first (b ∷ bs) = b

unfoldable pub should_compress : ℕ → Value → Bool
should_compress min_size v =
    if starts_with compression_magic v.bytes then false else leb min_size (length v.bytes)

module _ (gzip : Bytes → Option Bytes) where
  unfoldable pub compress : ℕ → Value → Result Value
  unfolding should_compress
  compress min_size v =
      if starts_with compression_magic v.bytes
      then ok (of_binary (compression_magic ++ (escaped_kind ∷ (tag v.kind ∷ v.bytes))))
      else if not (should_compress min_size v)
      then ok v
      else (bind (ok_or (gzip v.bytes) serialization)
          λ compressed. ok (of_binary (compression_magic ++ (tag v.kind ∷ compressed))))

module _ (gunzip : Bytes → Option Bytes) where
  unfoldable pub decompress_value : Value → Result Value
  decompress_value v =
      let bytes = v.bytes in
      let marker = first (drop 5 bytes) in
      if not (starts_with compression_magic bytes)
      then ok v
      else if leb (length bytes) 6
      then err corrupted_data
      else if marker == escaped_kind
      then (bind (ok_or (from_tag (first (drop 6 bytes))) corrupted_data)
          λ kind. Checked.new kind (drop 7 bytes))
      else (bind (ok_or (from_tag marker) corrupted_data)
          λ kind. bind (ok_or (gunzip (drop 6 bytes)) corrupted_data) λ buf. Checked.new kind buf)

  -- `value.map(|value| self.decompress_value(value)).transpose()`
  unfoldable pub decompress_some : Option Value → Result (Option Value)
  decompress_some none = ok none
  decompress_some (some v) = bind (decompress_value v) λ plain. ok (some plain)

  module _ {F : Type 0} where
    unfoldable pub decompress_pair : Option (Value × Option F) → Result (Option (Value × Option F))
    decompress_pair none = ok none
    decompress_pair (some p) = bind (decompress_value p.0) λ plain. ok (some (plain, p.1))

    unfoldable pub decompress_revisioned :
        Option (RevisionedValue F) → Result (Option (RevisionedValue F))
    decompress_revisioned none = ok none
    decompress_revisioned (some r) =
        bind (decompress_value r.value) λ plain. ok (some (record r { value = plain }))

    unfoldable pub decompress_swap : SwapResult F → Result (SwapResult F)
    decompress_swap (applied revision) = ok (applied revision)
    decompress_swap (SwapResult.conflict current) =
        bind (decompress_revisioned current) λ c. ok (SwapResult.conflict c)

module _ {S F : Type 0} (gzip gunzip : Bytes → Option Bytes) (min_size : ℕ) where
  unfoldable pub compression_store : KeyValue S F → KeyValue S F
  compression_store inner = record {
    get = λ k c. do
      v ← inner.get k c
      lift (decompress_some gunzip v);
    ttl = λ k c. do
      r ← inner.ttl k c
      lift (decompress_pair gunzip r);
    put = λ k v c t. do
      z ← lift (compress gzip min_size v)
      inner.put k z c t;
    delete = inner.delete;
    get_many = λ ks c. do
      vs ← inner.get_many ks c
      lift (collect (decompress_some gunzip) vs);
    ttl_many = λ ks c. do
      rs ← inner.ttl_many ks c
      lift (collect (decompress_pair gunzip) rs);
    put_many = λ ks vs c t. do
      zs ← lift (collect (compress gzip min_size) vs)
      inner.put_many ks zs c t;
    delete_many = inner.delete_many;
  }

  unfoldable pub compression_cas : CompareAndSwap S F → CompareAndSwap S F
  compression_cas inner = record {
    get_with_revision = λ k c. do
      r ← inner.get_with_revision k c
      lift (decompress_revisioned gunzip r);
    compare_and_swap = λ k x v c t. do
      z ← lift (compress gzip min_size v)
      r ← inner.compare_and_swap k x z c t
      lift (decompress_swap gunzip r);
    compare_and_delete = inner.compare_and_delete;
  }

-- `impl AsyncEnumerateKeys` and `impl AsyncEnumerateCollections`
module _ {S : Type 0} where
  unfoldable pub compression_enumerate : Enumerate S → Enumerate S
  compression_enumerate inner = record { keys = inner.keys; collections = inner.collections }
