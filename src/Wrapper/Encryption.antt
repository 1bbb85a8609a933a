-- ===== src/Wrapper/Encryption.antt =====
-- wrapper/encryption.rs: values are encrypted before they reach the store below. The two functions
-- that the user gives are parameters.
pub mod Laws
use openkeyv.Base.{
  ℕ, zero, suc, ◌+◌, ◌-◌, ◌*◌, ◌/◌, ◌%◌, ◌^◌, ◌≤◌, ◌<◌, ◌≡◌, refl, sym, ap, ◌∙◌, fun_ext,
}
use openkeyv.Base.{
  ◌≢◌, ◌↔◌, ◌⊎◌, inl, inr, Bool, true, false, not, ◌&&◌, ◌||◌, Option, none, some, List, [], ◌∷◌,
  ◌++◌, map, append-nil, append_assoc, arith,
}
use openkeyv.Base.{
  ltb, leb, ◌==◌, if◌then◌else◌, Bool-cases, leb→le, le→leb, ltb→lt, lt→ltb, le→ltb,
}
use openkeyv.Base.{
  length, take, drop, get_elem?, All, zip_with, length-append, take-append, drop-append, take-drop,
  length-take, length-take-le, drop-take, length-drop, take_all, All-split, All-drop,
  get_elem?-drop, All-append, length-map,
}
use openkeyv.Base.{
  Error, Result, ok, err, bind, guard, ok_or, map_err, collect, bind-eq-ok, if-eq-ok, ok_or-eq-ok,
}
use openkeyv.Base.{
  serialization, deserialization, invalid_key, invalid_ttl, invalid_value, invalid_operation,
  entry_too_large, entry_too_small, read_only, corrupted_data, batch_size_mismatch,
  invalid_change_cursor, change_cursor_expired, change_feed_lagged, revision_generation,
  out_of_fuel,
}
use openkeyv.Base.Bytes.{
  Bytes, Text, IsByte, bytes_eq, bytes_eq_iff, bytes_eq_refl, bytes_eq-append, starts_with,
  to_le_bytes, from_le_bytes, length-to_le_bytes, to_le_bytes-IsByte, from_le_bytes-to_le_bytes,
  to_le_bytes-from_le_bytes, from_le_bytes-lt,
}
use openkeyv.Platform.{Platform}
use openkeyv.Value.Checked.{Value}
use openkeyv.Entry.{ManagedEntry, make}
use openkeyv.Cas.{Revision, RevisionedValue}
use openkeyv.Protocol.{
  Done, Op, continue, ◌>>=◌, ◌>>◌, pure, lift, KeyValue, CompareAndSwap, SwapResult, DeleteResult,
  Enumerate,
}
use openkeyv.Value.Checked.{ValueKind, tag, from_tag, of_binary}
use openkeyv.Value.Checked
use openkeyv.Protocol.{applied, deleted}

-- b"OKVE1"
abbrev pub encryption_magic : Bytes
encryption_magic = 0x4f ∷ 0x4b ∷ 0x56 ∷ 0x45 ∷ 0x31 ∷ []

-- `ENCRYPTION_MAGIC.len() + 5`
abbrev pub header_len : ℕ
header_len = 10

abbrev first : Bytes → ℕ
first [] = 0
first (b ∷ bs) = b

module _ (encrypt_fn : Bytes → Result Bytes) (decrypt_fn : Bytes → ℕ → Result Bytes) where
  unfoldable pub encrypt_value : ℕ → Value → Result Value
  encrypt_value version v = bind (encrypt_fn v.bytes) λ encrypted.
      ok (of_binary (encryption_magic ++ (to_le_bytes 4 version ++ (tag v.kind ∷ encrypted))))

  unfoldable pub decrypt_bytes : Bytes → Result Value
  decrypt_bytes bytes =
      if not (starts_with encryption_magic bytes)
      then err corrupted_data
      else if ltb (length bytes) header_len
      then err corrupted_data
      else (bind (ok_or (from_tag (first (drop 9 bytes))) corrupted_data) λ kind.
          bind (decrypt_fn (drop header_len bytes) (from_le_bytes (take 4 (drop 5 bytes))))
            λ plain. Checked.new kind plain)

  unfoldable pub decrypt_value : Option Value → Result (Option Value)
  decrypt_value none = ok none
  decrypt_value (some v) = bind (decrypt_bytes v.bytes) λ plain. ok (some plain)

  module _ {F : Type 0} where
    unfoldable pub decrypt_pair : Option (Value × Option F) → Result (Option (Value × Option F))
    decrypt_pair none = ok none
    decrypt_pair (some p) = bind (decrypt_bytes p.0.bytes) λ plain. ok (some (plain, p.1))

    unfoldable pub decrypt_revisioned :
        Option (RevisionedValue F) → Result (Option (RevisionedValue F))
    decrypt_revisioned none = ok none
    decrypt_revisioned (some r) =
        bind (decrypt_bytes r.value.bytes) λ plain. ok (some (record r { value = plain }))

    unfoldable pub decrypt_swap : SwapResult F → Result (SwapResult F)
    decrypt_swap (applied revision) = ok (applied revision)
    decrypt_swap (SwapResult.conflict current) =
        bind (decrypt_revisioned current) λ c. ok (SwapResult.conflict c)

  module _ {S F : Type 0} (version : ℕ) where
    unfoldable pub encryption_store : KeyValue S F → KeyValue S F
    encryption_store inner = record {
      get = λ k c. do
        v ← inner.get k c
        lift (decrypt_value v);
      ttl = λ k c. do
        r ← inner.ttl k c
        lift (decrypt_pair r);
      put = λ k v c t. do
        e ← lift (encrypt_value version v)
        inner.put k e c t;
      delete = inner.delete;
      get_many = λ ks c. do
        vs ← inner.get_many ks c
        lift (collect decrypt_value vs);
      ttl_many = λ ks c. do
        rs ← inner.ttl_many ks c
        lift (collect decrypt_pair rs);
      put_many = λ ks vs c t.
          if not (length ks == length vs)
          then lift (err (batch_size_mismatch (length ks) (length vs)))
          else (lift (collect (encrypt_value version) vs) >>= λ es. inner.put_many ks es c t);
      delete_many = inner.delete_many;
    }

    unfoldable pub encryption_cas : CompareAndSwap S F → CompareAndSwap S F
    encryption_cas inner = record {
      get_with_revision = λ k c. do
        r ← inner.get_with_revision k c
        lift (decrypt_revisioned r);
      compare_and_swap = λ k x v c t. do
        e ← lift (encrypt_value version v)
        r ← inner.compare_and_swap k x e c t
        lift (decrypt_swap r);
      compare_and_delete = inner.compare_and_delete;
    }

-- `impl AsyncEnumerateKeys` and `impl AsyncEnumerateCollections`
module _ {S : Type 0} where
  unfoldable pub encryption_enumerate : Enumerate S → Enumerate S
  encryption_enumerate inner = record { keys = inner.keys; collections = inner.collections }
