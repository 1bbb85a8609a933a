-- ===== src/Cas.antt =====
-- cas.rs: the OKVC1 envelope, a revision in front of an entry.
pub mod Laws
use openkeyv.Base.{
  ℕ, zero, suc, ◌+◌, ◌-◌, ◌*◌, ◌/◌, ◌%◌, ◌^◌, ◌≤◌, ◌<◌, ◌≡◌, refl, sym, ap, ◌∙◌, fun_ext,
}
use openkeyv.Base.{
  ◌≢◌, ◌↔◌, ◌⊎◌, inl, inr, Bool, true, false, not, ◌&&◌, ◌||◌, Option, none, some, List, [], ◌∷◌,
  ◌++◌, map, append-nil, append_assoc, arith,
}
use openkeyv.Base.{
  ltb, leb, ◌==◌, if◌then◌else◌, Bool-cases, leb→le, le→leb, ltb→lt, lt→ltb, le→ltb,
}
use openkeyv.Base.{
  length, take, drop, get_elem?, All, zip_with, length-append, take-append, drop-append, take-drop,
  length-take, length-take-le, drop-take, length-drop, take_all, All-split, All-drop,
  get_elem?-drop, All-append, length-map,
}
use openkeyv.Base.{
  Error, Result, ok, err, bind, guard, ok_or, map_err, collect, bind-eq-ok, if-eq-ok, ok_or-eq-ok,
}
use openkeyv.Base.{
  serialization, deserialization, invalid_key, invalid_ttl, invalid_value, invalid_operation,
  entry_too_large, entry_too_small, read_only, corrupted_data, batch_size_mismatch,
  invalid_change_cursor, change_cursor_expired, change_feed_lagged, revision_generation,
  out_of_fuel,
}
use openkeyv.Base.Bytes.{
  Bytes, Text, IsByte, bytes_eq, bytes_eq_iff, bytes_eq_refl, starts_with, to_le_bytes,
  from_le_bytes, length-to_le_bytes, to_le_bytes-IsByte, from_le_bytes-to_le_bytes,
  to_le_bytes-from_le_bytes, from_le_bytes-lt,
}
use openkeyv.Platform.{Platform}
use openkeyv.Value.Checked.{Value}
use openkeyv.Entry.{ManagedEntry, is_expired, ttl}
use openkeyv.Entry.Codec

-- A `Revision` is its 16 bytes.
abbrev pub Revision : Type 0
Revision = Bytes

abbrev pub revision_len : ℕ
revision_len = 16

-- b"OKVC1"
abbrev pub cas_magic : Bytes
cas_magic = 0x4f ∷ 0x4b ∷ 0x56 ∷ 0x43 ∷ 0x31 ∷ []

abbrev pub prefix_len : ℕ
prefix_len = 21

pub record CasEntry (T : Type 0) : Type 0 where
  pub entry : ManagedEntry T
  pub revision : Revision

-- `RevisionedEntry` of cas.rs and `RevisionedValue` of protocol.rs.
pub record RevisionedValue (F : Type 0) : Type 0 where
  pub value : Value
  pub revision : Revision
  pub ttl : Option F

module _ {T F : Type 0} (os : Platform T F) where
  unfoldable pub encode : ManagedEntry T → Revision → Bytes
  encode e revision = cas_magic ++ (revision ++ Codec.encode os e)

  unfoldable pub decode_envelope : Bytes → Result (CasEntry T)
  decode_envelope bytes =
      if ltb (length bytes) prefix_len
      then err deserialization
      else if not (bytes_eq (take 5 bytes) cas_magic)
      then err deserialization
      else (bind (Codec.decode os (drop prefix_len bytes))
          λ e. ok (record { entry = e; revision = take revision_len (drop 5 bytes) }))

  unfoldable pub decode : Option Bytes → Result (Option (CasEntry T))
  unfolding decode_envelope
  decode none = ok none
  decode (some bytes) = bind (decode_envelope bytes) λ c. ok (some c)

  -- The clock is read twice: for the test of expiry and for the time that is left.
  unfoldable pub to_revisioned_value : T → T → CasEntry T → Option (RevisionedValue F)
  to_revisioned_value now later cas =
      if is_expired os now cas.entry
      then none
      else some (record {
        value = cas.entry.value;
        revision = cas.revision;
        ttl = ttl os later cas.entry;
      })
