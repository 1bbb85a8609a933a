-- ===== src/Entry/Codec.antt =====
-- entry/codec.rs: the OKVE1 bytes of an entry.
use openkeyv.Base.{ℕ, ◌+◌, ◌/◌, ◌%◌, ◌^◌}
use openkeyv.Base.{Bool, true, false, not, Option, none, some, [], ◌∷◌, ◌++◌}
use openkeyv.Base.{ltb, leb, ◌==◌, if◌then◌else◌}
use openkeyv.Base.{length, take, drop, get_elem?}
use openkeyv.Base.{Result, ok, err, bind, ok_or}
use openkeyv.Base.{deserialization}
use openkeyv.Base.Bytes.{Bytes, bytes_eq, to_le_bytes, from_le_bytes}
use openkeyv.Platform.{Platform}
use openkeyv.Value.Checked.{Value, ValueKind, tag, from_tag}
use openkeyv.Value.Checked
use openkeyv.Entry.{ManagedEntry}

-- b"OKVE1"
abbrev pub magic : Bytes
magic = 0x4f ∷ 0x4b ∷ 0x56 ∷ 0x45 ∷ 0x31 ∷ []

abbrev pub present {ℓ} : {A : Type ℓ} → Option A → ℕ → ℕ
present none bit = 0
present (some a) bit = bit

-- `flags |= FLAG_CREATED_AT` and `flags |= FLAG_EXPIRES_AT`: two different bits, so `|` is `+`.
unfoldable pub entry_flags : {T : Type 0} → ManagedEntry T → ℕ
entry_flags e = present e.created_at 1 + present e.expires_at 2

module _ {T F : Type 0} (os : Platform T F) where
  unfoldable pub encode_time : Option T → Bytes
  encode_time none = []
  encode_time (some t) = to_le_bytes 8 (os.timestamp_millis t)

  unfoldable pub encode : ManagedEntry T → Bytes
  encode e =
      magic
      ++ tag e.value.kind
        ∷ entry_flags e
        ∷ (to_le_bytes 8 (length e.value.bytes)
            ++ (encode_time e.created_at ++ (encode_time e.expires_at ++ e.value.bytes)))

-- A reader of the input at an offset, which gives the offset behind what it read.
abbrev pub Reader : Type 0 → Type 0
Reader A = Bytes → ℕ → Result (A × ℕ)

unfoldable pub read_u8 : Reader ℕ
read_u8 input offset = bind (ok_or (get_elem? input offset) deserialization) λ b. ok (b, offset + 1)

-- `bytes.get(offset..end)`: there is no such slice past the end of the input.
unfoldable pub read_array : ℕ → Reader Bytes
read_array n input offset =
    let stop = offset + n in
    if leb (2 ^ 64) stop
    then err deserialization
    else if ltb (length input) stop
    then err deserialization
    else ok (take n (drop offset input), stop)

-- `flags & FLAG != 0` for the flag of the given place value.
abbrev pub has_flag : ℕ → ℕ → Bool
has_flag place flags = flags / place % 2 == 1

module _ {T F : Type 0} (os : Platform T F) where
  unfoldable pub read_datetime : Reader T
  read_datetime input offset = bind (read_array 8 input offset) λ (b, next).
      bind (ok_or (os.timestamp_millis_opt (from_le_bytes b)) deserialization) λ t. ok (t, next)

  -- `if flags & FLAG != 0 { Some(read_datetime(..)?) } else { None }`
  unfoldable pub read_time_if : Bool → Reader (Option T)
  read_time_if true input offset = bind (read_datetime input offset) λ (t, next). ok (some t, next)
  read_time_if false input offset = ok (none, offset)

  -- From the last offset on: the length of the value has to match what is left.
  unfoldable pub finish : ValueKind → ℕ → Option T → Option T → Bytes → ℕ → Result (ManagedEntry T)
  finish kind value_len created_at expires_at input offset =
      let stop = offset + value_len in
      if leb (2 ^ 64) stop
      then err deserialization
      else if not (stop == length input)
      then err deserialization
      else (bind (Checked.new kind (take value_len (drop offset input)))
          λ v. ok (record { value = v; created_at = created_at; expires_at = expires_at }))

  -- From the flags on. `usize::try_from` of a `u64` always succeeds on a 64-bit platform.
  unfoldable pub decode_body : ValueKind → ℕ → Bytes → ℕ → Result (ManagedEntry T)
  decode_body kind flags input offset =
      if not (flags / 4 == 0)
      then err deserialization
      else (bind (read_array 8 input offset) λ (len, offset₁).
          bind (read_time_if (has_flag 1 flags) input offset₁) λ (created_at, offset₂).
            bind (read_time_if (has_flag 2 flags) input offset₂) λ (expires_at, offset₃).
              finish kind (from_le_bytes len) created_at expires_at input offset₃)

  unfoldable pub decode : Bytes → Result (ManagedEntry T)
  decode input = bind (read_array 5 input 0) λ (m, offset).
      if not (bytes_eq m magic)
      then err deserialization
      else (bind (read_u8 input offset) λ (kind_tag, offset₁).
          bind (ok_or (from_tag kind_tag) deserialization) λ kind.
            bind (read_u8 input offset₁) λ (flags, offset₂). decode_body kind flags input offset₂)
