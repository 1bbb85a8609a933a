-- ===== src/Entry/RoundTrip.antt =====
-- The OKVE1 codec of entries loses nothing but what is finer than a millisecond.
use openkeyv.Base.{ℕ, ◌+◌, ◌/◌, ◌^◌, ◌<◌, ◌≡◌, refl, sym, ap, ◌∙◌}
use openkeyv.Base.{Bool, true, false, Option, none, some, [], ◌∷◌, ◌++◌, append_assoc, arith}
use openkeyv.Base.{◌==◌}
use openkeyv.Base.{length, length-append, take-append, drop-append, take_all}
use openkeyv.Base.{ok}
use openkeyv.Base.Bytes.{
  Bytes, bytes_eq_refl, to_le_bytes, from_le_bytes, length-to_le_bytes, from_le_bytes-to_le_bytes,
}
use openkeyv.Platform.{Platform}
use openkeyv.Value.Checked.{Value, ValueKind, tag, new_unchecked}
use openkeyv.Value.Laws.{Wellformed, new-Wellformed, from_tag-tag_lem}
use openkeyv.Entry.{ManagedEntry}
use openkeyv.Entry.Codec.{
  present, magic, entry_flags, encode_time, encode, read_u8, read_array, has_flag, read_datetime,
  read_time_if, finish, decode_body, decode,
}

-- Reading `n` bytes at the end of `front` gives what stands there.
pub read_array-append :
    (input front mid back : Bytes) (n offset : ℕ)
    → input ≡ front ++ (mid ++ back)
    → offset ≡ length front
    → n ≡ length mid
    → length input < 2 ^ 64
    → read_array n input offset ≡ ok (mid, offset + n)
unfolding read_array
read_array-append input front mid back n offset e p q h =
    rw (e, p, q, drop-append front (mid ++ back), take-append mid back)
      (ground (arith, ap length e, length-append front (mid ++ back), length-append mid back))

-- What the program relies on in chrono: a time has its milliseconds in an `i64`, and the time with
-- these milliseconds is the time cut to the millisecond.
pub record IsChrono {T F : Type 0} (os : Platform T F) (cut : T → T) : Type 0 where
  pub to_millis : (t : T) → os.timestamp_millis_opt (os.timestamp_millis t) ≡ some (cut t)
  pub is_i64 : (t : T) → os.timestamp_millis t < 2 ^ 64

abbrev pub cut_time : {T : Type 0} → (T → T) → Option T → Option T
cut_time cut none = none
cut_time cut (some t) = some (cut t)

abbrev pub cut_entry : {T : Type 0} → (T → T) → ManagedEntry T → ManagedEntry T
cut_entry cut e = record {
  value = e.value;
  created_at = cut_time cut e.created_at;
  expires_at = cut_time cut e.expires_at;
}

abbrev pub is_some : {T : Type 0} → Option T → Bool
is_some none = false
is_some (some t) = true

-- The three tests on the flags of an entry.
flag_bits :
    {T : Type 0} (c x : Option T)
    → ((present c 1 + present x 2) / 4 == 0 ≡ true)
      × (has_flag 1 (present c 1 + present x 2) ≡ is_some c)
      × (has_flag 2 (present c 1 + present x 2) ≡ is_some x)
flag_bits none none = (refl, refl, refl)
flag_bits none (some x) = (refl, refl, refl)
flag_bits (some c) none = (refl, refl, refl)
flag_bits (some c) (some x) = (refl, refl, refl)

-- What `encode` writes behind the flags.
tail_of : {T F : Type 0} → Platform T F → ManagedEntry T → Bytes
tail_of os e =
    to_le_bytes 8 (length e.value.bytes)
    ++ (encode_time os e.created_at ++ (encode_time os e.expires_at ++ e.value.bytes))

module _ {T F : Type 0} (os : Platform T F) (cut : T → T) (chrono : IsChrono os cut) where
  read_time-encode_time :
      (o : Option T) (flag : Bool) (input front back : Bytes) (offset : ℕ)
      → flag ≡ is_some o
      → input ≡ front ++ (encode_time os o ++ back)
      → offset ≡ length front
      → length input < 2 ^ 64
      → read_time_if os flag input offset ≡ ok (cut_time cut o, offset + length (encode_time os o))
  unfolding read_time_if read_datetime encode_time
  read_time-encode_time none flag input front back offset f e p h = rw f (ground arith)
  read_time-encode_time (some t) flag input front back offset f e p h =
      let w = os.timestamp_millis t in
      let read =
        read_array-append input front (to_le_bytes 8 w) back 8 offset e p
          (sym (length-to_le_bytes 8 w)) h in
      rw (f, read, from_le_bytes-to_le_bytes 8 w (chrono.is_i64 t), chrono.to_millis t)
        (ground (arith, length-to_le_bytes 8 w))

  finish-append :
      (v : Value) (c x : Option T) (input front : Bytes) (offset len : ℕ)
      → input ≡ front ++ v.bytes
      → offset ≡ length front
      → len ≡ length v.bytes
      → length input < 2 ^ 64
      → Wellformed v.kind v.bytes
      → finish os v.kind len c x input offset
        ≡ ok (record { value = v; created_at = c; expires_at = x })
  unfolding finish
  finish-append v c x input front offset len e p q h w =
      rw
        (
          e,
          p,
          q,
          drop-append front v.bytes,
          take_all v.bytes,
          (new-Wellformed v.kind v.bytes).0.1 w,
        )
        (unfold new_unchecked in ground (arith, ap length e, length-append front v.bytes))

  -- `decode_body` is its reads in turn.
  decode_body-reads :
      (kind : ValueKind) (flags : ℕ) (input len : Bytes) (c x : Option T) (o₁ o₂ o₃ : ℕ)
      → flags / 4 == 0 ≡ true
      → read_array 8 input 7 ≡ ok (len, o₁)
      → read_time_if os (has_flag 1 flags) input o₁ ≡ ok (c, o₂)
      → read_time_if os (has_flag 2 flags) input o₂ ≡ ok (x, o₃)
      → decode_body os kind flags input 7 ≡ finish os kind (from_le_bytes len) c x input o₃
  unfolding decode_body
  decode_body-reads kind flags input len c x o₁ o₂ o₃ f r₁ r₂ r₃ = rw (f, r₁, r₂, r₃)

  decode_body-tail :
      (e : ManagedEntry T) (front : Bytes)
      → length front ≡ 7
      → Wellformed e.value.kind e.value.bytes
      → length (front ++ tail_of os e) < 2 ^ 64
      → decode_body os e.value.kind (entry_flags e) (front ++ tail_of os e) 7 ≡ ok (cut_entry cut e)
  unfolding tail_of entry_flags
  decode_body-tail e front p w h =
      let n = to_le_bytes 8 (length e.value.bytes) in
      let c = encode_time os e.created_at in
      let x = encode_time os e.expires_at in
      let v = e.value.bytes in
      let input = front ++ (n ++ (c ++ (x ++ v))) in
      let (f₀, f₁, f₂) = flag_bits e.created_at e.expires_at in
      let s₁ : input ≡ (front ++ n) ++ (c ++ (x ++ v)) = simp append_assoc in
      let s₂ : input ≡ ((front ++ n) ++ c) ++ (x ++ v) = simp append_assoc in
      let s₃ : input ≡ (((front ++ n) ++ c) ++ x) ++ v = simp append_assoc in
      let l₁ : 15 ≡ length (front ++ n) =
        omega (arith, length-append front n, length-to_le_bytes 8 (length v)) in
      let l₂ : 15 + length c ≡ length ((front ++ n) ++ c) =
        omega (arith, length-append (front ++ n) c) in
      let l₃ : 15 + length c + length x ≡ length (((front ++ n) ++ c) ++ x) =
        omega (arith, length-append ((front ++ n) ++ c) x) in
      let h' : length input < 2 ^ 64 = h in
      let l₄ : length v < 256 ^ 8 =
        omega (arith, ap length s₃, length-append (((front ++ n) ++ c) ++ x) v) in
      decode_body-reads e.value.kind (entry_flags e) input n (cut_time cut e.created_at)
        (cut_time cut e.expires_at) 15 (15 + length c) (15 + length c + length x) f₀
        (read_array-append input front n (c ++ (x ++ v)) 8 7 refl (sym p)
          (sym (length-to_le_bytes 8 (length v))) h)
        (read_time-encode_time e.created_at _ input (front ++ n) (x ++ v) 15 f₁ s₁ l₁ h)
        (read_time-encode_time e.expires_at _ input ((front ++ n) ++ c) v _ f₂ s₂ l₂ h)
      ∙ finish-append e.value _ _ input (((front ++ n) ++ c) ++ x) _ _ s₃ l₃
          (from_le_bytes-to_le_bytes 8 (length v) l₄) h w

  head_reads :
      (kind : ValueKind) (flags : ℕ) (rest : Bytes)
      → length (magic ++ tag kind ∷ flags ∷ rest) < 2 ^ 64
      → decode os (magic ++ tag kind ∷ flags ∷ rest)
        ≡ decode_body os kind flags (magic ++ tag kind ∷ flags ∷ rest) 7
  unfolding decode read_u8
  head_reads kind flags rest h = rw (
    read_array-append (magic ++ tag kind ∷ flags ∷ rest) [] magic (tag kind ∷ flags ∷ rest) 5 0 refl
        refl refl h,
    bytes_eq_refl,
    from_tag-tag_lem,
  )

  -- Decoding what an entry encodes to gives the entry back, its times cut to the millisecond: for
  -- every entry whose payload is well formed for its kind and whose encoding is shorter than 2^64
  -- bytes, given that chrono keeps times to the millisecond.
  pub decode-encode :
      (e : ManagedEntry T)
      → Wellformed e.value.kind e.value.bytes
      → length (encode os e) < 2 ^ 64
      → decode os (encode os e) ≡ ok (cut_entry cut e)
  unfolding encode tail_of
  decode-encode e w h =
      head_reads e.value.kind (entry_flags e) (tail_of os e) h
      ∙ decode_body-tail e (magic ++ tag e.value.kind ∷ entry_flags e ∷ []) refl w h
