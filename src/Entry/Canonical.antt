-- ===== src/Entry/Canonical.antt =====
-- The OKVE1 decoder accepts nothing but what the encoder writes.
use openkeyv.Base.{ℕ, ◌+◌, ◌/◌, ◌^◌, ◌≤◌, ◌≡◌, refl, ap}
use openkeyv.Base.{Bool, true, false, not, Option, none, some, ◌∷◌, ◌++◌, arith}
use openkeyv.Base.{ltb, leb, ◌==◌}
use openkeyv.Base.{
  length, take, drop, get_elem?, All, drop-take, length-drop, take_all, All-split, All-drop,
  get_elem?-drop,
}
use openkeyv.Base.{ok, ok_or, bind-eq-ok, if-eq-ok, ok_or-eq-ok}
use openkeyv.Base.{deserialization}
use openkeyv.Base.Bytes.{
  Bytes, IsByte, bytes_eq, bytes_eq_iff, to_le_bytes, from_le_bytes, to_le_bytes-from_le_bytes,
}
use openkeyv.Platform.{Platform}
use openkeyv.Value.Checked.{ValueKind, tag, from_tag, new}
use openkeyv.Value.Laws.{new-Wellformed, from_tag-tag}
use openkeyv.Entry.{ManagedEntry}
use openkeyv.Entry.Codec.{
  present, magic, entry_flags, encode_time, encode, read_u8, read_array, has_flag, read_datetime,
  read_time_if, finish, decode_body, decode,
}
use openkeyv.Entry.RoundTrip.{is_some}

read_array-eq-ok :
    (n : ℕ) (input : Bytes) (o : ℕ) {b : Bytes} {next : ℕ}
    → read_array n input o ≡ ok (b, next)
    → (next ≡ o + n)
      × (drop o input ≡ b ++ drop next input)
      × (length b ≡ n)
      × (next ≤ length input)
unfolding read_array
read_array-eq-ok n input o h =
    let (small, h₁) = if-eq-ok (leb (2 ^ 64) (o + n)) _ _ h in
    let (inside, h₂) = if-eq-ok (ltb (length input) (o + n)) _ _ h₁ in
    let (split, len) = drop-take o n input (ground arith) in ground (arith, split, len)

read_u8-eq-ok :
    (input : Bytes) (o : ℕ) {b next : ℕ}
    → read_u8 input o ≡ ok (b, next)
    → (next ≡ o + 1) × (drop o input ≡ b ∷ drop next input)
unfolding read_u8
read_u8-eq-ok input o h =
    let (x, got, e) = bind-eq-ok (ok_or (get_elem? input o) deserialization) _ h in
    ground (arith, get_elem?-drop input o x (ok_or-eq-ok _ _ got))

-- What the program relies on in chrono: the time made from an `i64` of milliseconds has these
-- milliseconds.
pub record ReadsMillis {T F : Type 0} (os : Platform T F) : Type 0 where
  pub of_millis : (i : ℕ) (t : T) → os.timestamp_millis_opt i ≡ some t → os.timestamp_millis t ≡ i

-- The flags of an entry, from the tests on them.
flags_of_bits :
    {T : Type 0} (flags : ℕ) (c x : Option T)
    → flags / 4 == 0 ≡ true
    → has_flag 1 flags ≡ is_some c
    → has_flag 2 flags ≡ is_some x
    → present c 1 + present x 2 ≡ flags
flags_of_bits flags none none f p q = ground arith
flags_of_bits flags none (some x) f p q = ground arith
flags_of_bits flags (some c) none f p q = ground arith
flags_of_bits flags (some c) (some x) f p q = ground arith

module _ {T F : Type 0} (os : Platform T F) (chrono : ReadsMillis os) where
  read_datetime-eq-ok :
      (input : Bytes) (o : ℕ) {t : T} {next : ℕ}
      → All IsByte input
      → read_datetime os input o ≡ ok (t, next)
      → drop o input ≡ to_le_bytes 8 (os.timestamp_millis t) ++ drop next input
  unfolding read_datetime
  read_datetime-eq-ok input o {t} {next} bytes h =
      let ((b, n), got, h₁) = bind-eq-ok (read_array 8 input o) _ h in
      let (t', made, e) = bind-eq-ok (ok_or (os.timestamp_millis_opt (from_le_bytes b)) _) _ h₁ in
      let (_, split, len, _) = read_array-eq-ok 8 input o got in
      let parts : All IsByte (b ++ drop n input) = rw split at (All-drop IsByte o input bytes) in
      let word : to_le_bytes 8 (from_le_bytes b) ≡ b =
        rw len at (to_le_bytes-from_le_bytes b (All-split IsByte b (drop n input) parts).0) in
      let millis : os.timestamp_millis t' ≡ from_le_bytes b =
        chrono.of_millis (from_le_bytes b) t' (ok_or-eq-ok _ _ made) in
      cc (split, word, millis, e)

  read_time-eq-ok :
      (flag : Bool) (input : Bytes) (o : ℕ) {c : Option T} {next : ℕ}
      → All IsByte input
      → read_time_if os flag input o ≡ ok (c, next)
      → (flag ≡ is_some c) × (drop o input ≡ encode_time os c ++ drop next input)
  unfolding read_time_if encode_time
  read_time-eq-ok true input o {c} {next} bytes h =
      let ((t, n), got, e) = bind-eq-ok (read_datetime os input o) _ h in
      let c' : some t ≡ c = cc e in
      let n' : n ≡ next = cc e in
      let d = read_datetime-eq-ok input o bytes got in (rw (← c') refl, rw (← c', ← n') d)
  read_time-eq-ok false input o {c} {next} bytes h =
      let c' : none ≡ c = cc in let n' : o ≡ next = cc in (rw (← c') refl, rw (← c', ← n') refl)

  finish-eq-ok :
      (kind : ValueKind) (len : ℕ) (c x : Option T) (input : Bytes) (o : ℕ) {e : ManagedEntry T}
      → finish os kind len c x input o ≡ ok e
      → (e ≡ record { value = e.value; created_at = c; expires_at = x })
        × (e.value.kind ≡ kind)
        × (e.value.bytes ≡ drop o input)
        × (len ≡ length e.value.bytes)
  unfolding finish
  finish-eq-ok kind len c x input o h =
      let (small, h₁) = if-eq-ok (leb (2 ^ 64) (o + len)) _ _ h in
      let (exact, h₂) = if-eq-ok (not (o + len == length input)) _ _ h₁ in
      let (v, made, e') = bind-eq-ok (new kind (take len (drop o input))) _ h₂ in
      let (k, b) = (new-Wellformed kind (take len (drop o input))).1 v made in
      let total : o + len ≡ length input = ground arith in
      let l : length (drop o input) ≡ len = omega (arith, length-drop o input (omega arith)) in
      let whole : take len (drop o input) ≡ drop o input = rw l at (take_all (drop o input)) in
      ground (arith, whole, ap length whole)

  -- From the flags on: what `decode_body` accepts is what `encode` writes there.
  decode_body-eq-ok :
      (kind : ValueKind) (flags : ℕ) (input : Bytes) {e : ManagedEntry T}
      → All IsByte input
      → decode_body os kind flags input 7 ≡ ok e
      → (e.value.kind ≡ kind)
        × (entry_flags e ≡ flags)
        × (drop 7 input
            ≡ to_le_bytes 8 (length e.value.bytes)
              ++ (encode_time os e.created_at ++ (encode_time os e.expires_at ++ e.value.bytes)))
  unfolding decode_body entry_flags
  decode_body-eq-ok kind flags input {e} bytes h =
      let (known, h₁) = if-eq-ok (not (flags / 4 == 0)) _ _ h in
      let ((len, o₁), got₁, h₂) = bind-eq-ok (read_array 8 input 7) _ h₁ in
      let ((c, o₂), got₂, h₃) = bind-eq-ok (read_time_if os (has_flag 1 flags) input o₁) _ h₂ in
      let ((x, o₃), got₃, h₄) = bind-eq-ok (read_time_if os (has_flag 2 flags) input o₂) _ h₃ in
      let (_, split, width, _) = read_array-eq-ok 8 input 7 got₁ in
      let (f₁, s₁) = read_time-eq-ok (has_flag 1 flags) input o₁ bytes got₂ in
      let (f₂, s₂) = read_time-eq-ok (has_flag 2 flags) input o₂ bytes got₃ in
      let (e', k, v, l) = finish-eq-ok kind (from_le_bytes len) c x input o₃ h₄ in
      let parts : All IsByte (len ++ drop o₁ input) = rw split at (All-drop IsByte 7 input bytes) in
      let word : to_le_bytes 8 (from_le_bytes len) ≡ len =
        rw width at
          (to_le_bytes-from_le_bytes len (All-split IsByte len (drop o₁ input) parts).0) in
      let c' : e.created_at ≡ c = cc e' in
      let x' : e.expires_at ≡ x = cc e' in
      let few : flags / 4 == 0 ≡ true = ground arith in
      let flags' = flags_of_bits flags c x few f₁ f₂ in
      (k, cc (c', x', flags'), cc (split, s₁, s₂, word, l, v, c', x'))

  -- The decoder accepts a byte string only if the encoder writes just that string for the entry that
  -- it gives: so encodings are unique, and nothing is cut off or added. Given that chrono keeps
  -- milliseconds.
  pub encode-decode :
      (input : Bytes) (e : ManagedEntry T)
      → All IsByte input
      → decode os input ≡ ok e
      → encode os e ≡ input
  unfolding decode encode
  encode-decode input e bytes h =
      let ((m, o₁), got₁, h₁) = bind-eq-ok (read_array 5 input 0) _ h in
      let (same, h₂) = if-eq-ok (not (bytes_eq m magic)) _ _ h₁ in
      let ((t, o₂), got₂, h₃) = bind-eq-ok (read_u8 input o₁) _ h₂ in
      let (kind, got₃, h₄) = bind-eq-ok (ok_or (from_tag t) deserialization) _ h₃ in
      let ((flags, o₃), got₄, h₅) = bind-eq-ok (read_u8 input o₂) _ h₄ in
      let (p₁, s₁, _, _) = read_array-eq-ok 5 input 0 got₁ in
      let (p₂, s₂) = read_u8-eq-ok input o₁ got₂ in
      let (p₃, s₃) = read_u8-eq-ok input o₂ got₄ in
      let seven : o₃ ≡ 7 = omega (arith, p₁, p₂, p₃) in
      let body : decode_body os kind flags input 7 ≡ ok e = rw seven at h₅ in
      let (k, f, s₄) = decode_body-eq-ok kind flags input bytes body in
      let m' : m ≡ magic = (bytes_eq_iff m magic).0 (ground arith) in
      let t' : tag kind ≡ t = from_tag-tag.1 t kind (ok_or-eq-ok _ _ got₃) in
      cc (s₁, s₂, s₃, s₄, m', t', k, f, seven)
