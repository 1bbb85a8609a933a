-- ===== src/Cas/Laws.antt =====
-- The OKVC1 envelope keeps the entry and the revision, and nothing else is an envelope.
use openkeyv.Base.{◌^◌, ◌<◌, ◌≡◌, refl}
use openkeyv.Base.{not, none, some, ◌++◌, arith}
use openkeyv.Base.{ltb}
use openkeyv.Base.{
  length, take, drop, All, length-append, take-append, drop-append, drop-take, All-drop,
}
use openkeyv.Base.{ok, bind-eq-ok, if-eq-ok}
use openkeyv.Base.Bytes.{Bytes, IsByte, bytes_eq, bytes_eq_iff}
use openkeyv.Platform.{Platform}
use openkeyv.Value.Laws.{Wellformed}
use openkeyv.Entry.{ManagedEntry}
use openkeyv.Entry.Codec
use openkeyv.Entry.RoundTrip.{IsChrono, cut_entry, decode-encode}
use openkeyv.Entry.Canonical.{ReadsMillis, encode-decode}
use openkeyv.Cas.{Revision, cas_magic, prefix_len, CasEntry, encode, decode_envelope, decode}

module _ {T F : Type 0} (os : Platform T F) where
  envelope_parts :
      (r rest : Bytes)
      → length r ≡ 16
      → (drop 21 (cas_magic ++ (r ++ rest)) ≡ rest) × (take 16 (r ++ rest) ≡ r)
  envelope_parts r rest h =
      (rw h at (drop-append (cas_magic ++ r) rest), rw h at (take-append r rest))

  -- Decoding the envelope of an entry gives the revision as it was and the entry with its times cut
  -- to the millisecond, when the payload of the entry's value is well formed for its kind, the entry
  -- encodes to less than 2^64 bytes and the revision has its 16 bytes; an absent value decodes to
  -- `None`. Given that chrono keeps times to the millisecond. A value of Value::new_unchecked whose
  -- payload is not well formed is not covered.
  pub decode-encode_envelope :
      (cut : T → T) (e : ManagedEntry T) (r : Revision)
      → IsChrono os cut
      → Wellformed e.value.kind e.value.bytes
      → length (Codec.encode os e) < 2 ^ 64
      → length r ≡ 16
      → (decode os (some (encode os e r))
          ≡ ok (some (record { entry = cut_entry cut e; revision = r })))
        × (decode os none ≡ ok none)
  unfolding decode decode_envelope encode bytes_eq
  decode-encode_envelope cut e r chrono w h n =
      let b = Codec.encode os e in
      let (rest, rev) = envelope_parts r b n in
      (ground (arith, rest, rev, length-append r b, decode-encode os cut chrono e w h), refl)

  -- An envelope that decodes is the encoding of what it decodes to, with a revision of 16 bytes; so
  -- a bare entry, a cut envelope and trailing bytes are all refused.
  pub encode-decode_envelope :
      (input : Bytes) (c : CasEntry T)
      → ReadsMillis os
      → All IsByte input
      → decode os (some input) ≡ ok (some c)
      → (encode os c.entry c.revision ≡ input) × (length c.revision ≡ 16)
  unfolding decode decode_envelope encode
  encode-decode_envelope input c chrono bytes h =
      let (c', got, h₀) = bind-eq-ok (decode_envelope os input) _ h in
      let (long, h₁) = if-eq-ok (ltb (length input) prefix_len) _ _ got in
      let (same, h₂) = if-eq-ok (not (bytes_eq (take 5 input) cas_magic)) _ _ h₁ in
      let (e, h₃, h₄) = bind-eq-ok (Codec.decode os (drop prefix_len input)) _ h₂ in
      let back = encode-decode os chrono (drop 21 input) e (All-drop IsByte 21 input bytes) h₃ in
      let m = (bytes_eq_iff (take 5 input) cas_magic).0 (ground arith) in
      let (s₁, _) = drop-take 0 5 input (ground arith) in
      let (s₂, n) = drop-take 5 16 input (ground arith) in
      (cc (s₁, s₂, m, back, h₀, h₄), cc (n, h₀, h₄))
