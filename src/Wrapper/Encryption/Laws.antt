-- ===== src/Wrapper/Encryption/Laws.antt =====
-- What is encrypted is decrypted to itself, alone and through a store.
use openkeyv.Base.{ℕ, ◌^◌, ◌<◌, ◌≡◌, sym, ap, ◌∙◌}
use openkeyv.Base.{false, some, ◌∷◌, ◌++◌, arith}
use openkeyv.Base.{ltb}
use openkeyv.Base.{length}
use openkeyv.Base.{Result, ok, bind, bind-eq-ok}
use openkeyv.Base.Bytes.{Bytes, bytes_eq, starts_with, to_le_bytes, from_le_bytes-to_le_bytes}
use openkeyv.Value.Checked.{Value}
use openkeyv.Value.Checked.{tag, of_binary}
use openkeyv.Value.Laws.{Wellformed, new-Wellformed, from_tag-tag_lem}
use openkeyv.Value.Checked
use openkeyv.Wrapper.Encryption.{
  encryption_magic, header_len, encrypt_value, decrypt_bytes, decrypt_value,
}

module _ (encrypt_fn : Bytes → Result Bytes) (decrypt_fn : Bytes → ℕ → Result Bytes) where
  -- What the program relies on in the two functions: a decryption with the version of the
  -- encryption gives the plain bytes back.
  abbrev pub Inverse : ℕ → Type 0
  Inverse version =
      (plain secret : Bytes) → encrypt_fn plain ≡ ok secret → decrypt_fn secret version ≡ ok plain

  header_length :
      (version t : ℕ) (b : Bytes)
      → ltb (length (encryption_magic ++ (to_le_bytes 4 version ++ (t ∷ b)))) header_len ≡ false
  unfolding to_le_bytes
  header_length version t b = ground arith

  decrypt-envelope :
      (version : ℕ) (v : Value) (secret : Bytes)
      → version < 2 ^ 32
      → Wellformed v.kind v.bytes
      → decrypt_fn secret version ≡ ok v.bytes
      → decrypt_bytes encrypt_fn decrypt_fn
          (encryption_magic ++ (to_le_bytes 4 version ++ (tag v.kind ∷ secret)))
        ≡ ok v
  unfolding decrypt_bytes starts_with bytes_eq Checked.from_tag to_le_bytes Checked.new_unchecked
  decrypt-envelope version v secret h w d = rw (
    header_length,
    from_tag-tag_lem v.kind,
    from_le_bytes-to_le_bytes 4 version h,
    d,
    (new-Wellformed v.kind v.bytes).0.1 w,
  )

  -- A value that is encrypted and whose payload is well formed decrypts to itself, kind included,
  -- given a version of 32 bits and functions that undo each other.
  pub decrypt-encrypt :
      (version : ℕ) (v e : Value)
      → Inverse version
      → version < 2 ^ 32
      → Wellformed v.kind v.bytes
      → encrypt_value encrypt_fn decrypt_fn version v ≡ ok e
      → decrypt_value encrypt_fn decrypt_fn (some e) ≡ ok (some v)
  unfolding encrypt_value decrypt_value of_binary Checked.new_unchecked
  decrypt-encrypt version v e inverse h w enc =
      let (secret, made, eq) = bind-eq-ok (encrypt_fn v.bytes) _ enc in
      let whole = decrypt-envelope version v secret h w (inverse v.bytes secret made) in
      sym (ap (λ r. bind r λ x. decrypt_value encrypt_fn decrypt_fn (some x)) eq) ∙ rw whole
