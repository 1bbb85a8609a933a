-- ===== src/Examples/Formats.antt =====
-- Encodings, identities and checks at concrete inputs.
use openkeyv.Base.{ℕ, ◌%◌, ◌^◌, ◌<◌, ◌≤◌, ◌≡◌, refl}
use openkeyv.Base.{◌≢◌, ◌↔◌, ◌⊎◌, ◌++◌, true, false, none, some, [], ◌∷◌, arith}
use openkeyv.Base.{length, drop, All}
use openkeyv.Base.{ok}
use openkeyv.Base.Bytes.{Bytes, IsByte, to_le_bytes}
use openkeyv.Value.Checked.{Value}
use openkeyv.Entry.{ManagedEntry}
use openkeyv.Cas.{Revision, RevisionedValue}
use openkeyv.Value.Checked.{tag, binary, utf8, of_utf8, of_binary}
use openkeyv.Value.Checked
use openkeyv.Value.Utf8.{starts_char}
use openkeyv.Value.Laws.{Wellformed, new-Wellformed}
use openkeyv.Entry.Codec
use openkeyv.Entry.RoundTrip.{cut_entry, decode-encode}
use openkeyv.Entry.Canonical.{encode-decode}
use openkeyv.Cas
use openkeyv.Cas.Laws.{decode-encode_envelope, encode-decode_envelope}
use openkeyv.Utils.Compound.{
  compound_key, subspace_compound_key, decompound_key, subspace_decompound_key,
}
use openkeyv.Utils.Compound.Laws.{
  decompound_key-compound_key, compound_key-injective, subspace_decompound-compound,
  subspace_isolation,
}
use openkeyv.Utils.Sanitize.{
  into_owned, borrowed, blacklist_validate, blacklist_sanitize, hash_excess_sanitize,
}
use openkeyv.Utils.Sanitize.Laws.{blacklist_validate-blacklist_sanitize, sanitize_panics}
use openkeyv.Examples.Host.{
  host, host-IsChrono, host-ReadsMillis, hi, jo, greeting, entry, jo-is_utf8, greeting-Wellformed,
  revision,
}

entry-short : length (Codec.encode host entry) < 2 ^ 64
unfolding Codec.encode Codec.entry_flags Codec.encode_time to_le_bytes tag
entry-short = omega arith

decode-encode_example :
    Codec.decode host (Codec.encode host entry) ≡ ok (cut_entry (λ t. t % 2 ^ 64) entry)
decode-encode_example =
    decode-encode host (λ t. t % 2 ^ 64) host-IsChrono entry greeting-Wellformed entry-short

-- The bytes of an entry with neither time.
abbrev stored : Bytes
stored = Codec.encode host (record { value = greeting; created_at = none; expires_at = none })

stored-bytes : All IsByte stored
unfolding Codec.encode Codec.entry_flags Codec.encode_time to_le_bytes tag
stored-bytes = ground arith

stored-short : length stored < 2 ^ 64
unfolding Codec.encode Codec.entry_flags Codec.encode_time to_le_bytes tag
stored-short = omega arith

stored-decodes :
    Codec.decode host stored
    ≡ ok (record { value = greeting; created_at = none; expires_at = none })
stored-decodes =
    decode-encode host (λ t. t % 2 ^ 64) host-IsChrono
      (record { value = greeting; created_at = none; expires_at = none }) greeting-Wellformed
      stored-short

encode-decode_example :
    Codec.encode host (record { value = greeting; created_at = none; expires_at = none }) ≡ stored
encode-decode_example = encode-decode host host-ReadsMillis stored _ stored-bytes stored-decodes

decode-encode_envelope_example :
    (Cas.decode host (some (Cas.encode host entry revision))
      ≡ ok (some (record { entry = cut_entry (λ t. t % 2 ^ 64) entry; revision = revision })))
    × (Cas.decode host none ≡ ok none)
decode-encode_envelope_example =
    decode-encode_envelope host (λ t. t % 2 ^ 64) entry revision host-IsChrono greeting-Wellformed
      entry-short refl

abbrev plain_entry : ManagedEntry ℕ
plain_entry = record { value = greeting; created_at = none; expires_at = none }

-- The envelope of that entry.
abbrev sealed : Bytes
sealed = Cas.encode host plain_entry revision

sealed-bytes : All IsByte sealed
unfolding Cas.encode Codec.encode Codec.entry_flags Codec.encode_time to_le_bytes tag
sealed-bytes = ground arith

encode-decode_envelope_example :
    (Cas.encode host plain_entry revision ≡ sealed) × (length revision ≡ 16)
encode-decode_envelope_example =
    encode-decode_envelope host sealed (record { entry = plain_entry; revision = revision })
      host-ReadsMillis sealed-bytes
      (decode-encode_envelope host (λ t. t % 2 ^ 64) plain_entry revision host-IsChrono
        greeting-Wellformed stored-short refl).0

decompound_key-compound_key_example : decompound_key (compound_key hi jo) ≡ ok (hi, jo)
decompound_key-compound_key_example = decompound_key-compound_key hi jo jo-is_utf8 (omega arith)

compound_key-injective_example : (hi ≡ hi) × (jo ≡ jo)
compound_key-injective_example = compound_key-injective hi jo hi jo refl

subspace_decompound-compound_example :
    subspace_decompound_key jo (subspace_compound_key jo hi jo) ≡ some (hi, jo)
subspace_decompound-compound_example =
    subspace_decompound-compound jo hi jo jo-is_utf8 (omega arith)

hi-jo : hi ≢ jo
hi-jo h = ground (arith, h)

subspace_isolation_example : subspace_decompound_key jo (subspace_compound_key hi hi jo) ≡ none
subspace_isolation_example =
    subspace_isolation hi jo hi jo (λ h. ground (arith, h)) (λ h. ground (arith, h)) hi-jo

blacklist_sanitize_example :
    (blacklist_validate (104 ∷ []) (into_owned (blacklist_sanitize (104 ∷ []) hi)) ≡ ok tt)
    × (blacklist_validate (104 ∷ []) hi ≡ ok tt → blacklist_sanitize (104 ∷ []) hi ≡ borrowed hi)
blacklist_sanitize_example = blacklist_validate-blacklist_sanitize (104 ∷ []) hi

-- A letter of one byte and one of two, with a limit between the bytes of the second.
abbrev accented : Bytes
accented = 97 ∷ 0xc3 ∷ 0xa9 ∷ []

sanitize_panics_example :
    ((hash_excess_sanitize (λ bytes. hi) 2 accented ≡ none)
      ↔ ((2 < length accented) × (0 < 2) × (starts_char (drop 2 accented) ≡ false)))
    × (length accented ≤ 2 → hash_excess_sanitize (λ bytes. hi) 2 accented ≡ some accented)
    × ((prefix rest : Bytes)
        → accented ≡ prefix ++ rest
        → length prefix ≡ 2
        → 0 < length rest
        → (◌≡◌ {A = ℕ} 2 0) ⊎ (starts_char rest ≡ true)
        → hash_excess_sanitize (λ bytes. hi) 2 accented ≡ some (prefix ++ (0x5f ∷ hi)))
sanitize_panics_example = sanitize_panics (λ bytes. hi) 2 accented

new-Wellformed_example :
    ((Checked.new utf8 hi ≡ ok greeting) ↔ Wellformed utf8 hi)
    × ((v : Value) → Checked.new utf8 hi ≡ ok v → (v.kind ≡ utf8) × (v.bytes ≡ hi))
unfolding Checked.new_unchecked
new-Wellformed_example = new-Wellformed utf8 hi
