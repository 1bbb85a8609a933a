-- ===== src/Utils/Sanitize/Laws.antt =====
-- What the strategies promise of the keys that they let through.
use openkeyv.Base.{ℕ, ◌≤◌, ◌<◌, ◌+◌, ◌≡◌, refl, sym, ap, ◌∙◌}
use openkeyv.Base.{◌↔◌, ◌⊎◌, ◌++◌, true, some, false, none, [], ◌∷◌, arith}
use openkeyv.Base.{length, take, drop, length-append, take-append, drop-append}
use mathlib.Core.Path.{ap₂}
use openkeyv.Base.{ok}
use openkeyv.Base.Bytes.{Bytes, Text}
use openkeyv.Utils.Sanitize.{
  Chars, byte_len, borrowed, into_owned, find_invalid, blacklist_validate, kept, blacklist_sanitize,
  hash_excess_sanitize,
}
use openkeyv.Value.Utf8.{starts_char}

byte_len-kept : (bad cs : Chars) → byte_len (kept bad cs) ≤ byte_len cs
unfolding byte_len kept
byte_len-kept bad [] = omega arith
byte_len-kept bad (c ∷ cs) = ground (arith, byte_len-kept bad cs)

-- As many bytes are kept only if all are.
kept-same : (bad cs : Chars) → byte_len (kept bad cs) ≡ byte_len cs → kept bad cs ≡ cs
unfolding byte_len kept
kept-same bad [] h = refl
kept-same bad (c ∷ cs) h = ground (arith, kept-same bad cs, byte_len-kept bad cs)

owned-kept : (bad cs : Chars) → into_owned (blacklist_sanitize bad cs) ≡ kept bad cs
unfolding blacklist_sanitize
owned-kept bad cs = ground (arith, kept-same bad cs)

find_invalid-kept : (bad cs : Chars) → find_invalid bad (kept bad cs) ≡ none
unfolding find_invalid kept
find_invalid-kept bad [] = refl
find_invalid-kept bad (c ∷ cs) = ground (arith, find_invalid-kept bad cs)

kept-valid : (bad cs : Chars) → find_invalid bad cs ≡ none → kept bad cs ≡ cs
unfolding find_invalid kept
kept-valid bad [] h = refl
kept-valid bad (c ∷ cs) h = ground (arith, kept-valid bad cs)

-- What the blacklist strategy makes of any value passes its own check, and a value that passes the
-- check is left as it is, without a copy.
pub blacklist_validate-blacklist_sanitize :
    (bad value : Chars)
    → (blacklist_validate bad (into_owned (blacklist_sanitize bad value)) ≡ ok tt)
      × (blacklist_validate bad value ≡ ok tt → blacklist_sanitize bad value ≡ borrowed value)
unfolding blacklist_validate
blacklist_validate-blacklist_sanitize bad value = (
  rw (owned-kept bad value, find_invalid-kept bad value, blacklist_validate) refl,
  λ h. unfold blacklist_sanitize in ground (arith, kept-valid bad value),
)

-- The hashing strategy stops the program on a value that is longer than the limit and has no
-- character boundary there, and on no other value. A value within the limit stays as it is. Of a
-- longer one, cut at the limit, where a character ends, the first part is kept, and an underscore
-- and the hash of the second part follow.
pub sanitize_panics :
    (hash_hex : Bytes → Text) (limit : ℕ) (value : Bytes)
    → ((hash_excess_sanitize hash_hex limit value ≡ none)
        ↔ ((limit < length value) × (0 < limit) × (starts_char (drop limit value) ≡ false)))
      × (length value ≤ limit → hash_excess_sanitize hash_hex limit value ≡ some value)
      × ((prefix rest : Bytes)
          → value ≡ prefix ++ rest
          → length prefix ≡ limit
          → 0 < length rest
          → (limit ≡ 0) ⊎ (starts_char rest ≡ true)
          → hash_excess_sanitize hash_hex limit value ≡ some (prefix ++ (0x5f ∷ hash_hex rest)))
unfolding hash_excess_sanitize
sanitize_panics hash_hex limit value = (
  (λ h. ground arith, λ h. ground arith),
  λ h. ground arith,
  λ prefix rest e n some_byte boundary.
      let front : take limit value ≡ prefix = ap₂ take (sym n) e ∙ take-append prefix rest in
      let back : drop limit value ≡ rest = ap₂ drop (sym n) e ∙ drop-append prefix rest in
      let long : length value ≡ length prefix + length rest =
        ap length e ∙ length-append prefix rest in
      rw (front, back) (ground (arith, long, n, some_byte, boundary)),
)
