-- ===== src/Utils/Decimal.antt =====
-- Decimal numbers as texts: `format!("{}", n)` and `str::parse::<usize>` of the standard library.
use openkeyv.Base.{ℕ, zero, suc, ◌+◌, ◌-◌, ◌*◌, ◌/◌, ◌%◌, ◌^◌, ◌≤◌, ◌<◌, ◌≡◌, refl}
use openkeyv.Base.{inl, inr, Bool, true, ◌&&◌, Option, none, some, [], ◌∷◌, ◌++◌, arith}
use openkeyv.Base.{ltb, leb, if◌then◌else◌, Bool-cases, ltb→lt}
use openkeyv.Base.{length, length-append}
use openkeyv.Base.Bytes.{Text}

-- The fuel is one more than the number of digits may be; a number has at most as many as itself.
unfoldable pub decimal_digits : ℕ → ℕ → Text
decimal_digits zero n = []
decimal_digits (suc f) n =
    let front = decimal_digits f (n / 10) in
    if ltb n 10 then (48 + n) ∷ [] else front ++ (48 + n % 10) ∷ []

unfoldable pub decimal : ℕ → Text
unfolding decimal_digits
decimal n = decimal_digits (suc n) n

abbrev pub is_digit : ℕ → Bool
is_digit c = leb 48 c && leb c 57

unfoldable pub all_digits : Text → Bool
all_digits [] = true
all_digits (c ∷ cs) = is_digit c && all_digits cs

unfoldable pub digits_value : ℕ → Text → ℕ
digits_value acc [] = acc
digits_value acc (c ∷ cs) = digits_value (acc * 10 + (c - 48)) cs

-- Of a text that is not empty and holds digits only: `none` past 64 bits.
unfoldable pub parse_usize : Text → Option ℕ
unfolding digits_value
parse_usize s = if ltb (digits_value 0 s) (2 ^ 64) then some (digits_value 0 s) else none

value-append :
    (acc : ℕ) (s : Text) (c : ℕ)
    → digits_value acc (s ++ c ∷ []) ≡ digits_value acc s * 10 + (c - 48)
unfolding digits_value
value-append acc [] c = refl
value-append acc (d ∷ s) c = value-append (acc * 10 + (d - 48)) s c

digits-append : (s : Text) (c : ℕ) → all_digits (s ++ c ∷ []) ≡ (all_digits s && is_digit c)
unfolding all_digits
digits-append [] c = ground arith
digits-append (d ∷ s) c = ground (arith, digits-append s c)

-- What `decimal` writes, for enough fuel: digits, with no zero in front but in "0" itself, of the
-- number's value.
abbrev pub leading : Text → ℕ
leading [] = 0
leading (c ∷ cs) = c

leading-append : (s : Text) (c : ℕ) → 0 < length s → leading (s ++ c ∷ []) ≡ leading s
leading-append [] c h = absurd (omega arith)
leading-append (d ∷ s) c h = refl

pub record IsDecimal (n : ℕ) (s : Text) : Type 0 where
  pub digits : all_digits s ≡ true
  pub value : digits_value 0 s ≡ n
  pub nonempty : 0 < length s
  pub canonical : (leading s ≡ 48) → n ≡ 0
  pub short : n ≡ 0 → length s ≡ 1

one_digit : (n : ℕ) → n < 10 → IsDecimal n ((48 + n) ∷ [])
unfolding all_digits digits_value
one_digit n h = ground arith

more_digits :
    (n : ℕ) (front : Text)
    → 10 ≤ n
    → IsDecimal (n / 10) front
    → IsDecimal n (front ++ (48 + n % 10) ∷ [])
more_digits n front h d = record {
  digits = rw digits-append (ground arith);
  value = rw (value-append, d.value) (omega arith);
  nonempty = rw length-append (omega arith);
  canonical = λ z. absurd (omega (arith, d.canonical (rw (leading-append, d.nonempty) at z)));
  short = λ z. absurd (omega arith);
}

decimal_digits-IsDecimal : (f n : ℕ) → n < f → IsDecimal n (decimal_digits f n)
unfolding decimal_digits
decimal_digits-IsDecimal zero n h = absurd (omega arith)
decimal_digits-IsDecimal (suc f) n h = elim (Bool-cases (ltb n 10)) [
  | inl small ↦ rw small (one_digit n (ltb→lt n 10 small))
  | inr large ↦ rw large (
      more_digits n (decimal_digits f (n / 10)) (ground arith)
        (decimal_digits-IsDecimal f (n / 10) (ground arith)))
]

pub decimal-IsDecimal : (n : ℕ) → IsDecimal n (decimal n)
unfolding decimal
decimal-IsDecimal n = decimal_digits-IsDecimal (suc n) n (omega arith)

-- A number below 2^64 reads back from its decimal digits.
pub parse_usize-decimal : (n : ℕ) → n < 2 ^ 64 → parse_usize (decimal n) ≡ some n
unfolding parse_usize
parse_usize-decimal n h = rw (decimal-IsDecimal n).value (ground arith)
