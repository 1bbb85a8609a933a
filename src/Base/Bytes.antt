-- ===== src/Base/Bytes.antt =====
-- Byte strings: equality, the little-endian encoding of a word, and texts as their UTF-8 bytes.
use Prim.Native.Nat.{ℕ, zero, suc, ◌+◌, ◌*◌, ◌/◌, ◌%◌, ◌^◌, ◌<◌}
use mathlib.Core.Path.{◌≡◌, refl}
use mathlib.Core.Logic.{◌↔◌}
use mathlib.Core.Bool.{Bool, true, false, ◌&&◌}
use mathlib.Core.List.{List, [], ◌∷◌, ◌++◌}
use native.Mathlib.Omega.{arith}
use openkeyv.Base.Tests.{◌==◌}
use openkeyv.Base.Lists.{length, All, take, take-append}

abbrev pub Bytes : Type 0
Bytes = List ℕ

-- A `&str` or `String`, by its bytes.
abbrev pub Text : Type 0
Text = List ℕ

abbrev pub IsByte : ℕ → Type 0
IsByte b = b < 256

unfoldable pub bytes_eq : Bytes → Bytes → Bool
bytes_eq [] [] = true
bytes_eq [] (y ∷ ys) = false
bytes_eq (x ∷ xs) [] = false
bytes_eq (x ∷ xs) (y ∷ ys) = (x == y) && bytes_eq xs ys

pub bytes_eq_refl : (xs : Bytes) → bytes_eq xs xs ≡ true
unfolding bytes_eq
bytes_eq_refl [] = refl
bytes_eq_refl (x ∷ xs) = ground (arith, bytes_eq_refl xs)

bytes_eq→eq : (xs ys : Bytes) → bytes_eq xs ys ≡ true → xs ≡ ys
unfolding bytes_eq
bytes_eq→eq [] [] h = refl
bytes_eq→eq [] (y ∷ ys) h = cc
bytes_eq→eq (x ∷ xs) [] h = cc
bytes_eq→eq (x ∷ xs) (y ∷ ys) h = ground (arith, bytes_eq→eq xs ys)

pub bytes_eq_iff : (xs ys : Bytes) → (bytes_eq xs ys ≡ true) ↔ (xs ≡ ys)
bytes_eq_iff xs ys = (bytes_eq→eq xs ys, λ e. rw e (bytes_eq_refl ys))

pub bytes_eq-append : (p a b : Text) → bytes_eq (p ++ a) (p ++ b) ≡ bytes_eq a b
unfolding bytes_eq
bytes_eq-append [] a b = refl
bytes_eq-append (x ∷ p) a b = ground (arith, bytes_eq-append p a b)

unfoldable pub starts_with : Bytes → Bytes → Bool
starts_with prefix bytes = bytes_eq (take (length prefix) bytes) prefix

pub starts_with-append : (p rest : Bytes) → starts_with p (p ++ rest) ≡ true
unfolding starts_with
starts_with-append p rest = rw (take-append p rest) (bytes_eq_refl p)

-- `w.to_le_bytes()` for a word of `n` bytes. An `i64` and an `f64` stand as their 64-bit patterns.
unfoldable pub to_le_bytes : ℕ → ℕ → Bytes
to_le_bytes zero w = []
to_le_bytes (suc n) w = (w % 256) ∷ to_le_bytes n (w / 256)

unfoldable pub from_le_bytes : Bytes → ℕ
from_le_bytes [] = 0
from_le_bytes (b ∷ bs) = b + 256 * from_le_bytes bs

pub length-to_le_bytes : (n w : ℕ) → length (to_le_bytes n w) ≡ n
unfolding to_le_bytes
length-to_le_bytes zero w = refl
length-to_le_bytes (suc n) w = omega (arith, length-to_le_bytes n (w / 256))

pub to_le_bytes-IsByte : (n w : ℕ) → All IsByte (to_le_bytes n w)
unfolding to_le_bytes
to_le_bytes-IsByte zero w = tt
to_le_bytes-IsByte (suc n) w = (omega arith, to_le_bytes-IsByte n (w / 256))

pub to_le_bytes-from_le_bytes :
    (bs : Bytes) → All IsByte bs → to_le_bytes (length bs) (from_le_bytes bs) ≡ bs
unfolding to_le_bytes from_le_bytes
to_le_bytes-from_le_bytes [] h = refl
to_le_bytes-from_le_bytes (b ∷ bs) (h, hs) =
    let low : (b + 256 * from_le_bytes bs) % 256 ≡ b = omega arith in
    let high : (b + 256 * from_le_bytes bs) / 256 ≡ from_le_bytes bs = omega arith in
    rw (low, high, to_le_bytes-from_le_bytes bs hs)

pub from_le_bytes-lt :
    (bs : Bytes) (n : ℕ) → n ≡ length bs → All IsByte bs → from_le_bytes bs < 256 ^ n
unfolding from_le_bytes
from_le_bytes-lt [] n e h = rw e (omega arith)
from_le_bytes-lt (b ∷ bs) zero e (h, hs) = absurd (omega arith)
from_le_bytes-lt (b ∷ bs) (suc n) e (h, hs) = omega (arith, from_le_bytes-lt bs n (omega arith) hs)

pub from_le_bytes-to_le_bytes : (n w : ℕ) → w < 256 ^ n → from_le_bytes (to_le_bytes n w) ≡ w
unfolding to_le_bytes from_le_bytes
from_le_bytes-to_le_bytes zero w h = omega arith
from_le_bytes-to_le_bytes (suc n) w h =
    omega (arith, from_le_bytes-to_le_bytes n (w / 256) (omega arith))
