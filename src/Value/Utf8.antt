-- ===== src/Value/Utf8.antt =====
-- `std::str::from_utf8` as a test: the well-formed byte sequences of UTF-8, read by a small automaton.
use openkeyv.Base.{ℕ, zero, suc, ◌≡◌, refl}
use openkeyv.Base.{Bool, true, false, ◌&&◌, ◌||◌, [], ◌∷◌, arith}
use openkeyv.Base.{ltb, leb, ◌==◌, if◌then◌else◌}
use openkeyv.Base.Bytes.{Bytes}

-- Between two characters; inside one, with `more` bytes to come after the next, which lies
-- between `lo` and `hi`; or after an ill-formed byte.
pub data Utf8 : Type 0 where
  start bad : Utf8
  inside : (more lo hi : ℕ) → Utf8

abbrev between : ℕ → ℕ → ℕ → Bool
between lo hi b = leb lo b && leb b hi

unfoldable pub utf8_lead : ℕ → Utf8
utf8_lead b =
    if ltb b 0x80
    then start
    else if between 0xc2 0xdf b
    then inside 0 0x80 0xbf
    else if b == 0xe0
    then inside 1 0xa0 0xbf
    else if b == 0xed
    then inside 1 0x80 0x9f
    else if between 0xe1 0xef b
    then inside 1 0x80 0xbf
    else if b == 0xf0
    then inside 2 0x90 0xbf
    else if between 0xf1 0xf3 b
    then inside 2 0x80 0xbf
    else if b == 0xf4
    then inside 2 0x80 0x8f
    else bad

unfoldable pub utf8_step : Utf8 → ℕ → Utf8
utf8_step start b = utf8_lead b
utf8_step bad b = bad
utf8_step (inside zero lo hi) b = if between lo hi b then start else bad
utf8_step (inside (suc more) lo hi) b = if between lo hi b then inside more 0x80 0xbf else bad

unfoldable pub utf8_run : Utf8 → Bytes → Bool
utf8_run start [] = true
utf8_run bad [] = false
utf8_run (inside more lo hi) [] = false
utf8_run s (b ∷ bs) = utf8_run (utf8_step s b) bs

unfoldable pub is_utf8 : Bytes → Bool
unfolding utf8_run utf8_step utf8_lead
is_utf8 = utf8_run start

-- `str::is_char_boundary` at the front of what is left of a text.
abbrev pub starts_char : Bytes → Bool
starts_char [] = true
starts_char (b ∷ bs) = ltb b 0x80 || leb 0xc0 b

utf8_run-bad : (bs : Bytes) → utf8_run bad bs ≡ false
unfolding utf8_run utf8_step
utf8_run-bad [] = refl
utf8_run-bad (b ∷ bs) = utf8_run-bad bs

-- A valid text begins at a character boundary.
pub is_utf8-starts_char : (bs : Bytes) → is_utf8 bs ≡ true → starts_char bs ≡ true
unfolding is_utf8
is_utf8-starts_char [] h = refl
is_utf8-starts_char (b ∷ bs) h = ground (arith, utf8_run-bad bs)
