-- ===== src/Platform.antt =====
-- What the program takes from outside this repository: `f64` arithmetic, chrono's `DateTime<Utc>`,
-- the clock and the operating system's randomness.
use openkeyv.Base.{ℕ, Bool, Option}
use openkeyv.Base.Bytes.{Bytes}

-- `T` is `DateTime<Utc>` and `F` is `f64`. An `i64` is its 64-bit pattern.
pub record Platform (T F : Type 0) : Type 0 where
  pub zero_float : F
  pub thousand : F
  -- `i64::MAX as f64`
  pub i64_max : F
  pub is_finite : F → Bool
  -- `a <= b`, `a < b`
  pub le_float : F → F → Bool
  pub lt_float : F → F → Bool
  pub mul : F → F → F
  pub div : F → F → F
  -- `a.max(b)`, `a.min(b)`
  pub max_float : F → F → F
  pub min_float : F → F → F
  -- `i as f64`, `x as i64`
  pub float_of_i64 : ℕ → F
  pub i64_of_float : F → ℕ
  -- `a <= b` on times
  pub at_or_before : T → T → Bool
  pub timestamp_millis : T → ℕ
  -- `Utc.timestamp_millis_opt(i).single()`
  pub timestamp_millis_opt : ℕ → Option T
  -- `t.checked_add_signed(TimeDelta::milliseconds(i))`
  pub checked_add_millis : T → ℕ → Option T
  -- `(a - b).num_milliseconds()`
  pub millis_between : T → T → ℕ

-- What one call reads from outside: the readings of `Utc::now()` in their order, and the draws of
-- 16 random bytes in theirs, `none` where the source of randomness fails.
pub record Inputs (T : Type 0) : Type 0 where
  pub clock : ℕ → T
  pub random : ℕ → Option Bytes
