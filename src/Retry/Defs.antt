-- ===== src/Retry/Defs.antt =====
-- crates/retry/src/lib.rs: the retry errors, the classification of errors and the two constants,
-- and what the crate uses of `Duration` and of the 64-bit integers.
use axelar_relayer_core.Base.{
  ℕ, ◌*◌, ◌/◌, ◌^◌, ◌-◌, ◌≤◌, Bool, Option, none, some, if◌then◌else◌, ltb, arith,
}

-- `RetryError<Err>`.
pub data RetryError (Err : Type 0) : Type 0 where
  aborted : Err → RetryError Err
  max_attempts : RetryError Err

-- The trait `Abortable`.
pub record Abortable (Err : Type 0) : Type 0 where
  pub abortable : Err → Bool
  pub rate_limit : Err → Bool

-- `MAX_ATTEMPTS` and `RATE_LIMIT_WAIT_SECS`.
abbrev pub max_attempts_default : ℕ
max_attempts_default = 20

abbrev pub rate_limit_wait_secs : ℕ
rate_limit_wait_secs = 10

-- A `Duration` is its number of nanoseconds.
abbrev pub as_millis : ℕ → ℕ
as_millis d = d / 1000000

abbrev pub from_millis : ℕ → ℕ
from_millis ms = ms * 1000000

abbrev pub from_secs : ℕ → ℕ
from_secs s = s * 1000000000

abbrev pub u64_max : ℕ
u64_max = 2 ^ 64 - 1

-- `u64::saturating_mul`.
abbrev pub saturating_mul : ℕ → ℕ → ℕ
saturating_mul a b = if ltb u64_max (a * b) then u64_max else a * b

-- `u64::try_from` on a wider integer.
abbrev pub try_from_u64 : ℕ → Option ℕ
try_from_u64 v = if ltb u64_max v then none else some v

abbrev pub unwrap_or : Option ℕ → ℕ → ℕ
unwrap_or none d = d
unwrap_or (some v) d = v

-- Whole milliseconds never exceed the duration that they come from.
pub from_millis-as_millis_le : (d : ℕ) → from_millis (as_millis d) ≤ d
from_millis-as_millis_le d = omega arith
