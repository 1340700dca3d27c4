-- ===== src/Base/Int.antt =====
-- Signed integers over the native numbers, with what the code uses of `i32` and `i128`.
use axelar_relayer_core.Base.{ℕ, ◌+◌, ◌*◌, ◌^◌, Bool, Option, none, some, if◌then◌else◌, ltb}

-- `negsuc n` is -(n + 1).
pub data ℤ : Type 0 where
  pos : ℕ → ℤ
  negsuc : ℕ → ℤ

-- The value fits a signed integer of `w + 1` bits.
abbrev pub fits_signed : ℕ → ℤ → Bool
fits_signed w (pos n) = ltb n (2 ^ w)
fits_signed w (negsuc n) = ltb n (2 ^ w)

abbrev pub double : ℤ → ℤ
double (pos n) = pos (2 * n)
double (negsuc n) = negsuc (2 * n + 1)

-- `i32::checked_mul(2)`.
abbrev pub checked_double_i32 : ℤ → Option ℤ
checked_double_i32 a = if fits_signed 31 (double a) then some (double a) else none

abbrev pub unwrap_or_ℤ : Option ℤ → ℤ → ℤ
unwrap_or_ℤ none d = d
unwrap_or_ℤ (some a) d = a
