-- ===== src/AmplifierApi/Time/Sample.antt =====
-- A clock of seconds and nanoseconds, and the encodings of numbers of a fixed width, the least byte
-- first, with an `i64` in two's complement.
use axelar_relayer_core.Base.{
  ℕ, zero, suc, ◌+◌, ◌*◌, ◌-◌, ◌/◌, ◌%◌, ◌^◌, ◌<◌, ◌≡◌, refl, ap, Bool, true, false, ◌&&◌, Option,
  none, some, List, [], ◌∷◌, ◌++◌, Result, ok, err, ltb, if◌then◌else◌, arith,
}
use axelar_relayer_core.Base.Int.{ℤ, pos, negsuc, fits_signed}
use axelar_relayer_core.AmplifierApi.Time.{Clockwork, ReadsBack, IsI64}

-- `n` in `w` bytes, the least byte first.
abbrev le_bytes : ℕ → ℕ → List ℕ
le_bytes zero n = []
le_bytes (suc w) n = n % 256 ∷ le_bytes w (n / 256)

abbrev of_le : ℕ → List ℕ → Result ℕ (ℕ × List ℕ)
of_le zero bs = ok (0, bs)
of_le (suc w) [] = err 0
of_le (suc w) (b ∷ bs) = elim (of_le w bs) [ err e ↦ err e | ok (n, rest) ↦ ok (b + 256 * n, rest) ]

le_divided : (w n : ℕ) → n < 256 ^ suc w → n / 256 < 256 ^ w
le_divided w n h = omega (arith, h)

of_le-le_bytes :
    (w n : ℕ) (rest : List ℕ) → n < 256 ^ w → of_le w (le_bytes w n ++ rest) ≡ ok (n, rest)
of_le-le_bytes zero n rest h = ground (arith, h)
of_le-le_bytes (suc w) n rest h = ground (arith, of_le-le_bytes w (n / 256) rest (le_divided w n h))

-- An `i64` in two's complement.
abbrev as_u64 : ℤ → ℕ
as_u64 (pos a) = a
as_u64 (negsuc a) = 2 ^ 64 - suc a

abbrev of_u64 : ℕ → ℤ
of_u64 n = if ltb n (2 ^ 63) then pos n else negsuc (2 ^ 64 - suc n)

abbrev write_pair : ℤ → ℕ → List ℕ
write_pair a n = le_bytes 8 (as_u64 a) ++ le_bytes 4 n

abbrev read_pair : List ℕ → Result ℕ ((ℤ × ℕ) × List ℕ)
read_pair bs = elim (of_le 8 bs) [
  | err e ↦ err e
  | ok (a, bs') ↦ elim (of_le 4 bs') [ err e ↦ err e | ok (n, rest) ↦ ok ((of_u64 a, n), rest) ]
]

as_u64_range : (a : ℤ) → IsI64 a → as_u64 a < 2 ^ 64
as_u64_range (pos a) h = omega (arith, h)
as_u64_range (negsuc a) h = omega (arith, h)

Bool-IsSet : IsSet Bool
Bool-IsSet = hlevel

of_u64-as_u64 : (a : ℤ) → IsI64 a → of_u64 (as_u64 a) ≡ a
of_u64-as_u64 (pos a) h = ground (arith, h)
of_u64-as_u64 (negsuc a) h = ground (arith, h)

pairs_read :
    (a : ℤ) (n : ℕ) (rest : List ℕ)
    → IsI64 a
    → n < 2 ^ 32
    → read_pair (write_pair a n ++ rest) ≡ ok ((a, n), rest)
pairs_read a n rest h h' = ground (
  arith,
  of_le-le_bytes 8 (as_u64 a) (le_bytes 4 n ++ rest) (as_u64_range a h),
  of_le-le_bytes 4 n rest (omega (arith, h')),
  of_u64-as_u64 a h,
)

abbrev in_range : ℤ → ℕ → Bool
in_range a n = fits_signed 63 a && ltb n (2 ^ 32)

-- Seconds and nanoseconds in range.
abbrev Moment : Type 0
Moment = (a : ℤ) × (n : ℕ) × (in_range a n ≡ true)

abbrev made : (a : ℤ) (n : ℕ) (b : Bool) → in_range a n ≡ b → Option Moment
made a n true e = some (a, n, e)
made a n false e = none

made-true :
    (a : ℤ) (n : ℕ) (b : Bool) (h : in_range a n ≡ b) (e : in_range a n ≡ true)
    → made a n b h ≡ some (a, n, e)
made-true a n true h e = ap (λ x. some (a, n, x)) (Bool-IsSet (in_range a n) true h e)
made-true a n false h e = absurd (ground (arith, h, e))

in_range-IsI64 : (a : ℤ) (n : ℕ) → in_range a n ≡ true → IsI64 a
in_range-IsI64 (pos a) n e = ground (arith, e)
in_range-IsI64 (negsuc a) n e = ground (arith, e)

in_range_nanos : (a : ℤ) (n : ℕ) → in_range a n ≡ true → n < 2 ^ 32
in_range_nanos a n e = ground (arith, e)

abbrev pub clockwork : Clockwork Moment ℕ
clockwork = record {
  timestamp = λ t. t.0;
  timestamp_subsec_nanos = λ t. t.1;
  from_timestamp = λ a n. made a n (in_range a n) refl;
  write_pair = write_pair;
  read_pair = read_pair;
  write_u8 = le_bytes 1;
  read_u8 = of_le 1;
  invalid_data = 2;
}

pub clockwork-ReadsBack : ReadsBack clockwork
clockwork-ReadsBack = record {
  seconds_IsI64 = λ t. in_range-IsI64 t.0 t.1 t.2;
  nanos_range = λ t. in_range_nanos t.0 t.1 t.2;
  from_parts = λ t. made-true t.0 t.1 (in_range t.0 t.1) refl t.2;
  pair = pairs_read;
  u8 = λ b rest h. of_le-le_bytes 1 b rest (omega (arith, h));
}

-- Eight seconds before the epoch, and five nanoseconds.
abbrev pub before_epoch : Moment
before_epoch = (negsuc 7, 5, refl)
