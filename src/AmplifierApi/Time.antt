-- ===== src/AmplifierApi/Time.antt =====
-- crates/amplifier-api/src/util.rs: the encoding of time stamps. `Utc` and what is used of it are
-- chrono's, and the encodings of a byte and of the pair of seconds and nanoseconds are borsh's.
pub mod Sample
use mathlib.Core.List.{append_assoc}
use axelar_relayer_core.Base.{
  ℕ, ◌≡◌, Option, none, some, List, ◌++◌, Result, ok, err, if◌then◌else◌, ◌==◌, ◌<◌, ◌^◌, arith,
}
use axelar_relayer_core.Base.Int.{ℤ, pos, negsuc}

-- chrono's time stamps, and borsh's writers and readers; a reader returns the bytes that follow.
pub record Clockwork (Utc X : Type 0) : Type 0 where
  pub timestamp : Utc → ℤ
  pub timestamp_subsec_nanos : Utc → ℕ
  pub from_timestamp : ℤ → ℕ → Option Utc
  pub write_pair : ℤ → ℕ → List ℕ
  pub read_pair : List ℕ → Result X ((ℤ × ℕ) × List ℕ)
  pub write_u8 : ℕ → List ℕ
  pub read_u8 : List ℕ → Result X (ℕ × List ℕ)
  pub invalid_data : X

-- The range of an `i64`.
abbrev pub IsI64 : ℤ → Type 0
IsI64 (pos a) = a < 2 ^ 63
IsI64 (negsuc a) = a < 2 ^ 63

-- What chrono and borsh document: a time stamp has its seconds in an `i64` and its nanoseconds in a
-- `u32` and is made again from them, and an `i64` with a `u32`, or a `u8`, is read back as written.
pub record ReadsBack {Utc X : Type 0} (c : Clockwork Utc X) : Type 0 where
  pub seconds_IsI64 : (t : Utc) → IsI64 (c.timestamp t)
  pub nanos_range : (t : Utc) → c.timestamp_subsec_nanos t < 2 ^ 32
  pub from_parts :
      (t : Utc) → c.from_timestamp (c.timestamp t) (c.timestamp_subsec_nanos t) ≡ some t
  pub pair :
      (a : ℤ) (n : ℕ) (rest : List ℕ)
      → IsI64 a
      → n < 2 ^ 32
      → c.read_pair (c.write_pair a n ++ rest) ≡ ok ((a, n), rest)
  pub u8 : (b : ℕ) (rest : List ℕ) → b < 2 ^ 8 → c.read_u8 (c.write_u8 b ++ rest) ≡ ok (b, rest)

module _ {Utc X : Type 0} (c : Clockwork Utc X) where
  -- `serialize_utc`.
  unfoldable pub serialize_utc : Utc → List ℕ
  serialize_utc value = c.write_pair (c.timestamp value) (c.timestamp_subsec_nanos value)

  -- `deserialize_utc`.
  unfoldable pub deserialize_utc : List ℕ → Result X (Utc × List ℕ)
  deserialize_utc reader = elim (c.read_pair reader) [
    | err e ↦ err e
    | ok ((secs, nsecs), rest) ↦ elim (c.from_timestamp secs nsecs) [
      | none ↦ err c.invalid_data
      | some datetime ↦ ok (datetime, rest)
    ]
  ]

  -- `serialize_option_utc`.
  unfoldable pub serialize_option_utc : Option Utc → List ℕ
  serialize_option_utc (some dt) = c.write_u8 1 ++ serialize_utc dt
  serialize_option_utc none = c.write_u8 0

  abbrev present : Result X (Utc × List ℕ) → Result X (Option Utc × List ℕ)
  present (err e) = err e
  present (ok (t, rest)) = ok (some t, rest)

  -- `deserialize_option_utc`.
  unfoldable pub deserialize_option_utc : List ℕ → Result X (Option Utc × List ℕ)
  deserialize_option_utc reader = elim (c.read_u8 reader) [
    | err e ↦ err e
    | ok (flag, rest) ↦
        if flag == 0
        then ok (none, rest)
        else if flag == 1
        then present (deserialize_utc rest)
        else err c.invalid_data
  ]

  module _ (laws : ReadsBack c) where
    deserialize_utc-serialize_utc :
        (t : Utc) (rest : List ℕ) → deserialize_utc (serialize_utc t ++ rest) ≡ ok (t, rest)
    unfolding deserialize_utc serialize_utc
    deserialize_utc-serialize_utc t rest =
        let back =
          laws.pair (c.timestamp t) (c.timestamp_subsec_nanos t) rest (laws.seconds_IsI64 t)
            (laws.nanos_range t) in
        ground (arith, back, laws.from_parts t)

    -- Every optional time stamp is read back from its encoding, and the bytes that follow are left.
    pub deserialize_option_utc-serialize_option_utc :
        (o : Option Utc) (rest : List ℕ)
        → deserialize_option_utc (serialize_option_utc o ++ rest) ≡ ok (o, rest)
    unfolding deserialize_option_utc serialize_option_utc
    deserialize_option_utc-serialize_option_utc none rest =
        ground (arith, laws.u8 0 rest (omega arith))
    deserialize_option_utc-serialize_option_utc (some t) rest = ground (
      arith,
      append_assoc (c.write_u8 1) (serialize_utc t) rest,
      laws.u8 1 (serialize_utc t ++ rest) (omega arith),
      deserialize_utc-serialize_utc t rest,
    )
