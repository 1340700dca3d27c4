-- ===== src/Infrastructure/Tracking.antt =====
-- crates/infrastructure/src/tracking.rs: `ThroughputTracker`, whose three atomics are 64 bits wide. The
-- clock is a parameter of each call, and a rate is kept as its count of messages and its
-- milliseconds: the quotient in f64 is left out.
pub mod Rates
mod Tests
use axelar_relayer_core.Base.{
  ℕ, suc, ◌+◌, ◌-◌, ◌%◌, ◌^◌, Bool, Option, none, some, List, [], ◌∷◌, if◌then◌else◌, ltb,
}

pub record ThroughputTracker : Type 0 where
  pub processed_count : ℕ
  pub last_count : ℕ
  pub last_timestamp_ms : ℕ

-- `ThroughputTracker::new`.
unfoldable pub new : ℕ → ThroughputTracker
new now = record { processed_count = 0; last_count = 0; last_timestamp_ms = now }

-- `record_processed_message`.
unfoldable pub record_processed_message : ThroughputTracker → ThroughputTracker
record_processed_message t = record t { processed_count = suc t.processed_count % 2 ^ 64 }

pub data Rate : Type 0 where
  -- A subtraction below zero: a panic where overflow is checked.
  overflow : Rate
  -- No time has passed.
  no_rate : Rate
  rate : ℕ → ℕ → Rate

-- The two swaps of `update_and_get_rate`, each with the value it finds.
abbrev pub swap_count : ℕ → ThroughputTracker → ℕ × ThroughputTracker
swap_count current t = (t.last_count, record t { last_count = current })

abbrev pub swap_timestamp : ℕ → ThroughputTracker → ℕ × ThroughputTracker
swap_timestamp now t = (t.last_timestamp_ms, record t { last_timestamp_ms = now })

-- The end of `update_and_get_rate`.
unfoldable pub rate_of : ℕ → ℕ → ℕ → ℕ → Rate
rate_of current prev now last =
    if ltb now last
    then overflow
    else if ltb last now
    then (if ltb current prev then overflow else rate (current - prev) (now - last))
    else no_rate

-- What follows the load of the count, and `update_and_get_rate`.
unfoldable pub update_from : ℕ → ℕ → ThroughputTracker → Rate × ThroughputTracker
update_from current now t =
    let (prev, t1) = swap_count current t in
    let (last, t2) = swap_timestamp now t1 in (rate_of current prev now last, t2)

unfoldable pub update_and_get_rate : ℕ → ThroughputTracker → Rate × ThroughputTracker
update_and_get_rate now t = update_from t.processed_count now t

-- The calls of one thread after another.
pub data Call : Type 0 where
  processed : Call
  update : ℕ → Call

-- The tracker behind the calls, and the rates that they have returned, oldest first.
unfoldable pub calls : List Call → ThroughputTracker → List Rate × ThroughputTracker
calls [] t = ([], t)
calls (processed ∷ cs) t = calls cs (record_processed_message t)
calls (update now ∷ cs) t =
    let (r, t') = update_and_get_rate now t in let (rs, t2) = calls cs t' in (r ∷ rs, t2)
