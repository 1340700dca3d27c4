-- ===== src/Infrastructure/Tracking/Rates.antt =====
-- Which messages the rates of a `ThroughputTracker` count.
use axelar_relayer_core.Base.{ℕ, suc, ◌+◌, ◌-◌, ◌^◌, ◌≤◌, ◌<◌, ◌≡◌, List, [], ◌∷◌, All, arith}
use axelar_relayer_core.Infrastructure.Tracking.{
  ThroughputTracker, record_processed_message, Rate, overflow, no_rate, rate, rate_of, update_from,
  update_and_get_rate, Call, processed, update, calls,
}

-- The calls from a moment on, with a clock that does not go back.
abbrev pub IsMonotone : ℕ → List Call → Type 0
IsMonotone now [] = Unit
IsMonotone now (processed ∷ cs) = IsMonotone now cs
IsMonotone now (update later ∷ cs) = (now ≤ later) × IsMonotone later cs

abbrev pub messages : List Call → ℕ
messages [] = 0
messages (processed ∷ cs) = suc (messages cs)
messages (update now ∷ cs) = messages cs

-- The messages that the rates count.
abbrev pub counted : List Rate → ℕ
counted [] = 0
counted (rate n ms ∷ rs) = n + counted rs
counted (no_rate ∷ rs) = counted rs
counted (overflow ∷ rs) = counted rs

abbrev pub IsCalm : Rate → Type 0
IsCalm overflow = ⊥
IsCalm no_rate = Unit
IsCalm (rate n ms) = 0 < ms

abbrev pub AllCalm : List Rate → Type 0
AllCalm rs = All IsCalm rs

record_processed_message_lem :
    (t : ThroughputTracker)
    → suc t.processed_count < 2 ^ 64
    → record_processed_message t ≡ record t { processed_count = suc t.processed_count }
unfolding record_processed_message
record_processed_message_lem t fits = ground arith

update_and_get_rate_lem :
    (now : ℕ) (t : ThroughputTracker) (rs : List Rate)
    → t.last_count ≤ t.processed_count
    → t.last_timestamp_ms ≤ now
    → IsCalm (update_and_get_rate now t).0
      × (counted ((update_and_get_rate now t).0 ∷ rs)
          ≤ counted rs + (t.processed_count - t.last_count))
unfolding update_and_get_rate update_from rate_of
update_and_get_rate_lem now t rs sound h = ground arith

update_and_get_rate-1 :
    (now : ℕ) (t : ThroughputTracker)
    → (update_and_get_rate now t).1
      ≡ record t { last_count = t.processed_count; last_timestamp_ms = now }
unfolding update_and_get_rate update_from
update_and_get_rate-1 now t =
    λ i. record t { last_count = t.processed_count; last_timestamp_ms = now }

-- Where one call follows another and the clock does not go back, no rate overflows or is taken over no
-- time, and the rates count no message twice: together with the messages since the last call for a
-- rate they are at most those processed.
pub rates_bounded :
    (cs : List Call) (t : ThroughputTracker)
    → t.last_count ≤ t.processed_count
    → IsMonotone t.last_timestamp_ms cs
    → t.processed_count + messages cs < 2 ^ 64
    → let (rs, t') = calls cs t in
      AllCalm rs
      × (t'.last_count ≤ t'.processed_count)
      × (counted rs + (t'.processed_count - t'.last_count)
          ≤ messages cs + (t.processed_count - t.last_count))
unfolding calls
rates_bounded [] t sound mono fits = ground arith
rates_bounded (processed ∷ cs) t sound mono fits =
    let fits' : suc t.processed_count < 2 ^ 64 = omega arith in
    rw (record_processed_message_lem t fits', calls)
      (let t' : ThroughputTracker = record t { processed_count = suc t.processed_count } in
        ground (arith, rates_bounded cs t' (omega arith) mono (omega arith)))
rates_bounded (update now ∷ cs) t sound (before, mono) fits =
    rw (update_and_get_rate-1 now t, calls)
      (let t' : ThroughputTracker = record t {
        last_count = t.processed_count;
        last_timestamp_ms = now;
      } in
        let (calm, sound', counts) = rates_bounded cs t' (omega arith) mono fits in
        let (calm_one, counts_one) = update_and_get_rate_lem now t (calls cs t').0 sound before in
        ((calm_one, calm), sound', omega arith))

-- A rate that was asked for at the moment of the last one loses its messages: the call returns none,
-- and the next rate counts only those that are processed after it.
pub same_moment_forgets :
    (t : ThroughputTracker) (now : ℕ)
    → t.last_count ≤ t.processed_count
    → t.last_timestamp_ms < now
    → let (r, t') = update_and_get_rate t.last_timestamp_ms t in
      (r ≡ no_rate) × ((update_and_get_rate now t').0 ≡ rate 0 (now - t.last_timestamp_ms))
unfolding update_and_get_rate update_from rate_of
same_moment_forgets t now sound h = ground arith

-- Two calls of `update_and_get_rate` that overlap can overflow: when another thread processes a message
-- and asks for a rate between the load of the count and the swaps, the rate of the first call
-- subtracts a larger count from a smaller one.
pub overlapping_overflows :
    (t : ThroughputTracker) (now later : ℕ)
    → suc t.processed_count < 2 ^ 64
    → now < later
    → let t' = (update_and_get_rate now (record_processed_message t)).1 in
      (update_from t.processed_count later t').0 ≡ overflow
unfolding update_and_get_rate update_from rate_of record_processed_message
overlapping_overflows t now later fits h = ground arith
