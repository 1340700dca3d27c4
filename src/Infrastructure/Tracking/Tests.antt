-- ===== src/Infrastructure/Tracking/Tests.antt =====
-- The theorems on `ThroughputTracker` at concrete calls.
use axelar_relayer_core.Base.{◌+◌, ◌-◌, ◌≤◌, List, [], ◌∷◌, refl, ◌≡◌, arith}
use axelar_relayer_core.Infrastructure.Tracking.{
  Call, new, processed, update, rate, no_rate, calls, update_and_get_rate, update_from, rate_of,
  record_processed_message,
}
use axelar_relayer_core.Infrastructure.Tracking.Rates.{AllCalm, counted, messages, rates_bounded}

-- Two calls for a rate at the same moment, and a third one a second later.
abbrev a_second : List Call
a_second =
    processed ∷ processed ∷ update 1000 ∷ processed ∷ update 1000 ∷ update 2000 ∷ processed ∷ []

-- The message before the second call is in no rate.
a_second_rates : (calls a_second (new 0)).0 ≡ rate 2 1000 ∷ no_rate ∷ rate 0 1000 ∷ []
unfolding calls update_and_get_rate update_from rate_of record_processed_message new
a_second_rates = refl

rates_bounded_example :
    let (rs, t') = calls a_second (new 0) in
    AllCalm rs
    × (t'.last_count ≤ t'.processed_count)
    × (counted rs + (t'.processed_count - t'.last_count) ≤ messages a_second + 0)
unfolding new
rates_bounded_example =
    rates_bounded a_second (new 0) (omega arith) (omega arith, (omega arith, (omega arith, tt)))
      (omega arith)
