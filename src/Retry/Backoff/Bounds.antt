-- ===== src/Retry/Backoff/Bounds.antt =====
-- What the backoff of a pair guarantees: the order of the paths, the bound on the delays, and how
-- the delays of the two paths depend on one another.
use axelar_relayer_core.Base.{ℕ, zero, suc, ◌≤◌, ◌≡◌, refl, List, [], ◌∷◌, All, map, arith}
use axelar_relayer_core.Retry.Defs.{as_millis, from_millis, u64_max}
use axelar_relayer_core.Retry.Backoff.{
  FloatRng, AlternationStep, first, second, BackoffPairIterator, u128_to_u64_saturating, new, next,
  take,
}

-- The machine integers of the iterator are in range.
pub record IsU64 (it : BackoffPairIterator) : Type 0 where
  pub first_fits : it.current_first_path_delay_ms ≤ u64_max
  pub second_fits : it.current_second_path_delay_ms ≤ u64_max
  pub max_fits : it.max_delay_ms ≤ u64_max

abbrev pub other : AlternationStep → AlternationStep
other first = second
other second = first

-- The paths that `n` rounds take, from a given one.
abbrev pub alternating : ℕ → AlternationStep → List AlternationStep
alternating zero s = []
alternating (suc n) s = s ∷ alternating n (other s)

saturating_le : (ms : ℕ) → u128_to_u64_saturating ms ≤ ms
unfolding u128_to_u64_saturating
saturating_le ms = ground arith

module _ {F R : Type 0} (fr : FloatRng F R) where
  pub next_keeps_max :
      (it : BackoffPairIterator) (r : R) → (next fr it r).1.max_delay_ms ≡ it.max_delay_ms
  unfolding next
  next_keeps_max it r = ground arith

  pub next_duration_le :
      (it : BackoffPairIterator) (r : R) → (next fr it r).0.duration ≤ from_millis it.max_delay_ms
  unfolding next
  next_duration_le it r = ground arith

  take_durations_le :
      (n m : ℕ) (it : BackoffPairIterator) (r : R)
      → from_millis it.max_delay_ms ≤ m
      → All (λ i. i.duration ≤ m) (take fr n it r)
  unfolding take
  take_durations_le zero m it r h = tt
  take_durations_le (suc n) m it r h =
      let step = next fr it r in
      (
        omega (arith, next_duration_le it r),
        take_durations_le n m step.1 step.2 (omega (arith, ap_max it r)),
      )
    where
      ap_max :
          (it : BackoffPairIterator) (r : R)
          → from_millis (next fr it r).1.max_delay_ms ≡ from_millis it.max_delay_ms
      ap_max it r = rw (next_keeps_max it r)

  pub next_path :
      (it : BackoffPairIterator) (r : R)
      → ((next fr it r).0.alteration_step ≡ it.backoff_path)
        × ((next fr it r).1.backoff_path ≡ other it.backoff_path)
  unfolding next
  next_path it r = ground arith

  take_paths :
      (n : ℕ) (it : BackoffPairIterator) (r : R)
      → map (λ i. i.alteration_step) (take fr n it r) ≡ alternating n it.backoff_path
  unfolding take
  take_paths zero it r = refl
  take_paths (suc n) it r =
      let step = next fr it r in ground (arith, next_path it r, take_paths n step.1 step.2)

  -- Every delay that an iterator built by `new` hands out, over any number of rounds, is at most
  -- the maximal delay, and the rounds alternate between the two paths, the first one first.
  pub take-new :
      (n initial_delay factor max_delay : ℕ) (r : R)
      → All (λ i. i.duration ≤ max_delay) (take fr n (new initial_delay factor max_delay) r)
        × (map (λ i. i.alteration_step) (take fr n (new initial_delay factor max_delay) r)
            ≡ alternating n first)
  unfolding new
  take-new n initial_delay factor max_delay r = (
    take_durations_le n max_delay (new initial_delay factor max_delay) r
        (omega (arith, saturating_le (as_millis max_delay))),
    take_paths n (new initial_delay factor max_delay) r,
  )

  new-IsU64 : (i f m : ℕ) → IsU64 (new i f m)
  unfolding new
  new-IsU64 i f m = ground arith

  -- A conversion to `u64` that stays in range keeps the delays of the iterator in range: the
  -- products saturate and do not wrap.
  pub next-IsU64 :
      (fits : (x : F) → fr.to_u64 x ≤ u64_max) (it : BackoffPairIterator) (r : R)
      → IsU64 it
      → IsU64 (next fr it r).1
  unfolding next
  next-IsU64 fits it r v = grind (arith, fits)

  -- A round of the second path overwrites that path's delay by one computed from the delay of the
  -- first path alone: whatever the delay of the second path was, the iterator after the round, the
  -- first path's delay and the state of the random generator are the same.
  pub next_second_forgets :
      (it : BackoffPairIterator) (r : R) (d : ℕ)
      → it.backoff_path ≡ second
      → ((next fr (record it { current_second_path_delay_ms = d }) r).1 ≡ (next fr it r).1)
        × ((next fr (record it { current_second_path_delay_ms = d }) r).2 ≡ (next fr it r).2)
        × ((next fr it r).1.current_first_path_delay_ms ≡ it.current_first_path_delay_ms)
  unfolding next
  next_second_forgets it r d h = ground arith

-- The maximal delay of a new iterator is at most the one that it was given.
pub max_of_new : (i f m : ℕ) → from_millis (new i f m).max_delay_ms ≤ m
unfolding new
max_of_new i f m = omega (arith, saturating_le (as_millis m))
