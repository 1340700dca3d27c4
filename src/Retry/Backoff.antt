-- ===== src/Retry/Backoff.antt =====
-- crates/retry/src/backoff_pair_iterator.rs. The random factor and the float arithmetic of
-- `jitter` are a parameter, `FloatRng`: `F` is `f64`, `R` the state of the random generator.
pub mod Bounds
use axelar_relayer_core.Base.{
  ℕ, zero, suc, Bool, true, false, ◌&&◌, List, [], ◌∷◌, if◌then◌else◌, ltb,
}
use axelar_relayer_core.Retry.Defs.{
  as_millis, from_millis, saturating_mul, try_from_u64, unwrap_or, u64_max,
}

pub record FloatRng (F R : Type 0) : Type 0 where
  pub of_u64 : ℕ → F
  pub mul : F → F → F
  pub is_finite : F → Bool
  pub is_sign_positive : F → Bool
  pub lt : F → F → Bool
  -- `f64::MAX / 2.0`.
  pub half_max : F
  -- `x as u64`, which saturates.
  pub to_u64 : F → ℕ
  -- `random_range(0.5..1.5)`.
  pub random_range : R → F × R

pub data AlternationStep : Type 0 where
  first second : AlternationStep

pub record BackoffPairIterator : Type 0 where
  pub current_first_path_delay_ms : ℕ
  pub current_second_path_delay_ms : ℕ
  pub factor : ℕ
  pub max_delay_ms : ℕ
  pub backoff_path : AlternationStep

pub record Iteration : Type 0 where
  pub duration : ℕ
  pub alteration_step : AlternationStep

unfoldable pub u128_to_u64_saturating : ℕ → ℕ
u128_to_u64_saturating value =
    if ltb u64_max value then u64_max else unwrap_or (try_from_u64 value) u64_max

-- `BackoffPairIterator::new`.
unfoldable pub new : ℕ → ℕ → ℕ → BackoffPairIterator
unfolding u128_to_u64_saturating
new initial_delay factor max_delay = record {
  current_first_path_delay_ms = u128_to_u64_saturating (as_millis initial_delay);
  current_second_path_delay_ms = 0;
  factor = factor;
  max_delay_ms = u128_to_u64_saturating (as_millis max_delay);
  backoff_path = first;
}

module _ {F R : Type 0} (fr : FloatRng F R) where
  open fr use {of_u64, mul, is_finite, is_sign_positive, lt, half_max, to_u64, random_range}

  unfoldable pub jitter : ℕ → R → ℕ × R
  jitter duration_ms r =
      let (jitter_factor, r') = random_range r in
      let jittered = mul (of_u64 duration_ms) jitter_factor in
      (
        if is_finite jittered && is_sign_positive jittered && lt jittered half_max
            then to_u64 jittered
            else duration_ms,
        r',
      )

  abbrev capped : ℕ → ℕ → ℕ
  capped max_delay_ms duration_ms =
      if ltb max_delay_ms duration_ms then max_delay_ms else duration_ms

  -- The two arms of the `match` in `next`.
  unfoldable pub next_from :
      AlternationStep → BackoffPairIterator → R → Iteration × BackoffPairIterator × R
  unfolding jitter
  next_from first it r =
      let (delay, r') = jitter (saturating_mul it.current_first_path_delay_ms it.factor) r in
      (
        record {
          duration = from_millis (capped it.max_delay_ms it.current_first_path_delay_ms);
          alteration_step = first;
        },
        record it { backoff_path = second; current_first_path_delay_ms = delay },
        r',
      )
  next_from second it r =
      let (delay, r') = jitter (saturating_mul it.current_first_path_delay_ms it.factor) r in
      (
        record {
          duration = from_millis (capped it.max_delay_ms it.current_second_path_delay_ms);
          alteration_step = second;
        },
        record it { backoff_path = first; current_second_path_delay_ms = delay },
        r',
      )

  -- `Iterator::next`, which never ends.
  unfoldable pub next : BackoffPairIterator → R → Iteration × BackoffPairIterator × R
  unfolding next_from
  next it r = next_from it.backoff_path it r

  -- `.take(n)`.
  unfoldable pub take : ℕ → BackoffPairIterator → R → List Iteration
  take zero it r = []
  take (suc n) it r = let (i, it', r') = next it r in i ∷ take n it' r'
