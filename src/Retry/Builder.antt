-- ===== src/Retry/Builder.antt =====
-- crates/retry/src/builder.rs: `Builder`, with `BackoffParrams` of lib.rs. `ExponentialBackoff`
-- (tokio_retry) is a parameter: its three constructors on the state `B`.
pub mod Built
use axelar_relayer_core.Base.{ℕ}
use axelar_relayer_core.Retry.Defs.{as_millis, try_from_u64, unwrap_or, u64_max}
use axelar_relayer_core.Retry.Backoff
use axelar_relayer_core.Retry.Single
use axelar_relayer_core.Retry.Pair

pub record BackoffParrams : Type 0 where
  pub initial_delay : ℕ
  pub backoff_factor : ℕ
  pub max_delay : ℕ

pub record Builder : Type 0 where
  pub backoff : BackoffParrams

-- `Builder::new`.
unfoldable pub new : ℕ → ℕ → ℕ → Builder
new initial_delay backoff_factor max_delay = record {
  backoff = record {
    initial_delay = initial_delay;
    backoff_factor = backoff_factor;
    max_delay = max_delay;
  };
}

pub record ExponentialBackoff (B : Type 0) : Type 0 where
  pub from_millis : ℕ → B
  pub factor : ℕ → B → B
  pub max_delay : ℕ → B → B

-- `Builder::with_retry`.
unfoldable pub with_retry : {B : Type 0} → ExponentialBackoff B → Builder → Single.RetryFn B
with_retry eb self =
    let base =
      eb.from_millis (unwrap_or (try_from_u64 (as_millis self.backoff.initial_delay)) u64_max) in
    Single.new (eb.max_delay self.backoff.max_delay (eb.factor self.backoff.backoff_factor base))

-- `Builder::with_retry_pair`.
unfoldable pub with_retry_pair : Builder → Pair.RetryPairFn
with_retry_pair self =
    Pair.new
      (Backoff.new self.backoff.initial_delay self.backoff.backoff_factor self.backoff.max_delay)
