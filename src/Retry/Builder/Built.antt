-- ===== src/Retry/Builder/Built.antt =====
-- The retries that a `Builder` makes.
use axelar_relayer_core.Base.{ℕ, ◌*◌, ◌≤◌, ◌≡◌, ◌≢◌, Option, none, Result}
use axelar_relayer_core.Retry.Defs.{Abortable, from_secs}
use axelar_relayer_core.Retry.Elapse.{IsBlind, IsUnseen}
use axelar_relayer_core.Retry.Backoff.{FloatRng}
use axelar_relayer_core.Retry.Builder.{new, ExponentialBackoff, with_retry, with_retry_pair}
use axelar_relayer_core.Retry.Single
use axelar_relayer_core.Retry.Single.Verdict.{verdict, retry-verdict}
use axelar_relayer_core.Retry.Pair
use axelar_relayer_core.Retry.Pair.Waits.{slept_total, retry_slept_le}

module _ {W T Err : Type 0} (a : Abortable Err) where
  -- A retry that a builder makes of one function returns the first result, or abortable error,
  -- among the answers that the function gives to twenty calls without any sleeps, and `MaxAttempts`
  -- if there is none, and it leaves the world as it is after that answer, up to what the function
  -- sees. This holds for every delay and factor, as long as the exponential backoff never ends and
  -- the function does not see the time that goes by in sleeps.
  pub with_retry-verdict :
      {B : Type 0} (eb : ExponentialBackoff B) (backoff_next : B → Option ℕ × B)
      (endless : (b : B) → (backoff_next b).0 ≢ none) (sleep : ℕ → W → W)
      (function : W → Result Err T × W) (Same : W → W → Type 0)
      → IsUnseen Same sleep
      → IsBlind Same function
      → (initial_delay factor max_delay : ℕ) (w w' : W) → Same w w'
      → let run =
          Single.retry a sleep function backoff_next
            (with_retry eb (new initial_delay factor max_delay))
            w in
        (run.0 ≡ (verdict a function 20 w').0) × Same run.1.world (verdict a function 20 w').1
  unfolding with_retry Single.new
  with_retry-verdict eb backoff_next endless sleep function Same unseen blind i k m w w' same =
      retry-verdict a sleep function backoff_next Same unseen blind endless
        (with_retry eb (new i k m)) w w' same

  -- A retry that a builder makes of a pair of functions sleeps for at most twenty times `m` in all,
  -- where `m` is no less than the maximal delay and the ten seconds of the rate limit.
  pub with_retry_pair_slept_le :
      (sleep : ℕ → W → W) (f g : W → Result Err T × W) {F R : Type 0} (fr : FloatRng F R)
      (initial_delay factor max_delay m : ℕ) (r : R) (w : W)
      → max_delay ≤ m
      → from_secs 10 ≤ m
      → slept_total
          (Pair.retry a sleep f g fr
            (with_retry_pair (new initial_delay factor max_delay))
            r
            w).1.trace
        ≤ 20 * m
  unfolding with_retry_pair new
  with_retry_pair_slept_le sleep f g fr = retry_slept_le a sleep f g fr
