-- ===== src/Retry/Single.antt =====
-- crates/retry/src/retry_fn.rs: `RetryFn`. The closure is a function on the world `W` that it reads
-- and changes, and `tokio::time::sleep`, in which time goes by, is one too. `ExponentialBackoff`
-- (tokio_retry) is a parameter: the state `B` of the iterator and its `next`. The sleeps are also kept
-- in order, the latest first.
pub mod Verdict
use axelar_relayer_core.Base.{
  ℕ, zero, suc, Bool, true, false, Option, none, some, List, [], ◌∷◌, Result, ok, err,
  if◌then◌else◌,
}
use axelar_relayer_core.Retry.Defs.{
  RetryError, aborted, max_attempts, Abortable, max_attempts_default, rate_limit_wait_secs,
  from_secs,
}

pub record RetryFn (B : Type 0) : Type 0 where
  pub backoff : B
  pub max_attempts : ℕ
  pub rate_limit_wait : ℕ

-- `RetryFn::new`.
unfoldable pub new : {B : Type 0} → B → RetryFn B
new backoff = record {
  backoff = backoff;
  max_attempts = max_attempts_default;
  rate_limit_wait = from_secs rate_limit_wait_secs;
}

-- The world, and the sleeps so far.
pub record Run (W : Type 0) : Type 0 where
  pub world : W
  pub sleeps : List ℕ

abbrev pub slept : {W : Type 0} → (ℕ → W → W) → ℕ → Run W → Run W
slept sleep d s = record { world = sleep d s.world; sleeps = d ∷ s.sleeps }

-- One attempt returns from the loop, or goes on to the next one.
pub data Attempt (T Err : Type 0) : Type 0 where
  returns : Result (RetryError Err) T → Attempt T Err
  again : Attempt T Err

module _ {W T Err B : Type 0} (a : Abortable Err) (sleep : ℕ → W → W)
    (function : W → Result Err T × W) (backoff_next : B → Option ℕ × B) where
  unfoldable pub judge : ℕ → Result Err T → Run W → Attempt T Err × Run W
  judge rate_limit_wait (ok res) s = (returns (ok res), s)
  judge rate_limit_wait (err e) s =
      if a.abortable e
      then (returns (err (aborted e)), s)
      else if a.rate_limit e
      then (again, slept sleep rate_limit_wait s)
      else (again, s)

  unfoldable pub attempt : ℕ → ℕ → Run W → Attempt T Err × Run W
  unfolding judge
  attempt rate_limit_wait duration s =
      let s' = slept sleep duration s in
      let (r, w) = function s'.world in judge rate_limit_wait r (record s' { world = w })

  -- `for (..) in self.backoff.enumerate().take(self.max_attempts)`.
  unfoldable pub rounds : ℕ → ℕ → B → Run W → Result (RetryError Err) T × Run W
  rounds wait zero b s = (err max_attempts, s)
  rounds wait (suc n) b s =
      let (delay, b') = backoff_next b in
      elim delay [
        | none ↦ (err max_attempts, s)
        | some d ↦
            let (r, s') = attempt wait d s in
            elim r [ returns res ↦ (res, s') | again ↦ rounds wait n b' s' ]
      ]

  -- `RetryFn::retry`.
  unfoldable pub retry : RetryFn B → W → Result (RetryError Err) T × Run W
  retry self w =
      rounds self.rate_limit_wait self.max_attempts self.backoff (record { world = w; sleeps = [] })
