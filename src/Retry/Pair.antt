-- ===== src/Retry/Pair.antt =====
-- crates/retry/src/retry_pair_fn.rs: `RetryPairFn`. Both closures read and change one world `W`, and so
-- does `tokio::time::sleep`, in which time goes by. The sleeps and the calls, each with the error that
-- it has returned, are also kept in a trace, the latest event first. `expect` on a missing abort error
-- is the outcome `panicked`.
pub mod Calls
pub mod Aborts
pub mod Waits
use axelar_relayer_core.Base.{
  ℕ, zero, suc, Bool, true, false, Option, none, some, List, [], ◌∷◌, Result, ok, err,
  if◌then◌else◌,
}
use axelar_relayer_core.Retry.Defs.{
  RetryError, aborted, max_attempts, Abortable, max_attempts_default, rate_limit_wait_secs,
  from_secs,
}
use axelar_relayer_core.Retry.Backoff.{
  FloatRng, AlternationStep, first, second, BackoffPairIterator, Iteration, next,
}

pub record RetryPairFn : Type 0 where
  pub backoff : BackoffPairIterator
  pub max_attempts : ℕ
  pub rate_limit_wait : ℕ

-- `RetryPairFn::new`.
unfoldable pub new : BackoffPairIterator → RetryPairFn
new backoff = record {
  backoff = backoff;
  max_attempts = max_attempts_default;
  rate_limit_wait = from_secs rate_limit_wait_secs;
}

-- A sleep, and a call with the error it has returned, if any.
pub data Event (Err : Type 0) : Type 0 where
  slept : ℕ → Event Err
  called : AlternationStep → Option Err → Event Err

abbrev pub error_of : {T Err : Type 0} → Result Err T → Option Err
error_of (ok t) = none
error_of (err e) = some e

-- The local variables of `retry`, the world and the trace.
pub record Loop (W Err : Type 0) : Type 0 where
  pub primary_fn_aborted : Bool
  pub primary_fn_rate_limitted : Bool
  pub secondary_fn_aborted : Bool
  pub secondary_fn_rate_limitted : Bool
  pub last_abort_err : Option Err
  pub world : W
  pub trace : List (Event Err)

unfoldable pub start : {W Err : Type 0} → W → Loop W Err
start w = record {
  primary_fn_aborted = false;
  primary_fn_rate_limitted = false;
  secondary_fn_aborted = false;
  secondary_fn_rate_limitted = false;
  last_abort_err = none;
  world = w;
  trace = [];
}

pub data Outcome (T Err : Type 0) : Type 0 where
  returned : Result (RetryError Err) T → Outcome T Err
  panicked : Outcome T Err

-- What a round does to the `for` loop: `return`, or on to the next round.
pub data Flow (T Err : Type 0) : Type 0 where
  returns : Outcome T Err → Flow T Err
  continues : Flow T Err

-- `return Err(RetryError::Aborted(last_abort_err.expect("abort error")))`.
abbrev pub return_aborted : {T Err : Type 0} → Option Err → Flow T Err
return_aborted none = returns panicked
return_aborted (some e) = returns (returned (err (aborted e)))

module _ {W T Err : Type 0} (a : Abortable Err) where
  -- The `match` on the result of the first closure.
  unfoldable pub judge_first : Result Err T → Loop W Err → Flow T Err × Loop W Err
  judge_first (ok res) s = (returns (returned (ok res)), s)
  judge_first (err e) s =
      if a.abortable e
      then (
        if s.secondary_fn_aborted then return_aborted (some e) else continues,
        record s { primary_fn_aborted = true; last_abort_err = some e },
      )
      else if a.rate_limit e
      then (continues, record s { primary_fn_rate_limitted = true })
      else (continues, s)

  -- The `match` on the result of the second closure.
  unfoldable pub judge_second : Result Err T → Loop W Err → Flow T Err × Loop W Err
  judge_second (ok res) s = (returns (returned (ok res)), s)
  judge_second (err e) s =
      if a.abortable e
      then (
        if s.primary_fn_aborted then return_aborted (some e) else continues,
        record s { secondary_fn_aborted = true; last_abort_err = some e },
      )
      else if a.rate_limit e
      then (continues, record s { secondary_fn_rate_limitted = true })
      else (continues, s)

module _ {W T Err : Type 0} (a : Abortable Err) (sleep : ℕ → W → W)
    (first_function second_function : W → Result Err T × W) where
  -- The wait before a call of the first closure, and the call.
  unfoldable pub call_first : ℕ → ℕ → Loop W Err → Result Err T × Loop W Err
  call_first wait duration s =
      let d = if s.primary_fn_rate_limitted then wait else duration in
      let (r, w) = first_function (sleep d s.world) in
      (
        r,
        record s {
          primary_fn_rate_limitted = false;
          world = w;
          trace = called first (error_of r) ∷ slept d ∷ s.trace;
        },
      )

  unfoldable pub call_second : ℕ → ℕ → Loop W Err → Result Err T × Loop W Err
  call_second wait duration s =
      let d = if s.secondary_fn_rate_limitted then wait else duration in
      let (r, w) = second_function (sleep d s.world) in
      (
        r,
        record s {
          secondary_fn_rate_limitted = false;
          world = w;
          trace = called second (error_of r) ∷ slept d ∷ s.trace;
        },
      )

  -- The body of the `for` loop.
  unfoldable pub round : ℕ → ℕ → AlternationStep → Loop W Err → Flow T Err × Loop W Err
  unfolding judge_first judge_second call_first call_second
  round wait duration first s =
      if s.primary_fn_aborted
      then (if s.secondary_fn_aborted then return_aborted s.last_abort_err else continues, s)
      else let (r, s') = call_first wait duration s in judge_first a r s'
  round wait duration second s =
      if s.secondary_fn_aborted
      then (if s.primary_fn_aborted then return_aborted s.last_abort_err else continues, s)
      else let (r, s') = call_second wait duration s in judge_second a r s'

  module _ {F R : Type 0} (fr : FloatRng F R) where
    -- `for (..) in self.backoff.enumerate().take(self.max_attempts)`, and the end of the function.
    unfoldable pub rounds :
        ℕ → ℕ → BackoffPairIterator → R → Loop W Err → Outcome T Err × Loop W Err
    rounds wait zero it r s = (returned (err max_attempts), s)
    rounds wait (suc n) it r s =
        let (i, it', r') = next fr it r in
        let (flow, s') = round wait i.duration i.alteration_step s in
        elim flow [ returns o ↦ (o, s') | continues ↦ rounds wait n it' r' s' ]

    -- `RetryPairFn::retry`.
    unfoldable pub retry : RetryPairFn → R → W → Outcome T Err × Loop W Err
    retry self r w = rounds self.rate_limit_wait self.max_attempts self.backoff r (start w)
