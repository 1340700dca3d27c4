-- ===== src/WorkLoop.antt =====
-- The loops that give up after a run of failures: the work loops of crates/amplifier-ingester/src/main.rs
-- and crates/amplifier-subscriber/src/main.rs, which are the same but for the work, and the health
-- check of crates/relayer-amplifier-api-integration/src/healthcheck.rs. A loop runs over the results
-- of its successive ticks, oldest first; it is still running when they are used up.
pub mod GivesUp
pub mod Runs
mod Tests
use axelar_relayer_core.Base.{
  ℕ, suc, ◌+◌, ◌-◌, ◌^◌, List, [], ◌∷◌, Bool, true, false, Result, ok, err, if◌then◌else◌, leb, ltb,
}

-- `saturating_add(1)` on integers of `w` bits.
abbrev pub saturating_suc : ℕ → ℕ → ℕ
saturating_suc w n = if ltb (suc n) (2 ^ w) then suc n else n

pub data Flow : Type 0 where
  -- The loop goes on, with this count of errors.
  running : ℕ → Flow
  -- "Max error threshold reached. Exiting loop."
  exited : Flow

-- The `loop` of the worker, from a count of errors.
unfoldable pub work_loop : {E A : Type 0} → ℕ → ℕ → List (Result E A) → Flow
work_loop max_errors error_count [] = running error_count
work_loop max_errors error_count (ok a ∷ rs) = work_loop max_errors 0 rs
work_loop max_errors error_count (err e ∷ rs) =
    let counted = saturating_suc 32 error_count in
    let rest = work_loop max_errors counted rs in if leb max_errors counted then exited else rest

pub data HealthFlow (E : Type 0) : Type 0 where
  watching : ℕ → HealthFlow E
  -- A `?` of the request has left the function.
  bailed : E → HealthFlow E
  -- `bail!("cannot reach amplifier API")`.
  unreachable : HealthFlow E

-- `process_healthcheck`, from a count of failures. A check is an error when the request could not be
-- built or sent, and otherwise says whether the response is a success.
unfoldable pub process_healthcheck : {E : Type 0} → ℕ → ℕ → List (Result E Bool) → HealthFlow E
process_healthcheck before_shutdown failures [] = watching failures
process_healthcheck before_shutdown failures (err e ∷ rs) = bailed e
process_healthcheck before_shutdown failures (ok true ∷ rs) =
    process_healthcheck before_shutdown 0 rs
process_healthcheck before_shutdown failures (ok false ∷ rs) =
    let counted = saturating_suc 64 failures in
    let rest = process_healthcheck before_shutdown counted rs in
    if leb before_shutdown counted then unreachable else rest
