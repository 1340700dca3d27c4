-- ===== src/WorkLoop/Tests.antt =====
-- The theorems on the loops at short runs.
use axelar_relayer_core.Base.{
  ℕ, ◌≡◌, ◌↔◌, inl, inr, List, [], ◌∷◌, Bool, true, false, Result, ok, err, arith,
}
use axelar_relayer_core.WorkLoop.{work_loop, exited, process_healthcheck, unreachable}
use axelar_relayer_core.WorkLoop.GivesUp.{HasRun}
use axelar_relayer_core.WorkLoop.Runs.{errors_of, answered, work_loop_iff, process_healthcheck_iff}

abbrev ticks : List (Result ℕ ℕ)
ticks = err 4 ∷ ok 0 ∷ err 5 ∷ err 6 ∷ []

work_loop_iff_example : (work_loop 2 0 ticks ≡ exited) ↔ HasRun 2 (errors_of ticks)
work_loop_iff_example = work_loop_iff 2 ticks (omega arith) (omega arith)

abbrev checks : List (Result ℕ Bool)
checks = ok false ∷ ok true ∷ ok false ∷ ok false ∷ []

process_healthcheck_iff_example :
    (process_healthcheck 2 0 checks ≡ unreachable) ↔ HasRun 2 (answered checks)
process_healthcheck_iff_example = process_healthcheck_iff 2 checks (omega arith) (omega arith)

abbrev cut_off : List (Result ℕ Bool)
cut_off = ok false ∷ err 9 ∷ []

no_run : HasRun 2 (answered cut_off) → ⊥
no_run (inl s) = s.1
no_run (inr s) = s
