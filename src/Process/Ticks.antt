-- ===== src/Process/Ticks.antt =====
-- The ticks of a worker's task, against the loop over their results.
use axelar_relayer_core.Base.{
  ℕ, ◌≡◌, refl, Bool-cases, inl, inr, List, [], ◌∷◌, Result, ok, err, leb,
}
use axelar_relayer_core.WorkLoop.{saturating_suc, Flow, running, exited, work_loop}
use axelar_relayer_core.Process.{Task, runs, finished, panicked, after_work}

-- The task after ticks with these results, oldest first; a task that has ended ticks no more.
abbrev pub ticks : {E : Type 0} → ℕ → Task ℕ → List (Result E (Unit {0})) → Task ℕ
ticks max_errors t [] = t
ticks max_errors (runs n) (r ∷ rs) = ticks max_errors (after_work max_errors n r) rs
ticks max_errors finished (r ∷ rs) = finished
ticks max_errors panicked (r ∷ rs) = panicked

abbrev pub of_flow : Flow → Task ℕ
of_flow (running n) = runs n
of_flow exited = finished

-- The loop of WorkLoop.antt over the results of the ticks is the task behind them.
pub ticks-work_loop :
    {E : Type 0} (max_errors n : ℕ) (rs : List (Result E (Unit {0})))
    → ticks max_errors (runs n) rs ≡ of_flow (work_loop max_errors n rs)
unfolding work_loop after_work
ticks-work_loop max_errors n [] = refl
ticks-work_loop max_errors n (ok u ∷ rs) = ticks-work_loop max_errors 0 rs
ticks-work_loop {E} max_errors n (err e ∷ rs) =
    let counted = saturating_suc 32 n in
    elim (Bool-cases (leb max_errors counted)) [
      | inl gone ↦ rw (gone, work_loop, ticks) (left rs)
      | inr stays ↦ rw (stays, work_loop, ticks) (ticks-work_loop max_errors counted rs)
    ]
  where
    left : (rs : List (Result E (Unit {0}))) → ticks max_errors finished rs ≡ finished
    left [] = refl
    left (r ∷ rs) = refl
