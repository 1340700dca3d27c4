-- ===== src/Supervisor/Tests.antt =====
-- The theorems on the supervisor at two workers, the numbers 0 and 1, where the first one fails.
use native.Mathlib.Decide.{ℕ_discrete}
use axelar_relayer_core.Base.{ℕ, ◌≡◌, refl, true, List, [], ◌∷◌, arith}
use axelar_relayer_core.Supervisor.{
  failed, State, init, start_worker, spawn_worker, build_runtime, finish, starts, builds_runtime,
  Reach, here, then_step,
}
use axelar_relayer_core.Supervisor.Restarts.{chances, chances-eq-one, finished_stays_down}

abbrev workers : List ℕ
workers = 0 ∷ 1 ∷ []

abbrev spawned : State ℕ
unfolding ℕ_discrete
spawned = start_worker ℕ_discrete true 0 (1 ∷ []) (init workers)

abbrev running : State ℕ
running = build_runtime ℕ_discrete true 0 0 spawned

reaches_running : Reach ℕ_discrete (init workers) running
unfolding start_worker spawn_worker ℕ_discrete
reaches_running =
    then_step (then_step here (starts true 0 (1 ∷ []) refl refl))
      (builds_runtime true 0 0 refl refl)

chances-eq-one_example : chances ℕ_discrete 0 running ≡ 1
unfolding start_worker spawn_worker build_runtime ℕ_discrete
chances-eq-one_example = chances-eq-one ℕ_discrete 0 workers refl reaches_running refl

finished_stays_down_example :
    ((finish ℕ_discrete failed 0 0 running).working 0 ≡ 0)
    × ((finish ℕ_discrete failed 0 0 running).spawned 0 ≡ 0)
unfolding start_worker spawn_worker build_runtime ℕ_discrete
finished_stays_down_example =
    finished_stays_down ℕ_discrete 0 workers failed 0 (omega arith) reaches_running refl here
