-- ===== src/Engine/Tests.antt =====
-- The theorem on the engine at three tasks of which the second one fails.
use axelar_relayer_core.Base.{ℕ, ◌≡◌, ◌⊎◌, List, [], ◌∷◌, ◌++◌, true, All}
use axelar_relayer_core.Engine.{
  Outcome, exited, panicked, failed, wait, is_exit, EndsBadly, wait_splits,
}

abbrev outcomes : List (Outcome ℕ)
outcomes = exited ∷ failed 3 ∷ panicked ∷ []

wait_splits_example :
    ((wait outcomes).0 ++ (wait outcomes).1 ≡ outcomes)
    × ((All (λ r. is_exit r ≡ true) (wait outcomes).0 × ((wait outcomes).1 ≡ []))
        ⊎ EndsBadly (wait outcomes).0)
wait_splits_example = wait_splits outcomes
