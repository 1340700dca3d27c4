-- ===== src/Engine.antt =====
-- crates/relayer-engine/src/lib.rs: `RelayerEngine::start_and_wait_for_shutdown`. The tasks are the
-- components and the handler of Ctrl-c; the join set yields their outcomes in the order in which they
-- end.
mod Tests
use axelar_relayer_core.Base.{
  ℕ, ◌≡◌, refl, Bool, true, false, Option, none, some, List, [], ◌∷◌, ◌++◌, map, ap, All, last, ◌⊎◌,
  inl, inr, arith,
}

-- What `join_next` yields of a task.
pub data Outcome (F : Type 0) : Type 0 where
  exited panicked : Outcome F
  failed : F → Outcome F

-- `spawn_tasks`: every component, and the handler of Ctrl-c behind them.
unfoldable pub spawn_tasks : {C P : Type 0} → (C → P) → P → List C → List P
spawn_tasks process ctrl_c components = map process components ++ ctrl_c ∷ []

-- The loop: the outcomes that it has taken, and those of the tasks that `shutdown` aborts.
unfoldable pub wait : {F : Type 0} → List (Outcome F) → List (Outcome F) × List (Outcome F)
wait [] = ([], [])
wait (exited ∷ rs) = let (taken, aborted) = wait rs in (exited ∷ taken, aborted)
wait (panicked ∷ rs) = (panicked ∷ [], rs)
wait (failed e ∷ rs) = (failed e ∷ [], rs)

abbrev pub is_exit : {F : Type 0} → Outcome F → Bool
is_exit exited = true
is_exit panicked = false
is_exit (failed e) = false

-- Successful exits, with one failure or panic behind them.
abbrev pub EndsBadly : {F : Type 0} → List (Outcome F) → Type 0
EndsBadly [] = ⊥
EndsBadly (r ∷ []) = is_exit r ≡ false
EndsBadly (r ∷ r' ∷ rs) = (is_exit r ≡ true) × EndsBadly (r' ∷ rs)

EndsBadly-exit : {F : Type 0} (rs : List (Outcome F)) → EndsBadly rs → EndsBadly (exited ∷ rs)
EndsBadly-exit [] h = absurd h
EndsBadly-exit (r ∷ rs) h = (refl, h)

-- The loop takes a first part of the outcomes, and the shutdown aborts the other tasks: either all
-- tasks have exited successfully and none is aborted, or the last outcome taken is the first failure
-- or panic.
pub wait_splits :
    {F : Type 0} (rs : List (Outcome F))
    → let (taken, aborted) = wait rs in
      (taken ++ aborted ≡ rs)
      × ((All (λ r. is_exit r ≡ true) taken × (aborted ≡ [])) ⊎ EndsBadly taken)
unfolding wait
wait_splits [] = (refl, inl (tt, refl))
wait_splits (exited ∷ rs) =
    let (whole, ends) = wait_splits rs in
    (
      ap (λ l. exited ∷ l) whole,
      elim ends [
        | inl (fine, none_left) ↦ inl ((refl, fine), none_left)
        | inr bad ↦ inr (EndsBadly-exit (wait rs).0 bad)
      ],
    )
wait_splits (panicked ∷ rs) = (refl, inr refl)
wait_splits (failed e ∷ rs) = (refl, inr refl)
