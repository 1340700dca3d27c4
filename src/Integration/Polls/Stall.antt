-- ===== src/Integration/Polls/Stall.antt =====
-- When the polls of from_amplifier.rs come to a standstill.
use axelar_relayer_core.Base.{
  ◌≡◌, ◌≢◌, refl, sym, ap, subst, ◌∙◌, Option, List, [], ◌∷◌, ◌++◌, Result,
}
use axelar_relayer_core.Integration.FromAmplifier.{Bridge, poll_quiet}
use axelar_relayer_core.Integration.Polls.{
  Polling, spawned, on_tick, Step, tick, answer, fail, send, unsent, set_queried, panic, join, take,
  set_processed, Steps, here, next,
}

no_middle : {A : Type 0} (xs ys : List A) (a : A) → [] ≢ xs ++ a ∷ ys
no_middle [] ys a e = cc e
no_middle (x ∷ xs) ys a e = cc e

-- Nothing is in the channel or in flight, and the last task processed is not the one queried last.
abbrev pub IsStalled : {I T Q : Type 0} → Bridge I T Q → Type 0
IsStalled b =
    (b.channel ≡ []) × (b.join_set ≡ []) × (b.latest_processed_task_id ≢ b.latest_queried_task_id)

module _ {I T Q F J : Type 0} (same : Discrete (Option I)) (build_request : Option I → Result F Q)
    (id_of : T → I) (Answers : Q → List T → Type 0) where
  -- The downstream processor marks a task.
  abbrev pub Marks : {u v : Polling I T Q F J} → Step same build_request id_of Answers u v → Type 0
  Marks (set_processed task e e') = Unit
  Marks _ = ⊥

  abbrev pub MarksNone :
      {u v : Polling I T Q F J} → Steps same build_request id_of Answers u v → Type 0
  MarksNone here = Unit
  MarksNone (next r st) = MarksNone r × (¬ Marks st)

  tick_quiet :
      (u : Polling I T Q F J)
      → u.bridge.latest_processed_task_id ≢ u.bridge.latest_queried_task_id
      → (on_tick same build_request id_of u).bridge ≡ u.bridge
  unfolding on_tick
  tick_quiet u differ =
      ap (λ p. p.1) (poll_quiet same (spawned same build_request id_of) id_of u.bridge differ)

  Step_quiet :
      (u v : Polling I T Q F J) (st : Step same build_request id_of Answers u v)
      → IsStalled u.bridge
      → ¬ Marks st
      → v.bridge ≡ u.bridge
  Step_quiet u v (tick e) (empty, idle, differ) quiet = ap (λ s. s.bridge) e ∙ tick_quiet u differ
  Step_quiet u v (answer before after q tasks e a e') (empty, idle, differ) quiet =
      absurd (no_middle before after _ (sym idle ∙ e))
  Step_quiet u v (fail before after q x e e') (empty, idle, differ) quiet =
      absurd (no_middle before after _ (sym idle ∙ e))
  Step_quiet u v (send before after task tasks i e e') (empty, idle, differ) quiet =
      absurd (no_middle before after _ (sym idle ∙ e))
  Step_quiet u v (unsent before after tasks i x e e') (empty, idle, differ) quiet =
      absurd (no_middle before after _ (sym idle ∙ e))
  Step_quiet u v (set_queried before after i res e e') (empty, idle, differ) quiet =
      absurd (no_middle before after _ (sym idle ∙ e))
  Step_quiet u v (panic before after running j e e') (empty, idle, differ) quiet =
      absurd (no_middle before after _ (sym idle ∙ e))
  Step_quiet u v (join before after res e e') (empty, idle, differ) quiet =
      absurd (no_middle before after _ (sym idle ∙ e))
  Step_quiet u v (take task tasks e e') (empty, idle, differ) quiet =
      absurd (no_middle [] tasks task (sym empty ∙ e))
  Step_quiet u v (set_processed task e e') stalled quiet = absurd (quiet tt)

  -- A stall lasts: where nothing is in the channel or in flight and the last task processed is not the
  -- one queried last, no later poll spawns a request, however the run goes on, as long as the
  -- downstream processor marks no task again.
  pub stall_lasts :
      (u v : Polling I T Q F J) (r : Steps same build_request id_of Answers u v)
      → IsStalled u.bridge
      → MarksNone r
      → v.bridge ≡ u.bridge
  stall_lasts u v here stalled quiet = refl
  stall_lasts u v (next {v = w} r st) stalled (before, quiet) =
      let same_bridge = stall_lasts u w r stalled before in
      Step_quiet w v st (subst IsStalled (sym same_bridge) stalled) quiet ∙ same_bridge
