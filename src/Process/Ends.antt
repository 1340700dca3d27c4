-- ===== src/Process/Ends.antt =====
-- How the processes of the two main.rs come to their end.
use axelar_relayer_core.Base.{
  ℕ, ◌≡◌, ◌≢◌, true, false, ◌⊎◌, inl, inr, Result, ok, err, Eff, Text, arith,
}
use axelar_relayer_core.Process.{
  runs, finished, panicked, alive, shut_down, exited, Process, on_ctrl_c, launched, run, Step, tick,
  drop_worker, probe, stop_server, worker_panics, server_panics, ctrl_c, cancel, joined,
  worker_join_fails, server_join_fails, Steps, here, next,
}

module _ {S E : Type 0} (work check : Eff S E (Unit {0})) (max_errors : ℕ) where
  -- As long as nothing has been cancelled, the process is alive with a server that runs or has
  -- panicked, or its join has failed.
  record Uncancelled (p : Process S) : Type 0 where
    pub unfinished : p.cancelled ≡ false → p.server ≢ finished
    pub down : p.status ≡ shut_down → p.cancelled ≡ true
    pub gone : p.status ≡ exited → p.cancelled ≡ true

  Step-Uncancelled :
      (u v : Process S) → Step work check max_errors u v → Uncancelled u → Uncancelled v
  unfolding on_ctrl_c
  Step-Uncancelled u v (tick c a b w e) h = ground (arith, e, a, b, h.unfinished, h.down, h.gone)
  Step-Uncancelled u v (drop_worker c s a b w e) h = ground (arith, e, a, b, h.unfinished)
  Step-Uncancelled u v (probe a b e) h = ground (arith, e, a, b, h.unfinished)
  Step-Uncancelled u v (stop_server a b c e) h = ground (arith, e, a, b, h.unfinished)
  Step-Uncancelled u v (worker_panics c a b e) h = ground (arith, e, a, b, h.unfinished)
  Step-Uncancelled u v (server_panics a b e) h = ground (arith, e, a, b, h.unfinished)
  Step-Uncancelled u v (ctrl_c a e) h = ground (arith, e, a, h.unfinished)
  Step-Uncancelled u v (cancel a e) h = ground (arith, e, a, h.unfinished)
  Step-Uncancelled u v (joined a b c e) h = ground (arith, e, a, b, c, h.unfinished)
  Step-Uncancelled u v (worker_join_fails a b e) h = ground (arith, e, a, b, h.unfinished)
  Step-Uncancelled u v (server_join_fails a b e) h = ground (arith, e, a, b, h.unfinished)

  launched-Uncancelled :
      {F G H : Type 0} (message : Text) (s : S) (created : Result F (Unit {0}))
      (server : Result G H) (p : Process S)
      → run message s created server ≡ launched p
      → Uncancelled p
  unfolding run
  launched-Uncancelled message s (err e) server p h = ground (arith, h)
  launched-Uncancelled message s (ok u) (err e) p h = ground (arith, h)
  launched-Uncancelled message s (ok u) (ok i) p h = ground (arith, h)

  Steps-Uncancelled :
      (u v : Process S) → Steps work check max_errors u v → Uncancelled u → Uncancelled v
  Steps-Uncancelled u v here h = h
  Steps-Uncancelled u v (next {v = w} r st) h = Step-Uncancelled w v st (Steps-Uncancelled u w r h)

  -- A process that has been launched shuts down, or leaves with code 1, only after its token has been
  -- cancelled, in every schedule.
  pub ends_only_cancelled :
      {F G H : Type 0} (message : Text) (s : S) (created : Result F (Unit {0}))
      (server : Result G H) (p v : Process S)
      → run message s created server ≡ launched p
      → Steps work check max_errors p v
      → (v.status ≡ shut_down) ⊎ (v.status ≡ exited)
      → v.cancelled ≡ true
  ends_only_cancelled message s created server p v started r ended =
      let h = Steps-Uncancelled p v r (launched-Uncancelled message s created server p started) in
      elim ended [ inl e ↦ h.down e | inr e ↦ h.gone e ]

  -- A step from outside: Ctrl+C, a component that cancels, or a server that panics.
  abbrev pub Disturbs : {u v : Process S} → Step work check max_errors u v → Type 0
  Disturbs (ctrl_c a e) = Unit
  Disturbs (cancel a e) = Unit
  Disturbs (server_panics a b e) = Unit
  Disturbs _ = ⊥

  abbrev pub Undisturbed : {u v : Process S} → Steps work check max_errors u v → Type 0
  Undisturbed here = Unit
  Undisturbed (next r st) = Undisturbed r × (¬ Disturbs st)

  -- The worker has given up, and nothing else has happened.
  abbrev pub IsIdle : Process S → Type 0
  IsIdle p =
      (p.status ≡ alive) × (p.cancelled ≡ false) × (p.worker ≡ finished) × (p.server ≡ runs tt)

  Step-IsIdle :
      (u v : Process S) (st : Step work check max_errors u v) → ¬ Disturbs st → IsIdle u → IsIdle v
  Step-IsIdle u v (tick c a b w e) d h = ground (arith, w, h)
  Step-IsIdle u v (drop_worker c s a b w e) d h = ground (arith, b, h)
  Step-IsIdle u v (probe a b e) d h = ground (arith, e, h)
  Step-IsIdle u v (stop_server a b c e) d h = ground (arith, b, h)
  Step-IsIdle u v (worker_panics c a b e) d h = ground (arith, b, h)
  Step-IsIdle u v (server_panics a b e) d h = absurd (d tt)
  Step-IsIdle u v (ctrl_c a e) d h = absurd (d tt)
  Step-IsIdle u v (cancel a e) d h = absurd (d tt)
  Step-IsIdle u v (joined a b c e) d h = ground (arith, c, h)
  Step-IsIdle u v (worker_join_fails a b e) d h = ground (arith, b, h)
  Step-IsIdle u v (server_join_fails a b e) d h = ground (arith, b, h)

  Steps-IsIdle :
      (u v : Process S) (r : Steps work check max_errors u v) → Undisturbed r → IsIdle u → IsIdle v
  Steps-IsIdle u v here d h = h
  Steps-IsIdle u v (next {v = w} r st) (d, d') h = Step-IsIdle w v st d' (Steps-IsIdle u w r d h)

  -- What holds of a process that nothing from outside has touched.
  record Untouched (p : Process S) : Type 0 where
    pub not_cancelled : p.cancelled ≡ false
    pub serving : p.server ≡ runs tt
    pub still_alive : p.worker ≢ panicked → p.status ≡ alive

  Step-Untouched :
      (u v : Process S) (st : Step work check max_errors u v)
      → ¬ Disturbs st
      → Untouched u
      → Untouched v
  Step-Untouched u v (tick c a b w e) d h = ground (arith, e, a, h.not_cancelled, h.serving)
  Step-Untouched u v (drop_worker c s a b w e) d h = absurd (ground (arith, b, h.not_cancelled))
  Step-Untouched u v (probe a b e) d h = ground (arith, e, a, h.not_cancelled, h.serving)
  Step-Untouched u v (stop_server a b c e) d h = absurd (ground (arith, b, h.not_cancelled))
  Step-Untouched u v (worker_panics c a b e) d h = ground (arith, e, a, h.not_cancelled, h.serving)
  Step-Untouched u v (server_panics a b e) d h = absurd (d tt)
  Step-Untouched u v (ctrl_c a e) d h = absurd (d tt)
  Step-Untouched u v (cancel a e) d h = absurd (d tt)
  Step-Untouched u v (joined a b c e) d h = absurd (ground (arith, c, h.serving))
  Step-Untouched u v (worker_join_fails a b e) d h =
      ground (arith, e, b, h.not_cancelled, h.serving)
  Step-Untouched u v (server_join_fails a b e) d h = absurd (ground (arith, b, h.serving))

  Steps-Untouched :
      (u v : Process S) (r : Steps work check max_errors u v)
      → Undisturbed r
      → Untouched u
      → Untouched v
  Steps-Untouched u v here d h = h
  Steps-Untouched u v (next {v = w} r st) (d, d') h =
      Step-Untouched w v st d' (Steps-Untouched u w r d h)

  launched-Untouched :
      {F G H : Type 0} (message : Text) (s : S) (started : Result F (Unit {0}))
      (server : Result G H) (p : Process S)
      → run message s started server ≡ launched p
      → Untouched p
  unfolding run
  launched-Untouched message s (err e) server p h = ground (arith, h)
  launched-Untouched message s (ok u) (err e) p h = ground (arith, h)
  launched-Untouched message s (ok u) (ok i) p h = ground (arith, h)

  -- When the worker of a process that has been launched has come to its end, by giving up, the process
  -- is alive with its server running and its token not cancelled, and this stays so: it never works
  -- again and never ends. Neither Ctrl+C nor a holder of the token nor a panic of the server has
  -- come before or comes after.
  pub given_up-IsIdle :
      {F G H : Type 0} (message : Text) (s : S) (started : Result F (Unit {0}))
      (server : Result G H) (p v w : Process S) (before : Steps work check max_errors p v)
      (later : Steps work check max_errors v w)
      → run message s started server ≡ launched p
      → Undisturbed before
      → Undisturbed later
      → v.worker ≡ finished
      → IsIdle w
  given_up-IsIdle message s started server p v w before later e d d' ended =
      let h = Steps-Untouched p v before d (launched-Untouched message s started server p e) in
      Steps-IsIdle v w later d'
        (h.still_alive (λ bad. ground (arith, bad, ended)), h.not_cancelled, ended, h.serving)
