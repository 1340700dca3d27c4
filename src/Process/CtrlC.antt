-- ===== src/Process/CtrlC.antt =====
-- What Ctrl+C does to the processes of the two main.rs.
use axelar_relayer_core.Base.{ℕ, ◌≡◌, ◌≢◌, refl, true, false, ◌⊎◌, inl, inr, Eff, arith}
use axelar_relayer_core.Process.{
  Task, runs, finished, panicked, alive, shut_down, Process, on_ctrl_c, Step, tick, drop_worker,
  probe, stop_server, worker_panics, server_panics, ctrl_c, cancel, joined, worker_join_fails,
  server_join_fails, Steps, here, next,
}

module _ {S E : Type 0} (work check : Eff S E (Unit {0})) (max_errors : ℕ) where
  -- The process's own steps: nobody presses Ctrl+C or cancels the token, and no task panics.
  abbrev pub IsOwn : {u v : Process S} → Step work check max_errors u v → Type 0
  IsOwn (ctrl_c a e) = ⊥
  IsOwn (cancel a e) = ⊥
  IsOwn (worker_panics c a b e) = ⊥
  IsOwn (server_panics a b e) = ⊥
  IsOwn _ = Unit

  abbrev pub AllOwn : {u v : Process S} → Steps work check max_errors u v → Type 0
  AllOwn here = Unit
  AllOwn (next r st) = AllOwn r × IsOwn st

  -- Shutting down, or shut down.
  record Ending (p : Process S) : Type 0 where
    pub asked : p.cancelled ≡ true
    pub worker_sane : p.worker ≢ panicked
    pub server_sane : p.server ≢ panicked
    pub status_sane : (p.status ≡ alive) ⊎ (p.status ≡ shut_down)

  Step-Ending :
      (u v : Process S) (st : Step work check max_errors u v) → IsOwn st → Ending u → Ending v
  Step-Ending u v (tick c a b w e) d h = absurd (ground (arith, b, h.asked))
  Step-Ending u v (drop_worker c s a b w e) d h =
      ground (arith, e, h.asked, h.server_sane, h.status_sane)
  Step-Ending u v (probe a b e) d h =
      ground (arith, e, h.asked, h.worker_sane, h.server_sane, h.status_sane)
  Step-Ending u v (stop_server a b c e) d h =
      ground (arith, e, h.asked, h.worker_sane, h.status_sane)
  Step-Ending u v (worker_panics c a b e) d h = absurd d
  Step-Ending u v (server_panics a b e) d h = absurd d
  Step-Ending u v (ctrl_c a e) d h = absurd d
  Step-Ending u v (cancel a e) d h = absurd d
  Step-Ending u v (joined a b c e) d h = ground (arith, e, h.asked, h.worker_sane, h.server_sane)
  Step-Ending u v (worker_join_fails a b e) d h = absurd (h.worker_sane b)
  Step-Ending u v (server_join_fails a b e) d h = absurd (h.server_sane b)

  Steps-Ending :
      (u v : Process S) (r : Steps work check max_errors u v) → AllOwn r → Ending u → Ending v
  Steps-Ending u v here d h = h
  Steps-Ending u v (next {v = w} r st) (d, d') h = Step-Ending w v st d' (Steps-Ending u w r d h)

  -- The process can shut down on its own.
  abbrev pub ShutsDown : Process S → Type 0
  ShutsDown u =
      (v : Process S) × (r : Steps work check max_errors u v) × AllOwn r × (v.status ≡ shut_down)

  Steps-first :
      {u v w : Process S} (st : Step work check max_errors u v)
      → IsOwn st
      → (r : Steps work check max_errors v w) → AllOwn r
      → (r' : Steps work check max_errors u w) × AllOwn r'
  Steps-first st d here d' = (next here st, (tt, d))
  Steps-first st d (next r st') (d', e') =
      let (r', d'') = Steps-first st d r d' in (next r' st', (d'', e'))

  ShutsDown-step :
      (u v : Process S) (st : Step work check max_errors u v) → IsOwn st → ShutsDown v → ShutsDown u
  ShutsDown-step u v st d (w, r, d', e) = let (r', d'') = Steps-first st d r d' in (w, r', d'', e)

  join_both :
      (u : Process S) → u.status ≡ alive → u.worker ≡ finished → u.server ≡ finished → ShutsDown u
  join_both u a w s =
      (record u { status = shut_down }, next here (joined a w s refl), (tt, tt), refl)

  stop_last :
      (t : Task (Unit {0})) (u : Process S)
      → u.status ≡ alive
      → u.cancelled ≡ true
      → u.worker ≡ finished
      → u.server ≡ t
      → t ≢ panicked
      → ShutsDown u
  stop_last (runs x) u a c w s sane =
      let v = record u { server = finished } in
      ShutsDown-step u v (stop_server a c s refl) tt (join_both v a w refl)
  stop_last finished u a c w s sane = join_both u a w s
  stop_last panicked u a c w s sane = absurd (sane refl)

  stop_both :
      (t : Task ℕ) (u : Process S)
      → u.status ≡ alive
      → u.cancelled ≡ true
      → u.worker ≡ t
      → t ≢ panicked
      → u.server ≢ panicked
      → ShutsDown u
  stop_both (runs n) u a c w sane serving =
      let v = record u { worker = finished } in
      ShutsDown-step u v (drop_worker n u.shared a c w refl) tt
        (stop_last v.server v a c refl refl serving)
  stop_both finished u a c w sane serving = stop_last u.server u a c w refl serving
  stop_both panicked u a c w sane serving = absurd (sane refl)

  pressed :
      (u : Process S)
      → u.status ≡ alive
      → u.cancelled ≡ false
      → u.worker ≢ panicked
      → u.server ≢ panicked
      → Ending (on_ctrl_c u)
  unfolding on_ctrl_c
  pressed u a c sane serving = ground (arith, a, c, sane, serving)

  -- After the first Ctrl+C a process neither of whose tasks has panicked never gets stuck: wherever its
  -- own steps have led it, further steps of its own shut it down. Its own steps are all but another
  -- Ctrl+C, a cancellation by somebody else, and panics.
  pub ctrl_c-ShutsDown :
      (u v : Process S) (r : Steps work check max_errors (on_ctrl_c u) v)
      → u.status ≡ alive
      → u.cancelled ≡ false
      → u.worker ≢ panicked
      → u.server ≢ panicked
      → AllOwn r
      → ShutsDown v
  ctrl_c-ShutsDown u v r a c sane serving d =
      let h = Steps-Ending (on_ctrl_c u) v r d (pressed u a c sane serving) in
      elim h.status_sane [
        | inl on ↦ stop_both v.worker v on h.asked refl h.worker_sane h.server_sane
        | inr off ↦ (v, here, tt, off)
      ]
