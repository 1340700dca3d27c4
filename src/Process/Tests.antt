-- ===== src/Process/Tests.antt =====
-- A process whose work always fails, with a threshold of two; the state counts the attempts.
use axelar_relayer_core.Base.{
  ℕ, suc, ◌≡◌, refl, true, false, List, [], ◌∷◌, Result, ok, err, codes, inl,
}
use axelar_relayer_core.Process.{
  runs, finished, alive, shut_down, Process, on_ctrl_c, after_work, run, Steps, here, next, tick,
  probe, ctrl_c, stop_server, joined,
}
use axelar_relayer_core.Process.CtrlC.{ShutsDown, ctrl_c-ShutsDown}
use axelar_relayer_core.Process.Ends.{ends_only_cancelled, IsIdle, given_up-IsIdle}
use axelar_relayer_core.Process.Ticks.{ticks}

abbrev work : ℕ → Result ℕ (Unit {0}) × ℕ
work n = (err 7, suc n)

abbrev check : ℕ → Result ℕ (Unit {0}) × ℕ
check n = (ok tt, n)

abbrev built : Result ℕ (Unit {0})
built = ok tt

abbrev served : Result ℕ ℕ
served = ok 0

-- The worker has given up after `n` attempts.
abbrev idle : ℕ → Process ℕ
idle n = record {
  cancelled = false;
  worker = finished;
  server = runs tt;
  status = alive;
  shared = n;
}

abbrev fresh : Process ℕ
fresh = record (idle 0) { worker = runs 0 }

two_attempts : Steps work check 2 fresh (idle 2)
unfolding after_work
two_attempts = next (next here (tick 0 refl refl refl refl)) (tick 1 refl refl refl refl)

abbrev results : List (Result ℕ (Unit {0}))
results = err 7 ∷ ok tt ∷ err 7 ∷ err 7 ∷ []

third_tick : ticks 3 (runs 0) results ≡ runs 2
unfolding after_work
third_tick = refl

two_probes : Steps work check 2 (idle 2) (idle 2)
two_probes = next (next here (probe refl refl refl)) (probe refl refl refl)

given_up-IsIdle_example : IsIdle work check 2 (idle 2)
unfolding run two_attempts two_probes
given_up-IsIdle_example =
    given_up-IsIdle work check 2 (codes "ingester is built") 0 built served fresh (idle 2) (idle 2)
      two_attempts two_probes refl ((tt, (λ d. d)), (λ d. d)) ((tt, (λ d. d)), (λ d. d)) refl

-- Ctrl+C has been pressed, and the server has stopped before the worker.
abbrev stopped_server : Process ℕ
stopped_server = record fresh { cancelled = true; server = finished }

after_press : Steps work check 2 (on_ctrl_c fresh) stopped_server
unfolding on_ctrl_c
after_press = next here (stop_server refl refl refl refl)

ctrl_c-ShutsDown_example : ShutsDown work check 2 stopped_server
unfolding after_press
ctrl_c-ShutsDown_example =
    ctrl_c-ShutsDown work check 2 fresh stopped_server after_press refl refl (λ e. cc) (λ e. cc)
      (tt, tt)

abbrev over : Process ℕ
over = record (idle 2) { cancelled = true; server = finished; status = shut_down }

ended : Steps work check 2 fresh over
unfolding on_ctrl_c
ended =
    next (next (next two_attempts (ctrl_c refl refl)) (stop_server refl refl refl refl))
      (joined refl refl refl refl)

ends_only_cancelled_example : over.cancelled ≡ true
unfolding run
ends_only_cancelled_example =
    ends_only_cancelled work check 2 (codes "ingester is built") 0 built served fresh over refl
      ended (inl refl)
