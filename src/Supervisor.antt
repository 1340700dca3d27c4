-- ===== src/Supervisor.antt =====
-- crates/supervisor/src/lib.rs: the supervisor thread and the threads of the workers, as a step
-- relation. Threads of one name are counted, by what they do; `runs` counts the threads of a name
-- that came as far as calling `do_work`. The channel of crash reports is a queue. A worker's name
-- is of any type with decidable equality. What the environment decides is a step of its own: when
-- a thread gets on, whether a builder or a tokio runtime succeeds, and when the token is cancelled.
pub mod Restarts
mod Tests
use mathlib.Core.Logic.{ite}
use axelar_relayer_core.Base.{
  ℕ, zero, suc, ◌+◌, ◌≡◌, Bool, true, false, List, [], ◌∷◌, ◌++◌, if◌then◌else◌,
}

-- What the supervisor thread is doing: the `for` over the builders (those left), the `select!`
-- loop, a restart behind its check of the token, or nothing any more.
pub data Phase (Name : Type 0) : Type 0 where
  starting_all : List Name → Phase Name
  looping : Phase Name
  restarting : Name → Phase Name
  stopped : Phase Name

pub record State (Name : Type 0) : Type 0 where
  pub phase : Phase Name
  -- `worker_crashed_tx` and `worker_crashed_rx`, the oldest report first.
  pub crashed : List Name
  pub cancelled : Bool
  -- The keys of `active_workers`.
  pub active_workers : Name → Bool
  -- Threads that build their tokio runtime.
  pub spawned : Name → ℕ
  -- Threads in the loop around `do_work`.
  pub working : Name → ℕ
  pub runs : Name → ℕ

-- `result` in `spawn_worker`: `Ok(Some(Ok(())))`, `Ok(None)`, `Ok(Some(Err(_)))`, `Err(_)`.
pub data WorkerResult : Type 0 where
  exited shut_down failed panicked : WorkerResult

-- `run`, up to the start of the supervisor thread.
abbrev pub init : {Name : Type 0} → List Name → State Name
init worker_builders = record {
  phase = starting_all worker_builders;
  crashed = [];
  cancelled = false;
  active_workers = λ _. false;
  spawned = λ _. 0;
  working = λ _. 0;
  runs = λ _. 0;
}

module _ {Name : Type 0} (dec : Discrete Name) where
  abbrev pub update {ℓ} : {A : Type ℓ} → (Name → A) → Name → A → Name → A
  update f n a m = ite (dec n m) a (f m)

  abbrev pub send : Name → State Name → State Name
  send n s = record s { crashed = s.crashed ++ n ∷ [] }

  -- The call of `spawn_worker`, and the handle's insertion.
  unfoldable pub spawn_worker : Name → State Name → State Name
  spawn_worker n s = record s {
    spawned = update s.spawned n (suc (s.spawned n));
    active_workers = update s.active_workers n true;
  }

  -- One round of the `for` over the builders.
  unfoldable pub start_worker : Bool → Name → List Name → State Name → State Name
  unfolding spawn_worker
  start_worker built n rest s =
      let s' = record s { phase = starting_all rest } in
      if built then spawn_worker n s' else send n s'

  -- `interval.tick()`.
  unfoldable pub tick : State Name → State Name
  tick s = if s.cancelled then record s { phase = stopped } else s

  -- A crash report is received, up to the call of the builder.
  unfoldable pub receive : Name → List Name → State Name → State Name
  receive n rest s =
      let s' = record s { crashed = rest } in
      if s.cancelled then s' else record s' { phase = restarting n }

  -- The rest of a restart.
  unfoldable pub restart : Bool → Name → State Name → State Name
  unfolding spawn_worker
  restart built n s =
      let s' = record s { phase = looping } in if built then spawn_worker n s' else send n s'

  -- A worker's thread builds its runtime: `k` other threads of its name are doing so too.
  unfoldable pub build_runtime : Bool → Name → ℕ → State Name → State Name
  build_runtime built n k s =
      let s' = record s { spawned = update s.spawned n k } in
      if built
      then record s' {
        working = update s.working n (suc (s.working n));
        runs = update s.runs n (suc (s.runs n));
      }
      else send n s'

  -- The end of a worker's thread, behind `catch_unwind`. The `match` on the result only logs.
  unfoldable pub finish : WorkerResult → Name → ℕ → State Name → State Name
  finish result n k s =
      let s' = record s { working = update s.working n k } in if s.cancelled then send n s' else s'

  pub data Step (s t : State Name) : Type 0 where
    starts :
        (built : Bool) (n : Name) (rest : List Name)
        → s.phase ≡ starting_all (n ∷ rest)
        → t ≡ start_worker built n rest s
        → Step s t
    all_started : s.phase ≡ starting_all [] → t ≡ record s { phase = looping } → Step s t
    ticks : s.phase ≡ looping → t ≡ tick s → Step s t
    receives :
        (n : Name) (rest : List Name)
        → s.phase ≡ looping
        → s.crashed ≡ n ∷ rest
        → t ≡ receive n rest s
        → Step s t
    restarts : (built : Bool) (n : Name) → s.phase ≡ restarting n → t ≡ restart built n s → Step s t
    builds_runtime :
        (built : Bool) (n : Name) (k : ℕ)
        → s.spawned n ≡ suc k
        → t ≡ build_runtime built n k s
        → Step s t
    finishes :
        (result : WorkerResult) (n : Name) (k : ℕ)
        → s.working n ≡ suc k
        → t ≡ finish result n k s
        → Step s t
    cancels : t ≡ record s { cancelled = true } → Step s t

  pub data Reach (s : State Name) : State Name → Type 0 where
    here : Reach s s
    then_step : {t u : State Name} → Reach s t → Step t u → Reach s u
