-- ===== src/Process.antt =====
-- crates/amplifier-ingester/src/main.rs and crates/amplifier-subscriber/src/main.rs, which differ in
-- the component only, with the Ctrl+C handler of bin-util/src/lib.rs. A process is its two tasks, the
-- worker and the health check server, its cancel token, and the state `S` that they share; `work` is
-- `ingest` or `subscribe`, `check` the component's `check_health`.
pub mod Ends
pub mod CtrlC
pub mod Ticks
mod Tests
use axelar_relayer_core.Base.{
  ℕ, ◌≡◌, ◌≢◌, Bool, true, false, List, [], ◌∷◌, Text, codes, Result, ok, err, Eff, if◌then◌else◌,
  leb,
}
use axelar_relayer_core.WorkLoop.{saturating_suc}

-- A spawned task: it runs, with its local variables, or has ended.
pub data Task (V : Type 0) : Type 0 where
  runs : V → Task V
  finished : Task V
  panicked : Task V

-- `main`, as the system sees it: `process::exit(1)` is the second Ctrl+C.
pub data Status : Type 0 where
  alive : Status
  shut_down : Status
  join_failed : Status
  exited : Status

pub record Process (S : Type 0) : Type 0 where
  pub cancelled : Bool
  -- The variable of the worker is `error_count`.
  pub worker : Task ℕ
  pub server : Task (Unit {0})
  pub status : Status
  pub shared : S

-- `register_cancel`: a new token, and what its handler does at Ctrl+C.
unfoldable pub on_ctrl_c : {S : Type 0} → Process S → Process S
on_ctrl_c p = if p.cancelled then record p { status = exited } else record p { cancelled = true }

-- The rest of a tick, from the result of the work.
unfoldable pub after_work : {E : Type 0} → ℕ → ℕ → Result E (Unit {0}) → Task ℕ
after_work max_errors error_count (ok u) = runs 0
after_work max_errors error_count (err e) =
    let counted = saturating_suc 32 error_count in
    if leb max_errors counted then finished else runs counted

-- `run_ingester` and `run_subscriber` up to `try_join!`: the component, and the server's handle.
pub data Launched (S : Type 0) : Type 0 where
  expect_failed : Text → Launched S
  launched : Process S → Launched S

unfoldable pub run : {S E F H : Type 0} → Text → S → Result E (Unit {0}) → Result F H → Launched S
run message s (err e) server = expect_failed message
run message s (ok u) (err e) = expect_failed (codes "health check server should start")
run message s (ok u) (ok h) =
    launched
      (record { cancelled = false; worker = runs 0; server = runs tt; status = alive; shared = s })

module _ {S E : Type 0} (work check : Eff S E (Unit {0})) (max_errors : ℕ) where
  pub data Step (u v : Process S) : Type 0 where
    -- A tick of the worker, to its end.
    tick :
        (error_count : ℕ)
        → u.status ≡ alive
        → u.cancelled ≡ false
        → u.worker ≡ runs error_count
        → v ≡ record u {
          worker = after_work max_errors error_count (work u.shared).0;
          shared = (work u.shared).1;
        }
        → Step u v
    -- `run_until_cancelled` drops the loop, in the middle of a tick perhaps.
    drop_worker :
        (error_count : ℕ) (s : S)
        → u.status ≡ alive
        → u.cancelled ≡ true
        → u.worker ≡ runs error_count
        → v ≡ record u { worker = finished; shared = s }
        → Step u v
    probe :
        u.status ≡ alive
        → u.server ≡ runs tt
        → v ≡ record u { shared = (check u.shared).1 }
        → Step u v
    -- The graceful shutdown of the server.
    stop_server :
        u.status ≡ alive
        → u.cancelled ≡ true
        → u.server ≡ runs tt
        → v ≡ record u { server = finished }
        → Step u v
    -- A task panics: the port is taken, axum fails, or the component panics.
    worker_panics :
        (error_count : ℕ)
        → u.status ≡ alive
        → u.worker ≡ runs error_count
        → v ≡ record u { worker = panicked }
        → Step u v
    server_panics :
        u.status ≡ alive → u.server ≡ runs tt → v ≡ record u { server = panicked } → Step u v
    ctrl_c : u.status ≡ alive → v ≡ on_ctrl_c u → Step u v
    -- A holder of a clone of the token cancels it.
    cancel : u.status ≡ alive → v ≡ record u { cancelled = true } → Step u v
    -- `try_join!`, and its `expect`.
    joined :
        u.status ≡ alive
        → u.worker ≡ finished
        → u.server ≡ finished
        → v ≡ record u { status = shut_down }
        → Step u v
    worker_join_fails :
        u.status ≡ alive → u.worker ≡ panicked → v ≡ record u { status = join_failed } → Step u v
    server_join_fails :
        u.status ≡ alive → u.server ≡ panicked → v ≡ record u { status = join_failed } → Step u v

  pub data Steps (u : Process S) : Process S → Type 0 where
    here : Steps u u
    next : {v w : Process S} → Steps u v → Step v w → Steps u w
