-- ===== src/Integration/Polls.antt =====
-- crates/relayer-amplifier-api-integration/src/from_amplifier.rs: the stream of `process` and its loop
-- as a step relation. The requests of the join set are futures cut at their awaits; they run beside
-- the polls and beside the downstream processor, which takes tasks from the channel and marks them as
-- processed. The stream never ends, since an interval does not.
pub mod Invariant
pub mod Gapless
pub mod Stall
mod Tests
use axelar_relayer_core.Base.{
  ◌≡◌, Option, none, some, List, [], ◌∷◌, ◌++◌, In, last, Result, ok, err,
}
use axelar_relayer_core.Integration.FromAmplifier.{Bridge, internal}
use axelar_relayer_core.Integration.Dispatch.{Reported, report_result}

-- `process_task_request`, at its awaits: for the answer, in `send_all` with the tasks that are left
-- and the identifier of the last one, and at its end.
pub data Running (I T Q F J : Type 0) : Type 0 where
  executing : Q → Running I T Q F J
  sending : List T → I → Running I T Q F J
  finished : Result J (Result F (Unit {0})) → Running I T Q F J

-- The bridge, the tasks that the downstream processor has taken, and what the loop has logged.
pub record Polling (I T Q F J : Type 0) : Type 0 where
  pub bridge : Bridge I T (Running I T Q F J)
  pub taken : List T
  pub logged : List (Reported F J)

-- `process` before its loop, once `resume` is through.
unfoldable pub begin : {I T Q F J : Type 0} → Option I → Option I → Polling I T Q F J
begin queried processed = record {
  bridge = record {
    latest_queried_task_id = queried;
    latest_processed_task_id = processed;
    channel = [];
    join_set = [];
  };
  taken = [];
  logged = [];
}

module _ {I T Q F J : Type 0} (same : Discrete (Option I)) (build_request : Option I → Result F Q)
    (id_of : T → I) where
  -- A request, as the join set gets it.
  abbrev pub spawned : Option I → Result F (Running I T Q F J)
  spawned after = elim (build_request after) [ ok request ↦ ok (executing request) | err e ↦ err e ]

  -- `Poll::Ready(Some(_res))` of the interval.
  unfoldable pub on_tick : Polling I T Q F J → Polling I T Q F J
  on_tick s =
      let (r, bridge) = internal same spawned id_of s.bridge in
      record s { bridge = bridge; logged = s.logged ++ report_result {J = J} (ok r) }

  -- The answer of the API up to `send_all`.
  unfoldable pub on_answer : Result F (List T) → Running I T Q F J
  on_answer (err e) = finished (ok (err e))
  on_answer (ok tasks) = elim (last tasks) [
    | none ↦ finished (ok (ok tt))
    | some task ↦ sending tasks (id_of task)
  ]

  -- The end of `process_task_request`, from the result of `set_latest_queried_task_id`.
  unfoldable pub on_sent :
      Result F (Unit {0}) → I → Bridge I T (Running I T Q F J) → Bridge I T (Running I T Q F J)
  on_sent (err e) i b = b
  on_sent (ok u) i b = record b { latest_queried_task_id = some i }

  abbrev pub with_join_set : Polling I T Q F J → List (Running I T Q F J) → Polling I T Q F J
  with_join_set s running = record s { bridge = record s.bridge { join_set = running } }

  pub data Step (Answers : Q → List T → Type 0) (u v : Polling I T Q F J) : Type 0 where
    tick : v ≡ on_tick u → Step Answers u v
    -- The API answers, or the request fails.
    answer :
        (before after : List (Running I T Q F J)) (request : Q) (tasks : List T)
        → u.bridge.join_set ≡ before ++ executing request ∷ after
        → Answers request tasks
        → v ≡ with_join_set u (before ++ on_answer (ok tasks) ∷ after)
        → Step Answers u v
    fail :
        (before after : List (Running I T Q F J)) (request : Q) (e : F)
        → u.bridge.join_set ≡ before ++ executing request ∷ after
        → v ≡ with_join_set u (before ++ on_answer (err e) ∷ after)
        → Step Answers u v
    -- `send_all` puts one task into the channel, or finds it closed.
    send :
        (before after : List (Running I T Q F J)) (task : T) (tasks : List T) (i : I)
        → u.bridge.join_set ≡ before ++ sending (task ∷ tasks) i ∷ after
        → v ≡ record u {
          bridge = record u.bridge {
            channel = u.bridge.channel ++ task ∷ [];
            join_set = before ++ sending tasks i ∷ after;
          };
        }
        → Step Answers u v
    unsent :
        (before after : List (Running I T Q F J)) (tasks : List T) (i : I) (e : F)
        → u.bridge.join_set ≡ before ++ sending tasks i ∷ after
        → v ≡ with_join_set u (before ++ finished (ok (err e)) ∷ after)
        → Step Answers u v
    set_queried :
        (before after : List (Running I T Q F J)) (i : I) (res : Result F (Unit {0}))
        → u.bridge.join_set ≡ before ++ sending [] i ∷ after
        → v ≡ record u {
          bridge =
              on_sent res i (record u.bridge { join_set = before ++ finished (ok res) ∷ after });
        }
        → Step Answers u v
    -- A request panics at any of its awaits.
    panic :
        (before after : List (Running I T Q F J)) (running : Running I T Q F J) (j : J)
        → u.bridge.join_set ≡ before ++ running ∷ after
        → v ≡ with_join_set u (before ++ finished (err j) ∷ after)
        → Step Answers u v
    join :
        (before after : List (Running I T Q F J)) (res : Result J (Result F (Unit {0})))
        → u.bridge.join_set ≡ before ++ finished res ∷ after
        → v ≡ record u {
          bridge = record u.bridge { join_set = before ++ after };
          logged = u.logged ++ report_result res;
        }
        → Step Answers u v
    -- The downstream processor takes a task, and marks one that it has taken as processed.
    take :
        (task : T) (tasks : List T)
        → u.bridge.channel ≡ task ∷ tasks
        → v
          ≡ record u { bridge = record u.bridge { channel = tasks }; taken = u.taken ++ task ∷ [] }
        → Step Answers u v
    set_processed :
        (task : T)
        → In task u.taken
        → v ≡ record u { bridge = record u.bridge { latest_processed_task_id = some (id_of task) } }
        → Step Answers u v

  pub data Steps (Answers : Q → List T → Type 0) (u : Polling I T Q F J)
      : Polling I T Q F J → Type 0 where
    here : Steps Answers u u
    next : {v w : Polling I T Q F J} → Steps Answers u v → Step Answers v w → Steps Answers u w
