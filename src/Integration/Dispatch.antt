-- ===== src/Integration/Dispatch.antt =====
-- crates/relayer-amplifier-api-integration/src/to_amplifier.rs: the stream of `process` and its loop,
-- as a step relation. A poll first asks the channel of commands, then the join set. When the
-- senders are gone and the channel is empty, `abort_all` leaves the results of the requests that are
-- still running open: a request may end with any result.
pub mod Completion
pub mod Ending
mod Tests
use axelar_relayer_core.Base.{
  ℕ, suc, ◌+◌, ◌≡◌, Bool, true, false, List, [], ◌∷◌, ◌++◌, length, Result, ok, err,
}
use axelar_relayer_core.Integration.ToAmplifier.{AmplifierCommand, publish_events, internal}

-- The two errors that the loop logs.
pub data Reported (F J : Type 0) : Type 0 where
  task_panicked : J → Reported F J
  task_failed : F → Reported F J

-- The body of the loop of `process`.
unfoldable pub report_result : {F J : Type 0} → Result J (Result F (Unit {0})) → List (Reported F J)
report_result (err panic) = task_panicked panic ∷ []
report_result (ok (err e)) = task_failed e ∷ []
report_result (ok (ok u)) = []

-- A request with the result that its task has ended with.
abbrev pub Joined : Type 0 → Type 0 → Type 0 → Type 0
Joined Q F J = Q × Result J (Result F (Unit {0}))

-- The commands in the channel, whether its senders are gone, the requests in the join set, and what
-- the loop has logged.
pub record Dispatch (Events Q F J : Type 0) : Type 0 where
  pub receiver : List (AmplifierCommand Events)
  pub closed : Bool
  pub join_set : List Q
  pub logged : List (Reported F J)

module _ {Events Q F : Type 0} (build_request : Events → Result F Q) where
  -- The requests of a list of commands, and the errors of those that cannot be built.
  abbrev pub built : List (AmplifierCommand Events) → List Q
  built [] = []
  built (publish_events events ∷ cs) = elim (build_request events) [
    | ok request ↦ request ∷ built cs
    | err e ↦ built cs
  ]

  abbrev pub unbuilt : {J : Type 0} → List (AmplifierCommand Events) → List (Reported F J)
  unbuilt [] = []
  unbuilt (publish_events events ∷ cs) = elim (build_request events) [
    | ok request ↦ unbuilt cs
    | err e ↦ task_failed e ∷ unbuilt cs
  ]

module _ {Q F J : Type 0} where
  -- The panics, cancellations and errors of the requests that are done.
  abbrev pub failed_joins : List (Joined Q F J) → List (Reported F J)
  failed_joins [] = []
  failed_joins ((q, err panic) ∷ js) = task_panicked panic ∷ failed_joins js
  failed_joins ((q, ok (err e)) ∷ js) = task_failed e ∷ failed_joins js
  failed_joins ((q, ok (ok u)) ∷ js) = failed_joins js

  abbrev pub requests : List (Joined Q F J) → List Q
  requests [] = []
  requests ((q, res) ∷ js) = q ∷ requests js

module _ {Events Q F J : Type 0} (build_request : Events → Result F Q) where
  -- `Poll::Ready(Some(command))`.
  unfoldable pub on_command :
      AmplifierCommand Events
      → List (AmplifierCommand Events)
      → Dispatch Events Q F J
      → Dispatch Events Q F J
  on_command command more s =
      let (r, join_set) = internal build_request command s.join_set in
      record s {
        receiver = more;
        join_set = join_set;
        logged = s.logged ++ report_result {J = J} (ok r);
      }

  -- A request of the join set that is done.
  unfoldable pub on_joined :
      List Q → Result J (Result F (Unit {0})) → Dispatch Events Q F J → Dispatch Events Q F J
  on_joined running res s = record s { join_set = running; logged = s.logged ++ report_result res }

  pub data Step (u v : Dispatch Events Q F J) : Type 0 where
    -- A holder of an `AmplifierCommandClient` sends a command, and the last of them goes.
    send :
        (command : AmplifierCommand Events)
        → u.closed ≡ false
        → v ≡ record u { receiver = u.receiver ++ command ∷ [] }
        → Step u v
    drop_senders : v ≡ record u { closed = true } → Step u v
    receive :
        (command : AmplifierCommand Events) (more : List (AmplifierCommand Events))
        → u.receiver ≡ command ∷ more
        → v ≡ on_command command more u
        → Step u v
    join :
        (before after : List Q) (request : Q) (res : Result J (Result F (Unit {0})))
        → u.receiver ≡ []
        → u.join_set ≡ before ++ request ∷ after
        → v ≡ on_joined (before ++ after) res u
        → Step u v

  -- `Poll::Ready(None)`: the loop is left, and `process` bails out.
  abbrev pub IsEnded : Dispatch Events Q F J → Type 0
  IsEnded u = (u.receiver ≡ []) × (u.closed ≡ true) × (u.join_set ≡ [])

  -- What a step sends, and which requests it finds done with which result.
  abbrev sent_by : {u v : Dispatch Events Q F J} → Step u v → List (AmplifierCommand Events)
  sent_by (send command e e') = command ∷ []
  sent_by (drop_senders e) = []
  sent_by (receive command more e e') = []
  sent_by (join before after request res e e' e'') = []

  abbrev joined_by : {u v : Dispatch Events Q F J} → Step u v → List (Joined Q F J)
  joined_by (send command e e') = []
  joined_by (drop_senders e) = []
  joined_by (receive command more e e') = []
  joined_by (join before after request res e e' e'') = (request, res) ∷ []

  pub data Steps (u : Dispatch Events Q F J) : Dispatch Events Q F J → Type 0 where
    here : Steps u u
    next : {v w : Dispatch Events Q F J} → Steps u v → Step v w → Steps u w

  abbrev pub sent : {u v : Dispatch Events Q F J} → Steps u v → List (AmplifierCommand Events)
  sent here = []
  sent (next r st) = sent r ++ sent_by st

  abbrev pub joined : {u v : Dispatch Events Q F J} → Steps u v → List (Joined Q F J)
  joined here = []
  joined (next r st) = joined r ++ joined_by st
