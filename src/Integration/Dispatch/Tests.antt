-- ===== src/Integration/Dispatch/Tests.antt =====
-- The stream of commands at two commands, of which one cannot be built and the other is cancelled.
use mathlib.Core.List.{Perm}
use axelar_relayer_core.Base.{ℕ, ◌+◌, refl, true, [], ◌∷◌, Result, ok, err, ◌==◌, if◌then◌else◌}
use axelar_relayer_core.Integration.ToAmplifier.{publish_events, internal}
use axelar_relayer_core.Integration.Dispatch.{
  Dispatch, task_panicked, task_failed, report_result, on_command, on_joined, send, drop_senders,
  receive, join, Steps, here, next,
}
use axelar_relayer_core.Integration.Dispatch.Completion.{fresh, stream_completes}
use axelar_relayer_core.Integration.Dispatch.Ending.{Ends, closed_stream-Ends}

abbrev build_request : ℕ → Result ℕ ℕ
build_request events = if events == 0 then err 7 else ok (events + 100)

abbrev ended : Dispatch ℕ ℕ ℕ ℕ
ended = record {
  receiver = [];
  closed = true;
  join_set = [];
  logged = task_failed 7 ∷ task_panicked 9 ∷ [];
}

run : Steps {J = ℕ} build_request (fresh build_request) ended
unfolding on_command on_joined internal report_result
run =
    next
      (next
        (next
          (next
            (next (next here (send (publish_events 5) refl refl))
              (send (publish_events 0) refl refl))
            (receive (publish_events 5) (publish_events 0 ∷ []) refl refl))
          (drop_senders refl))
        (receive (publish_events 0) [] refl refl))
      (join [] [] 105 (err 9) refl refl refl)

stream_completes_example :
    Perm {A = ℕ} (105 ∷ []) (105 ∷ []) × Perm ended.logged (task_failed 7 ∷ task_panicked 9 ∷ [])
unfolding run
stream_completes_example = stream_completes build_request ended run (refl, refl, refl)

abbrev closing : Dispatch ℕ ℕ ℕ ℕ
closing = record {
  receiver = publish_events 0 ∷ publish_events 4 ∷ [];
  closed = true;
  join_set = 105 ∷ [];
  logged = [];
}

closed_stream-Ends_example : Ends build_request closing
closed_stream-Ends_example = closed_stream-Ends build_request closing.receiver closing refl refl
