-- ===== src/Subscriber.antt =====
-- crates/amplifier-subscriber/src/lib.rs: `Subscriber`. The publisher of the task queue is any
-- `PeekablePublisher`; the API's client is Client.antt over the same world. The order of the tasks is
-- `sort`, the standard library's `sort_unstable_by_key` at the time stamps.
pub mod Latest
pub mod OnGcp
pub mod Rounds
pub mod Components
mod Sample
mod Tests
use axelar_relayer_core.Base.{
  ℕ, suc, ◌≡◌, Bool, Option, none, some, List, [], ◌∷◌, map, Text, Result, ok, err, map_err, is_err,
  Eff, ◌>>=◌, ◌>>◌, pure, if◌then◌else◌,
}
use axelar_relayer_core.Infrastructure.Interfaces.{
  PublishMessage, QueueMsgId, PeekablePublisher, from_value,
}
use axelar_relayer_core.AmplifierApi.Types.{TaskItem, TaskItemId, GetTasksResult, ErrorResponse}
use axelar_relayer_core.AmplifierApi.Requests.{
  AmplifierApiError, Urls, GetChains, WithTrailingSlash, get_chains, health_check,
}
use axelar_relayer_core.AmplifierApi.Requests
use axelar_relayer_core.AmplifierApi.Client.{
  Http, AmplifierApiClient, build_request, execute, json_of,
}

-- The reports, by what is wrapped around the error.
pub data Report (E X : Type 0) : Type 0 where
  last_task_id_failed publish_failed publisher_unhealthy : E → Report E X
  request_not_built request_not_sent api_failed api_unhealthy : AmplifierApiError X → Report E X
  response_not_decoded : ErrorResponse → Report E X

-- `Subscriber`, less its client and its publisher, which live in the world: the chain, the limit of
-- items, the errors that its metrics count, and the world.
pub record Subscriber (W : Type 0) : Type 0 where
  pub chain : Text
  pub limit_items : ℕ
  pub errors : ℕ
  pub world : W

abbrev record_error : {W : Type 0} → Subscriber W → Subscriber W
record_error s = record s { errors = suc s.errors }

-- A computation on the world, with `wrap_err`.
abbrev pub on_world : {W E F A : Type 0} → (E → F) → Eff W E A → Eff (Subscriber W) F A
on_world wrap m s = let (r, w) = m s.world in (map_err wrap r, record s { world = w })

-- A result, with `wrap_err`.
abbrev lift : {W E F A : Type 0} → (E → F) → Result E A → Eff (Subscriber W) F A
lift wrap r s = (map_err wrap r, s)

module _ {W E U X Q B P Uuid Utc Return : Type 0} (http : Http W U X Q B P) (urls : Urls U X)
    (hyphenated : Uuid → Text) (to_vec : Unit {0} → Result X (List ℕ))
    (read_tasks : List ℕ → Result X (GetTasksResult Uuid Utc))
    (read_error : List ℕ → Result X ErrorResponse) (client : AmplifierApiClient U)
    (sort : List (TaskItem Uuid Utc) → List (TaskItem Uuid Utc))
    (q : QueueMsgId (TaskItem Uuid Utc) (TaskItemId Uuid))
    (publisher : PeekablePublisher W E (TaskItem Uuid Utc) (TaskItemId Uuid) Return) where
  -- The request, and the tasks of the answer.
  unfoldable pub fetch :
      Option (TaskItemId Uuid) → Eff (Subscriber W) (Report E X) (GetTasksResult Uuid Utc)
  fetch last_task_id s =
      let r : GetChains Uuid = record {
        chain = Requests.new s.chain;
        after = last_task_id;
        before = none;
        limit = some s.limit_items;
      } in
      (do
        request ←
            lift request_not_built (build_request http to_vec (get_chains urls hyphenated) client r)
        response ← on_world request_not_sent (execute http request)
        answer ← on_world api_failed (json_of http read_tasks read_error response)
        lift response_not_decoded answer)
        s

  -- The tasks of an answer, sent to the queue; nothing is sent when there are none.
  unfoldable pub send : List (TaskItem Uuid Utc) → Eff (Subscriber W) (Report E X) (Unit {0})
  send [] s = (ok tt, s)
  send (t ∷ ts) s =
      (do on_world publish_failed (publisher.publish_batch (map (from_value q) (t ∷ ts))); pure tt)
        s

  -- `if res.is_err() { record_error() }; res`, behind a block whose every `?` has left the function.
  abbrev count_if_err : {A F : Type 0} → Result F A → Eff (Subscriber W) F A
  count_if_err res s = (res, if is_err res then record_error s else s)

  -- `Subscriber::subscribe`. The block ends with a success or not at all.
  unfoldable pub subscribe : Eff (Subscriber W) (Report E X) (Unit {0})
  subscribe s =
      (do
        last_task_id ← on_world last_task_id_failed publisher.peek_last
        response ← fetch last_task_id
        send (sort response.tasks)
        count_if_err (ok tt))
        s

  -- `<Subscriber as CheckHealth>::check_health`, where `publisher_health` is the publisher's check.
  abbrev counted : {A F : Type 0} → Eff (Subscriber W) F A → Eff (Subscriber W) F A
  counted m s = let (r, s') = m s in (r, if is_err r then record_error s' else s')

  unfoldable pub check_health : Eff W E (Unit {0}) → Eff (Subscriber W) (Report E X) (Unit {0})
  check_health publisher_health s =
      (do
        counted (on_world publisher_unhealthy publisher_health)
        request ←
            lift request_not_built
              (build_request http to_vec (health_check urls) client (record {}))
        counted (on_world api_unhealthy (execute http request))
        pure tt)
        s
