-- ===== src/Ingester.antt =====
-- crates/amplifier-ingester/src/lib.rs: `Ingester`. The consumer of the event queue and its messages are
-- the parameter `EventQueue`; the API's client is Client.antt over the same world. The messages are
-- processed one after the other: `for_each_concurrent` with one queue item at a time.
pub mod Pool
pub mod Flights
pub mod Interleavings
pub mod Sequential
pub mod Ledger
pub mod Accounts
pub mod Probe
pub mod Components
pub mod Settlement
pub mod OnGcp
mod Sample
mod Tests
mod Schedules
use axelar_relayer_core.Base.{
  ℕ, suc, ◌≡◌, Bool, Option, none, some, List, [], ◌∷◌, Text, Result, ok, err, map_err, is_err, Eff,
  ◌>>=◌, ◌>>◌, pure, if◌then◌else◌,
}
use axelar_relayer_core.Infrastructure.Interfaces.{AckKind}
use axelar_relayer_core.AmplifierApi.Types.{
  Event, PublishEventsRequest, PublishEventsResult, ErrorResponse,
}
use axelar_relayer_core.AmplifierApi.Requests.{
  AmplifierApiError, Urls, PostEvents, WithTrailingSlash, post_events, HealthCheck, health_check,
}
use axelar_relayer_core.AmplifierApi.Requests
use axelar_relayer_core.AmplifierApi.Client.{
  Http, AmplifierApiClient, build_request, execute, json_of,
}

-- The traits `Consumer<Event>` and `QueueMessage<Event>`, for messages `M` and errors `E`; `messages`
-- lists what the stream yields until it ends.
pub record EventQueue (W E M Ev : Type 0) : Type 0 where
  pub messages : Eff W E (List (Result E M))
  pub decoded : M → Ev
  pub ack : AckKind → M → Eff W E (Unit {0})
  pub check_health : Eff W E (Unit {0})

-- The reports, by what is wrapped around the error.
pub data Report (E X : Type 0) : Type 0 where
  messages_failed consumer_unhealthy : E → Report E X
  request_not_built request_not_sent api_failed api_unhealthy : AmplifierApiError X → Report E X
  response_not_decoded : ErrorResponse → Report E X

-- `Ingester`, less its client and its consumer, which live in the world: the chain, the errors that
-- its metrics count, and the world.
pub record Ingester (W : Type 0) : Type 0 where
  pub chain : Text
  pub errors : ℕ
  pub world : W

abbrev pub record_error : {W : Type 0} → Ingester W → Ingester W
record_error s = record s { errors = suc s.errors }

abbrev pub on_world : {W E F A : Type 0} → (E → F) → Eff W E A → Eff (Ingester W) F A
on_world wrap m s = let (r, w) = m s.world in (map_err wrap r, record s { world = w })

abbrev lift : {W E F A : Type 0} → (E → F) → Result E A → Eff (Ingester W) F A
lift wrap r s = (map_err wrap r, s)

-- An error that is counted and goes no further.
abbrev count_if : {W : Type 0} → Bool → Ingester W → Ingester W
count_if b s = if b then record_error s else s

module _ {W E U X Q B P M Uuid Utc : Type 0} (http : Http W U X Q B P) (urls : Urls U X)
    (to_vec : PublishEventsRequest Uuid Utc → Result X (List ℕ))
    (unit_to_vec : Unit {0} → Result X (List ℕ))
    (read_result : List ℕ → Result X PublishEventsResult)
    (read_error : List ℕ → Result X ErrorResponse) (client : AmplifierApiClient U)
    (queue : EventQueue W E M (Event Uuid Utc)) where
  -- The `async` block of `process_queue_msg`.
  unfoldable pub publish_event : Event Uuid Utc → Eff (Ingester W) (Report E X) PublishEventsResult
  publish_event event s =
      let r : PostEvents Uuid Utc = record {
        chain = Requests.new s.chain;
        payload = record { events = event ∷ [] };
      } in
      (do
        request ← lift request_not_built (build_request http to_vec (post_events urls) client r)
        response ← on_world request_not_sent (execute http request)
        answer ← on_world api_failed (json_of http read_result read_error response)
        lift response_not_decoded answer)
        s

  -- `queue_msg.ack(kind)`, whose failure is counted and skipped.
  unfoldable pub settle : AckKind → M → Ingester W → Ingester W
  settle kind msg s =
      let (r, w) = queue.ack kind msg s.world in count_if (is_err r) (record s { world = w })

  -- `Ingester::process_queue_msg`.
  unfoldable pub process_queue_msg : M → Ingester W → Ingester W
  process_queue_msg msg s =
      let (result, s') = publish_event (queue.decoded msg) s in
      elim result [
        | ok answer ↦ settle AckKind.ack msg s'
        | err e ↦ settle AckKind.nak msg (record_error s')
      ]

  -- The closure of `for_each_concurrent`, and the loop.
  unfoldable pub process_item : Result E M → Ingester W → Ingester W
  process_item (ok msg) s = process_queue_msg msg s
  process_item (err e) s = record_error s

  unfoldable pub process_items : List (Result E M) → Ingester W → Ingester W
  process_items [] s = s
  process_items (r ∷ rs) s = process_items rs (process_item r s)

  -- `Ingester::ingest`.
  unfoldable pub ingest : Eff (Ingester W) (Report E X) (Unit {0})
  ingest s =
      let (r, s') = on_world messages_failed queue.messages s in
      elim r [ err e ↦ (err e, record_error s') | ok items ↦ (ok tt, process_items items s') ]

  -- `<Ingester as CheckHealth>::check_health`.
  unfoldable pub check_health : Eff (Ingester W) (Report E X) (Unit {0})
  check_health s =
      (do
        on_world consumer_unhealthy queue.check_health
        request ←
            lift request_not_built
              (build_request http unit_to_vec (health_check urls) client (record {}))
        on_world api_unhealthy (execute http request)
        pure tt)
        s
