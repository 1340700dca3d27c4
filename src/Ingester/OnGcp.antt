-- ===== src/Ingester/OnGcp.antt =====
-- The ingester on the Google Cloud provider: its queue is `GcpConsumer`, whose services the API's client
-- shares the world with. `finished` says whether the read task has ended, and `stream` what the
-- channel of the consumer yields.
mod Tests
use axelar_relayer_core.Base.{
  ℕ, suc, ◌+◌, ◌<◌, ◌≡◌, refl, sym, ap, ◌∙◌, subst, Bool, List, some, Text, Result, ok, err, Eff,
  ltb, arith,
}
use axelar_relayer_core.Base.Int.{ℤ}
use axelar_relayer_core.Infrastructure.Interfaces.{AckKind}
use axelar_relayer_core.Infrastructure.Gcp.Defs.{GcpError, MessageContent, Redis, PubSub, Expires}
use axelar_relayer_core.Infrastructure.Gcp.Consumer
use axelar_relayer_core.Infrastructure.Gcp.Consumer.{
  GcpMessage, State, redis_id_key, msg_id, ack, on_received,
}
use axelar_relayer_core.Infrastructure.Gcp.Consumer.Dedup.{redelivery_suppressed}
use axelar_relayer_core.AmplifierApi.Types.{
  Event, PublishEventsRequest, PublishEventsResult, ErrorResponse,
}
use axelar_relayer_core.AmplifierApi.Requests.{Urls}
use axelar_relayer_core.AmplifierApi.Client.{Http, AmplifierApiClient}
use axelar_relayer_core.Ingester.{
  EventQueue, Ingester, Report, publish_event, process_queue_msg, settle, record_error,
}

module _ {V X M H T : Type 0} (redis : Redis V X) (pubsub : PubSub V X M H) (finished : V → Bool)
    (stream : V → List (Result (GcpError X) (GcpMessage T M)) × V) where
  -- `GcpConsumer::messages`.
  unfoldable pub messages : Eff (State V) (GcpError X) (List (Result (GcpError X) (GcpMessage T M)))
  messages s =
      let (r, s') = Consumer.check_health (finished s.world) s in
      elim r [
        | err e ↦ (err e, s')
        | ok u ↦ let (items, w) = stream s'.world in (ok items, record s' { world = w })
      ]

  -- `GcpConsumer<T>` as the queue of an ingester.
  abbrev pub gcp_queue : EventQueue (State V) (GcpError X) (GcpMessage T M) T
  gcp_queue = record {
    messages = messages;
    decoded = λ m. m.decoded;
    ack = λ kind m s. (ack redis pubsub kind m s).0;
    check_health = λ s. Consumer.check_health (finished s.world) s;
  }

module _ {V U X Q B P M H Uuid Utc : Type 0} (http : Http (State V) U X Q B P) (urls : Urls U X)
    (to_vec : PublishEventsRequest Uuid Utc → Result X (List ℕ))
    (unit_to_vec : Unit {0} → Result X (List ℕ))
    (read_result : List ℕ → Result X PublishEventsResult)
    (read_error : List ℕ → Result X ErrorResponse) (client : AmplifierApiClient U)
    (redis : Redis V X) (pubsub : PubSub V X M H) (finished : V → Bool)
    (stream : V → List (Result (GcpError X) (GcpMessage (Event Uuid Utc) M)) × V)
    (x : Expires redis pubsub) (deserialize : List ℕ → Result X (MessageContent (Event Uuid Utc)))
    (forward : Result (GcpError X) (GcpMessage (Event Uuid Utc) M) → V → Bool × V) where
  abbrev pub Message : Type 0
  Message = GcpMessage (Event Uuid Utc) M

  abbrev pub publishes :
      Message → Eff (Ingester (State V)) (Report (GcpError X) X) PublishEventsResult
  publishes m =
      publish_event http urls to_vec unit_to_vec read_result read_error client
        (gcp_queue redis pubsub finished stream) m.decoded

  abbrev pub processes : Message → Ingester (State V) → Ingester (State V)
  processes =
      process_queue_msg http urls to_vec unit_to_vec read_result read_error client
        (gcp_queue redis pubsub finished stream)

  abbrev pub redelivered : Text → ℤ → M → State V → State V
  redelivered = on_received redis pubsub deserialize forward

  processed_ok :
      (m : Message) (s s' : Ingester (State V)) (answer : PublishEventsResult)
      → publishes m s ≡ (ok answer, s')
      → (processes m s).world ≡ (ack redis pubsub AckKind.ack m s'.world).0.1
  unfolding process_queue_msg settle
  processed_ok m s s' answer e = ground (arith, e)

  -- An event that the API has taken is not handed to the ingester again for ten minutes: once its
  -- positive acknowledgement has succeeded, a redelivery within that time is acknowledged, counted
  -- as a duplicate and goes no further, provided that both services answer and that nobody has
  -- touched the key of the message.
  pub published_once :
      (m : Message) (s s1 : Ingester (State V)) (answer : PublishEventsResult) (again : M)
      (deadline : ℤ) (c : MessageContent (Event Uuid Utc)) (b : Bool) (t : State V)
      → publishes m s ≡ (ok answer, s1)
      → (ack redis pubsub AckKind.ack m s1.world).0.0 ≡ ok tt
      → pubsub.attributes again msg_id ≡ some m.id
      → deserialize (pubsub.payload again) ≡ ok c
      → let after = (processes m s).world.world in
        x.expiry (redis_id_key m) t.world ≡ x.expiry (redis_id_key m) after
        → x.clock t.world < x.clock after + 600
        → (redis.exists (redis_id_key m) t.world).0 ≡ ok b
        → (pubsub.ack again (redis.exists (redis_id_key m) t.world).1).0 ≡ ok tt
        → redelivered m.subscription_name deadline again t ≡ record t {
          metrics = record t.metrics {
            received = suc t.metrics.received;
            duplicates = suc t.metrics.duplicates;
          };
          world = (pubsub.ack again (redis.exists (redis_id_key m) t.world).1).1;
        }
  published_once m s s1 answer again deadline c b t published acked named decoded untouched soon
        answered taken =
      let e = processed_ok m s s1 answer published in
      redelivery_suppressed redis pubsub x deserialize forward m again deadline c b s1.world t acked
        named decoded (untouched ∙ ap (λ (w : State V). x.expiry (redis_id_key m) w.world) e)
        (subst (λ (w : State V). x.clock t.world < x.clock w.world + 600) e soon) answered taken
