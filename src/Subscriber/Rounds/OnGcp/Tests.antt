-- ===== src/Subscriber/Rounds/OnGcp/Tests.antt =====
-- Two subscriptions on a small Google Cloud, the first confirmation of which fails, so that the second one
-- publishes both tasks; and a subscription that is dropped behind its first confirmation, with the
-- subscription of the next process, which publishes that task again.
use axelar_relayer_core.Base.{
  ℕ, false, suc, ◌≤◌, ◌<◌, ◌≡◌, refl, true, [], ◌∷◌, In, Option, none, some, Text, codes, ok, arith,
}
use axelar_relayer_core.Infrastructure.Interfaces.{PeekablePublisher, from_value}
use axelar_relayer_core.Infrastructure.Gcp.Publisher.Contract.{gcp_publisher}
use axelar_relayer_core.AmplifierApi.Requests.{get_chains, get_chains_path}
use axelar_relayer_core.AmplifierApi.Requests
use axelar_relayer_core.AmplifierApi.Client.{build_request, json_of, execute}
use axelar_relayer_core.AmplifierApi.Order.{behind, Consecutive}
use axelar_relayer_core.Infrastructure.Gcp.Defs.{GcpError}
use axelar_relayer_core.Infrastructure.Gcp.KvStore
use axelar_relayer_core.Infrastructure.Gcp.KvStore.{Codec}
use axelar_relayer_core.Infrastructure.Gcp.Publisher
use axelar_relayer_core.Infrastructure.Gcp.Publisher.{State}
use axelar_relayer_core.AmplifierApi.Types.{TaskItemId, GetTasksResult}
use axelar_relayer_core.Subscriber.{Subscriber, subscribe, fetch, send}
use axelar_relayer_core.Subscriber.Rounds.{here, tick, meanwhile}
use axelar_relayer_core.Subscriber.Sample.{Item, queue_id, sort}
use axelar_relayer_core.Subscriber.Rounds.Sample.{
  page_in_order, urls, http, hyphenated, to_vec, read_tasks, read_error, client, place,
}
use axelar_relayer_core.Subscriber.Rounds.OnGcp.{arrived_tasks, place_in_redis}
use axelar_relayer_core.Subscriber.Rounds.OnGcp.Dropped.{
  Dropped, not_begun, peeked, executed, handed_over, confirmed, no_task_lost_dropped,
}
use axelar_relayer_core.Infrastructure.Gcp.Publisher.{with_world, world_of}
use axelar_relayer_core.Infrastructure.Gcp.Publisher.Topic.{Sent}
use axelar_relayer_core.Subscriber.Rounds.OnGcp.Sample.{
  World, redis, pubsub, stores, arrives, encode_message, decode_message, reads_back, id_codec,
  id_codec-RoundTrips,
}

abbrev no_context : (Text → Option Text) → Text → Option Text
no_context m = m

abbrev cloud : World → State World
cloud w = record {
  metrics = record { published = 0; error_raised = 0 };
  store = record { metrics = record { writes = 0; reads = 0; error_raised = 0 }; world = w };
}

abbrev subscriber : Subscriber (State World)
subscriber = record {
  chain = codes "flow";
  limit_items = 100;
  errors = 0;
  world = cloud (record { held = none; topic = []; flaky = true });
}

abbrev key : Text
key = codes "last"

abbrev queue : PeekablePublisher (State World) (GcpError ℕ) Item (TaskItemId ℕ) Text
queue = gcp_publisher no_context encode_message pubsub queue_id redis id_codec key

abbrev next_tick : Subscriber (State World) → Subscriber (State World)
next_tick s =
    (subscribe (http (State World)) urls hyphenated to_vec read_tasks read_error client sort
      queue_id queue s).1

in_order :
    (l : Option (TaskItemId ℕ)) (s : Subscriber (State World)) (answer : GetTasksResult ℕ ℕ)
    → (fetch
        (http (State World))
        urls
        hyphenated
        to_vec
        read_tasks
        read_error
        client
        sort
        queue_id
        queue
        l
        s).0
      ≡ ok answer
    → Consecutive queue_id.id place (behind queue_id.id place l) (sort answer.tasks)
unfolding fetch build_request execute json_of get_chains get_chains_path Requests.new
in_order none s answer e = page_in_order 0 answer (ground (arith, e))
in_order (some i) s answer e = page_in_order (suc (place i)) answer (ground (arith, e))

abbrev after : Subscriber (State World)
after = next_tick (next_tick subscriber)

abbrev place_of : State World → ℕ
place_of =
    place_in_redis (http (State World)) urls hyphenated to_vec read_tasks read_error client sort
      queue_id no_context encode_message decode_message pubsub redis id_codec key stores arrives
      id_codec-RoundTrips reads_back place

-- The second subscription has published both tasks.
both_published : after.world.store.world.held ≡ some (1 ∷ [])
unfolding subscribe fetch send build_request execute json_of get_chains get_chains_path Requests.new
    from_value Publisher.peek_last Publisher.peekable_publish_batch Publisher.publish_batch
    Publisher.confirm_all Publisher.confirm_one Publisher.to_pubsub_messages
    Publisher.to_pubsub_message KvStore.get KvStore.upsert KvStore.read_value
both_published = refl

abbrev calm : Subscriber (State World)
calm = record subscriber { world = cloud (record { held = none; topic = []; flaky = false }) }

abbrev first_message : Sent
first_message = (0 ∷ 0 ∷ [], λ k. none)

abbrev halted : State World
halted = with_world (pubsub.confirm first_message (world_of calm.world)).1 calm.world

dropped : Dropped (http (State World)) pubsub redis key calm.world halted
dropped = confirmed (handed_over (executed (peeked not_begun) 1) (first_message ∷ [])) first_message

abbrev recovered : Subscriber (State World)
recovered = next_tick (record calm { world = halted })

no_task_lost_dropped_example :
    (place_of calm.world ≤ place_of recovered.world)
    × ((k : ℕ)
        → place_of calm.world ≤ k
        → k < place_of recovered.world
        → (t : Item) × In t (
            arrived_tasks
              (http (State World))
              urls
              hyphenated
              to_vec
              read_tasks
              read_error
              client
              sort
              queue_id
              no_context
              encode_message
              decode_message
              pubsub
              redis
              id_codec
              key
              stores
              arrives
              id_codec-RoundTrips
              reads_back
              place
              recovered.world)
          × (t.id.uuid ≡ k))
no_task_lost_dropped_example =
    no_task_lost_dropped (http (State World)) urls hyphenated to_vec read_tasks read_error client
      sort queue_id no_context encode_message decode_message pubsub redis id_codec key stores
      arrives id_codec-RoundTrips reads_back place (λ b s. (refl, (λ m i. i)))
      (λ p s. (refl, (λ m i. i))) in_order calm recovered
      (tick (meanwhile halted here dropped refl) refl)
