-- ===== src/Subscriber/Rounds/OnGcp/Dropped.antt =====
-- Ticks that are dropped: at Ctrl+C `run_until_cancelled` of crates/amplifier-subscriber/src/main.rs drops
-- the loop at whatever await it stands, and a process can be killed at any time.
use axelar_relayer_core.Base.{ℕ, ◌≤◌, ◌<◌, ◌≡◌, ◌∙◌, refl, Option, List, In, Text, Result, ok}
use axelar_relayer_core.Infrastructure.Interfaces.{QueueMsgId}
use axelar_relayer_core.Infrastructure.Gcp.Defs.{MessageContent, Redis, PubSub, Stores}
use axelar_relayer_core.Infrastructure.Gcp.KvStore.{Codec}
use axelar_relayer_core.Infrastructure.Gcp.KvStore.Laws.{RoundTrips}
use axelar_relayer_core.Infrastructure.Gcp.Publisher.{State, world_of, with_world}
use axelar_relayer_core.Infrastructure.Gcp.Publisher.Contract.{gcp_publisher}
use axelar_relayer_core.Infrastructure.Gcp.Publisher.Topic.{Sent, Arrives, ReadsBack}
use axelar_relayer_core.AmplifierApi.Types.{TaskItem, TaskItemId, GetTasksResult, ErrorResponse}
use axelar_relayer_core.AmplifierApi.Requests.{Urls}
use axelar_relayer_core.AmplifierApi.Client.{Http, AmplifierApiClient}
use axelar_relayer_core.AmplifierApi.Order.{behind, Consecutive}
use axelar_relayer_core.Subscriber.{Subscriber, fetch}
use axelar_relayer_core.Subscriber.Rounds.{Rounds}
use axelar_relayer_core.Subscriber.Rounds.OnGcp.{
  arrived_tasks, place_in_redis, Leaves, no_task_lost_on_gcp,
}

module _ {V U X Q B P M H : Type 0} (http : Http (State V) U X Q B P) (pubsub : PubSub V X M H)
    (redis : Redis V X) (key : Text) where
  -- What a tick has done that was dropped before it came to its write: any of its other calls.
  pub data Dropped (s : State V) : State V → Type 0 where
    not_begun : Dropped s s
    peeked : {t : State V} → Dropped s t → Dropped s (with_world (redis.get key (world_of t)).1 t)
    executed : {t : State V} → Dropped s t → (b : B) → Dropped s (http.execute b t).1
    answered : {t : State V} → Dropped s t → (p : P) → Dropped s (http.bytes p t).1
    handed_over :
        {t : State V}
        → Dropped s t
        → (ms : List Sent) → Dropped s (with_world (pubsub.publish_bulk ms (world_of t)).1 t)
    confirmed :
        {t : State V}
        → Dropped s t
        → (h : H) → Dropped s (with_world (pubsub.confirm h (world_of t)).1 t)

module _ {V U X Q B P M H Uuid Utc : Type 0} (http : Http (State V) U X Q B P) (urls : Urls U X)
    (hyphenated : Uuid → Text) (unit_to_vec : Unit {0} → Result X (List ℕ))
    (read_tasks : List ℕ → Result X (GetTasksResult Uuid Utc))
    (read_error : List ℕ → Result X ErrorResponse) (client : AmplifierApiClient U)
    (sort : List (TaskItem Uuid Utc) → List (TaskItem Uuid Utc))
    (q : QueueMsgId (TaskItem Uuid Utc) (TaskItemId Uuid))
    (inject_context : (Text → Option Text) → Text → Option Text)
    (to_vec : MessageContent (TaskItem Uuid Utc) → Result X (List ℕ))
    (from_slice : List ℕ → Result X (MessageContent (TaskItem Uuid Utc))) (pubsub : PubSub V X M H)
    (redis : Redis V X) (codec : Codec (TaskItemId Uuid) X) (key : Text) (st : Stores redis pubsub)
    (a : Arrives redis pubsub st) (rt : RoundTrips codec) (reads_back : ReadsBack to_vec from_slice)
    (position : TaskItemId Uuid → ℕ) where
  abbrev Left : State V → State V → Type 0
  Left =
      Leaves http urls hyphenated unit_to_vec read_tasks read_error client sort q inject_context
        to_vec from_slice pubsub redis codec key st a rt reads_back position

  Left-trans : (s t u : State V) → Left s t → Left t u → Left s u
  Left-trans s t u (e, f) (e', f') = (e' ∙ e, λ m i. f' m (f m i))

  module _ (execute_frame : (b : B) (s : State V) → Left s (http.execute b s).1)
      (bytes_frame : (p : P) (s : State V) → Left s (http.bytes p s).1)
      (in_order : (l : Option (TaskItemId Uuid)) (s : Subscriber (State V))
          (answer : GetTasksResult Uuid Utc)
        → (fetch http urls hyphenated unit_to_vec read_tasks read_error client sort q
            (gcp_publisher inject_context to_vec pubsub q redis codec key)
            l
            s).0
          ≡ ok answer
        → Consecutive q.id position (behind q.id position l) (sort answer.tasks)) where
    Dropped-Left : (s t : State V) → Dropped http pubsub redis key s t → Left s t
    Dropped-Left s t not_begun = (refl, λ m i. i)
    Dropped-Left s t (peeked {t = u} d) =
        let w = world_of u in
        Left-trans s u (with_world (redis.get key w).1 u) (Dropped-Left s u d)
          (a.get_frame key w, a.get_keeps key w)
    Dropped-Left s t (executed {t = u} d b) =
        Left-trans s u (http.execute b u).1 (Dropped-Left s u d) (execute_frame b u)
    Dropped-Left s t (answered {t = u} d p) =
        Left-trans s u (http.bytes p u).1 (Dropped-Left s u d) (bytes_frame p u)
    Dropped-Left s t (handed_over {t = u} d ms) =
        let w = world_of u in
        Left-trans s u (with_world (pubsub.publish_bulk ms w).1 u) (Dropped-Left s u d)
          (st.bulk_frame key ms w, a.bulk_keeps ms w)
    Dropped-Left s t (confirmed {t = u} d h) =
        let w = world_of u in
        Left-trans s u (with_world (pubsub.confirm h w).1 u) (Dropped-Left s u d)
          (st.confirm_frame key h w, a.confirm_keeps h w)

    -- On the Google Cloud provider no task is lost, whichever of the encodings, requests, confirmations,
    -- reads and writes fail, and wherever a tick is dropped before its write to Redis: the place of
    -- the identifier in Redis never goes back, and each place that it has passed since the start is
    -- that of a task that a consumer can decode of the messages in the topic. The API answers by
    -- tasks that follow one another from the one behind the identifier asked for, in the order of
    -- the sort; borsh reads back what it has written; Redis and Pub/Sub keep `Stores` and `Arrives`;
    -- and the API's client changes neither the key nor the topic.
    pub no_task_lost_dropped :
        (u v : Subscriber (State V))
        → Rounds http urls hyphenated unit_to_vec read_tasks read_error client sort q
            (gcp_publisher inject_context to_vec pubsub q redis codec key)
            (Dropped http pubsub redis key)
            u
            v
        → let place =
            place_in_redis http urls hyphenated unit_to_vec read_tasks read_error client sort q
              inject_context to_vec from_slice pubsub redis codec key st a rt reads_back position in
          let tasks =
            arrived_tasks http urls hyphenated unit_to_vec read_tasks read_error client sort q
              inject_context to_vec from_slice pubsub redis codec key st a rt reads_back position
              v.world in
          (place u.world ≤ place v.world)
          × ((k : ℕ)
              → place u.world ≤ k
              → k < place v.world
              → (t : TaskItem Uuid Utc) × In t tasks × (position (q.id t) ≡ k))
    no_task_lost_dropped =
        no_task_lost_on_gcp http urls hyphenated unit_to_vec read_tasks read_error client sort q
          inject_context to_vec from_slice pubsub redis codec key st a rt reads_back position
          execute_frame bytes_frame in_order (Dropped http pubsub redis key) Dropped-Left
