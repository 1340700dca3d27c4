-- ===== src/Subscriber/Rounds/OnGcp.antt =====
-- The rounds of the subscriber on the Google Cloud provider: its queue is `PeekableGcpPublisher`, whose
-- world the API's client shares.
pub mod Dropped
mod Sample
mod Tests
use axelar_relayer_core.Base.{ℕ, ◌≤◌, ◌<◌, ◌≡◌, ap, Option, none, some, List, In, Text, Result, ok}
use axelar_relayer_core.Infrastructure.Interfaces.{QueueMsgId, PeekablePublisher}
use axelar_relayer_core.Infrastructure.Gcp.Defs.{GcpError, MessageContent, Redis, PubSub, Stores}
use axelar_relayer_core.Infrastructure.Gcp.KvStore.{Codec}
use axelar_relayer_core.Infrastructure.Gcp.KvStore.Laws.{RoundTrips}
use axelar_relayer_core.Infrastructure.Gcp.Publisher.{State, world_of}
use axelar_relayer_core.Infrastructure.Gcp.Publisher.Contract.{gcp_publisher}
use axelar_relayer_core.Infrastructure.Gcp.Publisher.Topic.{
  Sent, Arrives, ReadsBack, contents_of, contents_of-grows,
}
use axelar_relayer_core.Infrastructure.Gcp.Publisher.Delivery.{recalled}
use axelar_relayer_core.Infrastructure.Gcp.Publisher.Parts.{gcp_delivers}
use axelar_relayer_core.AmplifierApi.Types.{TaskItem, TaskItemId, GetTasksResult, ErrorResponse}
use axelar_relayer_core.AmplifierApi.Requests.{Urls}
use axelar_relayer_core.AmplifierApi.Client.{Http, AmplifierApiClient}
use axelar_relayer_core.AmplifierApi.Order.{behind, Consecutive}
use axelar_relayer_core.Subscriber.{Subscriber, fetch}
use axelar_relayer_core.Subscriber.Rounds.{Rounds}
use axelar_relayer_core.Subscriber.Rounds.Complete.{Alike, no_task_lost}

module _ {V U X Q B P M H Uuid Utc : Type 0} (http : Http (State V) U X Q B P) (urls : Urls U X)
    (hyphenated : Uuid → Text) (unit_to_vec : Unit {0} → Result X (List ℕ))
    (read_tasks : List ℕ → Result X (GetTasksResult Uuid Utc))
    (read_error : List ℕ → Result X ErrorResponse) (client : AmplifierApiClient U)
    (sort : List (TaskItem Uuid Utc) → List (TaskItem Uuid Utc))
    (q : QueueMsgId (TaskItem Uuid Utc) (TaskItemId Uuid))
    (inject_context : (Text → Option Text) → Text → Option Text)
    (to_vec : MessageContent (TaskItem Uuid Utc) → Result X (List ℕ))
    (from_slice : List ℕ → Result X (MessageContent (TaskItem Uuid Utc))) (pubsub : PubSub V X M H)
    (redis : Redis V X) (codec : Codec (TaskItemId Uuid) X) (key : Text) (st : Stores redis pubsub)
    (a : Arrives redis pubsub st) (rt : RoundTrips codec) (reads_back : ReadsBack to_vec from_slice)
    (position : TaskItemId Uuid → ℕ) where
  -- What a consumer would decode of the messages that have arrived.
  abbrev pub arrived_tasks : State V → List (TaskItem Uuid Utc)
  arrived_tasks s = contents_of from_slice (a.arrived (world_of s))

  -- The place behind the task whose identifier Redis holds.
  abbrev pub place_in_redis : State V → ℕ
  place_in_redis s = behind q.id position (
      recalled inject_context to_vec from_slice pubsub q redis codec key st a rt reads_back
        (st.stored key (world_of s)))

  -- The key is left as it is, and no message is taken out of the topic.
  abbrev pub Leaves : State V → State V → Type 0
  Leaves s s' =
      (st.stored key (world_of s') ≡ st.stored key (world_of s))
      × ((m : Sent) → In m (a.arrived (world_of s)) → In m (a.arrived (world_of s')))

  abbrev queue : PeekablePublisher (State V) (GcpError X) (TaskItem Uuid Utc) (TaskItemId Uuid) Text
  queue = gcp_publisher inject_context to_vec pubsub q redis codec key

  Leaves-Alike :
      (s s' : State V)
      → Leaves s s'
      → Alike http urls hyphenated unit_to_vec read_tasks read_error client sort q queue position
          (gcp_delivers inject_context to_vec from_slice pubsub q redis codec key st a rt
            reads_back)
          s
          s'
  unfolding gcp_delivers
  Leaves-Alike s s' (e, more) = (
    ap (recalled inject_context to_vec from_slice pubsub q redis codec key st a rt reads_back) e,
    contents_of-grows from_slice (a.arrived (world_of s)) (a.arrived (world_of s')) more,
  )

  module _ (execute_frame : (b : B) (s : State V) → Leaves s (http.execute b s).1)
      (bytes_frame : (p : P) (s : State V) → Leaves s (http.bytes p s).1)
      (in_order : (l : Option (TaskItemId Uuid)) (s : Subscriber (State V))
          (answer : GetTasksResult Uuid Utc)
        → (fetch http urls hyphenated unit_to_vec read_tasks read_error client sort q queue l s).0
          ≡ ok answer
        → Consecutive q.id position (behind q.id position l) (sort answer.tasks))
      (Env : State V → State V → Type 0)
      (env_frame : (s s' : State V) → Env s s' → Leaves s s') where
    -- On the Google Cloud provider no task is lost, whichever of the encodings, requests,
    -- confirmations, reads and writes fail: the place of the identifier in Redis never goes back, and
    -- each place that it has passed since the start is that of a task that a consumer can decode of
    -- the messages in the topic. The API answers by tasks that follow one another from the one
    -- behind the identifier asked for, in the order of the sort; borsh reads back what it has
    -- written; and neither the API's client nor anybody else changes the key or takes messages out.
    pub no_task_lost_on_gcp :
        (u v : Subscriber (State V))
        → Rounds http urls hyphenated unit_to_vec read_tasks read_error client sort q queue Env u v
        → (place_in_redis u.world ≤ place_in_redis v.world)
          × ((k : ℕ)
              → place_in_redis u.world ≤ k
              → k < place_in_redis v.world
              → (t : TaskItem Uuid Utc) × In t (arrived_tasks v.world) × (position (q.id t) ≡ k))
    unfolding gcp_delivers
    no_task_lost_on_gcp =
        no_task_lost http urls hyphenated unit_to_vec read_tasks read_error client sort q queue
          position
          (gcp_delivers inject_context to_vec from_slice pubsub q redis codec key st a rt
            reads_back)
          (λ b s. Leaves-Alike s (http.execute b s).1 (execute_frame b s))
          (λ p s. Leaves-Alike s (http.bytes p s).1 (bytes_frame p s)) in_order Env
          (λ s s' e. Leaves-Alike s s' (env_frame s s' e))
