-- ===== src/Subscriber/OnGcp.antt =====
-- The subscriber on the Google Cloud provider: its queue is `PeekableGcpPublisher`, whose world the
-- API's client shares.
use axelar_relayer_core.Base.{ℕ, ◌≡◌, Option, some, List, Text, In, Result, ok}
use axelar_relayer_core.Infrastructure.Interfaces.{QueueMsgId}
use axelar_relayer_core.Infrastructure.Gcp.Defs.{MessageContent, Redis, PubSub, Stores}
use axelar_relayer_core.Infrastructure.Gcp.KvStore.{Codec}
use axelar_relayer_core.Infrastructure.Gcp.KvStore.Laws.{RoundTrips}
use axelar_relayer_core.Infrastructure.Gcp.Publisher
use axelar_relayer_core.Infrastructure.Gcp.Publisher.Contract.{
  gcp_publisher, gcp_publisher-RemembersLast,
}
use axelar_relayer_core.AmplifierApi.Types.{TaskItem, TaskItemId, GetTasksResult, ErrorResponse}
use axelar_relayer_core.AmplifierApi.Requests.{Urls}
use axelar_relayer_core.AmplifierApi.Client.{Http, AmplifierApiClient}
use axelar_relayer_core.Subscriber.{Subscriber, fetch, subscribe}
use axelar_relayer_core.Subscriber.Latest.{Sorts, subscribe_remembers_latest}

module _ {V U X Q B P M H Uuid Utc : Type 0} (http : Http (Publisher.State V) U X Q B P)
    (urls : Urls U X) (hyphenated : Uuid → Text) (unit_to_vec : Unit {0} → Result X (List ℕ))
    (read_tasks : List ℕ → Result X (GetTasksResult Uuid Utc))
    (read_error : List ℕ → Result X ErrorResponse) (client : AmplifierApiClient U)
    (sort : List (TaskItem Uuid Utc) → List (TaskItem Uuid Utc))
    (q : QueueMsgId (TaskItem Uuid Utc) (TaskItemId Uuid))
    (inject_context : (Text → Option Text) → Text → Option Text)
    (to_vec : MessageContent (TaskItem Uuid Utc) → Result X (List ℕ)) (pubsub : PubSub V X M H)
    (redis : Redis V X) (codec : Codec (TaskItemId Uuid) X) (key : Text) where
  -- On the Google Cloud provider, after a subscription that succeeded on an answer with tasks, the
  -- next read of the key that succeeds returns the identifier of a task of the answer that no task of
  -- the answer is later than. Redis keeps what is set, borsh reads back what it has written, and the
  -- sort orders by time stamps.
  pub subscribe_on_gcp :
      (stores : Stores redis pubsub) (codes_back : RoundTrips codec) (at_most : Utc → Utc → Type 0)
      (reflexive : (t : Utc) → at_most t t)
      (sorts : Sorts (λ (a b : TaskItem Uuid Utc). at_most a.timestamp b.timestamp) sort)
      (s : Subscriber (Publisher.State V)) (t : TaskItem Uuid Utc)
      (answer : GetTasksResult Uuid Utc) (l o : Option (TaskItemId Uuid)) (w : Publisher.State V)
      → let queue = gcp_publisher inject_context to_vec pubsub q redis codec key in
        queue.peek_last s.world ≡ (ok l, w)
        → (fetch http urls hyphenated unit_to_vec read_tasks read_error client sort q queue l
            (record s { world = w })).0
          ≡ ok answer
        → In t answer.tasks
        → let (r, s') =
            subscribe http urls hyphenated unit_to_vec read_tasks read_error client sort q queue
              s in
          r ≡ ok tt
          → (queue.peek_last s'.world).0 ≡ ok o
          → (m : TaskItem Uuid Utc) × In m answer.tasks
            × (o ≡ some (q.id m))
            × ((x : TaskItem Uuid Utc) → In x answer.tasks → at_most x.timestamp m.timestamp)
  subscribe_on_gcp stores codes_back =
      subscribe_remembers_latest http urls hyphenated unit_to_vec read_tasks read_error client sort
        q (gcp_publisher inject_context to_vec pubsub q redis codec key)
        (gcp_publisher-RemembersLast inject_context to_vec pubsub q redis codec key stores
          codes_back)
