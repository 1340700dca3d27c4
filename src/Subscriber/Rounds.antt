-- ===== src/Subscriber/Rounds.antt =====
-- The ticks of the worker in crates/amplifier-subscriber/src/main.rs: subscriptions one after another,
-- whatever their results, with what happens to the world between them.
pub mod Newest
pub mod Complete
pub mod OnGcp
mod Sample
mod Tests
use axelar_relayer_core.Base.{
  ℕ, ◌≡◌, Option, none, some, List, [], ◌∷◌, ◌++◌, In, map, Result, ok, Text,
}
use axelar_relayer_core.Infrastructure.Interfaces.{PublishMessage, QueueMsgId, PeekablePublisher}
use axelar_relayer_core.AmplifierApi.Types.{TaskItem, TaskItemId, GetTasksResult, ErrorResponse}
use axelar_relayer_core.AmplifierApi.Requests.{Urls}
use axelar_relayer_core.AmplifierApi.Client.{Http, AmplifierApiClient}
use axelar_relayer_core.Subscriber.{Subscriber, subscribe}

module _ {W E U X Q B P Uuid Utc Return : Type 0} (http : Http W U X Q B P) (urls : Urls U X)
    (hyphenated : Uuid → Text) (to_vec : Unit {0} → Result X (List ℕ))
    (read_tasks : List ℕ → Result X (GetTasksResult Uuid Utc))
    (read_error : List ℕ → Result X ErrorResponse) (client : AmplifierApiClient U)
    (sort : List (TaskItem Uuid Utc) → List (TaskItem Uuid Utc))
    (q : QueueMsgId (TaskItem Uuid Utc) (TaskItemId Uuid))
    (publisher : PeekablePublisher W E (TaskItem Uuid Utc) (TaskItemId Uuid) Return)
    (Env : W → W → Type 0) where
  -- Subscriptions, with what the rest of the world does between them.
  pub data Rounds (u : Subscriber W) : Subscriber W → Type 0 where
    here : Rounds u u
    tick :
        {v w : Subscriber W}
        → Rounds u v
        → w
          ≡ (subscribe http urls hyphenated to_vec read_tasks read_error client sort q publisher
              v).1
        → Rounds u w
    meanwhile :
        {v w : Subscriber W} (world : W)
        → Rounds u v
        → Env v.world world
        → w ≡ record v { world = world }
        → Rounds u w
