-- ===== src/AmplifierApi/Types/Queue.antt =====
-- crates/amplifier-api/src/types.rs: the identifiers of events and tasks in a queue, the two
-- implementations of `QueueMsgId`. The text of a UUID is a parameter.
use axelar_relayer_core.Base.{Text}
use axelar_relayer_core.Infrastructure.Interfaces.{QueueMsgId}
use axelar_relayer_core.AmplifierApi.Types.{
  TxEvent, TaskItemId, Event, gas_credit, gas_refunded, call, message_approved, message_executed,
  cannot_execute_message_v2, signers_rotated, TaskItem,
}

-- `<Event as QueueMsgId>::id`.
unfoldable pub event_id : {Uuid Utc : Type 0} → Event Uuid Utc → TxEvent
event_id (gas_credit event) = event.base.event_id
event_id (gas_refunded event) = event.base.event_id
event_id (call event) = event.base.event_id
event_id (message_approved event) = event.base.event_id
event_id (message_executed event) = event.base.event_id
event_id (cannot_execute_message_v2 event) = event.base.event_id
event_id (signers_rotated event) = event.base.event_id

abbrev pub event_queue_id : {Uuid Utc : Type 0} → QueueMsgId (Event Uuid Utc) TxEvent
event_queue_id = record { id = event_id; to_string = λ i. i.text }

-- `<TaskItem as QueueMsgId>::id`.
abbrev pub task_queue_id :
    {Uuid Utc : Type 0} → (Uuid → Text) → QueueMsgId (TaskItem Uuid Utc) (TaskItemId Uuid)
task_queue_id uuid_text = record { id = λ t. t.id; to_string = λ i. uuid_text i.uuid }
