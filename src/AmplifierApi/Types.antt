-- ===== src/AmplifierApi/Types.antt =====
-- crates/amplifier-api/src/types.rs: the messages of the Amplifier API. Strings are texts, byte
-- vectors lists of numbers. A UUID and a time stamp (chrono) are of the parameter types `Uuid` and
-- `Utc`; amounts are the integers of big_int.rs.
pub mod Queue
use axelar_relayer_core.Base.{ℕ, Bool, List, Option, Text}
use axelar_relayer_core.Base.Int.{ℤ}

abbrev pub Address : Type 0
Address = Text

pub record TxId : Type 0 where
  pub text : Text

pub record TokenId : Type 0 where
  pub text : Text

pub record TxEvent : Type 0 where
  pub text : Text

pub record TaskItemId (Uuid : Type 0) : Type 0 where
  pub uuid : Uuid

pub record CommandId : Type 0 where
  pub text : Text

pub record RequestId : Type 0 where
  pub text : Text

abbrev pub MessageId : Type 0
MessageId = TxEvent

abbrev pub EventId : Type 0
EventId = TxEvent

pub data CannotExecuteMessageReason : Type 0 where
  insufficient_gas error : CannotExecuteMessageReason

pub data MessageExecutionStatus : Type 0 where
  successful reverted : MessageExecutionStatus

pub record EventMetadata (Utc Extra : Type 0) : Type 0 where
  pub tx_id : Option TxId
  pub timestamp : Option Utc
  pub from_address : Option Address
  pub finalized : Option Bool
  pub extra : Extra

pub record CallEventMetadata : Type 0 where
  pub parent_message_id : Option MessageId

pub record MessageApprovedEventMetadata : Type 0 where
  pub command_id : Option CommandId

pub record MessageExecutedEventMetadata : Type 0 where
  pub command_id : Option CommandId
  pub child_message_ids : Option (List MessageId)

pub record CannotExecuteMessageEventV2Metadata (Uuid Utc : Type 0) : Type 0 where
  pub from_address : Option Address
  pub timestamp : Option Utc
  pub task_item_id : TaskItemId Uuid

pub record SignersRotatedMetadata : Type 0 where
  pub signer_hash : List ℕ
  pub epoch : ℕ

pub record Token : Type 0 where
  pub token_id : Option TokenId
  pub amount : ℤ

pub record GatewayV2Message : Type 0 where
  pub message_id : MessageId
  pub source_chain : Text
  pub source_address : Address
  pub destination_address : Address
  pub payload_hash : List ℕ

pub record EventBase (Utc Extra : Type 0) : Type 0 where
  pub event_id : EventId
  pub meta : Option (EventMetadata Utc Extra)

pub record GasCreditEvent (Utc : Type 0) : Type 0 where
  pub base : EventBase Utc (Unit {0})
  pub message_id : MessageId
  pub refund_address : Address
  pub payment : Token

pub record GasRefundedEvent (Utc : Type 0) : Type 0 where
  pub base : EventBase Utc (Unit {0})
  pub message_id : MessageId
  pub recipient_address : Address
  pub refunded_amount : Token
  pub cost : Token

pub record CallEvent (Utc : Type 0) : Type 0 where
  pub base : EventBase Utc CallEventMetadata
  pub message : GatewayV2Message
  pub destination_chain : Text
  pub payload : List ℕ

pub record MessageApprovedEvent (Utc : Type 0) : Type 0 where
  pub base : EventBase Utc MessageApprovedEventMetadata
  pub message : GatewayV2Message
  pub cost : Token

pub record SignersRotatedEvent (Utc : Type 0) : Type 0 where
  pub base : EventBase Utc SignersRotatedMetadata
  pub cost : Token

pub record MessageExecutedEvent (Utc : Type 0) : Type 0 where
  pub base : EventBase Utc MessageExecutedEventMetadata
  pub message_id : MessageId
  pub source_chain : Text
  pub status : MessageExecutionStatus
  pub cost : Token

pub record CannotExecuteMessageEventV2 (Uuid Utc : Type 0) : Type 0 where
  pub base : EventBase Utc (CannotExecuteMessageEventV2Metadata Uuid Utc)
  pub message_id : MessageId
  pub source_chain : Text
  pub reason : CannotExecuteMessageReason
  pub details : Text

pub data Event (Uuid Utc : Type 0) : Type 0 where
  gas_credit : GasCreditEvent Utc → Event Uuid Utc
  gas_refunded : GasRefundedEvent Utc → Event Uuid Utc
  call : CallEvent Utc → Event Uuid Utc
  message_approved : MessageApprovedEvent Utc → Event Uuid Utc
  message_executed : MessageExecutedEvent Utc → Event Uuid Utc
  cannot_execute_message_v2 : CannotExecuteMessageEventV2 Uuid Utc → Event Uuid Utc
  signers_rotated : SignersRotatedEvent Utc → Event Uuid Utc

pub record PublishEventsRequest (Uuid Utc : Type 0) : Type 0 where
  pub events : List (Event Uuid Utc)

pub record PublishEventResultItemBase : Type 0 where
  pub index : ℕ

pub record PublishEventAcceptedResult : Type 0 where
  pub base : PublishEventResultItemBase

pub record PublishEventErrorResult : Type 0 where
  pub base : PublishEventResultItemBase
  pub error : Text
  pub retriable : Bool

pub data PublishEventResultItem : Type 0 where
  accepted_item : PublishEventAcceptedResult → PublishEventResultItem
  error_item : PublishEventErrorResult → PublishEventResultItem

pub record PublishEventsResult : Type 0 where
  pub results : List PublishEventResultItem

pub record VerifyTask : Type 0 where
  pub message : GatewayV2Message
  pub payload : List ℕ

pub record ConstructProofTask : Type 0 where
  pub message : GatewayV2Message
  pub payload : List ℕ

pub record GatewayTransactionTask : Type 0 where
  pub execute_data : List ℕ

pub record ExecuteTask : Type 0 where
  pub message : GatewayV2Message
  pub payload : List ℕ
  pub available_gas_balance : Token

pub record RefundTask : Type 0 where
  pub message : GatewayV2Message
  pub refund_recipient_address : Address
  pub remaining_gas_balance : Token

pub data Task : Type 0 where
  construct_proof : ConstructProofTask → Task
  verify : VerifyTask → Task
  gateway_tx : GatewayTransactionTask → Task
  execute : ExecuteTask → Task
  refund : RefundTask → Task

pub record TaskItem (Uuid Utc : Type 0) : Type 0 where
  pub id : TaskItemId Uuid
  pub timestamp : Utc
  pub task : Task

pub record GetTasksResult (Uuid Utc : Type 0) : Type 0 where
  pub tasks : List (TaskItem Uuid Utc)

pub record ErrorResponse : Type 0 where
  pub error : Text
  pub request_id : Option RequestId
