-- ===== src/AmplifierApi/Display.antt =====
-- The `Display` of the events of crates/amplifier-api/src/types.rs, and of the command that carries them
-- in crates/relayer-amplifier-api-integration/src/component.rs. The texts of a time stamp (chrono)
-- and of bytes (hex) are parameters.
pub mod Relines
mod Tests
use axelar_relayer_core.Base.{
  ℕ, suc, Bool, true, false, Option, none, some, List, [], ◌∷◌, ◌++◌, map, Text, codes,
}
use axelar_relayer_core.Base.Decimal.{decimal}
use axelar_relayer_core.AmplifierApi.BigInt
use axelar_relayer_core.AmplifierApi.Lines.{newline, writeln, writelns, lines}
use axelar_relayer_core.AmplifierApi.Types.{
  TxId, Address, CannotExecuteMessageReason, insufficient_gas, error, MessageExecutionStatus,
  successful, reverted, EventMetadata, Token, GatewayV2Message, EventBase, GasCreditEvent,
  GasRefundedEvent, CallEvent, MessageApprovedEvent, SignersRotatedEvent, MessageExecutedEvent,
  CannotExecuteMessageEventV2, Event, gas_credit, gas_refunded, call, message_approved,
  message_executed, cannot_execute_message_v2, signers_rotated, PublishEventsRequest,
}

-- `writeln!(f, "<label>{}", value)`.
abbrev pub labelled : Text → Text → Text
labelled label value = writeln (label ++ value)

-- A line that is there only with its value.
abbrev pub if_some : {A : Type 0} → (A → Text) → Option A → Text
if_some line none = []
if_some line (some a) = line a

unfoldable pub reason_text : CannotExecuteMessageReason → Text
reason_text insufficient_gas = codes "insufficient gas"
reason_text error = codes "other error"

unfoldable pub status_text : MessageExecutionStatus → Text
status_text successful = codes "successful"
status_text reverted = codes "reverted"

-- The derived `Debug` of `BigInt`, and the token.
abbrev pub token_name : Token → Text
token_name t = elim t.token_id [ none ↦ codes "NativeToken" | some token_id ↦ token_id.text ]

unfoldable pub token_text : Token → Text
token_text t = codes "BigInt(" ++ (BigInt.to_string t.amount ++ (codes ") " ++ token_name t))

abbrev bool_text : Bool → Text
bool_text true = codes "true"
bool_text false = codes "false"

-- `join("\n")` of the indented lines.
abbrev pub join_indented : List Text → Text
join_indented [] = []
join_indented (l ∷ []) = codes "  " ++ l
join_indented (l ∷ m ∷ ms) = (codes "  " ++ l) ++ newline ∷ join_indented (m ∷ ms)

module _ {Utc : Type 0} (utc : Utc → Text) (hex : List ℕ → Text) where
  unfoldable pub metadata_text : {Extra : Type 0} → EventMetadata Utc Extra → Text
  metadata_text m =
      writeln (codes "EventMetadata")
      ++ (if_some (λ i. labelled (codes "txID: ") i.text) m.tx_id
          ++ (if_some (λ t. labelled (codes "timestamp: ") (utc t)) m.timestamp
              ++ (if_some (labelled (codes "fromAddress: ")) m.from_address
                  ++ if_some (λ b. labelled (codes "finalized: ") (bool_text b)) m.finalized)))

  unfoldable pub message_text : GatewayV2Message → Text
  message_text m =
      writeln (codes "GatewayV2Message")
      ++ (labelled (codes "messageID: ") m.message_id.text
          ++ (labelled (codes "sourceChain: ") m.source_chain
              ++ (labelled (codes "sourceAddress: ") m.source_address
                  ++ (labelled (codes "destinationAddress: ") m.destination_address
                      ++ labelled (codes "payloadHash: 0x") (hex m.payload_hash)))))

  abbrev pub named : {Extra : Type 0} → EventBase Utc Extra → Text
  named b = codes "eventId - " ++ b.event_id.text

  -- The metadata's text, if it is not empty.
  abbrev pub indented : Text → Text → Text
  indented name [] = name
  indented name (c ∷ cs) = join_indented (lines (c ∷ cs))

  unfoldable pub base_text : {Extra : Type 0} → EventBase Utc Extra → Text
  base_text b = elim b.meta [ none ↦ named b | some meta ↦ indented (named b) (metadata_text meta) ]

  unfoldable pub gas_credit_text : GasCreditEvent Utc → Text
  gas_credit_text e =
      writeln (codes "GasCreditEvent")
      ++ (writelns (lines (base_text e.base))
          ++ (labelled (codes "messageID: ") e.message_id.text
              ++ (labelled (codes "refundAddress: ") e.refund_address
                  ++ labelled (codes "payment: ") (token_text e.payment))))

  unfoldable pub gas_refunded_text : GasRefundedEvent Utc → Text
  gas_refunded_text e =
      writeln (codes "GasRefundedEvent")
      ++ (writelns (lines (base_text e.base))
          ++ (labelled (codes "messageID: ") e.message_id.text
              ++ (labelled (codes "recipientAddress: ") e.recipient_address
                  ++ (labelled (codes "refundedAmount: ") (token_text e.refunded_amount)
                      ++ labelled (codes "cost: ") (token_text e.cost)))))

  unfoldable pub call_text : CallEvent Utc → Text
  call_text e =
      writeln (codes "CallEvent")
      ++ (writelns (lines (base_text e.base))
          ++ (writelns (lines (message_text e.message))
              ++ labelled (codes "destinationChain: ") e.destination_chain))

  unfoldable pub message_approved_text : MessageApprovedEvent Utc → Text
  message_approved_text e =
      writeln (codes "MessageApprovedEvent")
      ++ (labelled (codes "base: ") (base_text e.base)
          ++ (writeln (codes "message:")
              ++ (writelns (lines (message_text e.message))
                  ++ labelled (codes "cost: ") (token_text e.cost))))

  unfoldable pub signers_rotated_text : SignersRotatedEvent Utc → Text
  signers_rotated_text e =
      writeln (codes "SignersRotatedEvent")
      ++ (labelled (codes "base: ") (base_text e.base)
          ++ labelled (codes "cost: ") (token_text e.cost))

  unfoldable pub message_executed_text : MessageExecutedEvent Utc → Text
  message_executed_text e =
      writeln (codes "MessageExecutedEvent")
      ++ (labelled (codes "base: ") (base_text e.base)
          ++ (labelled (codes "messageID: ") e.message_id.text
              ++ (labelled (codes "sourceChain: ") e.source_chain
                  ++ (labelled (codes "status: ") (status_text e.status)
                      ++ labelled (codes "cost: ") (token_text e.cost)))))

module _ {Uuid Utc : Type 0} (utc : Utc → Text) (hex : List ℕ → Text) where
  unfoldable pub cannot_execute_text : CannotExecuteMessageEventV2 Uuid Utc → Text
  cannot_execute_text e =
      writeln (codes "CannotExecuteMessageEventV2")
      ++ (labelled (codes "base: ") (base_text utc hex e.base)
          ++ (labelled (codes "messageID: ") e.message_id.text
              ++ (labelled (codes "sourceChain: ") e.source_chain
                  ++ (labelled (codes "reason: ") (reason_text e.reason)
                      ++ labelled (codes "details: ") e.details))))

  -- The text of the event within an `Event`.
  abbrev pub inner_text : Event Uuid Utc → Text
  inner_text (gas_credit e) = gas_credit_text utc hex e
  inner_text (gas_refunded e) = gas_refunded_text utc hex e
  inner_text (call e) = call_text utc hex e
  inner_text (message_approved e) = message_approved_text utc hex e
  inner_text (message_executed e) = message_executed_text utc hex e
  inner_text (cannot_execute_message_v2 e) = cannot_execute_text e
  inner_text (signers_rotated e) = signers_rotated_text utc hex e

  -- `Display` for `Event`: every arm prints the lines of its event.
  unfoldable pub event_text : Event Uuid Utc → Text
  event_text e = writelns (lines (inner_text e))

  abbrev pub indexed : ℕ → List (Event Uuid Utc) → Text
  indexed n [] = []
  indexed n (e ∷ es) =
      writeln (codes "[" ++ (decimal n ++ codes "]:"))
      ++ (writelns (lines (event_text e)) ++ indexed (suc n) es)

  unfoldable pub request_text : PublishEventsRequest Uuid Utc → Text
  request_text r =
      writeln (codes "PublishEventsRequest") ++ (writeln (codes "events:") ++ indexed 0 r.events)

  -- `Display` for `AmplifierCommand`, whose one command carries a request.
  unfoldable pub command_text : PublishEventsRequest Uuid Utc → Text
  command_text r =
      writeln (codes "AmplifierCommand::PublishEvents:")
      ++ (writeln (codes "  request:")
          ++ writelns (map (λ l. codes "    " ++ l) (lines (request_text r))))
