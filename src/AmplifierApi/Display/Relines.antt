-- ===== src/AmplifierApi/Display/Relines.antt =====
-- What the texts of events show of them.
use axelar_relayer_core.Base.{ℕ, ◌≡◌, refl, some, List, [], ◌∷◌, Text}
use axelar_relayer_core.AmplifierApi.Lines.{
  newline, writeln, EndsLine, writeln-EndsLine, NoReturn, writelns-lines,
}
use axelar_relayer_core.AmplifierApi.Types.{
  EventMetadata, EventId, EventBase, Event, gas_credit, gas_refunded, call, message_approved,
  message_executed, cannot_execute_message_v2, signers_rotated,
}
use axelar_relayer_core.AmplifierApi.Types.Queue.{event_id}
use axelar_relayer_core.AmplifierApi.Display.{
  metadata_text, base_text, gas_credit_text, gas_refunded_text, call_text, message_approved_text,
  message_executed_text, signers_rotated_text, cannot_execute_text, inner_text, event_text,
}

writeln-ends : (t : Text) → EndsLine (writeln t)
writeln-ends t = writeln-EndsLine t (newline ∷ []) refl

-- The event has metadata.
abbrev pub HasMeta : {Utc Extra : Type 0} → EventBase Utc Extra → Type 0
HasMeta {Utc} {Extra} b = (m : EventMetadata Utc Extra) × (b.meta ≡ some m)

abbrev pub rename : {Utc Extra : Type 0} → EventId → EventBase Utc Extra → EventBase Utc Extra
rename i b = record b { event_id = i }

module _ {Uuid Utc : Type 0} where
  abbrev pub EventHasMeta : Event Uuid Utc → Type 0
  EventHasMeta (gas_credit e) = HasMeta e.base
  EventHasMeta (gas_refunded e) = HasMeta e.base
  EventHasMeta (call e) = HasMeta e.base
  EventHasMeta (message_approved e) = HasMeta e.base
  EventHasMeta (message_executed e) = HasMeta e.base
  EventHasMeta (cannot_execute_message_v2 e) = HasMeta e.base
  EventHasMeta (signers_rotated e) = HasMeta e.base

  -- The event under another identifier.
  abbrev pub with_id : EventId → Event Uuid Utc → Event Uuid Utc
  with_id i (gas_credit e) = gas_credit (record e { base = rename i e.base })
  with_id i (gas_refunded e) = gas_refunded (record e { base = rename i e.base })
  with_id i (call e) = call (record e { base = rename i e.base })
  with_id i (message_approved e) = message_approved (record e { base = rename i e.base })
  with_id i (message_executed e) = message_executed (record e { base = rename i e.base })
  with_id i (cannot_execute_message_v2 e) =
      cannot_execute_message_v2 (record e { base = rename i e.base })
  with_id i (signers_rotated e) = signers_rotated (record e { base = rename i e.base })

module _ {Utc : Type 0} (utc : Utc → Text) (hex : List ℕ → Text) where
  base_text-rename :
      {Extra : Type 0} (i : EventId) (b : EventBase Utc Extra)
      → HasMeta b
      → base_text utc hex (rename i b) ≡ base_text utc hex b
  unfolding base_text metadata_text
  base_text-rename i b (m, e) = rw (e, base_text) refl

module _ {Uuid Utc : Type 0} (utc : Utc → Text) (hex : List ℕ → Text) where
  -- An event with metadata prints the same under every identifier: its text does not tell which event
  -- it is.
  pub event_text-with_id :
      (i : EventId) (e : Event Uuid Utc)
      → EventHasMeta e
      → (event_text utc hex (with_id i e) ≡ event_text utc hex e) × (event_id (with_id i e) ≡ i)
  unfolding event_text event_id gas_credit_text gas_refunded_text call_text message_approved_text
      message_executed_text signers_rotated_text cannot_execute_text
  event_text-with_id i (gas_credit e) h = (rw (base_text-rename utc hex i e.base h) refl, refl)
  event_text-with_id i (gas_refunded e) h = (rw (base_text-rename utc hex i e.base h) refl, refl)
  event_text-with_id i (call e) h = (rw (base_text-rename utc hex i e.base h) refl, refl)
  event_text-with_id i (message_approved e) h =
      (rw (base_text-rename utc hex i e.base h) refl, refl)
  event_text-with_id i (message_executed e) h =
      (rw (base_text-rename utc hex i e.base h) refl, refl)
  event_text-with_id i (cannot_execute_message_v2 e) h =
      (rw (base_text-rename utc hex i e.base h) refl, refl)
  event_text-with_id i (signers_rotated e) h = (rw (base_text-rename utc hex i e.base h) refl, refl)

  inner_text-EndsLine : (e : Event Uuid Utc) → EndsLine (inner_text utc hex e)
  unfolding gas_credit_text gas_refunded_text call_text message_approved_text message_executed_text
      signers_rotated_text cannot_execute_text
  inner_text-EndsLine (gas_credit e) = search (writeln-EndsLine, writeln-ends) depth 8
  inner_text-EndsLine (gas_refunded e) = search (writeln-EndsLine, writeln-ends) depth 8
  inner_text-EndsLine (call e) = search (writeln-EndsLine, writeln-ends) depth 8
  inner_text-EndsLine (message_approved e) = search (writeln-EndsLine, writeln-ends) depth 8
  inner_text-EndsLine (message_executed e) = search (writeln-EndsLine, writeln-ends) depth 8
  inner_text-EndsLine (cannot_execute_message_v2 e) =
      search (writeln-EndsLine, writeln-ends) depth 8
  inner_text-EndsLine (signers_rotated e) = search (writeln-EndsLine, writeln-ends) depth 8

  -- An event prints as the event within it, if that text holds no carriage return.
  pub event_text-inner :
      (e : Event Uuid Utc)
      → NoReturn (inner_text utc hex e)
      → event_text utc hex e ≡ inner_text utc hex e
  unfolding event_text
  event_text-inner e h = writelns-lines (inner_text utc hex e) (inner_text-EndsLine e) h
