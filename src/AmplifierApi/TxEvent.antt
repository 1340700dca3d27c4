-- ===== src/AmplifierApi/TxEvent.antt =====
-- crates/amplifier-api/src/types.rs: construction and parsing of `TxEvent`. The log index is a
-- `usize` of 64 bits; the text of a UUID is a parameter.
pub mod Parse
use axelar_relayer_core.Base.{
  ℕ, ◌^◌, Option, none, some, List, [], ◌∷◌, ◌++◌, Text, codes, Result, ok, err, if◌then◌else◌, ltb,
  ◌==◌,
}
use axelar_relayer_core.Base.Decimal.{decimal, parse_digits}
use axelar_relayer_core.AmplifierApi.Types.{TxEvent, TaskItemId}

pub data TxEventParseError : Type 0 where
  separator_not_found log_index_not_number : TxEventParseError

abbrev pub dash : ℕ
dash = b'-'

-- `TxEvent::new`.
unfoldable pub new : Text → ℕ → TxEvent
new tx_hash log_index = record { text = tx_hash ++ dash ∷ decimal log_index }

-- `str::rsplit_once`: at the last occurrence.
unfoldable pub rsplit_once : ℕ → Text → Option (Text × Text)
rsplit_once c [] = none
rsplit_once c (x ∷ xs) = elim (rsplit_once c xs) [
  | some (before, after) ↦ some (x ∷ before, after)
  | none ↦ if x == c then some ([], xs) else none
]

-- `str::parse::<usize>`: an optional `+`, digits, and a value in range.
abbrev pub strip_plus : Text → Text
strip_plus [] = []
strip_plus (c ∷ cs) = if c == b'+' then cs else c ∷ cs

unfoldable pub parse_usize : Text → Option ℕ
parse_usize t = elim (parse_digits (strip_plus t)) [
  | none ↦ none
  | some n ↦ if ltb n (2 ^ 64) then some n else none
]

-- `TxEvent::hash_and_index`.
unfoldable pub hash_and_index : TxEvent → Result TxEventParseError (Text × ℕ)
hash_and_index e = elim (rsplit_once dash e.text) [
  | none ↦ err separator_not_found
  | some (tx_hash, log_index_str) ↦ elim (parse_usize log_index_str) [
    | none ↦ err log_index_not_number
    | some log_index ↦ ok (tx_hash, log_index)
  ]
]

-- `TxEvent::cannot_execute_task_event_id` and `TxEvent::tx_reverted_event_id`.
unfoldable pub cannot_execute_task_event_id :
    {Uuid : Type 0} → (Uuid → Text) → TaskItemId Uuid → TxEvent
cannot_execute_task_event_id uuid_text task_item_id = record {
  text = codes "cannot-execute-task-v2-" ++ uuid_text task_item_id.uuid;
}

unfoldable pub tx_reverted_event_id : Text → TxEvent
tx_reverted_event_id tx_hash = record { text = codes "tx-reverted-" ++ tx_hash }
