-- ===== src/AmplifierApi/Display/Tests.antt =====
-- The texts of a rotation of signers, whose time stamp is a number of seconds.
use axelar_relayer_core.Base.{ℕ, ◌≡◌, refl, true, none, some, List, [], ◌∷◌, Text, codes}
use axelar_relayer_core.Base.Decimal.{decimal, decimal_fuel}
use axelar_relayer_core.Base.Int.{pos}
use axelar_relayer_core.AmplifierApi.BigInt
use axelar_relayer_core.AmplifierApi.Lines.{lines}
use axelar_relayer_core.AmplifierApi.Types.{
  EventMetadata, SignersRotatedMetadata, Event, signers_rotated, TxEvent,
}
use axelar_relayer_core.AmplifierApi.Display.{
  token_text, base_text, metadata_text, signers_rotated_text, event_text,
}
use axelar_relayer_core.AmplifierApi.Types.Queue.{event_id}
use axelar_relayer_core.AmplifierApi.Display.Relines.{with_id, event_text-with_id}

abbrev utc : ℕ → Text
utc t = decimal t

abbrev hex : List ℕ → Text
hex bs = codes "00"

abbrev id_of : Text → TxEvent
id_of t = record { text = t }

abbrev meta : EventMetadata ℕ SignersRotatedMetadata
meta = record {
  tx_id = some (record { text = codes "0xab" });
  timestamp = none;
  from_address = none;
  finalized = some true;
  extra = record { signer_hash = []; epoch = 3 };
}

abbrev plain : Event ℕ ℕ
plain = signers_rotated (record {
  base = record { event_id = id_of (codes "0x1-2"); meta = none };
  cost = record { token_id = none; amount = pos 3 };
})

abbrev rotated : Event ℕ ℕ
rotated = signers_rotated (record {
  base = record { event_id = id_of (codes "0x1-2"); meta = some meta };
  cost = record { token_id = none; amount = pos 3 };
})

rotated_text :
    lines (event_text utc hex rotated)
    ≡ codes "SignersRotatedEvent"
      ∷ codes "base:   EventMetadata"
      ∷ codes "  txID: 0xab"
      ∷ codes "  finalized: true"
      ∷ codes "cost: BigInt(3) NativeToken"
      ∷ []
unfolding lines event_text signers_rotated_text base_text metadata_text token_text BigInt.to_string
    decimal decimal_fuel
rotated_text = refl

event_text-with_id_example :
    (event_text utc hex (with_id (id_of (codes "0x9-0")) rotated) ≡ event_text utc hex rotated)
    × (event_id (with_id (id_of (codes "0x9-0")) rotated) ≡ id_of (codes "0x9-0"))
event_text-with_id_example = event_text-with_id utc hex (id_of (codes "0x9-0")) rotated (meta, refl)
