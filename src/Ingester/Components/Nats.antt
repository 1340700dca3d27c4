-- ===== src/Ingester/Components/Nats.antt =====
-- crates/amplifier-ingester/src/components/nats.rs, with the names of crates/bin-util/src/nats.rs.
use axelar_relayer_core.Base.{not, List, Text, codes, Result, Eff, ◌>>=◌, pure}
use axelar_relayer_core.AmplifierApi.Client.{AmplifierApiClient}
use axelar_relayer_core.AmplifierApi.Config.{certificate, ClientSettings, amplifier_api_client_new}
use axelar_relayer_core.BinUtil.Config.{ConfigCrate, Loadable, try_deserialize, ensure, is_empty}
use axelar_relayer_core.Infrastructure.Nats.Defs.{NatsError}
use axelar_relayer_core.Infrastructure.Nats.Connectors.{AsyncNats, StreamArgs, connect_consumer}
use axelar_relayer_core.Setup.{
  SetupError, config_failed, connect_failed, tls_not_set, client_failed, step, settled, ok_or,
}
use axelar_relayer_core.Ingester.Components.{IngesterConfig, validate, NewIngester, ingester_new}

-- `NatsConfig`, the one field of `NatsSectionConfig`.
pub record NatsConfig (U : Type 0) : Type 0 where
  pub urls : List U

-- `<NatsSectionConfig as ValidateConfig>::validate`.
unfoldable pub validate_section : {U : Type 0} → NatsConfig U → Result Text (Unit {0})
validate_section nats =
    ensure (not (is_empty nats.urls)) (codes "nats urls should have at least one connection")

abbrev pub events_stream : StreamArgs
events_stream = record {
  name = codes "AMPLIFIER_EVENTS";
  subject = codes "amplifier.event.new";
  description = codes "amplifier events for amplifier ingester to include in axelar network";
}

module _ {W X Raw I U O C J S N V L M : Type 0} (config : ConfigCrate W X Raw)
    (read_config : Raw → Result X (IngesterConfig I U O))
    (read_section : Raw → Result X (NatsConfig U)) (async_nats : AsyncNats W X U C J S N V)
    (build : ClientSettings I L → Result X M) where
  -- `amplifier_client`.
  unfoldable pub amplifier_client :
      IngesterConfig I U O → Eff W (SetupError (NatsError X) X) (M × AmplifierApiClient U)
  amplifier_client cfg = do
    identity ← ok_or cfg.amplifier.identity tls_not_set
    settled client_failed (amplifier_api_client_new build cfg.amplifier.url (certificate identity))

  abbrev pub config_type : Loadable X Raw (IngesterConfig I U O)
  config_type = record { try_deserialize = read_config; validate = validate }

  abbrev pub section_type : Loadable X Raw (NatsConfig U)
  section_type = record { try_deserialize = read_section; validate = validate_section }

  -- `new_amplifier_ingester`.
  unfoldable pub new_amplifier_ingester :
      Text → Eff W (SetupError (NatsError X) X) (NewIngester M U N)
  new_amplifier_ingester config_path = do
    cfg ← step config_failed (try_deserialize config config_type config_path)
    infra ← step config_failed (try_deserialize config section_type config_path)
    client ← amplifier_client cfg
    event_queue_consumer ← step connect_failed (
        connect_consumer async_nats infra.urls events_stream
          (codes "amplifier ingesters consume group for amplifier events")
          (codes "amplifier-ingesters"))
    pure (ingester_new client event_queue_consumer cfg.concurrent_queue_items cfg.amplifier.chain)
