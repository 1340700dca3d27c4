-- ===== src/Subscriber/Components/Nats.antt =====
-- crates/amplifier-subscriber/src/components/nats.rs, with the names of crates/bin-util/src/nats.rs.
use axelar_relayer_core.Base.{not, List, Text, codes, Result, Eff, ◌>>=◌, pure}
use axelar_relayer_core.AmplifierApi.Client.{AmplifierApiClient}
use axelar_relayer_core.AmplifierApi.Config.{certificate, ClientSettings, amplifier_api_client_new}
use axelar_relayer_core.BinUtil.Config.{ConfigCrate, Loadable, try_deserialize, ensure, is_empty}
use axelar_relayer_core.Infrastructure.Nats.Defs.{NatsError}
use axelar_relayer_core.Infrastructure.Nats.Connectors.{
  AsyncNats, NatsPublisher, StreamArgs, connect_publisher,
}
use axelar_relayer_core.Setup.{
  SetupError, config_failed, connect_failed, tls_not_set, client_failed, step, settled, ok_or,
}
use axelar_relayer_core.Subscriber.Components.{
  SubscriberConfig, validate, NewSubscriber, subscriber_new,
}

-- `NatsConfig`, the one field of `NatsSectionConfig`.
pub record NatsConfig (U : Type 0) : Type 0 where
  pub urls : List U

-- `<NatsSectionConfig as ValidateConfig>::validate`.
unfoldable pub validate_section : {U : Type 0} → NatsConfig U → Result Text (Unit {0})
validate_section nats =
    ensure (not (is_empty nats.urls)) (codes "nats urls should have at least one connection")

abbrev pub tasks_stream : StreamArgs
tasks_stream = record {
  name = codes "AMPLIFIER_TASKS";
  subject = codes "amplifier.tasks.new";
  description = codes "amplifier tasks for blockchain ingester";
}

module _ {W X Raw I U O C J S N V L M : Type 0} (config : ConfigCrate W X Raw)
    (read_config : Raw → Result X (SubscriberConfig I U O))
    (read_section : Raw → Result X (NatsConfig U)) (async_nats : AsyncNats W X U C J S N V)
    (build : ClientSettings I L → Result X M) where
  -- `amplifier_client`.
  unfoldable pub amplifier_client :
      SubscriberConfig I U O → Eff W (SetupError (NatsError X) X) (M × AmplifierApiClient U)
  amplifier_client cfg = do
    identity ← ok_or cfg.amplifier.identity tls_not_set
    settled client_failed (amplifier_api_client_new build cfg.amplifier.url (certificate identity))

  -- `new_amplifier_subscriber`.
  unfoldable pub new_amplifier_subscriber :
      Text → Eff W (SetupError (NatsError X) X) (NewSubscriber M U (NatsPublisher J S))
  new_amplifier_subscriber config_path =
      let config_type : Loadable X Raw (SubscriberConfig I U O) = record {
        try_deserialize = read_config;
        validate = validate;
      } in
      let section_type : Loadable X Raw (NatsConfig U) = record {
        try_deserialize = read_section;
        validate = validate_section;
      } in
      do
        cfg ← step config_failed (try_deserialize config config_type config_path)
        infra ← step config_failed (try_deserialize config section_type config_path)
        client ← amplifier_client cfg
        task_queue_publisher ←
            step connect_failed
              (connect_publisher async_nats infra.urls tasks_stream tasks_stream.subject)
        pure (subscriber_new client task_queue_publisher cfg.limit_per_request cfg.amplifier.chain)
