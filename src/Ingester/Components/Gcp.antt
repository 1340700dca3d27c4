-- ===== src/Ingester/Components/Gcp.antt =====
-- crates/amplifier-ingester/src/components/gcp.rs.
use axelar_relayer_core.Base.{ℕ, not, Option, List, Text, codes, Result, Eff, ◌>>=◌, pure}
use axelar_relayer_core.Base.Int.{ℤ}
use axelar_relayer_core.AmplifierApi.Client.{AmplifierApiClient}
use axelar_relayer_core.AmplifierApi.Config.{
  custom_provider, ClientSettings, amplifier_api_client_new,
}
use axelar_relayer_core.BinUtil.Config.{
  ConfigCrate, Loadable, try_deserialize, ensure, ◌and_also◌, is_empty,
}
use axelar_relayer_core.Infrastructure.Gcp.Defs.{GcpError}
use axelar_relayer_core.Infrastructure.Gcp.Connectors.{
  Provider, GcpConsumerConfig, GcpConsumer, connect_consumer, drop_consumer, Kms,
  kms_tls_client_config,
}
use axelar_relayer_core.Setup.{
  SetupError, config_failed, connect_failed, kms_failed, tls_not_set, client_failed, step, dropping,
  settled, ok_or, is_positive,
}
use axelar_relayer_core.Ingester.Components.{IngesterConfig, validate, NewIngester, ingester_new}

-- `GcpConfig`, the one field of `GcpSectionConfig`, for keys `G` of KMS.
pub record GcpConfig (G : Type 0) : Type 0 where
  pub kms : G
  pub redis_connection : Text
  pub events_subscription : Text
  pub ack_deadline_secs : ℤ
  pub channel_capacity : Option ℕ
  pub worker_count : ℕ

-- `<GcpSectionConfig as ValidateConfig>::validate`.
unfoldable pub validate_section :
    {G : Type 0} → (G → Result Text (Unit {0})) → GcpConfig G → Result Text (Unit {0})
validate_section kms_validate gcp =
    kms_validate gcp.kms
    and_also ensure (not (is_empty gcp.redis_connection))
        (codes "gcp redis_connection should be set")
    and_also ensure (not (is_empty gcp.events_subscription))
        (codes "gcp events_subscription should be set")
    and_also ensure (is_positive gcp.ack_deadline_secs)
        (codes "gcp nak_deadline_secs should be positive set")

-- `consumer_cfg`.
abbrev pub consumer_cfg : {G : Type 0} → GcpConfig G → GcpConsumerConfig
consumer_cfg gcp = record {
  redis_connection = gcp.redis_connection;
  ack_deadline_secs = gcp.ack_deadline_secs;
  channel_capacity = gcp.channel_capacity;
  worker_count = gcp.worker_count;
}

module _ {W X Raw I U O G A C T S P R K H A' C' P' D B L N : Type 0} (config : ConfigCrate W X Raw)
    (read_config : Raw → Result X (IngesterConfig I U O))
    (read_section : Raw → Result X (GcpConfig G)) (kms_validate : G → Result Text (Unit {0}))
    (provider : Provider W X A C T S P R K H) (cloud : Kms W X A' C' G P' D B L)
    (into_bytes : Text → List ℕ) (build : ClientSettings I L → Result X N) where
  -- `amplifier_client`.
  unfoldable pub amplifier_client :
      IngesterConfig I U O
      → GcpConfig G
      → Eff W (SetupError (GcpError X) X) (N × AmplifierApiClient U)
  amplifier_client cfg infra = do
    certificate ← ok_or cfg.amplifier.tls_public_certificate tls_not_set
    client_config ← step kms_failed (kms_tls_client_config cloud (into_bytes certificate) infra.kms)
    settled client_failed
        (amplifier_api_client_new build cfg.amplifier.url (custom_provider client_config))

  abbrev pub config_type : Loadable X Raw (IngesterConfig I U O)
  config_type = record { try_deserialize = read_config; validate = validate }

  abbrev pub section_type : Loadable X Raw (GcpConfig G)
  section_type = record { try_deserialize = read_section; validate = validate_section kms_validate }

  -- `new_amplifier_ingester`.
  unfoldable pub new_amplifier_ingester :
      Text → K → Eff W (SetupError (GcpError X) X) (NewIngester N U (GcpConsumer K H))
  new_amplifier_ingester config_path cancellation_token = do
    cfg ← step config_failed (try_deserialize config config_type config_path)
    infra ← step config_failed (try_deserialize config section_type config_path)
    consumer ← step connect_failed (
        connect_consumer provider infra.events_subscription (consumer_cfg infra) cancellation_token)
    client ← dropping (drop_consumer provider consumer) (amplifier_client cfg infra)
    pure (ingester_new client consumer cfg.concurrent_queue_items cfg.amplifier.chain)
