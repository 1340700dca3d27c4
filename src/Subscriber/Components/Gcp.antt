-- ===== src/Subscriber/Components/Gcp.antt =====
-- crates/amplifier-subscriber/src/components/gcp.rs.
use axelar_relayer_core.Base.{ℕ, not, List, Text, codes, Result, Eff, ◌>>=◌, pure}
use axelar_relayer_core.Base.Int.{ℤ}
use axelar_relayer_core.AmplifierApi.Client.{AmplifierApiClient}
use axelar_relayer_core.AmplifierApi.Config.{
  custom_provider, ClientSettings, amplifier_api_client_new,
}
use axelar_relayer_core.BinUtil.Config.{
  ConfigCrate, Loadable, try_deserialize, ensure, ◌and_also◌, is_empty,
}
use axelar_relayer_core.Infrastructure.Gcp.Defs.{GcpError}
use axelar_relayer_core.Infrastructure.Gcp.Connectors.{
  Provider, PeekableGcpPublisher, connect_peekable_publisher, Kms, kms_tls_client_config,
}
use axelar_relayer_core.Setup.{
  SetupError, config_failed, connect_failed, kms_failed, tls_not_set, client_failed, step, settled,
  ok_or, is_positive,
}
use axelar_relayer_core.Subscriber.Components.{
  SubscriberConfig, validate, NewSubscriber, subscriber_new,
}

-- `GcpConfig`, and `GcpSectionConfig` for keys `G` of KMS.
pub record GcpConfig : Type 0 where
  pub redis_connection : Text
  pub tasks_topic : Text
  pub nak_deadline_secs : ℤ
  pub worker_count : ℕ
  pub max_bundle_size : ℕ

pub record GcpSectionConfig (G : Type 0) : Type 0 where
  pub gcp : GcpConfig
  pub kms : G

-- `TASK_KEY`.
abbrev pub task_key : Text
task_key = codes "last-task"

-- `<GcpSectionConfig as ValidateConfig>::validate`.
unfoldable pub validate_section :
    {G : Type 0} → (G → Result Text (Unit {0})) → GcpSectionConfig G → Result Text (Unit {0})
validate_section kms_validate infra =
    kms_validate infra.kms
    and_also ensure (not (is_empty infra.gcp.redis_connection))
        (codes "gcp redis_connection should be set")
    and_also ensure (not (is_empty infra.gcp.tasks_topic)) (codes "gcp tasks_topic should be set")
    and_also ensure (is_positive infra.gcp.nak_deadline_secs)
        (codes "gcp nak_deadline_secs should be positive set")

module _ {W X Raw I U O G A C T S P R K H A' C' P' D B L N : Type 0} (config : ConfigCrate W X Raw)
    (read_config : Raw → Result X (SubscriberConfig I U O))
    (read_section : Raw → Result X (GcpSectionConfig G)) (kms_validate : G → Result Text (Unit {0}))
    (provider : Provider W X A C T S P R K H) (cloud : Kms W X A' C' G P' D B L)
    (into_bytes : Text → List ℕ) (build : ClientSettings I L → Result X N) where
  -- `amplifier_client`.
  unfoldable pub amplifier_client :
      SubscriberConfig I U O
      → GcpSectionConfig G
      → Eff W (SetupError (GcpError X) X) (N × AmplifierApiClient U)
  amplifier_client cfg infra = do
    public_certificate ← ok_or cfg.amplifier.tls_public_certificate tls_not_set
    client_config ←
        step kms_failed (kms_tls_client_config cloud (into_bytes public_certificate) infra.kms)
    settled client_failed
        (amplifier_api_client_new build cfg.amplifier.url (custom_provider client_config))

  -- `new_amplifier_subscriber`.
  unfoldable pub new_amplifier_subscriber :
      Text → Eff W (SetupError (GcpError X) X) (NewSubscriber N U (PeekableGcpPublisher P R))
  new_amplifier_subscriber config_path =
      let config_type : Loadable X Raw (SubscriberConfig I U O) = record {
        try_deserialize = read_config;
        validate = validate;
      } in
      let section_type : Loadable X Raw (GcpSectionConfig G) = record {
        try_deserialize = read_section;
        validate = validate_section kms_validate;
      } in
      do
        cfg ← step config_failed (try_deserialize config config_type config_path)
        infra ← step config_failed (try_deserialize config section_type config_path)
        publisher ← step connect_failed (
            connect_peekable_publisher provider infra.gcp.tasks_topic infra.gcp.redis_connection
              task_key infra.gcp.worker_count infra.gcp.max_bundle_size)
        client ← amplifier_client cfg infra
        pure (subscriber_new client publisher cfg.limit_per_request cfg.amplifier.chain)
