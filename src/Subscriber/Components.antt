-- ===== src/Subscriber/Components.antt =====
-- crates/amplifier-subscriber/src/config.rs and components/: how a subscriber is set up. `Gcp` is
-- components/gcp.rs and `Nats` components/nats.rs.
pub mod Gcp
pub mod Nats
use axelar_relayer_core.Base.{ℕ, not, Option, Text, codes, Result}
use axelar_relayer_core.AmplifierApi.Client.{AmplifierApiClient}
use axelar_relayer_core.AmplifierApi.Config
use axelar_relayer_core.BinUtil.Config.{ensure, is_empty, trim}

-- `Config`, for identities `I`, URLs `U` and configurations `O` of telemetry; durations are
-- milliseconds.
pub record SubscriberConfig (I U O : Type 0) : Type 0 where
  pub amplifier : Config.Config I U
  pub tickrate : ℕ
  pub telemetry : Option O
  pub max_errors : ℕ
  pub limit_per_request : ℕ

-- `<Config as ValidateConfig>::validate`.
unfoldable pub validate : {I U O : Type 0} → SubscriberConfig I U O → Result Text (Unit {0})
validate config =
    ensure (not (is_empty (trim config.amplifier.chain))) (codes "chain could not be empty")

-- `Subscriber::new`: the HTTP client, the client of the API, the publisher, the limit and the chain.
pub record NewSubscriber (N U Q : Type 0) : Type 0 where
  pub inner : N
  pub ampf_client : AmplifierApiClient U
  pub task_queue_publisher : Q
  pub limit_items : ℕ
  pub chain : Text

unfoldable pub subscriber_new :
    {N U Q : Type 0} → N × AmplifierApiClient U → Q → ℕ → Text → NewSubscriber N U Q
subscriber_new (inner, client) publisher limit_items chain = record {
  inner = inner;
  ampf_client = client;
  task_queue_publisher = publisher;
  limit_items = limit_items;
  chain = chain;
}
