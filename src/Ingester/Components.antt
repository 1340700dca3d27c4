-- ===== src/Ingester/Components.antt =====
-- crates/amplifier-ingester/src/config.rs and components/: how an ingester is set up. `Gcp` is
-- components/gcp.rs and `Nats` components/nats.rs.
pub mod Gcp
pub mod Nats
pub mod Checks
pub mod Outcomes
pub mod Dials
mod Tests
use axelar_relayer_core.Base.{ℕ, not, Option, Text, codes, Result}
use axelar_relayer_core.AmplifierApi.Client.{AmplifierApiClient}
use axelar_relayer_core.AmplifierApi.Config
use axelar_relayer_core.BinUtil.Config.{ensure, is_empty, trim}

-- `Config`, for configurations `A` of the API and `O` of telemetry; durations are milliseconds.
pub record IngesterConfig (I U O : Type 0) : Type 0 where
  pub amplifier : Config.Config I U
  pub tickrate : ℕ
  pub telemetry : Option O
  pub max_errors : ℕ
  pub concurrent_queue_items : ℕ

-- `<Config as ValidateConfig>::validate`.
unfoldable pub validate : {I U O : Type 0} → IngesterConfig I U O → Result Text (Unit {0})
validate config =
    ensure (not (is_empty (trim config.amplifier.chain))) (codes "chain could not be empty")

-- `Ingester::new`: the HTTP client, the client of the API, the consumer, the limit and the chain.
pub record NewIngester (N U Q : Type 0) : Type 0 where
  pub inner : N
  pub ampf_client : AmplifierApiClient U
  pub event_queue_consumer : Q
  pub concurrent_queue_items : ℕ
  pub chain : Text

unfoldable pub ingester_new :
    {N U Q : Type 0} → N × AmplifierApiClient U → Q → ℕ → Text → NewIngester N U Q
ingester_new (inner, client) consumer concurrent_queue_items chain = record {
  inner = inner;
  ampf_client = client;
  event_queue_consumer = consumer;
  concurrent_queue_items = concurrent_queue_items;
  chain = chain;
}
