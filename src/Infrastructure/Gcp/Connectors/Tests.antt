-- ===== src/Infrastructure/Gcp/Connectors/Tests.antt =====
-- Connecting a consumer to the services of the sample.
use axelar_relayer_core.Base.{none, codes}
use axelar_relayer_core.Base.Int.{pos}
use axelar_relayer_core.Infrastructure.Gcp.Connectors.{GcpConsumerConfig}

abbrev consumer_config : GcpConsumerConfig
consumer_config = record {
  redis_connection = codes "redis://redis:6379";
  ack_deadline_secs = pos 10;
  channel_capacity = none;
  worker_count = 5;
}
