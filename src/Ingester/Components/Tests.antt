-- ===== src/Ingester/Components/Tests.antt =====
-- The set-up of an ingester for the chain "flow", on services that answer every call.
use axelar_relayer_core.Base.{ℕ, refl, none, some, List, [], ◌∷◌, Text, codes, Result, ok, err, ◌≡◌}
use axelar_relayer_core.Base.Int.{pos}
use axelar_relayer_core.Infrastructure.Gcp.Connectors.{
  reader, connect_consumer, gcp_consumer_new, connect_pubsub_client, get_subscription,
  connect_redis, drop_consumer, kms_tls_client_config,
}
use axelar_relayer_core.Infrastructure.Gcp.Connectors.Tasks.{started, cancelled}
use axelar_relayer_core.BinUtil.Config.{ConfigCrate, try_deserialize, trim, trim_end, trim_start}
use axelar_relayer_core.AmplifierApi.Config.{
  ClientSettings, amplifier_api_client_new, authenticated_client,
}
use axelar_relayer_core.Infrastructure.Gcp.Connectors.Sample.{
  World, provider, provider-Spawns, cloud,
}
use axelar_relayer_core.Infrastructure.Nats.Connectors.{AsyncNats}
use axelar_relayer_core.Ingester.Components.{IngesterConfig, validate}
use axelar_relayer_core.Ingester.Components.Gcp.{
  GcpConfig, consumer_cfg, new_amplifier_ingester, amplifier_client, validate_section,
}
use axelar_relayer_core.Ingester.Components.Nats.{NatsConfig}
use axelar_relayer_core.Ingester.Components.Nats
use axelar_relayer_core.Ingester.Components.Outcomes.{
  Apart, Outcome, new_amplifier_ingester_outcome,
}
use axelar_relayer_core.Ingester.Components.Dials.{Dials, new_amplifier_ingester_dials}
use axelar_relayer_core.Ingester.Components.Dials

abbrev flow : IngesterConfig ℕ Text ℕ
flow = record {
  amplifier = record {
    identity = some 1;
    tls_public_certificate = some (codes "-----BEGIN CERTIFICATE-----");
    url = codes "https://api/";
    chain = codes "flow";
    get_chains_limit = 25;
  };
  tickrate = 5000;
  telemetry = none;
  max_errors = 20;
  concurrent_queue_items = 50;
}

abbrev read_config : ℕ → Result ℕ (IngesterConfig ℕ Text ℕ)
read_config raw = ok flow

abbrev build : ClientSettings ℕ ℕ → Result ℕ ℕ
build settings = ok settings.keep_alive_secs

abbrev section : GcpConfig ℕ
section = record {
  kms = 7;
  redis_connection = codes "redis://redis:6379";
  events_subscription = codes "events";
  ack_deadline_secs = pos 10;
  channel_capacity = none;
  worker_count = 5;
}

abbrev read_section : ℕ → Result ℕ (GcpConfig ℕ)
read_section raw = ok section

abbrev kms_validate : ℕ → Result Text (Unit {0})
kms_validate key = ok tt

abbrev into_bytes : Text → List ℕ
into_bytes t = t

abbrev config : ConfigCrate World ℕ ℕ
config = record { build = λ path w. (ok 0, w) }

apart : Apart config provider cloud
apart = record {
  spawns = provider-Spawns;
  build_frame = λ path w. refl;
  auth_frame = λ w. refl;
  client_frame = λ a w. refl;
  provider_frame = λ c g w. refl;
}

new_amplifier_ingester_outcome_example :
    Outcome config read_config read_section kms_validate provider cloud into_bytes build apart 0 []
      (new_amplifier_ingester config read_config read_section kms_validate provider cloud into_bytes
        build
        (codes "config")
        0
        [])
new_amplifier_ingester_outcome_example =
    new_amplifier_ingester_outcome config read_config read_section kms_validate provider cloud
      into_bytes build apart (codes "config") 0 []

abbrev build_refused : ClientSettings ℕ ℕ → Result ℕ ℕ
build_refused settings = err 3

-- The client cannot be made: the task that has been started has had its token cancelled.
abandoned_task :
    (new_amplifier_ingester config read_config read_section kms_validate provider cloud into_bytes
      build_refused
      (codes "config")
      0
      []).1
    ≡ started
        (reader provider (consumer_cfg section) 0 (codes "events") (codes "redis://redis:6379"))
      ∷ cancelled 1
      ∷ []
unfolding new_amplifier_ingester drop_consumer connect_consumer gcp_consumer_new
    connect_pubsub_client get_subscription connect_redis kms_tls_client_config amplifier_client
    try_deserialize amplifier_api_client_new validate validate_section trim trim_end trim_start
    authenticated_client
abandoned_task = refl

-- The lists of servers that have been dialled.
abbrev Dialled : Type 0
Dialled = List (List Text)

abbrev nats : AsyncNats Dialled ℕ Text ℕ ℕ Text Text ℕ
nats = record {
  connect_with_options = λ urls w. (ok 0, urls ∷ w);
  new_inbox = λ c w. (codes "_INBOX.1", w);
  jetstream = λ c. 0;
  get_or_create_stream = λ j s w. (ok s.name, w);
  new_v4 = λ w. (codes "8a6e0804", w);
  create_consumer_of = λ s c w. (ok s, w);
  create_key_value_of = λ j bucket description w. (ok 0, w);
}

abbrev nats_config : ConfigCrate Dialled ℕ ℕ
nats_config = record { build = λ path w. (ok 0, w) }

abbrev read_nats : ℕ → Result ℕ (NatsConfig Text)
read_nats raw = ok (record { urls = codes "nats://nats:4222" ∷ [] })

dials : Dials nats_config nats
dials = record {
  dialled = λ w. w;
  connect_dials = λ urls w. refl;
  build_frame = λ path w. refl;
  inbox_frame = λ c w. refl;
  stream_frame = λ j s w. refl;
  uuid_frame = λ w. refl;
  consumer_frame = λ s c w. refl;
}

new_amplifier_ingester_dials_example :
    Dials.Outcome nats_config read_config read_nats nats build dials []
      (Nats.new_amplifier_ingester nats_config read_config read_nats nats build (codes "config") [])
new_amplifier_ingester_dials_example =
    new_amplifier_ingester_dials nats_config read_config read_nats nats build dials (codes "config")
      []
