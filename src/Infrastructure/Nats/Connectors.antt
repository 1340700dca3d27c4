-- ===== src/Infrastructure/Nats/Connectors.antt =====
-- crates/infrastructure/src/nats.rs, its builder, and nats/connectors.rs. What they call of async_nats
-- is the parameter `AsyncNats`, over a world `W` with errors `X`. Durations are in seconds.
use axelar_relayer_core.Base.{
  ℕ, Bool, true, Option, some, List, [], ◌∷◌, Text, ok, map_err, Eff, ◌>>=◌, pure,
}
use axelar_relayer_core.Infrastructure.Nats.Defs.{
  NatsError, connect, create_key_value, create_stream, create_consumer,
}

-- `StreamArgs`.
pub record StreamArgs : Type 0 where
  pub name : Text
  pub subject : Text
  pub description : Text

-- What the code sets of `stream::Config`; old messages are discarded, within limits.
pub record StreamConfig : Type 0 where
  pub name : Text
  pub subjects : List Text
  pub duplicate_window : ℕ
  pub description : Option Text
  pub allow_rollup : Bool
  pub deny_delete : Bool
  pub allow_direct : Bool

-- What the code sets of `push::Config`; new messages are delivered, at once, and acknowledged one by one.
pub record PushConfig : Type 0 where
  pub deliver_subject : Text
  pub name : Option Text
  pub deliver_group : Option Text
  pub description : Option Text
  pub ack_wait : ℕ
  pub max_deliver : ℕ
  pub sample_frequency : ℕ
  pub max_ack_pending : ℕ
  pub flow_control : Bool
  pub idle_heartbeat : ℕ
  pub inactive_threshold : ℕ

-- Clients `C`, contexts `J`, streams `S`, consumers `N` and stores `V`.
pub record AsyncNats (W X U C J S N V : Type 0) : Type 0 where
  pub connect_with_options : List U → Eff W X C
  pub new_inbox : C → W → Text × W
  pub jetstream : C → J
  pub get_or_create_stream : J → StreamConfig → Eff W X S
  pub new_v4 : W → Text × W
  pub create_consumer_of : S → PushConfig → Eff W X N
  pub create_key_value_of : J → Text → Text → Eff W X V

abbrev pub call : {W E F A : Type 0} → (E → F) → Eff W E A → Eff W F A
call wrap m w = let (r, w') = m w in (map_err wrap r, w')

abbrev pub calm : {W E A : Type 0} → (W → A × W) → Eff W E A
calm m w = let (a, w') = m w in (ok a, w')

-- `Builder`, and `ConfiguredStream`.
pub record Builder (J : Type 0) : Type 0 where
  pub inbox : Text
  pub context : J

pub record ConfiguredStream (J S : Type 0) : Type 0 where
  pub inbox : Text
  pub context : J
  pub configured : S

-- `NatsPublisher`.
pub record NatsPublisher (J S : Type 0) : Type 0 where
  pub context : J
  pub publishes_to : S
  pub subject : Text

-- `NatsKvStore`.
pub record NatsKvStore (V : Type 0) : Type 0 where
  pub bucket : Text
  pub store : V

abbrev pub stream_config : StreamArgs → StreamConfig
stream_config args = record {
  name = args.name;
  subjects = args.subject ∷ [];
  duplicate_window = 300;
  description = some args.description;
  allow_rollup = true;
  deny_delete = true;
  allow_direct = true;
}

abbrev pub push_config : Text → Text → Text → Text → PushConfig
push_config inbox name description deliver_group = record {
  deliver_subject = inbox;
  name = some name;
  deliver_group = some deliver_group;
  description = some description;
  ack_wait = 10;
  max_deliver = 10;
  sample_frequency = 10;
  max_ack_pending = 100;
  flow_control = true;
  idle_heartbeat = 10;
  inactive_threshold = 15;
}

-- `ConfiguredStream::publisher`.
unfoldable pub publisher : {J S : Type 0} → ConfiguredStream J S → Text → NatsPublisher J S
publisher s subject = record { context = s.context; publishes_to = s.configured; subject = subject }

module _ {W X U C J S N V : Type 0} (nats : AsyncNats W X U C J S N V) where
  -- `Builder::connect_to_nats`.
  unfoldable pub connect_to_nats : List U → Eff W (NatsError X) (Builder J)
  connect_to_nats urls = do
    client ← call connect (nats.connect_with_options urls)
    inbox ← calm (nats.new_inbox client)
    pure (record { inbox = inbox; context = nats.jetstream client })

  -- `Builder::stream`.
  unfoldable pub stream : Builder J → StreamArgs → Eff W (NatsError X) (ConfiguredStream J S)
  stream builder args = do
    s ← call create_stream (nats.get_or_create_stream builder.context (stream_config args))
    pure (record { inbox = builder.inbox; context = builder.context; configured = s })

  -- `ConfiguredStream::consumer`; a `NatsConsumer` is the consumer it holds.
  unfoldable pub consumer : ConfiguredStream J S → Text → Text → Eff W (NatsError X) N
  consumer s description deliver_group = do
    name ← calm nats.new_v4
    call create_consumer
        (nats.create_consumer_of s.configured (push_config s.inbox name description deliver_group))

  -- `connect_consumer`, `connect_publisher` and `connect_kv_store`.
  unfoldable pub connect_consumer : List U → StreamArgs → Text → Text → Eff W (NatsError X) N
  connect_consumer urls args consumer_desc deliver_group = do
    builder ← connect_to_nats urls
    s ← stream builder args
    consumer s consumer_desc deliver_group

  unfoldable pub connect_publisher :
      List U → StreamArgs → Text → Eff W (NatsError X) (NatsPublisher J S)
  connect_publisher urls args subject = do
    builder ← connect_to_nats urls
    s ← stream builder args
    pure (publisher s subject)

  unfoldable pub connect_kv_store : List U → Text → Text → Eff W (NatsError X) (NatsKvStore V)
  connect_kv_store urls bucket description = do
    client ← call connect (nats.connect_with_options urls)
    v ← call create_key_value (nats.create_key_value_of (nats.jetstream client) bucket description)
    pure (record { bucket = bucket; store = v })
