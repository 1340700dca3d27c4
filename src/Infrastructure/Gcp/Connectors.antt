-- ===== src/Infrastructure/Gcp/Connectors.antt =====
-- crates/infrastructure/src/gcp/connectors.rs, the constructors of gcp/consumer.rs, gcp/publisher.rs and
-- gcp/kv_store.rs, and the look-ups of gcp/util.rs. What they call of the clients of Pub/Sub, KMS,
-- Redis and TLS is the parameter `Provider`, over a world `W` with errors `X`.
pub mod Tasks
pub mod Sample
mod Tests
use axelar_relayer_core.Base.{
  ℕ, ◌≡◌, Bool, true, false, Option, List, Text, Result, ok, err, map_err, Eff, ◌>>=◌, ◌>>◌, pure,
}
use axelar_relayer_core.Base.Int.{ℤ}
use axelar_relayer_core.Infrastructure.Gcp.Defs.{
  GcpError, auth, pubsub_client, kms_client, kms, topic_exists_check, topic_not_found,
  certificate_read, rustls_builder, subscription_exists_check, subscription_not_found, connection,
}

-- `PublisherConfig`, as far as the code sets it; its retries are the defaults of the client.
pub record PublisherConfig : Type 0 where
  pub workers : ℕ
  pub bundle_size : ℕ

-- `GcpConsumerConfig`.
pub record GcpConsumerConfig : Type 0 where
  pub redis_connection : Text
  pub ack_deadline_secs : ℤ
  pub channel_capacity : Option ℕ
  pub worker_count : ℕ

-- `ReadMessagesConfig`, less its channel and its counters, for connections `R`, subscriptions `S`
-- and tokens `K`.
pub record ReadMessagesConfig (R S K : Type 0) : Type 0 where
  pub redis_connection : R
  pub subscription : S
  pub ack_deadline_secs : ℤ
  pub channel_capacity : Option ℕ
  pub worker_count : ℕ
  pub cancel_token : K

-- Credentials `A`, clients `C`, topics `T`, subscriptions `S`, publishers `P`, connections `R` to
-- Redis, cancellation tokens `K` and handles `H` of tasks.
pub record Provider (W X A C T S P R K H : Type 0) : Type 0 where
  pub with_auth : Eff W X A
  pub new_client : A → Eff W X C
  pub topic : C → Text → T
  pub topic_exists : T → Eff W X Bool
  pub new_publisher : T → PublisherConfig → W → P × W
  pub subscription : C → Text → S
  pub subscription_exists : S → Eff W X Bool
  -- `redis::Client::open` and its connection.
  pub open_client : Text → Result X (Unit {0})
  pub get_multiplexed_async_connection : Text → Eff W X R
  pub child_token : K → K
  -- `tokio::spawn` of the task that reads the messages.
  pub spawn : ReadMessagesConfig R S K → W → H × W
  -- `CancellationToken::cancel`.
  pub cancel : K → W → W

-- A call of a client, with the error that `?` or `map_err` makes of its own.
abbrev pub call : {W E F A : Type 0} → (E → F) → Eff W E A → Eff W F A
call wrap m w = let (r, w') = m w in (map_err wrap r, w')

abbrev pub lift : {W E F A : Type 0} → (E → F) → Result E A → Eff W F A
lift wrap r w = (map_err wrap r, w)

-- An early return unless something exists.
abbrev found : {W E A : Type 0} → Bool → E → A → Eff W E A
found true e a w = (ok a, w)
found false e a w = (err e, w)

abbrev calm : {W E A : Type 0} → (W → A × W) → Eff W E A
calm m w = let (a, w') = m w in (ok a, w')

-- `RedisClient`, less its counters.
pub record RedisClient (R : Type 0) : Type 0 where
  pub key : Text
  pub connection_of : R

-- `PeekableGcpPublisher`.
pub record PeekableGcpPublisher (P R : Type 0) : Type 0 where
  pub publisher : P
  pub last_message_id_store : RedisClient R

-- `GcpConsumer`, less its channel and its counters.
pub record GcpConsumer (K H : Type 0) : Type 0 where
  pub cancel_token : K
  pub read_messages_handle : H

module _ {W X A C T S P R K H : Type 0} (provider : Provider W X A C T S P R K H) where
  -- `connect_pubsub_client`.
  unfoldable pub connect_pubsub_client : Eff W (GcpError X) C
  connect_pubsub_client = do
    config ← call auth provider.with_auth
    call pubsub_client (provider.new_client config)

  -- util.rs: `get_topic` and `get_subscription`.
  unfoldable pub get_topic : C → Text → Eff W (GcpError X) T
  get_topic client topic_name =
      let topic = provider.topic client topic_name in
      do
        exists ← call topic_exists_check (provider.topic_exists topic)
        found exists (topic_not_found topic_name) topic

  unfoldable pub get_subscription : C → Text → Eff W (GcpError X) S
  get_subscription client subscription_name =
      let subscription = provider.subscription client subscription_name in
      do
        exists ← call subscription_exists_check (provider.subscription_exists subscription)
        found exists (subscription_not_found subscription_name) subscription

  -- `redis::Client::open(..)?.get_multiplexed_async_connection().await?`.
  unfoldable pub connect_redis : Text → Eff W (GcpError X) R
  connect_redis url = do
    lift connection (provider.open_client url)
    call connection (provider.get_multiplexed_async_connection url)

  -- `RedisClient::connect`.
  unfoldable pub redis_client_connect : Text → Text → Eff W (GcpError X) (RedisClient R)
  redis_client_connect key url = do
    r ← connect_redis url
    pure (record { key = key; connection_of = r })

  -- `GcpPublisher::new`.
  unfoldable pub gcp_publisher_new : C → Text → ℕ → ℕ → Eff W (GcpError X) P
  gcp_publisher_new client topic worker_count max_bundle_size = do
    t ← get_topic client topic
    calm (
        provider.new_publisher t (record { workers = worker_count; bundle_size = max_bundle_size }))

  -- `PeekableGcpPublisher::new`.
  unfoldable pub peekable_gcp_publisher_new :
      C → Text → RedisClient R → ℕ → ℕ → Eff W (GcpError X) (PeekableGcpPublisher P R)
  peekable_gcp_publisher_new client topic kv_store worker_count max_bundle_size = do
    p ← gcp_publisher_new client topic worker_count max_bundle_size
    pure (record { publisher = p; last_message_id_store = kv_store })

  -- What `GcpConsumer::new` starts the task with.
  abbrev pub reader : GcpConsumerConfig → K → S → R → ReadMessagesConfig R S K
  reader config cancel_token subscription r = record {
    redis_connection = r;
    subscription = subscription;
    ack_deadline_secs = config.ack_deadline_secs;
    channel_capacity = config.channel_capacity;
    worker_count = config.worker_count;
    cancel_token = provider.child_token cancel_token;
  }

  -- `GcpConsumer::new`.
  unfoldable pub gcp_consumer_new :
      C → Text → GcpConsumerConfig → K → Eff W (GcpError X) (GcpConsumer K H)
  gcp_consumer_new client subscription config cancel_token = do
    s ← get_subscription client subscription
    r ← connect_redis config.redis_connection
    handle ← calm (provider.spawn (reader config cancel_token s r))
    pure
        (record { cancel_token = provider.child_token cancel_token; read_messages_handle = handle })

  -- `<GcpConsumer as Drop>::drop`.
  unfoldable pub drop_consumer : GcpConsumer K H → W → W
  drop_consumer self w = provider.cancel self.cancel_token w

  -- `connect_consumer`, `connect_publisher` and `connect_peekable_publisher`.
  unfoldable pub connect_consumer :
      Text → GcpConsumerConfig → K → Eff W (GcpError X) (GcpConsumer K H)
  connect_consumer subscription config cancel_token = do
    client ← connect_pubsub_client
    gcp_consumer_new client subscription config cancel_token

  unfoldable pub connect_publisher : Text → ℕ → ℕ → Eff W (GcpError X) P
  connect_publisher topic worker_count max_bundle_size = do
    client ← connect_pubsub_client
    gcp_publisher_new client topic worker_count max_bundle_size

  unfoldable pub connect_peekable_publisher :
      Text → Text → Text → ℕ → ℕ → Eff W (GcpError X) (PeekableGcpPublisher P R)
  connect_peekable_publisher topic redis_connection redis_key worker_count max_bundle_size = do
    kv_store ← redis_client_connect redis_key redis_connection
    client ← connect_pubsub_client
    peekable_gcp_publisher_new client topic kv_store worker_count max_bundle_size

-- What is used of the clients of KMS and TLS: credentials `A`, clients `C`, keys `G`, providers
-- `P`, certificates `D`, builders `B` and configurations `L`.
pub record Kms (W X A C G P D B L : Type 0) : Type 0 where
  pub kms_with_auth : Eff W X A
  pub kms_new_client : A → Eff W X C
  pub provider : C → G → Eff W X P
  pub from_pem_slice : List ℕ → Result X D
  pub with_safe_default_protocol_versions : P → Result X B
  pub with_client_auth_cert : B → D → Result X L

-- `kms_tls_client_config`.
unfoldable pub kms_tls_client_config :
    {W X A C G P D B L : Type 0} → Kms W X A C G P D B L → List ℕ → G → Eff W (GcpError X) L
kms_tls_client_config cloud public_certificate kms_config = do
  config ← call auth cloud.kms_with_auth
  client ← call kms_client (cloud.kms_new_client config)
  p ← call kms (cloud.provider client kms_config)
  cert ← lift certificate_read (cloud.from_pem_slice public_certificate)
  builder ← lift rustls_builder (cloud.with_safe_default_protocol_versions p)
  lift rustls_builder (cloud.with_client_auth_cert builder cert)
