-- ===== src/Infrastructure/Gcp/Defs.antt =====
-- crates/infrastructure/src/gcp.rs and gcp/util.rs: the errors, the content of a message, and the
-- services behind the provider's clients, which are parameters: Redis and Pub/Sub over a world `W`
-- with errors `X`, and what is relied on of them.
use axelar_relayer_core.Base.{ℕ, ◌+◌, ◌≡◌, Bool, List, Option, some, Text, ltb, ok, Eff}
use axelar_relayer_core.Base.Int.{ℤ}

pub data GcpError (X : Type 0) : Type 0 where
  auth pubsub_client kms_client kms topic_exists_check : X → GcpError X
  topic_not_found : Text → GcpError X
  certificate_read rustls_builder subscription_exists_check : X → GcpError X
  subscription_not_found : Text → GcpError X
  publish_failed ack_failed nak_failed modify_ack_deadline_failed : X → GcpError X
  deserialize_failed receiver_task_crash serialize_failed connection redis_failed : X → GcpError X
  redis_ping redis_serialize redis_save redis_get redis_deserialize : X → GcpError X
  consumer_read_task_join : X → GcpError X
  consumer_read_task_exited no_msg_to_publish msg_id_not_set : GcpError X
  generic_redis : X → GcpError X

pub record MessageContent (T : Type 0) : Type 0 where
  pub headers : Text → Option Text
  pub content : T

-- `redis`: the commands that the code sends.
pub record Redis (W X : Type 0) : Type 0 where
  pub exists : Text → Eff W X Bool
  pub set_ex : Text → Text → ℕ → Eff W X Text
  pub set : Text → List ℕ → Eff W X (Unit {0})
  pub get : Text → Eff W X (Option (List ℕ))
  pub ping : Eff W X (Unit {0})

-- `google_cloud_pubsub`: what a received message of type `M` can be asked, and a publisher with
-- its handles `H`.
pub record PubSub (W X M H : Type 0) : Type 0 where
  pub attributes : M → Text → Option Text
  pub payload : M → List ℕ
  pub ack : M → Eff W X (Unit {0})
  pub nack : M → Eff W X (Unit {0})
  pub modify_ack_deadline : M → ℤ → Eff W X (Unit {0})
  pub publish : List ℕ → (Text → Option Text) → W → H × W
  pub publish_bulk : List (List ℕ × (Text → Option Text)) → W → List H × W
  pub confirm : H → Eff W X Text

-- Redis keeps a key until its time is over: `clock` is its time and `expiry` the moment at which a
-- key ends. Pub/Sub is another service and leaves it alone.
pub record Expires {W X M H : Type 0} (redis : Redis W X) (pubsub : PubSub W X M H) : Type 0 where
  pub clock : W → ℕ
  pub expiry : Text → W → ℕ
  pub exists_live :
      (k : Text) (w : W) (b : Bool) → (redis.exists k w).0 ≡ ok b → b ≡ ltb (clock w) (expiry k w)
  pub set_ex_sets :
      (k v : Text) (ttl : ℕ) (w : W) (r : Text)
      → (redis.set_ex k v ttl w).0 ≡ ok r
      → expiry k (redis.set_ex k v ttl w).1 ≡ clock (redis.set_ex k v ttl w).1 + ttl
  pub ack_frame : (k : Text) (m : M) (w : W) → expiry k (pubsub.ack m w).1 ≡ expiry k w

-- Redis keeps the values that are set; only `set` changes them.
pub record Stores {W X M H : Type 0} (redis : Redis W X) (pubsub : PubSub W X M H) : Type 0 where
  pub stored : Text → W → Option (List ℕ)
  pub set_sets :
      (k : Text) (v : List ℕ) (w : W)
      → (redis.set k v w).0 ≡ ok tt
      → stored k (redis.set k v w).1 ≡ some v
  pub get_reads :
      (k : Text) (w : W) (o : Option (List ℕ)) → (redis.get k w).0 ≡ ok o → o ≡ stored k w
  pub bulk_frame :
      (k : Text) (ms : List (List ℕ × (Text → Option Text))) (w : W)
      → stored k (pubsub.publish_bulk ms w).1 ≡ stored k w
  pub confirm_frame : (k : Text) (h : H) (w : W) → stored k (pubsub.confirm h w).1 ≡ stored k w
