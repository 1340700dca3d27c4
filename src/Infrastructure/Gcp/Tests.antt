-- ===== src/Infrastructure/Gcp/Tests.antt =====
-- The theorems on the Google Cloud provider at a concrete world: a Redis with a clock, and a Pub/Sub
-- that accepts everything but what it is made to refuse.
use axelar_relayer_core.Base.{
  ℕ, ◌≡◌, Bool, true, false, Option, none, List, [], ◌∷◌, Text, codes, Result, ok, arith,
}
use axelar_relayer_core.Base.Int.{pos}
use axelar_relayer_core.Infrastructure.Interfaces.{
  AckKind, QueueMsgId, PublishMessage, WithRevision, PeekablePublisher, RemembersLast,
}
use axelar_relayer_core.Infrastructure.Gcp.Sample.{World, redis, pubsub, stores, start}
use axelar_relayer_core.Infrastructure.Gcp.Defs.{GcpError, MessageContent}
use axelar_relayer_core.Infrastructure.Gcp.Consumer.{GcpMessage, ack, redis_id_key, on_received}
use axelar_relayer_core.Infrastructure.Gcp.Consumer
use axelar_relayer_core.Infrastructure.Gcp.KvStore.{Codec, put, get, upsert, read_value}
use axelar_relayer_core.Infrastructure.Gcp.KvStore
use axelar_relayer_core.Infrastructure.Gcp.KvStore.Laws.{RoundTrips}
use axelar_relayer_core.Infrastructure.Gcp.Publisher.{
  publish_batch, confirm_all, confirm_one, to_pubsub_messages, to_pubsub_message, peekable_publish,
  peekable_publish_batch, peek_last,
}
use axelar_relayer_core.Infrastructure.Gcp.Publisher
use axelar_relayer_core.Infrastructure.Gcp.Publisher.Counts.{publish_errors_uncounted}
use axelar_relayer_core.Infrastructure.Gcp.Publisher.Contract.{
  gcp_publisher, gcp_publisher-RemembersLast,
}

abbrev message : GcpMessage (List ℕ) (Text × List ℕ)
message = record {
  id = codes "m";
  decoded = 1 ∷ [];
  subscription_name = codes "sub";
  msg = (codes "m", 1 ∷ []);
  ack_deadline_secs = pos 10;
}

abbrev state : World → Consumer.State World
state w = record {
  metrics = record {
    received = 0;
    duplicates = 0;
    error_raised = 0;
    acks = 0;
    nacks = 0;
    deadline_extensions = 0;
  };
  world = w;
  cancelled = false;
}

abbrev deserialize : List ℕ → Result ℕ (MessageContent (List ℕ))
deserialize b = ok (record { headers = λ k. none; content = b })

abbrev send : Result (GcpError ℕ) (GcpMessage (List ℕ) (Text × List ℕ)) → World → Bool × World
send r w = (true, w)

abbrev acked : Consumer.State World
acked = (ack redis (pubsub false) AckKind.ack message (state start)).0.1

abbrev codec : Codec Text ℕ
codec = record { to_vec = λ v. ok v; from_slice = λ b. ok b }

codec-RoundTrips : RoundTrips codec
codec-RoundTrips = record { from_slice-to_vec = λ v b h. ground arith }

abbrev kv_state : World → KvStore.State World
kv_state w = record { metrics = record { writes = 0; reads = 0; error_raised = 0 }; world = w }

abbrev after_put : KvStore.State World
after_put = (put redis codec (codes "k") (codes "v") (kv_state start)).1

abbrev value : WithRevision Text
value = record { value = codes "v"; revision = 0 }

abbrev inject : (Text → Option Text) → Text → Option Text
inject m = m

abbrev to_vec : MessageContent Text → Result ℕ (List ℕ)
to_vec m = ok m.content

abbrev publisher_state : World → Publisher.State World
publisher_state w = record {
  metrics = record { published = 0; error_raised = 0 };
  store = kv_state w;
}

abbrev queue_id : QueueMsgId Text Text
queue_id = record { id = λ t. t; to_string = λ t. t }

abbrev hello : PublishMessage Text
hello = record { deduplication_id = codes "1"; content = codes "hello" }

abbrev bye : PublishMessage Text
bye = record { deduplication_id = codes "2"; content = codes "bye" }

abbrev two : List (PublishMessage Text)
two = hello ∷ bye ∷ []

abbrev publisher : Bool → PeekablePublisher (Publisher.State World) (GcpError ℕ) Text Text Text
publisher b = gcp_publisher inject to_vec (pubsub b) queue_id redis codec (codes "last")

gcp_publisher-RemembersLast_example : RemembersLast queue_id (publisher false)
gcp_publisher-RemembersLast_example =
    gcp_publisher-RemembersLast inject to_vec (pubsub false) queue_id redis codec (codes "last")
      (stores false) codec-RoundTrips

publish_errors_uncounted_example :
    ((peekable_publish inject to_vec
        (pubsub true)
        queue_id
        redis
        codec
        (codes "last")
        hello
        (publisher_state start)).1.metrics.error_raised
      ≡ 0)
    × ((peekable_publish_batch inject to_vec
          (pubsub true)
          queue_id
          redis
          codec
          (codes "last")
          two
          (publisher_state start)).1.metrics.error_raised
        ≡ 0)
publish_errors_uncounted_example =
    publish_errors_uncounted inject to_vec (pubsub true) queue_id redis codec (codes "last") hello
      two (publisher_state start)
