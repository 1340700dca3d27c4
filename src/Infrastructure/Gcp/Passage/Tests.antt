-- ===== src/Infrastructure/Gcp/Passage/Tests.antt =====
-- Two messages on their way, published under one identifier from different contexts.
use axelar_relayer_core.Base.{
  ℕ, ◌+◌, ◌≡◌, refl, Bool, true, false, Option, none, List, [], ◌∷◌, Text, codes, Result, ok, err,
  arith,
}
use axelar_relayer_core.Base.Int.{pos}
use axelar_relayer_core.Infrastructure.Interfaces.{AckKind, PublishMessage}
use axelar_relayer_core.Infrastructure.Gcp.Defs.{GcpError, MessageContent, PubSub, Expires}
use axelar_relayer_core.Infrastructure.Gcp.Sample.{World, redis, put_at_same, start}
use axelar_relayer_core.Infrastructure.Gcp.Consumer.{
  GcpMessage, State, redis_id_key, ack, decode, on_received,
}
use axelar_relayer_core.Infrastructure.Gcp.Publisher.{to_pubsub_message, no_entries, insert}
use axelar_relayer_core.Infrastructure.Gcp.Publisher
use axelar_relayer_core.Infrastructure.Gcp.Publisher.Topic.{Sent, ReadsBack}
use axelar_relayer_core.Infrastructure.Gcp.Passage.{
  decode-to_pubsub_message, republication_suppressed,
}

-- A Pub/Sub whose received messages are those sent.
abbrev pubsub : PubSub World ℕ Sent Sent
pubsub = record {
  attributes = λ m k. m.1 k;
  payload = λ m. m.0;
  ack = λ m w. (ok tt, w);
  nack = λ m w. (ok tt, w);
  modify_ack_deadline = λ m d w. (ok tt, w);
  publish = λ b a w. ((b, a), w);
  publish_bulk = λ ms w. (ms, w);
  confirm = λ h w. (ok (codes "id"), w);
}

expires : Expires redis pubsub
expires = record {
  clock = λ w. w.now;
  expiry = λ k w. w.expiry k;
  exists_live = λ k w b h. ground (arith, h);
  set_ex_sets = λ k v ttl w r h. put_at_same w.expiry k (w.now + ttl);
  ack_frame = λ k m w. refl;
}

abbrev to_vec : MessageContent ℕ → Result ℕ (List ℕ)
to_vec m = ok (m.content ∷ [])

abbrev from_slice : List ℕ → Result ℕ (MessageContent ℕ)
from_slice [] = err 3
from_slice (u ∷ us) = ok (record { headers = λ k. none; content = u })

reads_back : ReadsBack to_vec from_slice
reads_back c b e = (record { headers = λ k. none; content = c.content }, ground (arith, e), refl)

abbrev plain : (Text → Option Text) → Text → Option Text
plain m = m

abbrev traced : (Text → Option Text) → Text → Option Text
traced m = insert m (codes "traceparent") (codes "00-1")

abbrev earlier : PublishMessage ℕ
earlier = record { deduplication_id = codes "7"; content = 41 }

abbrev later : PublishMessage ℕ
later = record { deduplication_id = codes "7"; content = 42 }

abbrev sent_as : ℕ → Sent
sent_as n = (n ∷ [], insert no_entries Publisher.msg_id (codes "7"))

abbrev received : GcpMessage ℕ Sent
received = record {
  id = codes "7";
  decoded = 41;
  subscription_name = codes "sub";
  msg = sent_as 41;
  ack_deadline_secs = pos 10;
}

decoded_earlier : decode redis pubsub from_slice (codes "sub") (sent_as 41) (pos 10) ≡ ok received
unfolding to_pubsub_message
decoded_earlier =
    decode-to_pubsub_message plain to_vec from_slice reads_back redis pubsub earlier (sent_as 41)
      (sent_as 41) (codes "sub") (pos 10) refl (refl, (λ k. refl))

decode-to_pubsub_message_example :
    decode redis pubsub from_slice (codes "sub") (sent_as 42) (pos 10)
    ≡ ok (record received { decoded = 42; msg = sent_as 42 })
unfolding to_pubsub_message
decode-to_pubsub_message_example =
    decode-to_pubsub_message traced to_vec from_slice reads_back redis pubsub later (sent_as 42)
      (sent_as 42) (codes "sub") (pos 10) refl (refl, (λ k. refl))

abbrev send : Result (GcpError ℕ) (GcpMessage ℕ Sent) → World → Bool × World
send r w = (true, w)

abbrev consumer : State World
consumer = record {
  metrics = record {
    received = 1;
    duplicates = 0;
    error_raised = 0;
    acks = 0;
    nacks = 0;
    deadline_extensions = 0;
  };
  world = start;
  cancelled = false;
}

abbrev acked : State World
acked = (ack redis pubsub AckKind.ack received consumer).0.1

republication_suppressed_example :
    on_received redis pubsub from_slice send (codes "sub") (pos 20) (sent_as 42) acked
    ≡ record acked { metrics = record acked.metrics { received = 2; duplicates = 1 } }
unfolding ack to_pubsub_message
republication_suppressed_example =
    republication_suppressed to_vec from_slice reads_back redis pubsub expires send plain traced
      earlier later (sent_as 41) (sent_as 42) (sent_as 41) (sent_as 42) received (codes "sub")
      (pos 10) (pos 20) true consumer acked refl refl refl (refl, (λ k. refl)) (refl, (λ k. refl))
      decoded_earlier refl refl (omega arith)
      (rw (put_at_same {A = ℕ} (λ k. 0) (redis_id_key received) 605) refl) refl
