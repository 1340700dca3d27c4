-- ===== src/Infrastructure/Gcp/Passage.antt =====
-- The way of a message from `GcpPublisher` of one process, through a topic, to `GcpConsumer` of another.
mod Tests
use axelar_relayer_core.Base.{
  ℕ, suc, ◌+◌, ◌<◌, ◌≡◌, refl, sym, ◌∙◌, ap, subst, Bool, Option, some, List, Text, Result, ok, err,
  Result-cases, inl, inr, arith,
}
use axelar_relayer_core.Base.Int.{ℤ}
use axelar_relayer_core.Infrastructure.Interfaces.{AckKind, PublishMessage, QueueMsgId, from_value}
use axelar_relayer_core.Infrastructure.Gcp.Defs.{GcpError, MessageContent, Redis, PubSub, Expires}
use axelar_relayer_core.Infrastructure.Gcp.Consumer.{
  GcpMessage, State, redis_id_key, ack, decode, on_received, msg_id,
}
use axelar_relayer_core.Infrastructure.Gcp.Consumer.Dedup.{redelivery_suppressed}
use axelar_relayer_core.Infrastructure.Gcp.Publisher
use axelar_relayer_core.Infrastructure.Gcp.Publisher.{
  insert, no_entries, correlation_id, to_pubsub_message,
}
use axelar_relayer_core.Infrastructure.Gcp.Publisher.Topic.{Sent, ReadsBack, sent_content}

-- The received message carries the data and the attributes that were sent.
abbrev pub Carries : {W X M H : Type 0} → PubSub W X M H → M → Sent → Type 0
Carries pubsub msg sent =
    (pubsub.payload msg ≡ sent.0) × ((k : Text) → pubsub.attributes msg k ≡ sent.1 k)

module _ {W X T M H : Type 0} (inject_context : (Text → Option Text) → Text → Option Text)
    (to_vec : MessageContent T → Result X (List ℕ))
    (from_slice : List ℕ → Result X (MessageContent T)) (reads_back : ReadsBack to_vec from_slice)
    (redis : Redis W X) (pubsub : PubSub W X M H) where
  sent_id :
      (p : PublishMessage T) (sent : Sent)
      → to_pubsub_message inject_context to_vec p ≡ ok sent
      → sent.1 msg_id ≡ some p.deduplication_id
  unfolding to_pubsub_message
  sent_id p sent e =
      let c : MessageContent T = record {
        headers = insert (inject_context no_entries) correlation_id p.deduplication_id;
        content = p.content;
      } in
      elim (Result-cases (to_vec c)) [
        | inr (x, bad) ↦ ground (arith, e, bad)
        | inl (b, good) ↦ ground (arith, e, good)
      ]

  -- What the publisher could encode the consumer decodes, with the deduplication identifier as the
  -- message's identifier and the same content, whatever context has been injected.
  pub decode-to_pubsub_message :
      (p : PublishMessage T) (sent : Sent) (msg : M) (subscription_name : Text) (deadline : ℤ)
      → to_pubsub_message inject_context to_vec p ≡ ok sent
      → Carries pubsub msg sent
      → decode redis pubsub from_slice subscription_name msg deadline
        ≡ ok (record {
          id = p.deduplication_id;
          decoded = p.content;
          subscription_name = subscription_name;
          msg = msg;
          ack_deadline_secs = deadline;
        })
  unfolding decode
  decode-to_pubsub_message p sent msg subscription_name deadline encoded (payload, attributes) =
      let (c, d, same) = sent_content inject_context to_vec from_slice reads_back p sent encoded in
      ground (arith, payload, attributes msg_id, sent_id p sent encoded, d, same)

module _ {W X T M H : Type 0} (to_vec : MessageContent T → Result X (List ℕ))
    (from_slice : List ℕ → Result X (MessageContent T)) (reads_back : ReadsBack to_vec from_slice)
    (redis : Redis W X) (pubsub : PubSub W X M H) (x : Expires redis pubsub)
    (send : Result (GcpError X) (GcpMessage T M) → W → Bool × W) where
  -- The state after a duplicate with this key has been acknowledged.
  abbrev pub dropped : M → Text → State W → State W
  dropped msg key s = record s {
    metrics = record s.metrics {
      received = suc s.metrics.received;
      duplicates = suc s.metrics.duplicates;
    };
    world = (pubsub.ack msg (redis.exists key s.world).1).1;
  }

  -- A message that is published under a deduplication identifier that has been used before is dropped,
  -- if that earlier message was acknowledged less than ten minutes ago: the consumer acknowledges it,
  -- counts it as a duplicate and does not hand it on, whatever its content, whatever contexts have
  -- been injected, provided that both services answer and that nobody has touched the key.
  pub republication_suppressed :
      (inject_first inject_second : (Text → Option Text) → Text → Option Text)
      (p p' : PublishMessage T) (sent sent' : Sent) (msg msg' : M) (m : GcpMessage T M)
      (subscription_name : Text) (deadline deadline' : ℤ) (b : Bool) (s s' : State W)
      → to_pubsub_message inject_first to_vec p ≡ ok sent
      → to_pubsub_message inject_second to_vec p' ≡ ok sent'
      → p'.deduplication_id ≡ p.deduplication_id
      → Carries pubsub msg sent
      → Carries pubsub msg' sent'
      → decode redis pubsub from_slice subscription_name msg deadline ≡ ok m
      → (ack redis pubsub AckKind.ack m s).0.0 ≡ ok tt
      → let after = (ack redis pubsub AckKind.ack m s).0.1.world in
        x.expiry (redis_id_key m) s'.world ≡ x.expiry (redis_id_key m) after
        → x.clock s'.world < x.clock after + 600
        → (redis.exists (redis_id_key m) s'.world).0 ≡ ok b
        → (pubsub.ack msg' (redis.exists (redis_id_key m) s'.world).1).0 ≡ ok tt
        → on_received redis pubsub from_slice send subscription_name deadline' msg' s'
          ≡ dropped msg' (redis_id_key m) s'
  republication_suppressed inject_first inject_second p p' sent sent' msg msg' m subscription_name
        deadline deadline' b s s' encoded encoded' same carries carries' decoded acked untouched
        soon answered taken =
      let first =
        decode-to_pubsub_message inject_first to_vec from_slice reads_back redis pubsub p sent msg
          subscription_name deadline encoded carries in
      let m_is : m.id ≡ p.deduplication_id = ground (arith, first, decoded) in
      let name_is : m.subscription_name ≡ subscription_name = ground (arith, first, decoded) in
      let (c, d, same_content) =
        sent_content inject_second to_vec from_slice reads_back p' sent' encoded' in
      let named : pubsub.attributes msg' msg_id ≡ some m.id =
        carries'.1 msg_id
        ∙ (sent_id inject_second to_vec from_slice reads_back redis pubsub p' sent' encoded'
            ∙ ap (λ i. some i) (same ∙ sym m_is)) in
      let payload : from_slice (pubsub.payload msg') ≡ ok c = ap from_slice carries'.0 ∙ d in
      subst
        (λ n.
          on_received redis pubsub from_slice send n deadline' msg' s'
          ≡ dropped msg' (redis_id_key m) s')
        name_is
        (redelivery_suppressed redis pubsub x from_slice send m msg' deadline' c b s s' acked named
          payload untouched soon answered taken)
