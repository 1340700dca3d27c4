-- ===== src/Infrastructure/Gcp/Consumer/Dedup.antt =====
-- Deduplication of received messages: the keys, what an acknowledgement leaves in Redis, and what
-- the read task does with a message that comes again.
use mathlib.Core.List.{append_cancel_left}
use axelar_relayer_core.Base.{
  ℕ, suc, ◌+◌, ◌<◌, ◌≤◌, ◌≡◌, Bool, true, false, List, some, Text, Result, ok, err, codes,
  Result-cases, inl, inr, arith,
}
use axelar_relayer_core.Base.Int.{ℤ}
use axelar_relayer_core.Infrastructure.Interfaces.{AckKind}
use axelar_relayer_core.Infrastructure.Gcp.Defs.{
  GcpError, ack_failed, MessageContent, Redis, PubSub, Expires,
}
use axelar_relayer_core.Infrastructure.Gcp.Consumer.{
  GcpMessage, redis_id_key, State, msg_id, ack, decode, forward_message, on_received,
  count_received,
}

-- Within a subscription two messages have the same key only if they have the same identifier.
pub redis_id_key_injective :
    {T M : Type 0} (m m' : GcpMessage T M)
    → m.subscription_name ≡ m'.subscription_name
    → redis_id_key m ≡ redis_id_key m'
    → m.id ≡ m'.id
unfolding redis_id_key
redis_id_key_injective m m' e h = append_cancel_left (codes ":id:") m.id m'.id (
    append_cancel_left m.subscription_name _ _
      (append_cancel_left (codes "dedup:") _ _ (rw (← e) at h)))

module _ {W X T M H : Type 0} (redis : Redis W X) (pubsub : PubSub W X M H)
    (x : Expires redis pubsub) where
  -- A positive acknowledgement that Pub/Sub refuses fails with that error, counts nothing, and
  -- marks no key in Redis, so the message is not taken for a duplicate when it is redelivered.
  pub ack_refused :
      (m : GcpMessage T M) (s : State W) (e : X) (w : W) (k : Text)
      → pubsub.ack m.msg s.world ≡ (err e, w)
      → ((ack redis pubsub AckKind.ack m s).0.0 ≡ err (ack_failed e))
        × ((ack redis pubsub AckKind.ack m s).0.1.metrics ≡ s.metrics)
        × (x.expiry k (ack redis pubsub AckKind.ack m s).0.1.world ≡ x.expiry k s.world)
  unfolding ack
  ack_refused m s e w k h = ground (arith, h, x.ack_frame k m.msg s.world)

  -- A positive acknowledgement that succeeds has counted one message, and the key of the message
  -- lasts for ten minutes from then on.
  pub ack_marks :
      (m : GcpMessage T M) (s : State W)
      → (ack redis pubsub AckKind.ack m s).0.0 ≡ ok tt
      → ((ack redis pubsub AckKind.ack m s).0.1.metrics.acks ≡ suc s.metrics.acks)
        × (x.expiry (redis_id_key m) (ack redis pubsub AckKind.ack m s).0.1.world
            ≡ x.clock (ack redis pubsub AckKind.ack m s).0.1.world + 600)
  unfolding ack
  ack_marks m s h =
      let acked = pubsub.ack m.msg s.world in
      let marked = redis.set_ex (redis_id_key m) (codes "1") 600 acked.1 in
      elim (Result-cases acked.0) [
        | inr (e, refused) ↦ ground (arith, refused)
        | inl (u, taken) ↦ elim (Result-cases marked.0) [
          | inr (e, unmarked) ↦ ground (arith, taken, unmarked)
          | inl (r, set) ↦
              ground
                (arith, taken, set, x.set_ex_sets (redis_id_key m) (codes "1") 600 acked.1 r set)
        ]
      ]

  module _ (deserialize : List ℕ → Result X (MessageContent T))
      (send : Result (GcpError X) (GcpMessage T M) → W → Bool × W) where
    -- A message that comes again within ten minutes of its positive acknowledgement is not handed
    -- to the consumer: it is acknowledged once more and counted as a duplicate, and that is all
    -- that happens, provided that both services answer and that nobody has touched its key.
    pub redelivery_suppressed :
        (m : GcpMessage T M) (again : M) (deadline : ℤ) (c : MessageContent T) (b : Bool)
        (s s' : State W)
        → (ack redis pubsub AckKind.ack m s).0.0 ≡ ok tt
        → pubsub.attributes again msg_id ≡ some m.id
        → deserialize (pubsub.payload again) ≡ ok c
        → x.expiry (redis_id_key m) s'.world
          ≡ x.expiry (redis_id_key m) (ack redis pubsub AckKind.ack m s).0.1.world
        → x.clock s'.world < x.clock (ack redis pubsub AckKind.ack m s).0.1.world + 600
        → (redis.exists (redis_id_key m) s'.world).0 ≡ ok b
        → (pubsub.ack again (redis.exists (redis_id_key m) s'.world).1).0 ≡ ok tt
        → on_received redis pubsub deserialize send m.subscription_name deadline again s'
          ≡ record s' {
            metrics = record s'.metrics {
              received = suc s'.metrics.received;
              duplicates = suc s'.metrics.duplicates;
            };
            world = (pubsub.ack again (redis.exists (redis_id_key m) s'.world).1).1;
          }
    unfolding on_received redis_id_key
    redelivery_suppressed m again deadline c b s s' acked named decoded untouched soon answered
          taken =
        ground (
          arith,
          ack_marks m s acked,
          x.exists_live (redis_id_key m) s'.world b answered,
          named,
          decoded,
        )

    -- What the read task counts for one message: one received; at most one duplicate, and at most
    -- one error; acknowledgements are none of its business, and a cancelled token stays cancelled.
    pub on_received_metrics :
        (subscription_name : Text) (deadline : ℤ) (msg : M) (s : State W)
        → let s' = on_received redis pubsub deserialize send subscription_name deadline msg s in
          (s'.metrics.received ≡ suc s.metrics.received)
          × (s.metrics.duplicates ≤ s'.metrics.duplicates)
          × (s'.metrics.duplicates ≤ suc s.metrics.duplicates)
          × (s.metrics.error_raised ≤ s'.metrics.error_raised)
          × (s'.metrics.error_raised ≤ suc s.metrics.error_raised)
          × (s'.metrics.acks ≡ s.metrics.acks)
          × (s.cancelled ≡ true → s'.cancelled ≡ true)
    unfolding on_received
    on_received_metrics n d msg s = ground arith

    -- A message that Redis does not know goes to the consumer, decoded, exactly once.
    pub fresh_forwarded :
        (subscription_name : Text) (deadline : ℤ) (msg : M) (m : GcpMessage T M) (s : State W)
        → decode redis pubsub deserialize subscription_name msg deadline ≡ ok m
        → (redis.exists (redis_id_key m) s.world).0 ≡ ok false
        → on_received redis pubsub deserialize send subscription_name deadline msg s
          ≡ forward_message redis pubsub deserialize send
              (ok m)
              (record (count_received s) { world = (redis.exists (redis_id_key m) s.world).1 })
    unfolding on_received
    fresh_forwarded n d msg m s decoded unknown = ground arith
