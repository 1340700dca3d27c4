-- ===== src/Infrastructure/Nats/Consumer.antt =====
-- crates/infrastructure/src/nats/consumer.rs: `NatsMessage` and `NatsConsumer`. What the code uses of
-- a JetStream consumer and its messages is the parameter `Push`; `deserialize` is borsh.
use axelar_relayer_core.Base.{
  ℕ, ◌≡◌, refl, List, [], ◌∷◌, length, Result, ok, err, Eff, ◌>>=◌, pure, arith,
}
use axelar_relayer_core.Infrastructure.Interfaces.{AckKind}
use axelar_relayer_core.Infrastructure.Nats.Defs.{
  NatsError, deserialize_failed, messages_failed, messages_stream, ack_failed,
}
use axelar_relayer_core.Infrastructure.Nats.Publisher.{with_err}

-- `jetstream::AckKind`; the delay of a `Nak` is never given.
pub data JetStreamAck : Type 0 where
  ack nak progress : JetStreamAck

-- `impl From<interfaces::consumer::AckKind> for jetstream::AckKind`.
unfoldable pub from_kind : AckKind → JetStreamAck
from_kind AckKind.ack = JetStreamAck.ack
from_kind AckKind.nak = JetStreamAck.nak
from_kind AckKind.progress = JetStreamAck.progress

pub record Push (W X M : Type 0) : Type 0 where
  pub payload : M → List ℕ
  pub ack_with : M → JetStreamAck → Eff W X (Unit {0})
  -- The messages that the stream yields, some of them errors.
  pub messages : Eff W X (List (Result X M))
  pub info : Eff W X (Unit {0})

pub record NatsMessage (T M : Type 0) : Type 0 where
  pub decoded : T
  pub msg : M

module _ {W X T M : Type 0} (push : Push W X M) (deserialize : List ℕ → Result X T) where
  -- `NatsMessage::decode`.
  unfoldable pub decode : M → Result (NatsError X) (NatsMessage T M)
  decode msg = elim (deserialize (push.payload msg)) [
    | err e ↦ err (deserialize_failed e)
    | ok decoded ↦ ok (record { decoded = decoded; msg = msg })
  ]

  -- `QueueMessage::ack`.
  unfoldable pub ack_message : AckKind → NatsMessage T M → Eff W (NatsError X) (Unit {0})
  unfolding from_kind
  ack_message kind m w = with_err ack_failed (push.ack_with m.msg (from_kind kind)) w

  -- The closure of `stream.then`, and the stream.
  unfoldable pub decode_item : Result X M → Result (NatsError X) (NatsMessage T M)
  unfolding decode
  decode_item (ok msg) = decode msg
  decode_item (err e) = err (messages_failed e)

  unfoldable pub decode_all : List (Result X M) → List (Result (NatsError X) (NatsMessage T M))
  decode_all [] = []
  decode_all (r ∷ rs) = decode_item r ∷ decode_all rs

  -- `Consumer::messages`.
  unfoldable pub messages : Eff W (NatsError X) (List (Result (NatsError X) (NatsMessage T M)))
  messages w = (do stream ← with_err messages_stream push.messages; pure (decode_all stream)) w

  -- `Consumer::check_health`: the error is logged.
  unfoldable pub check_health : Eff W (NatsError X) (Unit {0})
  check_health w = (ok tt, (push.info w).1)

  -- The consumer reports that it is healthy whatever the server answers, an error among them.
  pub check_health_blind : (w : W) → (check_health w).0 ≡ ok tt
  unfolding check_health
  check_health_blind w = refl

  decode_all-length : (rs : List (Result X M)) → length (decode_all rs) ≡ length rs
  unfolding decode_all
  decode_all-length [] = refl
  decode_all-length (r ∷ rs) = ground (arith, decode_all-length rs)

  -- The stream that a consumer is given has one item for each item of the server's stream: a message
  -- that cannot be decoded becomes an error, and is not dropped.
  pub messages_length :
      (w : W) (raw : List (Result X M)) (out : List (Result (NatsError X) (NatsMessage T M)))
      → (push.messages w).0 ≡ ok raw
      → (messages w).0 ≡ ok out
      → length out ≡ length raw
  unfolding messages
  messages_length w raw out e h = ground (arith, decode_all-length raw)
