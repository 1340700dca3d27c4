-- ===== src/Infrastructure/Nats/Defs.antt =====
-- crates/infrastructure/src/nats.rs: the errors, and what the code uses of a JetStream context,
-- stream, consumer and key-value bucket (async_nats), which is a parameter over a world `W`, with
-- errors `X`.
use axelar_relayer_core.Base.{ℕ, ◌≡◌, Bool, false, Option, some, List, Text, ok, Eff}

pub data NatsError (X : Type 0) : Type 0 where
  connect create_key_value put_failed deserialize_failed serialize_failed : X → NatsError X
  update_failed entry_failed create_stream publish_failed create_consumer : X → NatsError X
  messages_stream messages_failed consumer_info publisher_info direct_get : X → NatsError X
  ack_failed : X → NatsError X

-- `PublishAck`, as far as it matters: the server had seen the message's identifier before.
pub record PublishAck : Type 0 where
  pub sequence : ℕ
  pub duplicate : Bool

pub record JetStream (W X : Type 0) : Type 0 where
  -- Subject, `Nats-Msg-Id` and payload; then the wait for the acknowledgement.
  pub publish_with_headers : Text → Text → List ℕ → Eff W X (Unit {0})
  pub await_ack : Eff W X PublishAck
  -- `stream.info()`, its `last_sequence`.
  pub last_sequence : Eff W X ℕ
  pub direct_get : ℕ → Eff W X (List ℕ)
  pub get_info : Eff W X (Unit {0})

-- A stream keeps what is published to it, but for duplicates: `tail_of` is its last sequence number
-- and the payload stored there.
pub record Keeps {W X : Type 0} (js : JetStream W X) : Type 0 where
  pub tail_of : W → Option (ℕ × List ℕ)
  pub publish_appends :
      (subject id : Text) (payload : List ℕ) (w : W) (a : PublishAck)
      → (js.publish_with_headers subject id payload w).0 ≡ ok tt
      → (js.await_ack (js.publish_with_headers subject id payload w).1).0 ≡ ok a
      → a.duplicate ≡ false
      → tail_of (js.await_ack (js.publish_with_headers subject id payload w).1).1
        ≡ some (a.sequence, payload)
  pub last_sequence_reads :
      (w : W) (n k : ℕ) (payload : List ℕ)
      → tail_of w ≡ some (k, payload)
      → (js.last_sequence w).0 ≡ ok n
      → (n ≡ k) × (n ≡ 0 → ⊥) × (tail_of (js.last_sequence w).1 ≡ some (k, payload))
  pub direct_get_reads :
      (w : W) (k : ℕ) (payload bytes : List ℕ)
      → tail_of w ≡ some (k, payload)
      → (js.direct_get k w).0 ≡ ok bytes
      → bytes ≡ payload
