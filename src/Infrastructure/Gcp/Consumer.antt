-- ===== src/Infrastructure/Gcp/Consumer.antt =====
-- crates/infrastructure/src/gcp/consumer.rs: a received message, its acknowledgement, and the
-- handler that the read task runs for each message. `borsh` is the parameter `deserialize`; the
-- channel to the consumer is the parameter `send`, which fails when the receiver is gone.
pub mod Dedup
pub mod Deadline
use axelar_relayer_core.Base.{
  ℕ, suc, ◌+◌, ◌*◌, Bool, true, false, List, [], ◌∷◌, ◌++◌, Option, none, some, Text, codes, Result,
  ok, err, map_err, is_err, Eff, ◌>>=◌, ◌>>◌, pure, if◌then◌else◌,
}
use axelar_relayer_core.Base.Int.{ℤ, checked_double_i32, unwrap_or_ℤ}
use axelar_relayer_core.Infrastructure.Interfaces.{AckKind}
use axelar_relayer_core.Infrastructure.Gcp.Defs.{
  GcpError, ack_failed, nak_failed, modify_ack_deadline_failed, deserialize_failed, generic_redis,
  msg_id_not_set, consumer_read_task_exited, MessageContent, Redis, PubSub,
}

-- `TEN_MINUTES_IN_SECS`, and `MSG_ID` of publisher.rs.
abbrev pub ten_minutes_in_secs : ℕ
ten_minutes_in_secs = 60 * 10

abbrev pub msg_id : Text
msg_id = codes "Msg-Id"

-- The counters of `Metrics`.
pub record Metrics : Type 0 where
  pub received : ℕ
  pub duplicates : ℕ
  pub error_raised : ℕ
  pub acks : ℕ
  pub nacks : ℕ
  pub deadline_extensions : ℕ

-- `GcpMessage<T>`, without the handles on Redis and the metrics, which the state below holds.
pub record GcpMessage (T M : Type 0) : Type 0 where
  pub id : Text
  pub decoded : T
  pub subscription_name : Text
  pub msg : M
  pub ack_deadline_secs : ℤ

-- `redis_id_key`.
unfoldable pub redis_id_key : {T M : Type 0} → GcpMessage T M → Text
redis_id_key m = codes "dedup:" ++ (m.subscription_name ++ (codes ":id:" ++ m.id))

-- The metrics that the messages share, the services, and the token of the read task.
pub record State (W : Type 0) : Type 0 where
  pub metrics : Metrics
  pub world : W
  pub cancelled : Bool

-- A call of a service.
abbrev pub on_world : {W X A : Type 0} → Eff W X A → Eff (State W) X A
on_world m s = let (r, w) = m s.world in (r, record s { world = w })

abbrev pub with_err : {S E F A : Type 0} → (E → F) → Eff S E A → Eff S F A
with_err f m s = let (r, s') = m s in (map_err f r, s')

abbrev pub count_received : {W : Type 0} → State W → State W
count_received s = record s { metrics = record s.metrics { received = suc s.metrics.received } }

abbrev pub count_duplicate : {W : Type 0} → State W → State W
count_duplicate s = record s {
  metrics = record s.metrics { duplicates = suc s.metrics.duplicates };
}

abbrev pub count_error : {W : Type 0} → State W → State W
count_error s = record s {
  metrics = record s.metrics { error_raised = suc s.metrics.error_raised };
}

abbrev pub count_ack : {W : Type 0} → State W → State W
count_ack s = record s { metrics = record s.metrics { acks = suc s.metrics.acks } }

abbrev pub count_nack : {W : Type 0} → State W → State W
count_nack s = record s { metrics = record s.metrics { nacks = suc s.metrics.nacks } }

abbrev pub count_extension : {W : Type 0} → State W → State W
count_extension s = record s {
  metrics = record s.metrics { deadline_extensions = suc s.metrics.deadline_extensions };
}

-- A change of the state that cannot fail.
abbrev pub doing : {S E : Type 0} → (S → S) → Eff S E (Unit {0})
doing f s = (ok tt, f s)

-- An error is counted where it arises.
abbrev pub counting_err : {W E A : Type 0} → Eff (State W) E A → Eff (State W) E A
counting_err m s = let (r, s') = m s in (r, if is_err r then count_error s' else s')

module _ {W X T M H : Type 0} (redis : Redis W X) (pubsub : PubSub W X M H) where
  -- `QueueMessage::ack`. The message's deadline is changed before the call that can fail.
  unfoldable pub ack :
      AckKind
      → GcpMessage T M
      → State W
      → (Result (GcpError X) (Unit {0}) × State W) × GcpMessage T M
  ack AckKind.ack m s = (
    (do
      with_err ack_failed (on_world (pubsub.ack m.msg))
      doing count_ack
      _ ←
          with_err generic_redis
            (on_world (redis.set_ex (redis_id_key m) (codes "1") ten_minutes_in_secs))
      pure tt)
        s,
    m,
  )
  ack AckKind.nak m s = (
    (do counting_err (with_err nak_failed (on_world (pubsub.nack m.msg))); doing count_nack) s,
    m,
  )
  ack AckKind.progress m s =
      let deadline = unwrap_or_ℤ (checked_double_i32 m.ack_deadline_secs) m.ack_deadline_secs in
      (
        (do
          counting_err (
              with_err modify_ack_deadline_failed
                (on_world (pubsub.modify_ack_deadline m.msg deadline)))
          doing count_extension)
            s,
        record m { ack_deadline_secs = deadline },
      )

  -- `is_processed`.
  unfoldable pub is_processed : GcpMessage T M → Eff (State W) (GcpError X) Bool
  is_processed m = with_err generic_redis (on_world (redis.exists (redis_id_key m)))

  module _ (deserialize : List ℕ → Result X (MessageContent T)) where
    -- `GcpMessage::decode`.
    unfoldable pub decode : Text → M → ℤ → Result (GcpError X) (GcpMessage T M)
    decode subscription_name msg deadline = elim (pubsub.attributes msg msg_id) [
      | none ↦ err msg_id_not_set
      | some id ↦ elim (deserialize (pubsub.payload msg)) [
        | err e ↦ err (deserialize_failed e)
        | ok message_content ↦ ok (record {
          id = id;
          decoded = message_content.content;
          subscription_name = subscription_name;
          msg = msg;
          ack_deadline_secs = deadline;
        })
      ]
    ]

    module _ (send : Result (GcpError X) (GcpMessage T M) → W → Bool × W) where
      -- `forward_message`.
      unfoldable pub forward_message : Result (GcpError X) (GcpMessage T M) → State W → State W
      forward_message r s =
          let s' = if is_err r then count_error s else s in
          let (sent, w) = send r s'.world in
          let s'' = record s' { world = w } in if sent then s'' else record s'' { cancelled = true }

      -- The acknowledgement of a message that was processed before.
      unfoldable pub ack_duplicate : GcpMessage T M → State W → State W
      ack_duplicate m s =
          let (r, s') = with_err ack_failed (on_world (pubsub.ack m.msg)) s in
          elim r [ ok _ ↦ s' | err e ↦ forward_message (err e) s' ]

      -- The `match` on the answer of `is_processed`.
      unfoldable pub dispatch : GcpMessage T M → Result (GcpError X) Bool → State W → State W
      unfolding forward_message ack_duplicate
      dispatch m (ok true) s = ack_duplicate m (count_duplicate s)
      dispatch m (ok false) s = forward_message (ok m) s
      dispatch m (err e) s = forward_message (err e) s

      -- The closure that `start_read_messages_task` hands to `receive`.
      unfoldable pub on_received : Text → ℤ → M → State W → State W
      unfolding decode is_processed dispatch
      on_received subscription_name deadline msg s =
          let s' = count_received s in
          elim (decode subscription_name msg deadline) [
            | err e ↦ forward_message (err e) s'
            | ok m ↦ let (r, s'') = is_processed m s' in dispatch m r s''
          ]

-- `GcpConsumer::check_health` and the check of `messages`: the read task must still be running.
unfoldable pub check_health : {W X : Type 0} → Bool → Eff (State W) (GcpError X) (Unit {0})
check_health finished s =
    if finished then (err consumer_read_task_exited, count_error s) else (ok tt, s)
