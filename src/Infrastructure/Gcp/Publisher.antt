-- ===== src/Infrastructure/Gcp/Publisher.antt =====
-- crates/infrastructure/src/gcp/publisher.rs: `GcpPublisher` and `PeekableGcpPublisher`. The context
-- that OpenTelemetry injects into the headers, and `borsh`, are parameters. The durations of
-- `publish_duration` are not kept.
pub mod Counts
pub mod Contract
pub mod Topic
pub mod Delivery
pub mod Upserts
pub mod Parts
use mathlib.Core.Logic.{ite}
use axelar_relayer_core.Base.{
  ℕ, suc, Bool, Option, none, some, List, [], ◌∷◌, Text, codes, last, Text-discrete, Result, ok,
  err, map_err, is_err, Eff, ◌>>=◌, ◌>>◌, pure, if◌then◌else◌,
}
use axelar_relayer_core.Infrastructure.Interfaces.{
  PublishMessage, QueueMsgId, WithRevision, PeekablePublisher,
}
use axelar_relayer_core.Infrastructure.Gcp.Defs.{
  GcpError, publish_failed, serialize_failed, redis_ping, no_msg_to_publish, MessageContent, Redis,
  PubSub,
}
use axelar_relayer_core.Infrastructure.Gcp.KvStore
use axelar_relayer_core.Infrastructure.Gcp.KvStore.{Codec}

abbrev pub msg_id : Text
msg_id = codes "Msg-Id"

abbrev pub correlation_id : Text
correlation_id = codes "correlation-id"

pub record Metrics : Type 0 where
  pub published : ℕ
  pub error_raised : ℕ

-- The counters of the publisher, and the state of the store, which holds the world.
pub record State (W : Type 0) : Type 0 where
  pub metrics : Metrics
  pub store : KvStore.State W

abbrev pub record_publish : {W : Type 0} → State W → State W
record_publish s = record s { metrics = record s.metrics { published = suc s.metrics.published } }

abbrev pub record_error : {W : Type 0} → State W → State W
record_error s = record s {
  metrics = record s.metrics { error_raised = suc s.metrics.error_raised };
}

abbrev pub on_store : {W E A : Type 0} → Eff (KvStore.State W) E A → Eff (State W) E A
on_store m s = let (r, t) = m s.store in (r, record s { store = t })

abbrev pub world_of : {W : Type 0} → State W → W
world_of s = s.store.world

abbrev pub with_world : {W : Type 0} → W → State W → State W
with_world w s = record s { store = record s.store { world = w } }

-- `if res.is_err() { record_error() }; res`, behind a block whose every `?` has left the function.
abbrev pub count_if_err : {W E A : Type 0} → Result E A → Eff (State W) E A
count_if_err res s = (res, if is_err res then record_error s else s)

-- `HashMap::insert`, and the maps without entries and with one.
abbrev pub insert : (Text → Option Text) → Text → Text → Text → Option Text
insert m k v j = ite (Text-discrete k j) (some v) (m j)

abbrev pub no_entries : Text → Option Text
no_entries j = none

abbrev value_of : {MsgId : Type 0} → Option (WithRevision MsgId) → Option MsgId
value_of none = none
value_of (some data_at) = some data_at.value

module _ {T X : Type 0} (inject_context : (Text → Option Text) → Text → Option Text)
    (to_vec : MessageContent T → Result X (List ℕ)) where
  -- `to_pubsub_message`: the encoded message and its attributes.
  unfoldable pub to_pubsub_message :
      PublishMessage T → Result (GcpError X) (List ℕ × (Text → Option Text))
  to_pubsub_message msg =
      let message : MessageContent T = record {
        headers = insert (inject_context no_entries) correlation_id msg.deduplication_id;
        content = msg.content;
      } in
      elim (to_vec message) [
        | err e ↦ err (serialize_failed e)
        | ok encoded ↦ ok (encoded, insert no_entries msg_id msg.deduplication_id)
      ]

  -- `.map(to_pubsub_message).collect::<Result<Vec<_>, _>>()`.
  unfoldable pub to_pubsub_messages :
      List (PublishMessage T) → Result (GcpError X) (List (List ℕ × (Text → Option Text)))
  to_pubsub_messages [] = ok []
  to_pubsub_messages (m ∷ ms) = elim (to_pubsub_message m) [
    | err e ↦ err e
    | ok x ↦ elim (to_pubsub_messages ms) [ err e ↦ err e | ok xs ↦ ok (x ∷ xs) ]
  ]

  module _ {W M H : Type 0} (pubsub : PubSub W X M H) where
    -- `awaiter.get().await`, and the count of the confirmation.
    unfoldable pub confirm_one : H → Eff (State W) (GcpError X) Text
    confirm_one h s =
        let (r, w) = pubsub.confirm h (world_of s) in
        let s' = with_world w s in
        elim r [ err e ↦ (err (publish_failed e), s') | ok id ↦ (ok id, record_publish s') ]

    -- The loop over the handles of a batch.
    unfoldable pub confirm_all : List H → Eff (State W) (GcpError X) (List Text)
    confirm_all [] s = (ok [], s)
    confirm_all (h ∷ hs) s =
        (do res ← confirm_one h; output ← confirm_all hs; pure (res ∷ output)) s

    -- `GcpPublisher::publish`.
    unfoldable pub publish : PublishMessage T → Eff (State W) (GcpError X) Text
    publish msg s = elim (to_pubsub_message msg) [
      | err e ↦ (err e, s)
      | ok (encoded, attributes) ↦
          let (awaiter, w) = pubsub.publish encoded attributes (world_of s) in
          (do result ← confirm_one awaiter; count_if_err (ok result)) (with_world w s)
    ]

    -- `GcpPublisher::publish_batch`, with its early return for the empty batch.
    abbrev publish_bulk : List (PublishMessage T) → Eff (State W) (GcpError X) (List Text)
    publish_bulk batch s = elim (to_pubsub_messages batch) [
      | err e ↦ (err e, s)
      | ok bulk ↦
          let (publish_handles, w) = pubsub.publish_bulk bulk (world_of s) in
          (do output ← confirm_all publish_handles; count_if_err (ok output)) (with_world w s)
    ]

    unfoldable pub publish_batch : List (PublishMessage T) → Eff (State W) (GcpError X) (List Text)
    publish_batch [] s = (ok [], s)
    publish_batch (m ∷ ms) s = publish_bulk (m ∷ ms) s

    module _ {MsgId : Type 0} (q : QueueMsgId T MsgId) (redis : Redis W X) (codec : Codec MsgId X)
        (key : Text) where
      -- `PeekableGcpPublisher::publish`.
      unfoldable pub peekable_publish : PublishMessage T → Eff (State W) (GcpError X) Text
      peekable_publish msg s =
          (do
            published ← publish msg
            on_store (KvStore.upsert redis codec key (q.id msg.content))
            count_if_err (ok published))
            s

      -- `PeekableGcpPublisher::publish_batch`.
      unfoldable pub peekable_publish_batch :
          List (PublishMessage T) → Eff (State W) (GcpError X) (List Text)
      peekable_publish_batch batch s = elim (last batch) [
        | none ↦ (err no_msg_to_publish, s)
        | some last_msg ↦
            (do
              published ← publish_batch batch
              on_store (KvStore.upsert redis codec key (q.id last_msg.content))
              count_if_err (ok published))
              s
      ]

      -- `PeekableGcpPublisher::check_health`: `GcpPublisher::check_health` always succeeds, and the
      -- result of the ping is the block's value, so that an error of it is counted.
      unfoldable pub peekable_check_health : Eff (State W) (GcpError X) (Unit {0})
      peekable_check_health s =
          let (r, s') = on_store (KvStore.ping redis codec key) s in
          count_if_err (map_err redis_ping r) s'

      -- `PeekableGcpPublisher::peek_last`.
      unfoldable pub peek_last : Eff (State W) (GcpError X) (Option MsgId)
      peek_last s =
          let (r, s') = on_store (KvStore.get redis codec key) s in
          elim r [ err e ↦ (err e, record_error s') | ok o ↦ (ok (value_of o), s') ]
