-- ===== src/Infrastructure/Nats/Publisher.antt =====
-- crates/infrastructure/src/nats/publisher.rs: `NatsPublisher`. `borsh` is the pair of parameters
-- `to_vec` and `deserialize`.
pub mod Last
use axelar_relayer_core.Base.{
  ℕ, Bool, Option, none, some, List, [], ◌∷◌, Text, Result, ok, err, map_err, Eff, ◌>>=◌, ◌>>◌,
  pure, if◌then◌else◌, ◌==◌,
}
use axelar_relayer_core.Infrastructure.Interfaces.{PublishMessage, QueueMsgId}
use axelar_relayer_core.Infrastructure.Nats.Defs.{
  NatsError, serialize_failed, deserialize_failed, publish_failed, publisher_info, direct_get,
  PublishAck, JetStream,
}

abbrev pub with_err : {S E F A : Type 0} → (E → F) → Eff S E A → Eff S F A
with_err f m s = let (r, s') = m s in (map_err f r, s')

module _ {W X T MsgId : Type 0} (js : JetStream W X) (subject : Text)
    (to_vec : T → Result X (List ℕ)) (deserialize : List ℕ → Result X T)
    (q : QueueMsgId T MsgId) where
  -- A pure step that may fail.
  abbrev lift : {E A : Type 0} → Result E A → Eff W E A
  lift r s = (r, s)

  -- `NatsPublisher::publish`.
  unfoldable pub publish : PublishMessage T → Eff W (NatsError X) PublishAck
  publish msg w =
      (do
        payload ← lift (map_err serialize_failed (to_vec msg.content))
        with_err publish_failed (js.publish_with_headers subject msg.deduplication_id payload)
        with_err publish_failed js.await_ack)
        w

  -- `NatsPublisher::publish_batch`: one message after the other, up to the first that fails.
  unfoldable pub publish_batch : List (PublishMessage T) → Eff W (NatsError X) (List PublishAck)
  publish_batch [] w = (ok [], w)
  publish_batch (m ∷ ms) w = (do res ← publish m; output ← publish_batch ms; pure (res ∷ output)) w

  -- `NatsPublisher::check_health`.
  unfoldable pub check_health : Eff W (NatsError X) (Unit {0})
  check_health w = with_err publisher_info js.get_info w

  -- The message at a sequence number, decoded.
  unfoldable pub read_at : ℕ → Eff W (NatsError X) (Option MsgId)
  read_at n w =
      (do
        payload ← with_err direct_get (js.direct_get n)
        msg ← lift (map_err deserialize_failed (deserialize payload))
        pure (some (q.id msg)))
        w

  -- `NatsPublisher::peek_last`.
  unfoldable pub peek_last : Eff W (NatsError X) (Option MsgId)
  unfolding read_at
  peek_last w =
      (do n ← with_err publisher_info js.last_sequence; if n == 0 then pure none else read_at n) w
