-- ===== src/Infrastructure/Gcp/Publisher/Contract.antt =====
-- The publisher against the contract of its clients: the last identifier that it remembers.
use axelar_relayer_core.Base.{
  ℕ, ◌≡◌, refl, Option, some, List, [], ◌∷◌, Text, last, Result, ok, err, arith, inl, inr,
  Result-cases, some,
}
use axelar_relayer_core.Infrastructure.Interfaces.{
  PublishMessage, QueueMsgId, PeekablePublisher, RemembersLast,
}
use axelar_relayer_core.Infrastructure.Gcp.Defs.{GcpError, MessageContent, Redis, PubSub, Stores}
use axelar_relayer_core.Infrastructure.Gcp.KvStore
use axelar_relayer_core.Infrastructure.Gcp.KvStore.{Codec}
use axelar_relayer_core.Infrastructure.Gcp.KvStore.Laws.{RoundTrips, upsert_stores, get_stored}
use axelar_relayer_core.Infrastructure.Gcp.Publisher.{
  State, publish_batch, peekable_publish_batch, peek_last, confirm_all, confirm_one, world_of,
  with_world, to_pubsub_messages,
}

module _ {T X W M H MsgId : Type 0} (inject_context : (Text → Option Text) → Text → Option Text)
    (to_vec : MessageContent T → Result X (List ℕ)) (pubsub : PubSub W X M H)
    (q : QueueMsgId T MsgId) (redis : Redis W X) (codec : Codec MsgId X) (key : Text) where
  -- `PeekableGcpPublisher` as a publisher for a subscriber.
  abbrev pub gcp_publisher : PeekablePublisher (State W) (GcpError X) T MsgId Text
  gcp_publisher = record {
    publish_batch = peekable_publish_batch inject_context to_vec pubsub q redis codec key;
    peek_last = peek_last inject_context to_vec pubsub q redis codec key;
  }

  module _ (st : Stores redis pubsub) (rt : RoundTrips codec) where
    remembers_last :
        (batch : List (PublishMessage T)) (m : PublishMessage T) (s : State W) (r : List Text)
        (o : Option MsgId)
        → last batch ≡ some m
        → (gcp_publisher.publish_batch batch s).0 ≡ ok r
        → (gcp_publisher.peek_last (gcp_publisher.publish_batch batch s).1).0 ≡ ok o
        → o ≡ some (q.id m.content)
    unfolding peekable_publish_batch peek_last
    remembers_last batch m s r o e published peeked =
        let (res, s') = publish_batch inject_context to_vec pubsub batch s in
        elim (Result-cases res) [
          | inr (x, bad) ↦ ground (arith, e, bad)
          | inl (out, sent) ↦
              let saved = KvStore.upsert redis codec key (q.id m.content) s'.store in
              elim (Result-cases saved.0) [
                | inr (x, bad) ↦ ground (arith, e, sent, bad)
                | inl (u, done) ↦
                    let (b, encoded, held) =
                      upsert_stores redis pubsub st codec rt key (q.id m.content) s'.store done in
                    let read = KvStore.get redis codec key saved.1 in
                    elim (Result-cases read.0) [
                      | inr (x, bad) ↦ ground (arith, e, sent, done, bad)
                      | inl (v, got) ↦
                          let same =
                            get_stored redis pubsub st codec rt key (q.id m.content) b saved.1 v
                              encoded held got in
                          ground (arith, e, sent, done, got, same)
                    ]
              ]
        ]

    -- The publisher keeps the contract: after a batch has been published, the next `peek_last` that
    -- succeeds returns the identifier of the batch's last message.
    pub gcp_publisher-RemembersLast : RemembersLast q gcp_publisher
    gcp_publisher-RemembersLast = record { remembers = remembers_last }

    pub confirm_all_frame :
        (hs : List H) (s : State W)
        → st.stored key (world_of (confirm_all inject_context to_vec pubsub hs s).1)
          ≡ st.stored key (world_of s)
    unfolding confirm_all confirm_one
    confirm_all_frame [] s = refl
    confirm_all_frame (h ∷ hs) s = ground (
      arith,
      st.confirm_frame key h (world_of s),
      confirm_all_frame hs (confirm_one inject_context to_vec pubsub h s).1,
    )

    -- A batch that could not be published, because a message could not be encoded or was not
    -- confirmed, fails with that error and leaves the identifier that the store holds as it was.
    pub failed_batch_keeps_last :
        (batch : List (PublishMessage T)) (m : PublishMessage T) (s : State W) (x : GcpError X)
        → last batch ≡ some m
        → (publish_batch inject_context to_vec pubsub batch s).0 ≡ err x
        → ((gcp_publisher.publish_batch batch s).0 ≡ err x)
          × (st.stored key (world_of (gcp_publisher.publish_batch batch s).1)
              ≡ st.stored key (world_of s))
    unfolding peekable_publish_batch publish_batch
    failed_batch_keeps_last [] m s x e failed = ground arith
    failed_batch_keeps_last (n ∷ ns) m s x e failed =
        elim (Result-cases (to_pubsub_messages inject_context to_vec (n ∷ ns))) [
          | inr (y, bad) ↦ ground (arith, e, bad)
          | inl (bulk, good) ↦
              let (hs, w) = pubsub.publish_bulk bulk (world_of s) in
              ground (
                arith,
                e,
                good,
                st.bulk_frame key bulk (world_of s),
                confirm_all_frame hs (with_world w s),
              )
        ]
