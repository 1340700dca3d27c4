-- ===== src/Infrastructure/Gcp/Publisher/Counts.antt =====
-- What the publishers count.
use axelar_relayer_core.Base.{
  ℕ, ◌+◌, ◌≡◌, refl, Option, List, [], ◌∷◌, Text, length, Result, ok, arith, inl, inr, Result-cases,
}
use axelar_relayer_core.Infrastructure.Interfaces.{PublishMessage, QueueMsgId}
use axelar_relayer_core.Infrastructure.Gcp.Defs.{GcpError, MessageContent, Redis, PubSub}
use axelar_relayer_core.Infrastructure.Gcp.KvStore.{Codec}
use axelar_relayer_core.Infrastructure.Gcp.Publisher.{
  State, to_pubsub_messages, confirm_one, confirm_all, publish, publish_batch, peekable_publish,
  peekable_publish_batch, world_of, with_world,
}

module _ {T X W M H : Type 0} (inject_context : (Text → Option Text) → Text → Option Text)
    (to_vec : MessageContent T → Result X (List ℕ)) (pubsub : PubSub W X M H) where
  abbrev batch_of : List (PublishMessage T) → State W → Result (GcpError X) (List Text) × State W
  batch_of = publish_batch inject_context to_vec pubsub

  confirm_all_errors :
      (hs : List H) (s : State W)
      → (confirm_all inject_context to_vec pubsub hs s).1.metrics.error_raised
        ≡ s.metrics.error_raised
  unfolding confirm_all confirm_one
  confirm_all_errors [] s = refl
  confirm_all_errors (h ∷ hs) s =
      ground (arith, confirm_all_errors hs (confirm_one inject_context to_vec pubsub h s).1)

  confirm_all_published :
      (hs : List H) (s : State W) (out : List Text)
      → (confirm_all inject_context to_vec pubsub hs s).0 ≡ ok out
      → (length out ≡ length hs)
        × ((confirm_all inject_context to_vec pubsub hs s).1.metrics.published
            ≡ s.metrics.published + length out)
  unfolding confirm_all confirm_one
  confirm_all_published [] s out e = ground arith
  confirm_all_published (h ∷ hs) s out e =
      let first = confirm_one inject_context to_vec pubsub h s in
      let rest = confirm_all inject_context to_vec pubsub hs first.1 in
      elim (Result-cases rest.0) [
        | inr (x, bad) ↦ ground (arith, bad)
        | inl (out', good) ↦ ground (arith, good, confirm_all_published hs first.1 out' good)
      ]

  publish_batch_errors :
      (batch : List (PublishMessage T)) (s : State W)
      → (batch_of batch s).1.metrics.error_raised ≡ s.metrics.error_raised
  unfolding publish_batch
  publish_batch_errors [] s = refl
  publish_batch_errors (m ∷ ms) s =
      elim (Result-cases (to_pubsub_messages inject_context to_vec (m ∷ ms))) [
        | inr (e, bad) ↦ ground (arith, bad)
        | inl (bulk, good) ↦
            let (hs, w) = pubsub.publish_bulk bulk (world_of s) in
            ground (arith, good, confirm_all_errors hs (with_world w s))
      ]

  -- The publishers never count an error, however publishing ends: the early returns leave the
  -- functions before the check that would count it.
  pub publish_errors_uncounted :
      {MsgId : Type 0} (q : QueueMsgId T MsgId) (redis : Redis W X) (codec : Codec MsgId X)
      (key : Text) (msg : PublishMessage T) (batch : List (PublishMessage T)) (s : State W)
      → let one = peekable_publish inject_context to_vec pubsub q redis codec key msg s in
        let many = peekable_publish_batch inject_context to_vec pubsub q redis codec key batch s in
        (one.1.metrics.error_raised ≡ s.metrics.error_raised)
        × (many.1.metrics.error_raised ≡ s.metrics.error_raised)
  unfolding peekable_publish peekable_publish_batch publish confirm_one
  publish_errors_uncounted q redis codec key msg batch s =
      (ground arith, ground (arith, publish_batch_errors batch s))

  to_pubsub_messages-length :
      (batch : List (PublishMessage T)) (bulk : List (List ℕ × (Text → Option Text)))
      → to_pubsub_messages inject_context to_vec batch ≡ ok bulk
      → length bulk ≡ length batch
  unfolding to_pubsub_messages
  to_pubsub_messages-length [] bulk e = ground arith
  to_pubsub_messages-length (m ∷ ms) bulk e =
      elim (Result-cases (to_pubsub_messages inject_context to_vec ms)) [
        | inr (x, bad) ↦ ground (arith, bad)
        | inl (bs, good) ↦ ground (arith, good, to_pubsub_messages-length ms bs good)
      ]

  -- Where Pub/Sub gives out one handle for each message, a batch that is published yields one
  -- identifier for each of its messages, and each of them has been counted.
  pub publish_batch_counts :
      (handles : (ms : List (List ℕ × (Text → Option Text))) (w : W)
        → length (pubsub.publish_bulk ms w).0 ≡ length ms)
      (batch : List (PublishMessage T)) (s : State W) (out : List Text)
      → (batch_of batch s).0 ≡ ok out
      → (length out ≡ length batch)
        × ((batch_of batch s).1.metrics.published ≡ s.metrics.published + length batch)
  unfolding publish_batch
  publish_batch_counts handles [] s out e = ground arith
  publish_batch_counts handles (m ∷ ms) s out e =
      elim (Result-cases (to_pubsub_messages inject_context to_vec (m ∷ ms))) [
        | inr (x, bad) ↦ ground (arith, bad)
        | inl (bulk, good) ↦
            let (hs, w) = pubsub.publish_bulk bulk (world_of s) in
            ground (
              arith,
              good,
              handles bulk (world_of s),
              to_pubsub_messages-length (m ∷ ms) bulk good,
              confirm_all_published hs (with_world w s) out,
            )
      ]
