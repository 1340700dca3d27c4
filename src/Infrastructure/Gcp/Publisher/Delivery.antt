-- ===== src/Infrastructure/Gcp/Publisher/Delivery.antt =====
-- `PeekableGcpPublisher` delivers batches as a subscriber needs it: the last message that it remembers
-- has been delivered, with all before it.
use axelar_relayer_core.Base.{
  ℕ, ◌≡◌, refl, sym, ◌∙◌, subst, inl, inr, Option, none, some, List, [], ◌∷◌, In, map, Text, Result,
  ok, err, arith, Result-cases,
}
use axelar_relayer_core.Infrastructure.Interfaces.{PublishMessage, QueueMsgId, PeekablePublisher}
use axelar_relayer_core.Infrastructure.Gcp.Defs.{GcpError, MessageContent, Redis, PubSub, Stores}
use axelar_relayer_core.Infrastructure.Gcp.KvStore.{Codec}
use axelar_relayer_core.Infrastructure.Gcp.KvStore.Laws.{RoundTrips}
use axelar_relayer_core.Infrastructure.Gcp.Publisher.{
  State, publish_batch, confirm_all, confirm_one, world_of, with_world, to_pubsub_messages,
}
use axelar_relayer_core.Infrastructure.Gcp.Publisher.Contract.{gcp_publisher, confirm_all_frame}
use axelar_relayer_core.Infrastructure.Gcp.Publisher.Topic.{
  ReadsBack, Sent, Arrives, contents_of, contents_of-grows, contents_of-bulk,
}

module _ {T X W M H MsgId : Type 0} (inject_context : (Text → Option Text) → Text → Option Text)
    (to_vec : MessageContent T → Result X (List ℕ))
    (from_slice : List ℕ → Result X (MessageContent T)) (pubsub : PubSub W X M H)
    (q : QueueMsgId T MsgId) (redis : Redis W X) (codec : Codec MsgId X) (key : Text)
    (st : Stores redis pubsub) (a : Arrives redis pubsub st) (rt : RoundTrips codec)
    (reads_back : ReadsBack to_vec from_slice) where
  abbrev pub delivered : State W → List T
  delivered s = contents_of from_slice (a.arrived (world_of s))

  -- The identifier in the bytes that Redis holds.
  abbrev pub recalled : Option (List ℕ) → Option MsgId
  recalled none = none
  recalled (some b) = elim (codec.from_slice b) [ err e ↦ none | ok v ↦ some v ]

  abbrev pub remembered : State W → Option MsgId
  remembered s = recalled (st.stored key (world_of s))

  abbrev pub queue : PeekablePublisher (State W) (GcpError X) T MsgId Text
  queue = gcp_publisher inject_context to_vec pubsub q redis codec key

  abbrev pub Keeps : W → W → Type 0
  Keeps w w' = (m : Sent) → In m (a.arrived w) → In m (a.arrived w')

  confirm_one-Keeps :
      (h : H) (s : State W)
      → Keeps (world_of s) (world_of (confirm_one inject_context to_vec pubsub h s).1)
  unfolding confirm_one
  confirm_one-Keeps h s m i = elim (Result-cases (pubsub.confirm h (world_of s)).0) [
    | inl (u, good) ↦ ground (arith, good, a.confirm_keeps h (world_of s) m i)
    | inr (e, bad) ↦ ground (arith, bad, a.confirm_keeps h (world_of s) m i)
  ]

  confirm_all-Keeps :
      (hs : List H) (s : State W)
      → Keeps (world_of s) (world_of (confirm_all inject_context to_vec pubsub hs s).1)
  unfolding confirm_all
  confirm_all-Keeps [] s m i = i
  confirm_all-Keeps (h ∷ hs) s m i =
      let (r, s') = confirm_one inject_context to_vec pubsub h s in
      let first = confirm_one-Keeps h s m i in
      elim (Result-cases r) [
        | inr (e, bad) ↦ ground (arith, bad, first)
        | inl (u, good) ↦ elim (Result-cases (confirm_all inject_context to_vec pubsub hs s').0) [
          | inr (e, bad) ↦ ground (arith, good, bad, confirm_all-Keeps hs s' m first)
          | inl (v, all) ↦ ground (arith, good, all, confirm_all-Keeps hs s' m first)
        ]
      ]

  confirm_one_arrives :
      (h : H) (s : State W) (id : Text)
      → (confirm_one inject_context to_vec pubsub h s).0 ≡ ok id
      → In (a.message_of h) (a.arrived (world_of (confirm_one inject_context to_vec pubsub h s).1))
  unfolding confirm_one
  confirm_one_arrives h s id e = elim (Result-cases (pubsub.confirm h (world_of s)).0) [
    | inl (u, good) ↦ ground (arith, good, a.confirm_arrives h (world_of s) u good)
    | inr (x, bad) ↦ ground (arith, e, bad)
  ]

  -- Every message whose handle has been confirmed has arrived.
  confirm_all_arrives :
      (hs : List H) (s : State W) (out : List Text)
      → (confirm_all inject_context to_vec pubsub hs s).0 ≡ ok out
      → (m : Sent) → In m (map a.message_of hs)
      → In m (a.arrived (world_of (confirm_all inject_context to_vec pubsub hs s).1))
  unfolding confirm_all
  confirm_all_arrives [] s out e m i = absurd i
  confirm_all_arrives (h ∷ hs) s out e m i =
      let (r, s') = confirm_one inject_context to_vec pubsub h s in
      elim (Result-cases r) [
        | inr (x, bad) ↦ ground (arith, e, bad)
        | inl (id, good) ↦ elim (Result-cases (confirm_all inject_context to_vec pubsub hs s').0) [
          | inr (x, bad) ↦ ground (arith, e, good, bad)
          | inl (v, all) ↦ elim i [
            | inl same ↦
                let here = confirm_all-Keeps hs s' m (
                  subst (λ x. In x (a.arrived (world_of s'))) same
                    (confirm_one_arrives h s id good)) in
                ground (arith, good, all, here)
            | inr j ↦ ground (arith, good, all, confirm_all_arrives hs s' v all m j)
          ]
        ]
      ]

  -- What publishing a batch does, whatever its result.
  pub record Published (batch : List (PublishMessage T)) (s : State W)
      (out : Result (GcpError X) (List Text) × State W) : Type 0 where
    pub held : st.stored key (world_of out.1) ≡ st.stored key (world_of s)
    pub kept : Keeps (world_of s) (world_of out.1)
    pub all_there :
        (r : List Text) (t : T)
        → out.0 ≡ ok r
        → In t (map (λ m. m.content) batch)
        → In t (delivered out.1)

  abbrev bulk_confirmed : List Sent → State W → Result (GcpError X) (List Text) × State W
  bulk_confirmed bulk s =
      let (handles, w) = pubsub.publish_bulk bulk (world_of s) in
      confirm_all inject_context to_vec pubsub handles (with_world w s)

  -- A batch that could be encoded is published as its handles are confirmed.
  publish_batch-bulk :
      (n : PublishMessage T) (ns : List (PublishMessage T)) (s : State W) (bulk : List Sent)
      → to_pubsub_messages inject_context to_vec (n ∷ ns) ≡ ok bulk
      → publish_batch inject_context to_vec pubsub (n ∷ ns) s ≡ bulk_confirmed bulk s
  unfolding publish_batch
  publish_batch-bulk n ns s bulk good = elim (Result-cases (bulk_confirmed bulk s).0) [
    | inl (v, all) ↦ ground (arith, good, all)
    | inr (e, bad) ↦ ground (arith, good, bad)
  ]

  publish_batch_unencoded :
      (n : PublishMessage T) (ns : List (PublishMessage T)) (s : State W) (e : GcpError X)
      → to_pubsub_messages inject_context to_vec (n ∷ ns) ≡ err e
      → publish_batch inject_context to_vec pubsub (n ∷ ns) s ≡ (err e, s)
  unfolding publish_batch
  publish_batch_unencoded n ns s e bad = ground (arith, bad)

  pub publish_batch-Published :
      (batch : List (PublishMessage T)) (s : State W)
      → Published batch s (publish_batch inject_context to_vec pubsub batch s)
  unfolding publish_batch
  publish_batch-Published [] s = record {
    held = refl;
    kept = λ m i. i;
    all_there = λ r t e i. absurd i;
  }
  publish_batch-Published (n ∷ ns) s =
      elim (Result-cases (to_pubsub_messages inject_context to_vec (n ∷ ns))) [
        | inr (e, bad) ↦
            rw (publish_batch_unencoded n ns s e bad)
              (record { held = refl; kept = λ m i. i; all_there = λ r t e' i. ground (arith, e') })
        | inl (bulk, good) ↦
            let (hs, w) = pubsub.publish_bulk bulk (world_of s) in
            rw (publish_batch-bulk n ns s bulk good) (record {
              held =
                  confirm_all_frame inject_context to_vec pubsub q redis codec key st rt hs
                    (with_world w s)
                  ∙ st.bulk_frame key bulk (world_of s);
              kept = λ m i.
                  confirm_all-Keeps hs (with_world w s) m (a.bulk_keeps bulk (world_of s) m i);
              all_there = λ r t e i.
                  contents_of-grows from_slice bulk (a.arrived (world_of (bulk_confirmed bulk s).1))
                    (λ m j.
                      confirm_all_arrives hs (with_world w s) r e m
                        (subst (λ l. In m l) (sym (a.bulk_handles bulk (world_of s))) j))
                    t
                    (subst (λ l. In t l)
                      (sym (
                        contents_of-bulk inject_context to_vec from_slice reads_back (n ∷ ns) bulk
                          good))
                      i);
            })
      ]
