-- ===== src/Infrastructure/Gcp/Publisher/Upserts.antt =====
-- The identifier that `PeekableGcpPublisher` keeps in Redis, against the contract of its clients.
use axelar_relayer_core.Base.{
  ℕ, ◌≡◌, ◌⊎◌, inl, inr, Option, none, some, List, Text, Result, ok, arith, Result-cases,
}
use axelar_relayer_core.Infrastructure.Interfaces.{QueueMsgId, PeekablePublisher}
use axelar_relayer_core.Infrastructure.Gcp.Defs.{GcpError, MessageContent, Redis, PubSub, Stores}
use axelar_relayer_core.Infrastructure.Gcp.KvStore
use axelar_relayer_core.Infrastructure.Gcp.KvStore.{Codec}
use axelar_relayer_core.Infrastructure.Gcp.KvStore.Laws.{RoundTrips, upsert_stores}
use axelar_relayer_core.Infrastructure.Gcp.Publisher.{State, peek_last, world_of}
use axelar_relayer_core.Infrastructure.Gcp.Publisher.Contract.{gcp_publisher}
use axelar_relayer_core.Infrastructure.Gcp.Publisher.Topic.{ReadsBack, Arrives}
use axelar_relayer_core.Infrastructure.Gcp.Publisher.Delivery.{recalled, Keeps}

module _ {T X W M H MsgId : Type 0} (inject_context : (Text → Option Text) → Text → Option Text)
    (to_vec : MessageContent T → Result X (List ℕ))
    (from_slice : List ℕ → Result X (MessageContent T)) (pubsub : PubSub W X M H)
    (q : QueueMsgId T MsgId) (redis : Redis W X) (codec : Codec MsgId X) (key : Text)
    (st : Stores redis pubsub) (a : Arrives redis pubsub st) (rt : RoundTrips codec)
    (reads_back : ReadsBack to_vec from_slice) where
  abbrev pub recalled_id : W → Option MsgId
  recalled_id w =
      recalled inject_context to_vec from_slice pubsub q redis codec key st a rt reads_back
        (st.stored key w)

  abbrev pub Kept : W → W → Type 0
  Kept = Keeps inject_context to_vec from_slice pubsub q redis codec key st a rt reads_back

  abbrev pub upserted : MsgId → KvStore.State W → Result (GcpError X) (Unit {0}) × KvStore.State W
  upserted v s = KvStore.upsert redis codec key v s

  pub upsert-Kept : (v : MsgId) (s : KvStore.State W) → Kept s.world (upserted v s).1.world
  unfolding KvStore.upsert
  upsert-Kept v s m i = elim (Result-cases (codec.to_vec v)) [
    | inr (e, bad) ↦ ground (arith, bad, i)
    | inl (b, good) ↦ elim (Result-cases (redis.set key b s.world).0) [
      | inr (e, bad) ↦ ground (arith, good, bad, a.set_keeps key b s.world m i)
      | inl (u, set) ↦ ground (arith, good, set, a.set_keeps key b s.world m i)
    ]
  ]

  pub upsert_recalled :
      (v : MsgId) (s : KvStore.State W)
      → (upserted v s).0 ≡ ok tt
      → recalled_id (upserted v s).1.world ≡ some v
  upsert_recalled v s e =
      let (b, encoded, held) = upsert_stores redis pubsub st codec rt key v s e in
      ground (arith, held, rt.from_slice-to_vec v b encoded)

  -- An upsert that fails has set the value or not.
  pub upsert_either :
      (v : MsgId) (s : KvStore.State W)
      → (recalled_id (upserted v s).1.world ≡ recalled_id s.world)
        ⊎ (recalled_id (upserted v s).1.world ≡ some v)
  unfolding KvStore.upsert
  upsert_either v s = elim (Result-cases (codec.to_vec v)) [
    | inr (e, bad) ↦ inl (ground (arith, bad))
    | inl (b, good) ↦ elim (Result-cases (redis.set key b s.world).0) [
      | inr (e, bad) ↦ elim (a.set_fails key b s.world e bad) [
        | inl same ↦ inl (ground (arith, good, bad, same))
        | inr new ↦ inr (ground (arith, good, bad, new, rt.from_slice-to_vec v b good))
      ]
      | inl (u, set) ↦
          inr (ground (arith, good, set, st.set_sets key b s.world, rt.from_slice-to_vec v b good))
    ]
  ]

  abbrev gcp : PeekablePublisher (State W) (GcpError X) T MsgId Text
  gcp = gcp_publisher inject_context to_vec pubsub q redis codec key

  pub peeked :
      (s : State W) (o : Option MsgId) → (gcp.peek_last s).0 ≡ ok o → o ≡ recalled_id (world_of s)
  unfolding peek_last KvStore.get KvStore.read_value
  peeked s o e =
      let w = world_of s in
      elim (Result-cases (redis.get key w).0) [
        | inr (x, bad) ↦ ground (arith, e, bad)
        | inl (none, got) ↦ ground (arith, e, got, st.get_reads key w none got)
        | inl (some b, got) ↦ elim (Result-cases (codec.from_slice b)) [
          | inr (x, bad) ↦ ground (arith, e, got, bad)
          | inl (v, read) ↦ ground (arith, e, got, read, st.get_reads key w (some b) got)
        ]
      ]

  -- `peek_last` does with the world what the read of the key does.
  pub peek_world : (s : State W) → world_of (gcp.peek_last s).1 ≡ (redis.get key (world_of s)).1
  unfolding peek_last KvStore.get KvStore.read_value
  peek_world s = elim (Result-cases (redis.get key (world_of s)).0) [
    | inr (x, bad) ↦ ground (arith, bad)
    | inl (none, got) ↦ ground (arith, got)
    | inl (some b, got) ↦ elim (Result-cases (codec.from_slice b)) [
      | inr (x, bad) ↦ ground (arith, got, bad)
      | inl (v, read) ↦ ground (arith, got, read)
    ]
  ]
