-- ===== src/Infrastructure/Gcp/Publisher/Parts.antt =====
-- `PeekableGcpPublisher` delivers a batch up to the identifier that it remembers afterwards.
use mathlib.Core.List.{append-nil}
use axelar_relayer_core.Base.{
  ℕ, ◌≡◌, refl, sym, ap, ◌∙◌, subst, inl, inr, Option, none, some, List, [], ◌∷◌, ◌++◌, In, map,
  last, Text, Result, ok, err, arith, Result-cases, Option-cases,
}
use axelar_relayer_core.Infrastructure.Interfaces.{
  newest, Delivers, PublishMessage, QueueMsgId, PeekablePublisher,
}
use axelar_relayer_core.Infrastructure.Gcp.Defs.{
  GcpError, no_msg_to_publish, MessageContent, Redis, PubSub, Stores,
}
use axelar_relayer_core.Infrastructure.Gcp.KvStore
use axelar_relayer_core.Infrastructure.Gcp.KvStore.{Codec}
use axelar_relayer_core.Infrastructure.Gcp.KvStore.Laws.{RoundTrips}
use axelar_relayer_core.Infrastructure.Gcp.Publisher.{
  State, publish_batch, peekable_publish_batch, world_of,
}
use axelar_relayer_core.Infrastructure.Gcp.Publisher.Contract.{gcp_publisher}
use axelar_relayer_core.Infrastructure.Gcp.Publisher.Topic.{ReadsBack, Arrives, contents_of-grows}
use axelar_relayer_core.Infrastructure.Gcp.Publisher.Delivery.{
  delivered, recalled, publish_batch-Published,
}
use axelar_relayer_core.Infrastructure.Gcp.Publisher.Upserts
use axelar_relayer_core.Infrastructure.Gcp.Publisher.Upserts.{
  peeked, peek_world, upsert-Kept, upsert_recalled, upsert_either,
}

newest-last :
    {T MsgId : Type 0} (id : T → MsgId) (batch : List (PublishMessage T)) (m : PublishMessage T)
    (o : Option MsgId)
    → last batch ≡ some m
    → newest id (map (λ n. n.content) batch) o ≡ some (id m.content)
newest-last id [] m o e = ground (arith, e)
newest-last id (n ∷ []) m o e = ground (arith, e)
newest-last id (n ∷ n' ∷ ns) m o e = newest-last id (n' ∷ ns) m (some (id n.content)) e

module _ {T X W M H MsgId : Type 0} (inject_context : (Text → Option Text) → Text → Option Text)
    (to_vec : MessageContent T → Result X (List ℕ))
    (from_slice : List ℕ → Result X (MessageContent T)) (pubsub : PubSub W X M H)
    (q : QueueMsgId T MsgId) (redis : Redis W X) (codec : Codec MsgId X) (key : Text)
    (st : Stores redis pubsub) (a : Arrives redis pubsub st) (rt : RoundTrips codec)
    (reads_back : ReadsBack to_vec from_slice) where
  abbrev recalled_id : W → Option MsgId
  recalled_id =
      Upserts.recalled_id inject_context to_vec from_slice pubsub q redis codec key st a rt
        reads_back

  abbrev recalls : Option (List ℕ) → Option MsgId
  recalls = recalled inject_context to_vec from_slice pubsub q redis codec key st a rt reads_back

  abbrev Kept : W → W → Type 0
  Kept = Upserts.Kept inject_context to_vec from_slice pubsub q redis codec key st a rt reads_back

  abbrev upserted : MsgId → KvStore.State W → Result (GcpError X) (Unit {0}) × KvStore.State W
  upserted =
      Upserts.upserted inject_context to_vec from_slice pubsub q redis codec key st a rt reads_back

  abbrev delivered_items : State W → List T
  delivered_items s =
      delivered inject_context to_vec from_slice pubsub q redis codec key st a rt reads_back s

  abbrev gcp : PeekablePublisher (State W) (GcpError X) T MsgId Text
  gcp = gcp_publisher inject_context to_vec pubsub q redis codec key

  pub Kept-grows :
      (u v : State W)
      → Kept (world_of u) (world_of v)
      → (t : T) → In t (delivered_items u)
      → In t (delivered_items v)
  Kept-grows u v k t i =
      contents_of-grows from_slice (a.arrived (world_of u)) (a.arrived (world_of v)) k t i

  -- What `Delivers` says of a batch.
  pub record Parted (batch : List (PublishMessage T)) (s : State W)
      (out : Result (GcpError X) (List Text) × State W) : Type 0 where
    pub done : List T
    pub rest : List T
    pub parts : map (λ m. m.content) batch ≡ done ++ rest
    pub there : (t : T) → In t done → In t (delivered_items out.1)
    pub last_done : recalled_id (world_of out.1) ≡ newest q.id done (recalled_id (world_of s))
    pub whole : (r : List Text) → out.0 ≡ ok r → rest ≡ []
    pub grown : Kept (world_of s) (world_of out.1)

  nothing_done :
      (batch : List (PublishMessage T)) (s s' : State W) (e : GcpError X)
      → Kept (world_of s) (world_of s')
      → recalled_id (world_of s') ≡ recalled_id (world_of s)
      → Parted batch s (err e, s')
  nothing_done batch s s' e k same = record {
    done = [];
    rest = map (λ m. m.content) batch;
    parts = refl;
    there = λ t i. absurd i;
    last_done = same;
    whole = λ r h. ground (arith, h);
    grown = k;
  }

  all_done :
      (batch : List (PublishMessage T)) (m : PublishMessage T) (s : State W)
      (out : Result (GcpError X) (List Text) × State W)
      → last batch ≡ some m
      → ((t : T) → In t (map (λ m. m.content) batch) → In t (delivered_items out.1))
      → Kept (world_of s) (world_of out.1)
      → recalled_id (world_of out.1) ≡ some (q.id m.content)
      → Parted batch s out
  all_done batch m s out e there k new = record {
    done = map (λ m. m.content) batch;
    rest = [];
    parts = sym (append-nil (map (λ m. m.content) batch));
    there = there;
    last_done = new ∙ sym (newest-last q.id batch m (recalled_id (world_of s)) e);
    whole = λ r h. refl;
    grown = k;
  }

  abbrev published : List (PublishMessage T) → State W → Result (GcpError X) (List Text) × State W
  published = publish_batch inject_context to_vec pubsub

  peekable_empty :
      (batch : List (PublishMessage T)) (s : State W)
      → last batch ≡ none
      → gcp.publish_batch batch s ≡ (err no_msg_to_publish, s)
  unfolding peekable_publish_batch
  peekable_empty batch s e = ground (arith, e)

  peekable_unpublished :
      (batch : List (PublishMessage T)) (m : PublishMessage T) (s : State W) (x : GcpError X)
      → last batch ≡ some m
      → (published batch s).0 ≡ err x
      → gcp.publish_batch batch s ≡ (err x, (published batch s).1)
  unfolding peekable_publish_batch
  peekable_unpublished batch m s x e bad = ground (arith, e, bad)

  -- The last message's identifier is upserted after the batch.
  abbrev then_upserted :
      Result (GcpError X) (List Text) → MsgId → State W → Result (GcpError X) (List Text) × State W
  then_upserted r v s =
      let (u, t) = upserted v s.store in
      (elim u [ err e ↦ err e | ok o ↦ r ], record s { store = t })

  peekable_published :
      (batch : List (PublishMessage T)) (m : PublishMessage T) (s : State W) (r : List Text)
      → last batch ≡ some m
      → (published batch s).0 ≡ ok r
      → gcp.publish_batch batch s ≡ then_upserted (ok r) (q.id m.content) (published batch s).1
  unfolding peekable_publish_batch
  peekable_published batch m s r e sent =
      elim (Result-cases (upserted (q.id m.content) (published batch s).1.store).0) [
        | inl (u, good) ↦ ground (arith, e, sent, good)
        | inr (x, bad) ↦ ground (arith, e, sent, bad)
      ]

  then_upserted-Parted :
      (batch : List (PublishMessage T)) (m : PublishMessage T) (s s' : State W) (r : List Text)
      → last batch ≡ some m
      → ((t : T) → In t (map (λ m. m.content) batch) → In t (delivered_items s'))
      → Kept (world_of s) (world_of s')
      → recalled_id (world_of s') ≡ recalled_id (world_of s)
      → Parted batch s (then_upserted (ok r) (q.id m.content) s')
  then_upserted-Parted batch m s s' r e there k same =
      let v = q.id m.content in
      let (u, t) = upserted v s'.store in
      let after = record s' { store = t } in
      let kept : Kept (world_of s) (world_of after) = λ n i.
        upsert-Kept inject_context to_vec from_slice pubsub q redis codec key st a rt reads_back v
          s'.store n (k n i) in
      let arrived : (c : T) → In c (map (λ m. m.content) batch) → In c (delivered_items after) =
        λ c i.
          Kept-grows s' after
            (upsert-Kept inject_context to_vec from_slice pubsub q redis codec key st a rt
              reads_back v s'.store)
            c (there c i) in
      elim (Result-cases u) [
        | inl (o, good) ↦ all_done batch m s (then_upserted (ok r) v s') e arrived kept (
            upsert_recalled inject_context to_vec from_slice pubsub q redis codec key st a rt
              reads_back v s'.store good)
        | inr (x, bad) ↦
            elim (upsert_either inject_context to_vec from_slice pubsub q redis codec key st a rt
              reads_back v s'.store) [
                | inr new ↦ all_done batch m s (then_upserted (ok r) v s') e arrived kept new
                | inl old ↦ rw bad (nothing_done batch s after x kept (old ∙ same))
              ]
      ]

  pub publish-Parted :
      (batch : List (PublishMessage T)) (s : State W) → Parted batch s (gcp.publish_batch batch s)
  publish-Parted batch s = elim (Option-cases (last batch)) [
    | inl e ↦
        rw (peekable_empty batch s e) (nothing_done batch s s no_msg_to_publish (λ m i. i) refl)
    | inr (m, e) ↦
        let h =
          publish_batch-Published inject_context to_vec from_slice pubsub q redis codec key st a rt
            reads_back batch s in
        let s' = (published batch s).1 in
        let same = ap recalls h.held in
        elim (Result-cases (published batch s).0) [
          | inr (x, bad) ↦
              rw (peekable_unpublished batch m s x e bad) (nothing_done batch s s' x h.kept same)
          | inl (r, sent) ↦
              rw (peekable_published batch m s r e sent)
                (then_upserted-Parted batch m s s' r e (λ t i. h.all_there r t sent i) h.kept same)
        ]
  ]

  pub peek_frame :
      (s : State W)
      → (recalled_id (world_of (gcp.peek_last s).1) ≡ recalled_id (world_of s))
        × ((t : T) → In t (delivered_items s) → In t (delivered_items (gcp.peek_last s).1))
  peek_frame s = (
    ap recalled_id (
          peek_world inject_context to_vec from_slice pubsub q redis codec key st a rt reads_back s)
        ∙ ap recalls (a.get_frame key (world_of s)),
    Kept-grows s (gcp.peek_last s).1 (λ m i.
        subst (λ w. In m (a.arrived w))
          (sym (
            peek_world inject_context to_vec from_slice pubsub q redis codec key st a rt reads_back
              s))
          (a.get_keeps key (world_of s) m i)),
  )

  -- The publisher keeps `Delivers`, whichever of its calls fail: what it remembers is the last message of
  -- a part of the batch that has been delivered.
  unfoldable pub gcp_delivers : Delivers q gcp
  gcp_delivers = record {
    delivered = delivered_items;
    remembered = λ s. recalled_id (world_of s);
    peek_reads =
        peeked inject_context to_vec from_slice pubsub q redis codec key st a rt reads_back;
    peek_frame = peek_frame;
    batch_grows =
        λ batch s. Kept-grows s (gcp.publish_batch batch s).1 ((publish-Parted batch s).grown);
    batch_delivers = λ batch s.
        let p = publish-Parted batch s in (p.done, p.rest, p.parts, p.there, p.last_done, p.whole);
  }
