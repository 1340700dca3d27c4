-- ===== src/Infrastructure/Gcp/Publisher/Topic.antt =====
-- The topic behind `GcpPublisher`: what Pub/Sub and Redis do besides what Defs.antt says of them, and the
-- contents of the messages that have arrived.
use axelar_relayer_core.Base.{
  ℕ, ◌≡◌, refl, ap, subst, ◌⊎◌, inl, inr, Option, some, List, [], ◌∷◌, In, map, Text, Result, ok,
  err, arith, Result-cases,
}
use axelar_relayer_core.Infrastructure.Interfaces.{PublishMessage}
use axelar_relayer_core.Infrastructure.Gcp.Defs.{MessageContent, Redis, PubSub, Stores}
use axelar_relayer_core.Infrastructure.Gcp.Publisher.{
  insert, no_entries, correlation_id, to_pubsub_message, to_pubsub_messages,
}

-- A message of a topic: its data and its attributes.
abbrev pub Sent : Type 0
Sent = List ℕ × (Text → Option Text)

-- A topic takes messages in and none back: a message whose handle has been confirmed has arrived. An
-- answer that Redis failed to give leaves open whether the value has been set, and reading changes
-- nothing.
pub record Arrives {W X M H : Type 0} (redis : Redis W X) (pubsub : PubSub W X M H)
    (st : Stores redis pubsub) : Type 0 where
  pub arrived : W → List Sent
  pub message_of : H → Sent
  pub bulk_handles : (ms : List Sent) (w : W) → map message_of (pubsub.publish_bulk ms w).0 ≡ ms
  pub confirm_arrives :
      (h : H) (w : W) (id : Text)
      → (pubsub.confirm h w).0 ≡ ok id
      → In (message_of h) (arrived (pubsub.confirm h w).1)
  pub bulk_keeps :
      (ms : List Sent) (w : W) (m : Sent)
      → In m (arrived w)
      → In m (arrived (pubsub.publish_bulk ms w).1)
  pub confirm_keeps :
      (h : H) (w : W) (m : Sent) → In m (arrived w) → In m (arrived (pubsub.confirm h w).1)
  pub set_keeps :
      (k : Text) (v : List ℕ) (w : W) (m : Sent)
      → In m (arrived w)
      → In m (arrived (redis.set k v w).1)
  pub get_keeps :
      (k : Text) (w : W) (m : Sent) → In m (arrived w) → In m (arrived (redis.get k w).1)
  pub set_fails :
      (k : Text) (v : List ℕ) (w : W) (e : X)
      → (redis.set k v w).0 ≡ err e
      → (st.stored k (redis.set k v w).1 ≡ st.stored k w)
        ⊎ (st.stored k (redis.set k v w).1 ≡ some v)
  pub get_frame : (k : Text) (w : W) → st.stored k (redis.get k w).1 ≡ st.stored k w

-- `borsh` reads back the content of a message that it has written.
abbrev pub ReadsBack :
    {T X : Type 0}
    → (MessageContent T → Result X (List ℕ))
    → (List ℕ → Result X (MessageContent T))
    → Type 0
ReadsBack {T} to_vec from_slice =
    (c : MessageContent T) (b : List ℕ)
    → to_vec c ≡ ok b
    → (c' : MessageContent T) × (from_slice b ≡ ok c') × (c'.content ≡ c.content)

-- What a consumer decodes of the messages.
module _ {T X : Type 0} (from_slice : List ℕ → Result X (MessageContent T)) where
  abbrev pub contents_of : List Sent → List T
  contents_of [] = []
  contents_of (m ∷ ms) =
      let rest = contents_of ms in elim (from_slice m.0) [ err e ↦ rest | ok c ↦ c.content ∷ rest ]

  contents_of-finds :
      (t : T) (ms : List Sent)
      → In t (contents_of ms)
      → (m : Sent) × (c : MessageContent T) × In m ms × (from_slice m.0 ≡ ok c) × (c.content ≡ t)
  contents_of-finds t [] i = absurd i
  contents_of-finds t (m ∷ ms) i = elim (Result-cases (from_slice m.0)) [
    | inr (e, bad) ↦
        let (n, c, j, d, e') = contents_of-finds t ms (ground (arith, bad, i)) in
        (n, c, inr j, d, e')
    | inl (c, good) ↦
        let found : (c.content ≡ t) ⊎ In t (contents_of ms) = ground (arith, good, i) in
        elim found [
          | inl e ↦ (m, c, inl refl, good, e)
          | inr i' ↦ let (n, c', j, d, e') = contents_of-finds t ms i' in (n, c', inr j, d, e')
        ]
  ]

  contents_of-In :
      (m : Sent) (c : MessageContent T) (ms : List Sent)
      → from_slice m.0 ≡ ok c
      → In m ms
      → In c.content (contents_of ms)
  contents_of-In m c [] d i = absurd i
  contents_of-In m c (n ∷ ns) d (inl e) = ground (arith, ap (λ (x : Sent). from_slice x.0) e, d)
  contents_of-In m c (n ∷ ns) d (inr i) = ground (arith, contents_of-In m c ns d i)

  -- More messages have more contents.
  pub contents_of-grows :
      (ms ns : List Sent)
      → ((m : Sent) → In m ms → In m ns)
      → (t : T) → In t (contents_of ms)
      → In t (contents_of ns)
  contents_of-grows ms ns more t i =
      let (m, c, j, d, e) = contents_of-finds t ms i in
      subst (λ x. In x (contents_of ns)) e (contents_of-In m c ns d (more m j))

module _ {T X : Type 0} (inject_context : (Text → Option Text) → Text → Option Text)
    (to_vec : MessageContent T → Result X (List ℕ))
    (from_slice : List ℕ → Result X (MessageContent T))
    (reads_back : ReadsBack to_vec from_slice) where
  pub sent_content :
      (m : PublishMessage T) (sent : Sent)
      → to_pubsub_message inject_context to_vec m ≡ ok sent
      → (c : MessageContent T) × (from_slice sent.0 ≡ ok c) × (c.content ≡ m.content)
  unfolding to_pubsub_message
  sent_content m sent e =
      let c : MessageContent T = record {
        headers = insert (inject_context no_entries) correlation_id m.deduplication_id;
        content = m.content;
      } in
      elim (Result-cases (to_vec c)) [
        | inr (x, bad) ↦ ground (arith, e, bad)
        | inl (b, good) ↦
            let (c', d, same) = reads_back c b good in (c', ground (arith, e, good, d), same)
      ]

  -- A batch that could be encoded has the contents that it was made of.
  pub contents_of-bulk :
      (batch : List (PublishMessage T)) (bulk : List Sent)
      → to_pubsub_messages inject_context to_vec batch ≡ ok bulk
      → contents_of from_slice bulk ≡ map (λ m. m.content) batch
  unfolding to_pubsub_messages to_pubsub_message
  contents_of-bulk [] bulk e = ground (arith, e)
  contents_of-bulk (m ∷ ms) bulk e =
      elim (Result-cases (to_pubsub_message inject_context to_vec m)) [
        | inr (x, bad) ↦ ground (arith, e, bad)
        | inl (sent, good) ↦ elim (Result-cases (to_pubsub_messages inject_context to_vec ms)) [
          | inr (x, bad) ↦ ground (arith, e, good, bad)
          | inl (rest, all) ↦
              let (c, d, same) = sent_content m sent good in
              let tail = contents_of-bulk ms rest all in ground (arith, e, good, all, d, same, tail)
        ]
      ]
