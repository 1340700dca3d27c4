-- ===== src/Infrastructure/Nats/Publisher/Last.antt =====
-- What the publisher finds as its last message.
use axelar_relayer_core.Base.{
  ℕ, ◌<◌, ◌≡◌, refl, false, Option, some, List, [], ◌∷◌, Text, last, length, Result, ok, arith, inl,
  inr, Result-cases,
}
use axelar_relayer_core.Infrastructure.Interfaces.{PublishMessage, QueueMsgId}
use axelar_relayer_core.Infrastructure.Nats.Defs.{PublishAck, JetStream, Keeps}
use axelar_relayer_core.Infrastructure.Nats.Publisher.{publish, publish_batch, peek_last}

last-cons : {A : Type 0} (x : A) (ys : List A) → 0 < length ys → last (x ∷ ys) ≡ last ys
last-cons x [] h = elim h [ ]
last-cons x (y ∷ ys) h = refl

module _ {W X T MsgId : Type 0} (js : JetStream W X) (keeps : Keeps js) (subject : Text)
    (to_vec : T → Result X (List ℕ)) (deserialize : List ℕ → Result X T)
    (q : QueueMsgId T MsgId) where
  abbrev Ends : T → PublishAck → W → Type 0
  Ends c a w = (b : List ℕ) × (to_vec c ≡ ok b) × (keeps.tail_of w ≡ some (a.sequence, b))

  batch-length :
      (ms : List (PublishMessage T)) (w : W) (out : List PublishAck)
      → (publish_batch js subject to_vec deserialize q ms w).0 ≡ ok out
      → length out ≡ length ms
  unfolding publish_batch
  batch-length [] w out h = ground arith
  batch-length (n ∷ ns) w out h =
      let first = publish js subject to_vec deserialize q n w in
      let rest = publish_batch js subject to_vec deserialize q ns first.1 in
      elim (Result-cases first.0) [
        | inr (x, bad) ↦ ground (arith, bad)
        | inl (a, good) ↦ elim (Result-cases rest.0) [
          | inr (x, bad) ↦ ground (arith, good, bad)
          | inl (out', more) ↦ ground (arith, good, more, batch-length ns first.1 out' more)
        ]
      ]

  publish-Ends :
      (m : PublishMessage T) (w : W) (a : PublishAck)
      → (publish js subject to_vec deserialize q m w).0 ≡ ok a
      → a.duplicate ≡ false
      → Ends m.content a (publish js subject to_vec deserialize q m w).1
  unfolding publish
  publish-Ends m w a h d = elim (Result-cases (to_vec m.content)) [
    | inr (x, bad) ↦ ground (arith, bad)
    | inl (b, good) ↦
        let sent = js.publish_with_headers subject m.deduplication_id b w in
        elim (Result-cases sent.0) [
          | inr (x, bad) ↦ ground (arith, good, bad)
          | inl (u, done) ↦ (
            b,
            good,
            ground (arith, good, done, keeps.publish_appends subject m.deduplication_id b w a),
          )
        ]
  ]

  publish_batch-Ends :
      (ms : List (PublishMessage T)) (m : PublishMessage T) (w : W) (out : List PublishAck)
      (a : PublishAck)
      → last ms ≡ some m
      → (publish_batch js subject to_vec deserialize q ms w).0 ≡ ok out
      → last out ≡ some a
      → a.duplicate ≡ false
      → Ends m.content a (publish_batch js subject to_vec deserialize q ms w).1
  unfolding publish_batch
  publish_batch-Ends [] m w out a e h l d = cc
  publish_batch-Ends (n ∷ []) m w out a e h l d =
      let first = publish js subject to_vec deserialize q n w in
      elim (Result-cases first.0) [
        | inr (x, bad) ↦ ground (arith, bad)
        | inl (a', good) ↦
            let same : a' ≡ a = ground (arith, good) in
            let (b, enc, tail) = publish-Ends n w a' good (ground (arith, same)) in
            (b, ground (arith, enc), ground (arith, good, same, tail))
      ]
  publish_batch-Ends (n ∷ k ∷ ks) m w out a e h l d =
      let first = publish js subject to_vec deserialize q n w in
      let rest = publish_batch js subject to_vec deserialize q (k ∷ ks) first.1 in
      elim (Result-cases first.0) [
        | inr (x, bad) ↦ ground (arith, bad)
        | inl (a', good) ↦ elim (Result-cases rest.0) [
          | inr (x, bad) ↦ ground (arith, good, bad)
          | inl (out', more) ↦
              let tails : last out' ≡ some a =
                ground
                  (arith, good, more, batch-length (k ∷ ks) first.1 out' more, last-cons a' out') in
              let (b, enc, tail) = publish_batch-Ends (k ∷ ks) m first.1 out' a e more tails d in
              (b, enc, ground (arith, good, more, tail))
        ]
      ]

  -- After a batch whose last message the server did not take for a duplicate, the next `peek_last`
  -- that succeeds returns the identifier of that message.
  pub peek_last-publish_batch :
      (rt : (v : T) (b : List ℕ) → to_vec v ≡ ok b → deserialize b ≡ ok v)
      (ms : List (PublishMessage T)) (m : PublishMessage T) (w : W) (out : List PublishAck)
      (a : PublishAck) (o : Option MsgId)
      → last ms ≡ some m
      → (publish_batch js subject to_vec deserialize q ms w).0 ≡ ok out
      → last out ≡ some a
      → a.duplicate ≡ false
      → (peek_last js subject to_vec deserialize q
          (publish_batch js subject to_vec deserialize q ms w).1).0
        ≡ ok o
      → o ≡ some (q.id m.content)
  unfolding peek_last
  peek_last-publish_batch rt ms m w out a o e h l d g =
      let w' = (publish_batch js subject to_vec deserialize q ms w).1 in
      let (b, encoded, tail) = publish_batch-Ends ms m w out a e h l d in
      let info = js.last_sequence w' in
      elim (Result-cases info.0) [
        | inr (x, bad) ↦ ground (arith, bad)
        | inl (n, known) ↦
            let (same, positive, still) = keeps.last_sequence_reads w' n a.sequence b tail known in
            let stored = js.direct_get n info.1 in
            elim (Result-cases stored.0) [
              | inr (x, bad) ↦ ground (arith, known, positive, bad)
              | inl (bytes, got) ↦ ground (
                arith,
                known,
                positive,
                got,
                keeps.direct_get_reads info.1 n b bytes (rw same still) got,
                rt m.content b encoded,
              )
            ]
      ]
