-- ===== src/Infrastructure/Interfaces.antt =====
-- crates/infrastructure/src/interfaces.rs: the acknowledgements, the messages to publish, values
-- with a revision, and the publisher that a subscriber works with, with the laws that it relies on.
use axelar_relayer_core.Base.{
  ℕ, ◌≡◌, List, [], ◌∷◌, ◌++◌, In, map, Option, some, last, Text, codes, ok, Eff,
}
use axelar_relayer_core.Base.Decimal.{decimal}

pub data AckKind : Type 0 where
  ack nak progress : AckKind

-- The trait `QueueMsgId`, with the `Display` of its identifiers.
pub record QueueMsgId (T MsgId : Type 0) : Type 0 where
  pub id : T → MsgId
  pub to_string : MsgId → Text

pub record PublishMessage (T : Type 0) : Type 0 where
  pub deduplication_id : Text
  pub content : T

-- `impl From<T> for PublishMessage<T>`.
unfoldable pub from_value : {T MsgId : Type 0} → QueueMsgId T MsgId → T → PublishMessage T
from_value q value = record { deduplication_id = q.to_string (q.id value); content = value }

pub record WithRevision (T : Type 0) : Type 0 where
  pub value : T
  pub revision : ℕ

-- `Display` for `WithRevision`.
unfoldable pub with_revision_text : {T : Type 0} → (T → Text) → WithRevision T → Text
with_revision_text text w = text w.value ++ (codes " (rev: " ++ (decimal w.revision ++ codes ")"))

-- The traits `Publisher<T>` and `PeekMessage<T>` together, over the state `S` of the program and
-- its environment, with errors `E`.
pub record PeekablePublisher (S E T MsgId Return : Type 0) : Type 0 where
  pub publish_batch : List (PublishMessage T) → Eff S E (List Return)
  pub peek_last : Eff S E (Option MsgId)

-- What a client relies on: when a batch has been published, the next `peek_last` that succeeds
-- returns the identifier of the batch's last message.
pub record RemembersLast {S E T MsgId Return : Type 0} (q : QueueMsgId T MsgId)
    (p : PeekablePublisher S E T MsgId Return) : Type 0 where
  pub remembers :
      (batch : List (PublishMessage T)) (m : PublishMessage T) (s : S) (r : List Return)
      (o : Option MsgId)
      → last batch ≡ some m
      → (p.publish_batch batch s).0 ≡ ok r
      → (p.peek_last (p.publish_batch batch s).1).0 ≡ ok o
      → o ≡ some (q.id m.content)

-- The identifier that is remembered behind messages that have been delivered.
abbrev pub newest : {T MsgId : Type 0} → (T → MsgId) → List T → Option MsgId → Option MsgId
newest id [] o = o
newest id (t ∷ ts) o = newest id ts (some (id t))

-- What a queue keeps: the messages that have been delivered to it, and the identifier that `peek_last`
-- reads. A batch is delivered up to some message, to its end if it succeeds, and the last message
-- delivered is the one remembered.
pub record Delivers {S E T MsgId Return : Type 0} (q : QueueMsgId T MsgId)
    (p : PeekablePublisher S E T MsgId Return) : Type 0 where
  pub delivered : S → List T
  pub remembered : S → Option MsgId
  pub peek_reads : (s : S) (o : Option MsgId) → (p.peek_last s).0 ≡ ok o → o ≡ remembered s
  pub peek_frame :
      (s : S)
      → (remembered (p.peek_last s).1 ≡ remembered s)
        × ((t : T) → In t (delivered s) → In t (delivered (p.peek_last s).1))
  pub batch_grows :
      (batch : List (PublishMessage T)) (s : S) (t : T)
      → In t (delivered s)
      → In t (delivered (p.publish_batch batch s).1)
  pub batch_delivers :
      (batch : List (PublishMessage T)) (s : S)
      → (done : List T) × (rest : List T) × (map (λ m. m.content) batch ≡ done ++ rest)
        × ((t : T) → In t done → In t (delivered (p.publish_batch batch s).1))
        × (remembered (p.publish_batch batch s).1 ≡ newest q.id done (remembered s))
        × ((r : List Return) → (p.publish_batch batch s).0 ≡ ok r → rest ≡ [])
