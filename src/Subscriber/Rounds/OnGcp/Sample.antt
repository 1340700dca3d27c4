-- ===== src/Subscriber/Rounds/OnGcp/Sample.antt =====
-- A small Google Cloud with one key and one topic, whose next confirmation can be made to fail.
use axelar_relayer_core.Base.{
  ℕ, ◌≡◌, refl, Bool, true, false, Bool-cases, List, [], ◌∷◌, In, inl, inr, map, Option, none, some,
  Text, codes, Result, ok, err, Eff, arith,
}
use axelar_relayer_core.Infrastructure.Gcp.Defs.{MessageContent, Redis, PubSub, Stores}
use axelar_relayer_core.Infrastructure.Gcp.KvStore.{Codec}
use axelar_relayer_core.Infrastructure.Gcp.KvStore.Laws.{RoundTrips}
use axelar_relayer_core.Infrastructure.Gcp.Publisher.Topic.{Sent, Arrives, ReadsBack}
use axelar_relayer_core.AmplifierApi.Types.{
  Task, construct_proof, verify, gateway_tx, execute as execute_task, refund, TaskItemId,
}
use axelar_relayer_core.Subscriber.Sample.{Item}

-- The value of the one key, the topic, and whether the next confirmation fails.
pub record World : Type 0 where
  pub held : Option (List ℕ)
  pub topic : List Sent
  pub flaky : Bool

abbrev pub redis : Redis World ℕ
redis = record {
  exists = λ k w. (ok false, w);
  set_ex = λ k v ttl w. (ok v, w);
  set = λ k v w. (ok tt, record w { held = some v });
  get = λ k w. (ok w.held, w);
  ping = λ w. (ok tt, w);
}

abbrev pub confirm : Sent → Eff World ℕ Text
confirm h w = elim w.flaky [
  | true ↦ (err 1, record w { flaky = false })
  | false ↦ (ok (codes "id"), record w { topic = h ∷ w.topic })
]

abbrev pub pubsub : PubSub World ℕ ℕ Sent
pubsub = record {
  attributes = λ m k. none;
  payload = λ m. [];
  ack = λ m w. (ok tt, w);
  nack = λ m w. (ok tt, w);
  modify_ack_deadline = λ m d w. (ok tt, w);
  publish = λ b a w. ((b, a), w);
  publish_bulk = λ ms w. (ms, w);
  confirm = confirm;
}

pub stores : Stores redis pubsub
stores = record {
  stored = λ k w. w.held;
  set_sets = λ k v w h. refl;
  get_reads = λ k w o h. ground (arith, h);
  bulk_frame = λ k ms w. refl;
  confirm_frame = λ k h w. ground arith;
}

pub map_same : (ms : List Sent) → map (λ m. m) ms ≡ ms
map_same [] = refl
map_same (m ∷ ms) = ground (arith, map_same ms)

pub confirmed :
    (h : Sent) (w : World) (id : Text) → (confirm h w).0 ≡ ok id → In h (confirm h w).1.topic
confirmed h w id e = elim (Bool-cases w.flaky) [
  | inl down ↦ ground (arith, e, down)
  | inr up ↦ ground (arith, up)
]

pub confirm_keeps : (h : Sent) (w : World) (m : Sent) → In m w.topic → In m (confirm h w).1.topic
confirm_keeps h w m i = elim (Bool-cases w.flaky) [
  | inl down ↦ ground (arith, down, i)
  | inr up ↦ ground (arith, up, i)
]

pub arrives : Arrives redis pubsub stores
unfolding stores
arrives = record {
  arrived = λ w. w.topic;
  message_of = λ h. h;
  bulk_handles = λ ms w. map_same ms;
  confirm_arrives = confirmed;
  bulk_keeps = λ ms w m i. i;
  confirm_keeps = confirm_keeps;
  set_keeps = λ k v w m i. i;
  get_keeps = λ k w m i. i;
  set_fails = λ k v w e h. inl (ground (arith, h));
  get_frame = λ k w. refl;
}

abbrev pub bytes_of : Task → ℕ → ℕ → Result ℕ (List ℕ)
bytes_of (construct_proof t) u n = err 0
bytes_of (verify t) u n = err 0
bytes_of (gateway_tx g) u n = ok (u ∷ n ∷ g.execute_data)
bytes_of (execute_task t) u n = err 0
bytes_of (refund t) u n = err 0

abbrev pub encode_message : MessageContent Item → Result ℕ (List ℕ)
encode_message m = bytes_of m.content.task m.content.id.uuid m.content.timestamp

abbrev pub decode_message : List ℕ → Result ℕ (MessageContent Item)
decode_message [] = err 0
decode_message (u ∷ []) = err 0
decode_message (u ∷ n ∷ ds) = ok (record {
  headers = λ k. none;
  content = record {
    id = record { uuid = u };
    timestamp = n;
    task = gateway_tx (record { execute_data = ds });
  };
})

reads_task :
    (k : Task) (u n : ℕ) (b : List ℕ)
    → bytes_of k u n ≡ ok b
    → (c : MessageContent Item) × (decode_message b ≡ ok c)
      × (c.content ≡ record { id = record { uuid = u }; timestamp = n; task = k })
reads_task (construct_proof t) u n b e = absurd (ground (arith, e))
reads_task (verify t) u n b e = absurd (ground (arith, e))
reads_task (gateway_tx g) u n b e = (
  record {
    headers = λ k. none;
    content = record { id = record { uuid = u }; timestamp = n; task = gateway_tx g };
  },
  ground (arith, e),
  refl,
)
reads_task (execute_task t) u n b e = absurd (ground (arith, e))
reads_task (refund t) u n b e = absurd (ground (arith, e))

pub reads_back : ReadsBack encode_message decode_message
reads_back c b e = reads_task c.content.task c.content.id.uuid c.content.timestamp b e

abbrev pub decode_id : List ℕ → Result ℕ (TaskItemId ℕ)
decode_id [] = err 6
decode_id (u ∷ us) = ok (record { uuid = u })

abbrev pub id_codec : Codec (TaskItemId ℕ) ℕ
id_codec = record { to_vec = λ v. ok (v.uuid ∷ []); from_slice = decode_id }

pub id_codec-RoundTrips : RoundTrips id_codec
id_codec-RoundTrips = record { from_slice-to_vec = λ v b h. ground arith }
