-- ===== src/Infrastructure/Nats/Tests.antt =====
-- The theorems on the NATS provider at concrete services: a stream that is the list of its payloads,
-- the latest first, and a bucket that holds one entry for every key.
use axelar_relayer_core.Base.{
  ℕ, suc, ◌≡◌, refl, false, Option, none, some, List, [], ◌∷◌, length, Text, codes, Result, ok, err,
  arith, ◌==◌, if◌then◌else◌,
}
use axelar_relayer_core.Infrastructure.Interfaces.{QueueMsgId, PublishMessage, WithRevision}
use axelar_relayer_core.Infrastructure.Nats.Defs.{PublishAck, JetStream, Keeps}
use axelar_relayer_core.Infrastructure.Nats.Publisher
use axelar_relayer_core.Infrastructure.Nats.Publisher.Last.{peek_last-publish_batch}
use axelar_relayer_core.Infrastructure.Nats.KvStore.{Entry, Bucket, Revisions}

abbrev tail : List Text → Option (ℕ × List ℕ)
tail [] = none
tail (p ∷ ps) = some (suc (length ps), p)

abbrev payload_at : ℕ → List Text → Result ℕ (List ℕ)
payload_at n [] = err 0
payload_at n (p ∷ ps) = if n == suc (length ps) then ok p else payload_at n ps

abbrev stream : JetStream (List Text) ℕ
stream = record {
  publish_with_headers = λ subject id payload w. (ok tt, payload ∷ w);
  await_ack = λ w. (ok (record { sequence = length w; duplicate = false }), w);
  last_sequence = λ w. (ok (length w), w);
  direct_get = λ n w. (payload_at n w, w);
  get_info = λ w. (ok tt, w);
}

abbrev length_answer : List Text → Result ℕ ℕ
length_answer w = ok (length w)

tail_length :
    (w : List Text) (n k : ℕ) (p : Text)
    → tail w ≡ some (k, p)
    → length_answer w ≡ ok n
    → (n ≡ k) × (n ≡ 0 → ⊥) × (tail w ≡ some (k, p))
tail_length [] n k p e h = ground arith
tail_length (q ∷ w) n k p e h = ground arith

tail_payload :
    (w : List Text) (k : ℕ) (p b : Text) → tail w ≡ some (k, p) → payload_at k w ≡ ok b → b ≡ p
tail_payload [] k p b e h = ground arith
tail_payload (q ∷ w) k p b e h = ground arith

stream-Keeps : Keeps stream
stream-Keeps = record {
  tail_of = tail;
  publish_appends = λ subject id payload w a sent acked fresh. ground arith;
  last_sequence_reads = tail_length;
  direct_get_reads = tail_payload;
}

abbrev queue_id : QueueMsgId Text Text
queue_id = record { id = λ t. t; to_string = λ t. t }

abbrev two : List (PublishMessage Text)
two =
    record { deduplication_id = codes "1"; content = codes "a" }
    ∷ record { deduplication_id = codes "2"; content = codes "b" }
    ∷ []

abbrev last_of_two : PublishMessage Text
last_of_two = record { deduplication_id = codes "2"; content = codes "b" }

abbrev ack_of : ℕ → PublishAck
ack_of n = record { sequence = n; duplicate = false }

abbrev encode : Text → Result ℕ (List ℕ)
encode t = ok t

reads_back : (v b : Text) → encode v ≡ ok b → encode b ≡ ok v
reads_back v b h = ground arith

peek_last-publish_batch_example : Option.some (codes "b") ≡ some (codes "b")
unfolding Publisher.publish_batch Publisher.publish Publisher.peek_last Publisher.read_at
peek_last-publish_batch_example =
    peek_last-publish_batch stream stream-Keeps (codes "s") encode encode queue_id reads_back two
      last_of_two [] (ack_of 1 ∷ ack_of 2 ∷ []) (ack_of 2) (some (codes "b")) refl refl refl refl
      refl

abbrev update_entry : List ℕ → ℕ → Option Entry → Result ℕ ℕ × Option Entry
update_entry v n none = (err 0, none)
update_entry v n (some e) =
    if e.revision == n
    then (ok (suc n), some (record { payload = v; revision = suc n }))
    else (err 1, some e)

abbrev bucket : Bucket (Option Entry) ℕ
bucket = record {
  update = λ k v n w. update_entry v n w;
  put = λ k v w. (ok 1, some (record { payload = v; revision = 1 }));
  entry = λ k w. (ok w, w);
}

bucket_checks :
    (k v : Text) (n : ℕ) (w : Option Entry) (r : ℕ)
    → (bucket.update k v n w).0 ≡ ok r
    → ((bucket.update k v n w).1 ≡ some (record { payload = v; revision = r }))
      × ((e : Entry) → w ≡ some e → e.revision ≡ n)
bucket_checks k v n none r h = ground arith
bucket_checks k v n (some e) r h = ground arith

bucket-Revisions : Revisions bucket
bucket-Revisions = record {
  held = λ k w. w;
  update_checks = bucket_checks;
  put_sets = λ k v w r h. ground arith;
  entry_reads = λ k w o h. ground arith;
}

abbrev held : Option Entry
held = some (record { payload = codes "old"; revision = 4 })

abbrev new_value : WithRevision Text
new_value = record { value = codes "new"; revision = 4 }

abbrev stored_value : WithRevision Text
stored_value = record { value = codes "new"; revision = 5 }
