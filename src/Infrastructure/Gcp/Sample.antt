-- ===== src/Infrastructure/Gcp/Sample.antt =====
-- A concrete world for tests: a Redis with a clock, and a Pub/Sub that accepts everything but what it
-- is made to refuse.
use mathlib.Core.Logic.{ite}
use axelar_relayer_core.Base.{
  ℕ, ◌+◌, ◌≡◌, refl, Bool, true, false, Option, none, some, List, map, Text, codes, Text-discrete,
  ok, err, ltb, arith,
}
use axelar_relayer_core.Infrastructure.Gcp.Defs.{Redis, PubSub, Expires, Stores}

pub record World : Type 0 where
  pub now : ℕ
  pub expiry : Text → ℕ
  pub stored : Text → Option (List ℕ)

abbrev pub put_at : {A : Type 0} → (Text → A) → Text → A → Text → A
put_at f k a j = ite (Text-discrete k j) a (f j)

pub put_at_same : {A : Type 0} (f : Text → A) (k : Text) (a : A) → put_at f k a k ≡ a
put_at_same f k a = ground arith

abbrev pub redis : Redis World ℕ
redis = record {
  exists = λ k w. (ok (ltb w.now (w.expiry k)), w);
  set_ex = λ k v ttl w. (ok v, record w { expiry = put_at w.expiry k (w.now + ttl) });
  set = λ k v w. (ok tt, record w { stored = put_at w.stored k (some v) });
  get = λ k w. (ok (w.stored k), w);
  ping = λ w. (ok tt, w);
}

-- Messages are an identifier and a payload; `refuse` makes the service refuse.
abbrev pub pubsub : Bool → PubSub World ℕ (Text × List ℕ) (Unit {0})
pubsub refuse = record {
  attributes = λ m k. some m.0;
  payload = λ m. m.1;
  ack = λ m w. (elim refuse [ true ↦ err 7 | false ↦ ok tt ], w);
  nack = λ m w. (ok tt, w);
  modify_ack_deadline = λ m d w. (ok tt, w);
  publish = λ b a w. (tt, w);
  publish_bulk = λ ms w. (map (λ m. tt) ms, w);
  confirm = λ h w. (elim refuse [ true ↦ err 7 | false ↦ ok (codes "id") ], w);
}

exists_answers :
    (k : Text) (w : World) (b : Bool) → (redis.exists k w).0 ≡ ok b → b ≡ ltb w.now (w.expiry k)
exists_answers k w b h = ground arith

unfoldable pub expires : (b : Bool) → Expires redis (pubsub b)
unfolding exists_answers
expires b = record {
  clock = λ w. w.now;
  expiry = λ k w. w.expiry k;
  exists_live = exists_answers;
  set_ex_sets = λ k v ttl w r h. put_at_same w.expiry k (w.now + ttl);
  ack_frame = λ k m w. refl;
}

pub reads_stored :
    (k : Text) (w : World) (o : Option (List ℕ)) → (redis.get k w).0 ≡ ok o → o ≡ w.stored k
reads_stored k w o h = ground arith

unfoldable pub stores : (b : Bool) → Stores redis (pubsub b)
stores b = record {
  stored = λ k w. w.stored k;
  set_sets = λ k v w h. put_at_same w.stored k (some v);
  get_reads = reads_stored;
  bulk_frame = λ k ms w. refl;
  confirm_frame = λ k h w. refl;
}

abbrev pub start : World
start = record { now = 5; expiry = λ k. 0; stored = λ k. none }
