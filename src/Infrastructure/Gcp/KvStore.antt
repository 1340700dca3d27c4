-- ===== src/Infrastructure/Gcp/KvStore.antt =====
-- crates/infrastructure/src/gcp/kv_store.rs: `RedisClient`, the key-value store of one key.
-- `borsh` is the parameter `Codec`.
pub mod Laws
use axelar_relayer_core.Base.{
  ℕ, suc, Bool, Option, none, some, List, Text, Result, ok, err, map_err, is_err, Eff, ◌>>=◌, ◌>>◌,
  pure, if◌then◌else◌,
}
use axelar_relayer_core.Infrastructure.Interfaces.{WithRevision}
use axelar_relayer_core.Infrastructure.Gcp.Defs.{
  GcpError, redis_serialize, redis_save, redis_get, redis_deserialize, Redis,
}

-- `borsh::to_vec` and `borsh::from_slice`.
pub record Codec (T X : Type 0) : Type 0 where
  pub to_vec : T → Result X (List ℕ)
  pub from_slice : List ℕ → Result X T

pub record Metrics : Type 0 where
  pub writes : ℕ
  pub reads : ℕ
  pub error_raised : ℕ

pub record State (W : Type 0) : Type 0 where
  pub metrics : Metrics
  pub world : W

abbrev pub record_write : {W : Type 0} → State W → State W
record_write s = record s { metrics = record s.metrics { writes = suc s.metrics.writes } }

abbrev pub record_read : {W : Type 0} → State W → State W
record_read s = record s { metrics = record s.metrics { reads = suc s.metrics.reads } }

abbrev pub record_error : {W : Type 0} → State W → State W
record_error s = record s {
  metrics = record s.metrics { error_raised = suc s.metrics.error_raised };
}

abbrev on_world : {W X E A : Type 0} → (X → E) → Eff W X A → Eff (State W) E A
on_world f m s = let (r, w) = m s.world in (map_err f r, record s { world = w })

-- `inspect_err(|_| self.metrics.record_error())`.
abbrev inspect_err : {W E A : Type 0} → Result E A × State W → Result E A × State W
inspect_err (ok a, s) = (ok a, s)
inspect_err (err e, s) = (err e, record_error s)

module _ {W X T : Type 0} (redis : Redis W X) (codec : Codec T X) (key : Text) where
  -- `RedisClient::ping`.
  unfoldable pub ping : Eff (State W) X (Unit {0})
  ping s = inspect_err (on_world (λ e. e) redis.ping s)

  -- The write of the encoded value.
  abbrev save : List ℕ → Eff (State W) (GcpError X) (Unit {0})
  save bytes s =
      let (r, s') = on_world redis_save (redis.set key bytes) s in
      (r, if is_err r then s' else record_write s')

  -- `RedisClient::upsert`.
  unfoldable pub upsert : T → Eff (State W) (GcpError X) (Unit {0})
  upsert value s = elim (codec.to_vec value) [
    | err e ↦ (err (redis_serialize e), s)
    | ok bytes ↦ save bytes s
  ]

  -- `KvStore::update` and `KvStore::put`: the revision is not used.
  unfoldable pub update : WithRevision T → Eff (State W) (GcpError X) ℕ
  unfolding upsert
  update revised s = (do (λ s. inspect_err (upsert revised.value s)); pure 0) s

  unfoldable pub put : T → Eff (State W) (GcpError X) ℕ
  unfolding upsert
  put value s = (do (λ s. inspect_err (upsert value s)); pure 0) s

  -- The closure that `get` maps over the bytes.
  unfoldable pub read_value : Option (List ℕ) → Eff (State W) (GcpError X) (Option (WithRevision T))
  read_value none s = (ok none, s)
  read_value (some bytes) s = elim (codec.from_slice bytes) [
    | err e ↦ (err (redis_deserialize e), record_error s)
    | ok value ↦ (ok (some (record { value = value; revision = 0 })), record_read s)
  ]

  -- `KvStore::get`. The argument of `map_err` is a block, which runs before the answer is looked
  -- at: it counts an error, and its value is the function.
  unfoldable pub get : Eff (State W) (GcpError X) (Option (WithRevision T))
  unfolding read_value
  get s =
      (do
        value ← (λ s. let (r, s') = on_world redis_get (redis.get key) s in (r, record_error s'))
        read_value value)
        s
