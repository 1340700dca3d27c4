-- ===== src/Infrastructure/Gcp/KvStore/Laws.antt =====
-- What the store keeps and returns, and what it counts.
use axelar_relayer_core.Base.{
  ℕ, suc, ◌≡◌, Option, some, List, Text, ok, arith, inl, inr, Result-cases,
}
use axelar_relayer_core.Infrastructure.Interfaces.{WithRevision}
use axelar_relayer_core.Infrastructure.Gcp.Defs.{Redis, PubSub, Stores}
use axelar_relayer_core.Infrastructure.Gcp.KvStore.{Codec, State, upsert, put, get}

-- `borsh` reads back what it has written.
pub record RoundTrips {T X : Type 0} (codec : Codec T X) : Type 0 where
  pub from_slice-to_vec : (v : T) (b : List ℕ) → codec.to_vec v ≡ ok b → codec.from_slice b ≡ ok v

module _ {W X T M H : Type 0} (redis : Redis W X) (pubsub : PubSub W X M H)
    (st : Stores redis pubsub) (codec : Codec T X) (rt : RoundTrips codec) (key : Text) where
  -- A value that has been written is what Redis holds under the key, encoded.
  pub upsert_stores :
      (v : T) (s : State W)
      → (upsert redis codec key v s).0 ≡ ok tt
      → (b : List ℕ) × (codec.to_vec v ≡ ok b)
        × (st.stored key (upsert redis codec key v s).1.world ≡ some b)
  unfolding upsert
  upsert_stores v s h = elim (Result-cases (codec.to_vec v)) [
    | inr (e, bad) ↦ ground (arith, bad)
    | inl (b, good) ↦ elim (Result-cases (redis.set key b s.world).0) [
      | inr (e, bad) ↦ ground (arith, good, bad)
      | inl (u, set) ↦ (b, good, ground (arith, good, set, st.set_sets key b s.world))
    ]
  ]

  -- A read of the key, where Redis holds an encoded value and answers, returns that value.
  pub get_stored :
      (v : T) (b : List ℕ) (s : State W) (o : Option (WithRevision T))
      → codec.to_vec v ≡ ok b
      → st.stored key s.world ≡ some b
      → (get redis codec key s).0 ≡ ok o
      → o ≡ some (record { value = v; revision = 0 })
  unfolding get
  get_stored v b s o encoded held h = elim (Result-cases (redis.get key s.world).0) [
    | inr (e, bad) ↦ ground (arith, bad)
    | inl (bytes, got) ↦
        ground
          (arith, got, st.get_reads key s.world bytes got, held, rt.from_slice-to_vec v b encoded)
  ]

  -- What `put` has stored, the next `get` that succeeds returns, with revision 0.
  pub put-get :
      (v : T) (s : State W) (n : ℕ) (o : Option (WithRevision T))
      → (put redis codec key v s).0 ≡ ok n
      → (get redis codec key (put redis codec key v s).1).0 ≡ ok o
      → o ≡ some (record { value = v; revision = 0 })
  unfolding put
  put-get v s n o h g = elim (Result-cases (upsert redis codec key v s).0) [
    | inr (e, bad) ↦ ground (arith, bad)
    | inl (u, done) ↦
        let (b, encoded, held) = upsert_stores v s done in
        get_stored v b (put redis codec key v s).1 o encoded (ground (arith, done, held)) g
  ]

module _ {W X T : Type 0} (redis : Redis W X) (codec : Codec T X) (key : Text) where
  -- Every read counts an error. A read that succeeds, with a value or without, leaves the count of
  -- errors higher by one.
  pub get_counts_error :
      (s : State W) (o : Option (WithRevision T))
      → (get redis codec key s).0 ≡ ok o
      → (get redis codec key s).1.metrics.error_raised ≡ suc s.metrics.error_raised
  unfolding get
  get_counts_error s o h = ground arith
