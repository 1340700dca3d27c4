-- ===== src/Infrastructure/Nats/KvStore.antt =====
-- crates/infrastructure/src/nats/kv_store.rs: `NatsKvStore`. A JetStream bucket is the parameter
-- `Bucket`; `borsh` is the pair `to_vec` and `deserialize`.
use axelar_relayer_core.Base.{
  ℕ, ◌≡◌, Option, none, some, List, Text, Result, ok, err, map_err, Eff, ◌>>=◌, inl, inr,
  Result-cases, arith,
}
use axelar_relayer_core.Infrastructure.Interfaces.{WithRevision}
use axelar_relayer_core.Infrastructure.Nats.Defs.{
  NatsError, serialize_failed, deserialize_failed, update_failed, put_failed, entry_failed,
}
use axelar_relayer_core.Infrastructure.Nats.Publisher.{with_err}

-- `kv::Entry`.
pub record Entry : Type 0 where
  pub payload : List ℕ
  pub revision : ℕ

pub record Bucket (W X : Type 0) : Type 0 where
  pub update : Text → List ℕ → ℕ → Eff W X ℕ
  pub put : Text → List ℕ → Eff W X ℕ
  pub entry : Text → Eff W X (Option Entry)

-- A bucket keeps the last value of a key under its revision, and updates it only from the revision
-- that it has.
pub record Revisions {W X : Type 0} (bucket : Bucket W X) : Type 0 where
  pub held : Text → W → Option Entry
  pub update_checks :
      (k : Text) (v : List ℕ) (n : ℕ) (w : W) (r : ℕ)
      → (bucket.update k v n w).0 ≡ ok r
      → (held k (bucket.update k v n w).1 ≡ some (record { payload = v; revision = r }))
        × ((e : Entry) → held k w ≡ some e → e.revision ≡ n)
  pub put_sets :
      (k : Text) (v : List ℕ) (w : W) (r : ℕ)
      → (bucket.put k v w).0 ≡ ok r
      → held k (bucket.put k v w).1 ≡ some (record { payload = v; revision = r })
  pub entry_reads :
      (k : Text) (w : W) (o : Option Entry) → (bucket.entry k w).0 ≡ ok o → o ≡ held k w

module _ {W X T : Type 0} (bucket : Bucket W X) (name : Text) (to_vec : T → Result X (List ℕ))
    (deserialize : List ℕ → Result X T) where
  abbrev lift : {E A : Type 0} → Result E A → Eff W E A
  lift r s = (r, s)

  unfoldable pub update : WithRevision T → Eff W (NatsError X) ℕ
  update revised w =
      (do
        value_bytes ← lift (map_err serialize_failed (to_vec revised.value))
        with_err update_failed (bucket.update name value_bytes revised.revision))
        w

  unfoldable pub put : T → Eff W (NatsError X) ℕ
  put value w =
      (do
        value_bytes ← lift (map_err serialize_failed (to_vec value))
        with_err put_failed (bucket.put name value_bytes))
        w

  -- The closure that `get` maps over the entry, and `transpose`.
  unfoldable pub read_entry : Option Entry → Result (NatsError X) (Option (WithRevision T))
  read_entry none = ok none
  read_entry (some e) = elim (deserialize e.payload) [
    | err x ↦ err (deserialize_failed x)
    | ok value ↦ ok (some (record { value = value; revision = e.revision }))
  ]

  unfoldable pub get : Eff W (NatsError X) (Option (WithRevision T))
  unfolding read_entry
  get w = (do entry ← with_err entry_failed (bucket.entry name); lift (read_entry entry)) w

  module _ (rv : Revisions bucket)
      (rt : (v : T) (b : List ℕ) → to_vec v ≡ ok b → deserialize b ≡ ok v) where
    -- What `update` has stored, the next `get` that succeeds returns, with the revision that `update`
    -- returned; and `update` succeeds only from the revision that the bucket holds.
    pub update-get :
        (x : WithRevision T) (w : W) (n : ℕ) (o : Option (WithRevision T))
        → (update x w).0 ≡ ok n
        → (get (update x w).1).0 ≡ ok o
        → (o ≡ some (record { value = x.value; revision = n }))
          × ((e : Entry) → rv.held name w ≡ some e → e.revision ≡ x.revision)
    unfolding update get
    update-get x w n o h g = elim (Result-cases (to_vec x.value)) [
      | inr (e, bad) ↦ ground (arith, bad)
      | inl (b, good) ↦ elim (Result-cases (bucket.update name b x.revision w).0) [
        | inr (e, bad) ↦ ground (arith, good, bad)
        | inl (r, done) ↦
            let (set, checked) = rv.update_checks name b x.revision w r done in
            let read = bucket.entry name (bucket.update name b x.revision w).1 in
            elim (Result-cases read.0) [
              | inr (e, bad) ↦ ground (arith, good, done, bad)
              | inl (o', got) ↦ (
                ground (
                  arith,
                  good,
                  done,
                  got,
                  set,
                  rv.entry_reads name (bucket.update name b x.revision w).1 o' got,
                  rt x.value b good,
                ),
                checked,
              )
            ]
      ]
    ]
