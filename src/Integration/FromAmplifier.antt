-- ===== src/Integration/FromAmplifier.antt =====
-- crates/relayer-amplifier-api-integration/src/from_amplifier.rs: polling for tasks. The
-- state of `State` is held with the channel of tasks and the requests in the join set; the store
-- behind `State` may fail to set an identifier, as `set_queried` says.
use axelar_relayer_core.Base.{
  ◌≡◌, ◌≢◌, refl, Bool, true, false, Option, none, some, List, [], ◌∷◌, ◌++◌, last, Result, ok, err,
  arith, Result-cases, Option-cases, inl, inr, ◌⊎◌, sym, ◌∙◌,
}

-- The identifiers of `State`, the tasks in the channel that the downstream processor has not taken,
-- and the requests that the join set works on.
pub record Bridge (I T Q : Type 0) : Type 0 where
  pub latest_queried_task_id : Option I
  pub latest_processed_task_id : Option I
  pub channel : List T
  pub join_set : List Q

abbrev is_empty : {A : Type 0} → List A → Bool
is_empty [] = true
is_empty (x ∷ xs) = false

List-cases : {A : Type 0} (xs : List A) → (xs ≡ []) ⊎ ((y : A) × (ys : List A) × (xs ≡ y ∷ ys))
List-cases [] = inl refl
List-cases (x ∷ xs) = inr (x, xs, refl)

Dec-cases : {A : Type 0} (d : Dec A) → ((a : A) × (d ≡ yes a)) ⊎ ((n : ¬ A) × (d ≡ no n))
Dec-cases (yes a) = inl (a, refl)
Dec-cases (no n) = inr (n, refl)

module _ {I T Q F : Type 0} (same : Discrete (Option I)) (build_request : Option I → Result F Q)
    (id_of : T → I) where
  -- The end of `internal`: the request for the tasks behind the latest processed one.
  abbrev spawn : Bridge I T Q → Result F (Unit {0}) × Bridge I T Q
  spawn s = elim (build_request s.latest_processed_task_id) [
    | err e ↦ (err e, s)
    | ok request ↦ (ok tt, record s { join_set = s.join_set ++ request ∷ [] })
  ]

  -- `internal`: its two early returns, and the request.
  unfoldable pub internal : Bridge I T Q → Result F (Unit {0}) × Bridge I T Q
  internal s = elim s.channel [
    | t ∷ ts ↦ (ok tt, s)
    | [] ↦ elim (same s.latest_processed_task_id s.latest_queried_task_id) [
      | no differ ↦ (ok tt, s)
      | yes equal ↦ spawn s
    ]
  ]

  -- `process`, before its loop: polling goes on from the latest processed task.
  unfoldable pub resume :
      (I → Result F (Unit {0})) → Bridge I T Q → Result F (Unit {0}) × Bridge I T Q
  resume set_queried s = elim s.latest_processed_task_id [
    | none ↦ (ok tt, s)
    | some i ↦ elim (set_queried i) [
      | err e ↦ (err e, s)
      | ok u ↦ (ok tt, record s { latest_queried_task_id = some i })
    ]
  ]

  -- `process_task_request`, from the result of the request: the tasks go into the channel, and the
  -- last one is the latest queried.
  unfoldable pub process_task_request :
      (I → Result F (Unit {0}))
      → Result F (List T)
      → Bridge I T Q
      → Result F (Unit {0}) × Bridge I T Q
  process_task_request set_queried (err e) s = (err e, s)
  process_task_request set_queried (ok tasks) s = elim (last tasks) [
    | none ↦ (ok tt, s)
    | some task ↦
        let s' = record s { channel = s.channel ++ tasks } in
        elim (set_queried (id_of task)) [
          | err e ↦ (err e, s')
          | ok u ↦ (ok tt, record s' { latest_queried_task_id = some (id_of task) })
        ]
  ]

  -- Identifiers that differ hold a poll back.
  pub poll_quiet :
      (s : Bridge I T Q)
      → s.latest_processed_task_id ≢ s.latest_queried_task_id
      → internal s ≡ (ok tt, s)
  unfolding internal
  poll_quiet s differ = elim (List-cases s.channel) [
    | inr (t, ts, busy) ↦ ground (arith, busy)
    | inl idle ↦ elim (Dec-cases (same s.latest_processed_task_id s.latest_queried_task_id)) [
      | inl (equal, e) ↦ absurd (differ equal)
      | inr (apart, e) ↦ ground (arith, idle, e)
    ]
  ]

  -- A poll spawns the request for the tasks behind the latest processed one, or changes nothing.
  pub internal_cases :
      (s : Bridge I T Q)
      → ((internal s).1 ≡ s)
        ⊎ ((request : Q) × (build_request s.latest_processed_task_id ≡ ok request)
            × ((internal s).1 ≡ record s { join_set = s.join_set ++ request ∷ [] }))
  unfolding internal
  internal_cases s = elim (List-cases s.channel) [
    | inr (t, ts, busy) ↦ inl (ground (arith, busy))
    | inl idle ↦ elim (Dec-cases (same s.latest_processed_task_id s.latest_queried_task_id)) [
      | inr (apart, e) ↦ inl (ground (arith, idle, e))
      | inl (equal, e) ↦ elim (Result-cases (build_request s.latest_processed_task_id)) [
        | inr (x, bad) ↦ inl (ground (arith, idle, e, bad))
        | inl (request, good) ↦ inr (request, good, ground (arith, idle, e, good))
      ]
    ]
  ]

  -- A poll that nothing holds back.
  pub poll_spawns :
      (s : Bridge I T Q) (request : Q)
      → s.channel ≡ []
      → s.latest_processed_task_id ≡ s.latest_queried_task_id
      → build_request s.latest_processed_task_id ≡ ok request
      → internal s ≡ (ok tt, record s { join_set = s.join_set ++ request ∷ [] })
  unfolding internal
  poll_spawns s request idle equal built =
      elim (Dec-cases (same s.latest_processed_task_id s.latest_queried_task_id)) [
        | inl (equal', e) ↦ ground (arith, idle, e, built)
        | inr (apart, e) ↦ absurd (apart equal)
      ]

  -- After a start-up whose store has kept what was set, and where nothing has been queried without
  -- having been processed, the first poll is not held back: it asks for the tasks behind the latest
  -- processed one.
  pub internal-resume :
      (set_queried : I → Result F (Unit {0})) (s : Bridge I T Q) (request : Q)
      → s.channel ≡ []
      → (s.latest_processed_task_id ≡ none → s.latest_queried_task_id ≡ none)
      → (resume set_queried s).0 ≡ ok tt
      → build_request s.latest_processed_task_id ≡ ok request
      → (internal (resume set_queried s).1).1.join_set ≡ s.join_set ++ request ∷ []
  unfolding internal resume
  internal-resume set_queried s request idle fresh done built =
      elim (Option-cases s.latest_processed_task_id) [
        | inl start ↦ ground (
          arith,
          start,
          fresh start,
          poll_spawns s request idle (start ∙ sym (fresh start)) built,
        )
        | inr (i, known) ↦ elim (Result-cases (set_queried i)) [
          | inr (x, bad) ↦ ground (arith, known, bad, done)
          | inl (u, good) ↦ ground (
            arith,
            known,
            good,
            poll_spawns (record s { latest_queried_task_id = some i }) request idle known built,
          )
        ]
      ]
