-- ===== src/Ingester/Sequential.antt =====
-- `Ingester::ingest` with one message in flight is the loop that processes one after the other.
use axelar_relayer_core.Base.{
  ℕ, zero, suc, ◌≤◌, ◌<◌, ◌≡◌, refl, ap, ◌∙◌, Option, none, some, List, [], ◌∷◌, ◌++◌, length,
  length-append, Result, ok, err, Eff, arith, Option-cases, Result-cases, inl, inr,
}
use axelar_relayer_core.AmplifierApi.Types.{
  Event, PublishEventsRequest, PublishEventsResult, ErrorResponse,
}
use axelar_relayer_core.AmplifierApi.Requests.{Urls, PostEvents, post_events}
use axelar_relayer_core.AmplifierApi.Requests
use axelar_relayer_core.AmplifierApi.Client.{
  Http, AmplifierApiClient, build_request, execute, json_of,
}
use axelar_relayer_core.Ingester.{
  EventQueue, Report, Ingester, publish_event, process_queue_msg, process_item, process_items,
  ingest,
}
use axelar_relayer_core.Ingester.Pool.{
  Pool, Step, pull, poll, Steps, here, next, IsDrained, Steps-WithinLimit, optional, total,
}
use axelar_relayer_core.Ingester.Interleavings.{go_left}
use axelar_relayer_core.Ingester.Flights.{
  Flight, created, polls_left, advance, Ingests, refused, drained,
}

module _ {W E U X Q B P M Uuid Utc : Type 0} (http : Http W U X Q B P) (urls : Urls U X)
    (to_vec : PublishEventsRequest Uuid Utc → Result X (List ℕ))
    (unit_to_vec : Unit {0} → Result X (List ℕ))
    (read_result : List ℕ → Result X PublishEventsResult)
    (read_error : List ℕ → Result X ErrorResponse) (client : AmplifierApiClient U)
    (queue : EventQueue W E M (Event Uuid Utc)) where
  abbrev Closure : Type 0
  Closure = Flight E M Q P

  abbrev Loop : Type 0
  Loop = Pool (Result E M) Closure (Ingester W)

  abbrev go : Closure → Ingester W → Option Closure × Ingester W
  go = advance http urls to_vec unit_to_vec read_result read_error client queue

  abbrev sequential : Result E M → Ingester W → Ingester W
  sequential = process_item http urls to_vec unit_to_vec read_result read_error client queue

  abbrev one_by_one : List (Result E M) → Ingester W → Ingester W
  one_by_one = process_items http urls to_vec unit_to_vec read_result read_error client queue

  abbrev finish_left :
      (Closure → Ingester W → Ingester W) → Option Closure × Ingester W → Ingester W
  finish_left rest (none, s) = s
  finish_left rest (some f, s) = rest f s

  -- `n` polls of a future, as far as it needs them, with no other future between them.
  finish : ℕ → Closure → Ingester W → Ingester W
  finish zero f s = s
  finish (suc n) f s = finish_left (finish n) (go f s)

  finish_created :
      (item : Result E M) (s : Ingester W) → finish 4 (created item) s ≡ sequential item s
  unfolding finish process_item process_queue_msg publish_event advance
  finish_created (err e) s = refl
  finish_created (ok m) s =
      let r : PostEvents Uuid Utc = record {
        chain = Requests.new s.chain;
        payload = record { events = queue.decoded m ∷ [] };
      } in
      elim (Result-cases (build_request http to_vec (post_events urls) client r)) [
        | inr (e, bad) ↦ ground (arith, bad)
        | inl (q, built) ↦ elim (Result-cases (execute http q s.world).0) [
          | inr (e, bad) ↦ ground (arith, built, bad)
          | inl (p, good) ↦
              let w = (execute http q s.world).1 in
              elim (Result-cases (json_of http read_result read_error p w).0) [
                | inr (e, bad) ↦ ground (arith, built, good, bad)
                | inl (ok a, fine) ↦ ground (arith, built, good, fine)
                | inl (err e, fine) ↦ ground (arith, built, good, fine)
              ]
        ]
      ]

  left_of : (f : Closure) (s : Ingester W) → total polls_left (optional (go f s).0) < polls_left f
  left_of = go_left http urls to_vec unit_to_vec read_result read_error client queue

  finish_settled :
      (n : ℕ) (f : Closure) (s : Ingester W) → polls_left f ≤ n → finish (suc n) f s ≡ finish n f s
  unfolding finish
  finish_settled zero f s h = absurd (omega (arith, h, left_of f s))
  finish_settled (suc n) f s h = elim (Option-cases (go f s).0) [
    | inl gone ↦ ground (arith, gone)
    | inr (g, stays) ↦ ground (arith, stays, left_of f s, finish_settled n g (go f s).1)
  ]

  finish_all : List Closure → Ingester W → Ingester W
  finish_all [] s = s
  finish_all (f ∷ fs) s = finish_all fs (finish 4 f s)

  -- What is left to do, one future after the other.
  outcome : Loop → Ingester W
  outcome u = one_by_one u.rest (finish_all u.flights u.shared)

  finish_step :
      (n : ℕ) (f : Closure) (s : Ingester W) → finish (suc n) f s ≡ finish_left (finish n) (go f s)
  unfolding finish
  finish_step n f s = refl

  polls_le : (f : Closure) → polls_left f ≤ 4
  polls_le f = ground arith

  finish_polled :
      (f : Closure) (s : Ingester W)
      → finish_all (optional (go f s).0 ++ []) (go f s).1 ≡ finish 4 f s
  unfolding finish_all
  finish_polled f s = elim (Option-cases (go f s).0) [
    | inl gone ↦ ground (arith, gone, finish_step 3 f s)
    | inr (g, stays) ↦
        ground
          (arith, stays, finish_step 3 f s, left_of f s, polls_le f, finish_settled 3 g (go f s).1)
  ]

  alone :
      (before after fs : List Closure) (f : Closure)
      → length fs ≤ 1
      → fs ≡ before ++ f ∷ after
      → (before ≡ []) × (after ≡ [])
  alone [] [] fs f h e = (refl, refl)
  alone [] (g ∷ after) fs f h e = absurd (omega (arith, h, ap length e))
  alone (g ∷ before) after fs f h e =
      absurd (omega (arith, h, ap length e, length-append before (f ∷ after)))

  none_left : (fs : List Closure) → length fs < 1 → fs ≡ []
  none_left [] h = refl
  none_left (f ∷ fs) h = absurd (omega (arith, h))

  Step-outcome : (u v : Loop) → Step created go 1 u v → length u.flights ≤ 1 → outcome v ≡ outcome u
  unfolding outcome finish_all process_items
  Step-outcome u v (pull item more e room e') h =
      ground (arith, e, e', room, finish_created item u.shared, none_left u.flights)
  Step-outcome u v (poll before after f e e') h =
      ground (arith, e, e', alone before after u.flights f h e, finish_polled f u.shared)

  Steps-outcome :
      {u : Loop} {n : ℕ} {v : Loop}
      → Steps created go 1 u n v
      → length u.flights ≤ 1
      → outcome v ≡ outcome u
  Steps-outcome here h = refl
  Steps-outcome (next {v = v} {w = w} r st) h =
      Step-outcome v w st (ground (arith, Steps-WithinLimit created go 1 r (inr h)))
      ∙ Steps-outcome r h

  drained_outcome :
      (items : List (Result E M)) (s : Ingester W) (n : ℕ) (v : Loop)
      → Steps created go 1 (record { rest = items; flights = []; shared = s }) n v
      → IsDrained created go 1 v
      → v.shared ≡ one_by_one items s
  unfolding outcome finish_all process_items
  drained_outcome items s n v run over = ground (arith, over, Steps-outcome run (omega arith))

  abbrev ingested : Eff (Ingester W) (Report E X) (Unit {0})
  ingested = ingest http urls to_vec unit_to_vec read_result read_error client queue

  -- With one queue item at a time, `ingest` processes the messages one after the other, whatever the
  -- schedule: it has the result of the sequential loop and leaves the same state.
  pub ingest_one_by_one :
      (s t : Ingester W) (r : Result (Report E X) (Unit {0}))
      → Ingests http urls to_vec unit_to_vec read_result read_error client queue 1 s r t
      → (r, t) ≡ ingested s
  unfolding ingest
  ingest_one_by_one s t r (refused e w failed e' e'') = ground (arith, failed, e', e'')
  ingest_one_by_one s t r (drained items w n v read run over e' e'') =
      ground (arith, read, e', e'', drained_outcome items (record s { world = w }) n v run over)
