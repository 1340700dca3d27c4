-- ===== src/Ingester/Interleavings.antt =====
-- What holds of `Ingester::ingest` in every schedule of its messages: it ends, it keeps to its limit,
-- and with one message at a time it is the sequential loop.
use axelar_relayer_core.Base.{
  ℕ, ◌+◌, ◌*◌, ◌≤◌, ◌<◌, ◌≡◌, refl, Option, List, [], ◌∷◌, length, Result, ok, err, arith,
  Result-cases, inl, inr,
}
use axelar_relayer_core.AmplifierApi.Types.{
  Event, PublishEventsRequest, PublishEventsResult, ErrorResponse,
}
use axelar_relayer_core.AmplifierApi.Requests.{Urls, PostEvents, post_events}
use axelar_relayer_core.AmplifierApi.Requests
use axelar_relayer_core.AmplifierApi.Client.{
  Http, AmplifierApiClient, build_request, execute, json_of,
}
use axelar_relayer_core.Ingester.{EventQueue, Ingester, process_item, process_items}
use axelar_relayer_core.Ingester.Pool.{
  Pool, Steps, Drains, Steps-WithinLimit, Steps-remaining, Drains-within, optional, total,
}
use axelar_relayer_core.Ingester.Flights.{
  Flight, created, executing, reading, settling, polls_left, advance, opened,
}

module _ {W E U X Q B P M Uuid Utc : Type 0} (http : Http W U X Q B P) (urls : Urls U X)
    (to_vec : PublishEventsRequest Uuid Utc → Result X (List ℕ))
    (unit_to_vec : Unit {0} → Result X (List ℕ))
    (read_result : List ℕ → Result X PublishEventsResult)
    (read_error : List ℕ → Result X ErrorResponse) (client : AmplifierApiClient U)
    (queue : EventQueue W E M (Event Uuid Utc)) where
  abbrev Closure : Type 0
  Closure = Flight E M Q P

  abbrev Loop : Type 0
  Loop = Pool (Result E M) Closure (Ingester W)

  abbrev go : Closure → Ingester W → Option Closure × Ingester W
  go = advance http urls to_vec unit_to_vec read_result read_error client queue

  abbrev loop : List (Result E M) → Ingester W → Loop
  loop = opened http urls to_vec unit_to_vec read_result read_error client queue

  abbrev sequential : Result E M → Ingester W → Ingester W
  sequential = process_item http urls to_vec unit_to_vec read_result read_error client queue

  abbrev one_by_one : List (Result E M) → Ingester W → Ingester W
  one_by_one = process_items http urls to_vec unit_to_vec read_result read_error client queue

  -- Every poll brings a future closer to its end.
  pub go_left :
      (f : Closure) (s : Ingester W) → total polls_left (optional (go f s).0) < polls_left f
  unfolding advance
  go_left (created (err e)) s = omega arith
  go_left (created (ok m)) s =
      let r : PostEvents Uuid Utc = record {
        chain = Requests.new s.chain;
        payload = record { events = queue.decoded m ∷ [] };
      } in
      elim (Result-cases (build_request http to_vec (post_events urls) client r)) [
        | inl (q, built) ↦ ground (arith, built)
        | inr (e, bad) ↦ ground (arith, bad)
      ]
  go_left (executing m q) s = elim (Result-cases (execute http q s.world).0) [
    | inl (p, good) ↦ ground (arith, good)
    | inr (e, bad) ↦ ground (arith, bad)
  ]
  go_left (reading m p) s = elim (Result-cases (json_of http read_result read_error p s.world).0) [
    | inl (ok a, good) ↦ ground (arith, good)
    | inl (err e, good) ↦ ground (arith, good)
    | inr (e, bad) ↦ ground (arith, bad)
  ]
  go_left (settling kind m) s = omega arith

  created_left : (i : Result E M) → let f : Closure = created i in polls_left f < 5
  created_left i = omega arith

  abbrev left : Loop → ℕ
  left u = total (λ (i : Result E M). 5) u.rest + total polls_left u.flights

  total_five : (items : List (Result E M)) → total (λ (i : Result E M). 5) items ≡ 5 * length items
  total_five [] = refl
  total_five (i ∷ is) = omega (arith, total_five is)

  -- However the messages of the queue are interleaved, the loop takes at most five steps for each item
  -- of the stream, and from every state that it reaches it can come to its end.
  pub ingest_ends :
      (limit n : ℕ) (items : List (Result E M)) (s : Ingester W) (v : Loop)
      → Steps created go limit (loop items s) n v
      → (n ≤ 5 * length items) × Drains created go limit v
  ingest_ends limit n items s v r = (
    omega (
      arith,
      total_five items,
      Steps-remaining created go limit 5 polls_left created_left go_left r,
    ),
    Drains-within created go limit 5 polls_left created_left go_left (left v) v (omega arith),
  )

  -- Never more messages are in flight than the limit allows.
  pub in_flight_bounded :
      (limit n : ℕ) (items : List (Result E M)) (s : Ingester W) (v : Loop)
      → Steps created go limit (loop items s) n v
      → 0 < limit
      → length v.flights ≤ limit
  in_flight_bounded limit n items s v r h =
      ground (arith, Steps-WithinLimit created go limit r (inr (omega arith)))
