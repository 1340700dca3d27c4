-- ===== src/Ingester/Flights.antt =====
-- crates/amplifier-ingester/src/lib.rs: `Ingester::ingest` with several messages in flight. A future
-- of the loop's closure stands at one of its `await`s, and a poll runs it to the next one.
use axelar_relayer_core.Base.{ℕ, ◌≡◌, Option, none, some, List, [], ◌∷◌, Result, ok, err}
use axelar_relayer_core.Infrastructure.Interfaces.{AckKind}
use axelar_relayer_core.AmplifierApi.Types.{
  Event, PublishEventsRequest, PublishEventsResult, ErrorResponse,
}
use axelar_relayer_core.AmplifierApi.Requests.{Urls, PostEvents, post_events}
use axelar_relayer_core.AmplifierApi.Requests
use axelar_relayer_core.AmplifierApi.Client.{
  Http, AmplifierApiClient, build_request, execute, json_of,
}
use axelar_relayer_core.Ingester.{
  EventQueue, Report, messages_failed, Ingester, record_error, settle,
}
use axelar_relayer_core.Ingester.Pool.{Pool, Steps, IsDrained}

-- The future of an item: not polled yet, or waiting for the API's answer to a request, for the body
-- of a response, or for the acknowledgement.
pub data Flight (E M Q P : Type 0) : Type 0 where
  created : Result E M → Flight E M Q P
  executing : M → Q → Flight E M Q P
  reading : M → P → Flight E M Q P
  settling : AckKind → M → Flight E M Q P

-- How many polls a future needs at most.
abbrev pub polls_left : {E M Q P : Type 0} → Flight E M Q P → ℕ
polls_left (created item) = 4
polls_left (executing m q) = 3
polls_left (reading m p) = 2
polls_left (settling kind m) = 1

module _ {W E U X Q B P M Uuid Utc : Type 0} (http : Http W U X Q B P) (urls : Urls U X)
    (to_vec : PublishEventsRequest Uuid Utc → Result X (List ℕ))
    (unit_to_vec : Unit {0} → Result X (List ℕ))
    (read_result : List ℕ → Result X PublishEventsResult)
    (read_error : List ℕ → Result X ErrorResponse) (client : AmplifierApiClient U)
    (queue : EventQueue W E M (Event Uuid Utc)) where
  abbrev pub Future : Type 0
  Future = Flight E M Q P

  -- The error arm of `process_queue_msg`, up to its `await`.
  abbrev pub fail : M → Ingester W → Option Future × Ingester W
  fail m s = (some (settling AckKind.nak m), record_error s)

  -- One poll of the closure of `for_each_concurrent`.
  unfoldable pub advance : Future → Ingester W → Option Future × Ingester W
  advance (created (err e)) s = (none, record_error s)
  advance (created (ok m)) s =
      let r : PostEvents Uuid Utc = record {
        chain = Requests.new s.chain;
        payload = record { events = queue.decoded m ∷ [] };
      } in
      elim (build_request http to_vec (post_events urls) client r) [
        | err e ↦ fail m s
        | ok request ↦ (some (executing m request), s)
      ]
  advance (executing m request) s =
      let (r, w) = execute http request s.world in
      elim r [
        | err e ↦ fail m (record s { world = w })
        | ok p ↦ (some (reading m p), record s { world = w })
      ]
  advance (reading m p) s =
      let (r, w) = json_of http read_result read_error p s.world in
      elim r [
        | err e ↦ fail m (record s { world = w })
        | ok (err e) ↦ fail m (record s { world = w })
        | ok (ok answer) ↦ (some (settling AckKind.ack m), record s { world = w })
      ]
  advance (settling kind m) s =
      (none, settle http urls to_vec unit_to_vec read_result read_error client queue kind m s)

  -- The loop before its first poll.
  abbrev pub opened : List (Result E M) → Ingester W → Pool (Result E M) Future (Ingester W)
  opened items s = record { rest = items; flights = []; shared = s }

  -- `Ingester::ingest` with the given `concurrent_queue_items`: its result and the state it leaves.
  pub data Ingests (limit : ℕ) (s : Ingester W) (r : Result (Report E X) (Unit {0}))
      (t : Ingester W) : Type 0 where
    refused :
        (e : E) (w : W)
        → queue.messages s.world ≡ (err e, w)
        → r ≡ err (messages_failed e)
        → t ≡ record_error (record s { world = w })
        → Ingests limit s r t
    drained :
        (items : List (Result E M)) (w : W) (n : ℕ) (v : Pool (Result E M) Future (Ingester W))
        → queue.messages s.world ≡ (ok items, w)
        → Steps created advance limit (opened items (record s { world = w })) n v
        → IsDrained created advance limit v
        → r ≡ ok tt
        → t ≡ v.shared
        → Ingests limit s r t
