-- ===== src/Ingester/Schedules.antt =====
-- A schedule with two messages in flight, whose acknowledgements are not in the order of the stream.
use axelar_relayer_core.Base.{
  ℕ, ◌≤◌, ◌≡◌, refl, Option, arith, List, [], ◌∷◌, codes, Result, ok, err,
}
use axelar_relayer_core.Infrastructure.Interfaces.{AckKind}
use axelar_relayer_core.AmplifierApi.Requests.{post_events}
use axelar_relayer_core.AmplifierApi.Client.{build_request, execute, json_of}
use axelar_relayer_core.Ingester.{Report, Ingester, settle, ingest}
use axelar_relayer_core.Ingester.Sample.{
  World, queue, http, http-Logs, urls, to_vec, unit_to_vec, read_result, read_error, client,
  ingester,
}
use axelar_relayer_core.Ingester.Pool.{Pool, Steps, here, next, pull, poll, Drains}
use axelar_relayer_core.Ingester.Flights.{
  Flight, created, executing, reading, settling, advance, opened, Ingests, drained,
}
use axelar_relayer_core.Ingester.Interleavings.{ingest_ends}
use axelar_relayer_core.Ingester.Sequential.{ingest_one_by_one}
use axelar_relayer_core.Ingester.Accounts.{SettledOnce, concurrent_settles}

abbrev go : Flight ℕ ℕ ℕ ℕ → Ingester World → Option (Flight ℕ ℕ ℕ ℕ) × Ingester World
go = advance http urls to_vec unit_to_vec read_result read_error client queue

abbrev items : List (Result ℕ ℕ)
items = ok 10 ∷ err 1 ∷ ok 11 ∷ []

abbrev begin : Pool (Result ℕ ℕ) (Flight ℕ ℕ ℕ ℕ) (Ingester World)
begin = opened http urls to_vec unit_to_vec read_result read_error client queue items (ingester 0)

abbrev over : Ingester World
over = record {
  chain = codes "flow";
  errors = 2;
  world = record { acks = (11, AckKind.ack) ∷ (10, AckKind.nak) ∷ []; calls = 2 };
}

abbrev finished : Pool (Result ℕ ℕ) (Flight ℕ ℕ ℕ ℕ) (Ingester World)
finished = record { rest = []; flights = []; shared = over }

interleaved : Steps created go 2 begin 11 finished
unfolding advance build_request execute json_of settle post_events
interleaved =
    next
      (next
        (next
          (next
            (next
              (next
                (next
                  (next
                    (next
                      (next (next here (pull (ok 10) (err 1 ∷ ok 11 ∷ []) refl (omega arith) refl))
                        (pull (err 1) (ok 11 ∷ []) refl (omega arith) refl))
                      (poll [] (created (ok 10) ∷ []) (created (err 1)) refl refl))
                    (pull (ok 11) [] refl (omega arith) refl))
                  (poll [] (created (ok 10) ∷ []) (created (ok 11)) refl refl))
                (poll (executing 11 0 ∷ []) [] (created (ok 10)) refl refl))
              (poll [] (executing 10 0 ∷ []) (executing 11 0) refl refl))
            (poll [] (executing 10 0 ∷ []) (reading 11 200) refl refl))
          (poll [] (executing 10 0 ∷ []) (settling AckKind.ack 11) refl refl))
        (poll [] [] (executing 10 0) refl refl))
      (poll [] [] (settling AckKind.nak 10) refl refl)

ingest_ends_example : (11 ≤ 15) × Drains created go 2 finished
ingest_ends_example =
    ingest_ends http urls to_vec unit_to_vec read_result read_error client queue 2 11 items
      (ingester 0) finished interleaved

-- The schedule after its fourth step.
abbrev midway : Pool (Result ℕ ℕ) (Flight ℕ ℕ ℕ ℕ) (Ingester World)
midway = record {
  rest = [];
  flights = created (ok 11) ∷ created (ok 10) ∷ [];
  shared = record (ingester 0) { errors = 1 };
}

to_midway : Steps created go 2 begin 4 midway
unfolding advance
to_midway =
    next
      (next
        (next (next here (pull (ok 10) (err 1 ∷ ok 11 ∷ []) refl (omega arith) refl))
          (pull (err 1) (ok 11 ∷ []) refl (omega arith) refl))
        (poll [] (created (ok 10) ∷ []) (created (err 1)) refl refl))
      (pull (ok 11) [] refl (omega arith) refl)

interleaved-Ingests :
    Ingests http urls to_vec unit_to_vec read_result read_error client queue 2
      (ingester 0)
      (ok tt)
      over
interleaved-Ingests =
    drained items (ingester 0).world 11 finished refl interleaved (refl, refl) refl refl

concurrent_settles_example :
    (◌≡◌ {A = Result (Report ℕ ℕ) (Unit {0})} (ok tt) (ok tt))
    × SettledOnce http urls to_vec unit_to_vec read_result read_error client queue http-Logs items
        (ingester 0)
        over
concurrent_settles_example =
    concurrent_settles http urls to_vec unit_to_vec read_result read_error client queue http-Logs 2
      items (ingester 0) over (ok tt) interleaved-Ingests refl

abbrev over_alone : Ingester World
over_alone = record {
  chain = codes "flow";
  errors = 2;
  world = record { acks = (10, AckKind.ack) ∷ (11, AckKind.nak) ∷ []; calls = 2 };
}

alone : Steps created go 1 begin 11 (record { rest = []; flights = []; shared = over_alone })
unfolding advance build_request execute json_of settle post_events
alone =
    next
      (next
        (next
          (next
            (next
              (next
                (next
                  (next
                    (next
                      (next (next here (pull (ok 10) (err 1 ∷ ok 11 ∷ []) refl (omega arith) refl))
                        (poll [] [] (created (ok 10)) refl refl))
                      (poll [] [] (executing 10 0) refl refl))
                    (poll [] [] (reading 10 200) refl refl))
                  (poll [] [] (settling AckKind.ack 10) refl refl))
                (pull (err 1) (ok 11 ∷ []) refl (omega arith) refl))
              (poll [] [] (created (err 1)) refl refl))
            (pull (ok 11) [] refl (omega arith) refl))
          (poll [] [] (created (ok 11)) refl refl))
        (poll [] [] (executing 11 0) refl refl))
      (poll [] [] (settling AckKind.nak 11) refl refl)

ingest_one_by_one_example :
    (ok tt, over_alone)
    ≡ ingest http urls to_vec unit_to_vec read_result read_error client queue (ingester 0)
ingest_one_by_one_example =
    ingest_one_by_one http urls to_vec unit_to_vec read_result read_error client queue (ingester 0)
      over_alone (ok tt)
      (drained items (ingester 0).world 11 (record { rest = []; flights = []; shared = over_alone })
        refl alone (refl, refl) refl refl)
