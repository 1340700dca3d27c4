-- ===== src/Ingester/Tests.antt =====
-- The theorems on the ingester at a queue of two messages and an error, and an API that is up for
-- the first call only.
use axelar_relayer_core.Base.{ℕ, ◌≡◌, ◌↔◌, Result}
use axelar_relayer_core.Ingester.{Report, Ingester, process_queue_msg, ingest}
use axelar_relayer_core.Ingester.Probe.{Answered, healthz, readyz, healthz_iff}
use axelar_relayer_core.Ingester.Sample.{
  World, queue, http, urls, to_vec, unit_to_vec, read_result, read_error, client, ingester,
}

abbrev processed : ℕ → Ingester World
processed calls =
    process_queue_msg http urls to_vec unit_to_vec read_result read_error client queue 10
      (ingester calls)

abbrev ingested : Result (Report ℕ ℕ) (Unit {0}) × Ingester World
ingested = ingest http urls to_vec unit_to_vec read_result read_error client queue (ingester 0)

healthz_iff_example :
    ((healthz http urls to_vec unit_to_vec read_result read_error client queue
          (ingester 1)).0.status_code
        ≡ 200
      ↔ Answered http urls to_vec unit_to_vec read_result read_error client queue (ingester 1))
    × ((readyz http urls to_vec unit_to_vec read_result read_error client queue
          (ingester 1)).0.status_code
        ≡ (healthz http urls to_vec unit_to_vec read_result read_error client queue
            (ingester 1)).0.status_code)
healthz_iff_example =
    healthz_iff http urls to_vec unit_to_vec read_result read_error client queue (ingester 1)
