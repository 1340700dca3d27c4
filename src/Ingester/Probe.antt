-- ===== src/Ingester/Probe.antt =====
-- What the health probe of an ingester answers: `Ingester::check_health` behind `handle_healthz` of
-- crates/bin-util.
use axelar_relayer_core.Base.{
  ℕ, ◌≡◌, ◌↔◌, sym, subst, List, Result, ok, err, arith, Result-cases, inl, inr,
}
use axelar_relayer_core.AmplifierApi.Types.{
  Event, PublishEventsRequest, PublishEventsResult, ErrorResponse,
}
use axelar_relayer_core.AmplifierApi.Requests.{Urls, health_check}
use axelar_relayer_core.AmplifierApi.Client.{Http, AmplifierApiClient, build_request, execute}
use axelar_relayer_core.BinUtil.HealthCheck.{Answer, handle_healthz, handle_readyz}
use axelar_relayer_core.Ingester.{EventQueue, Ingester}
use axelar_relayer_core.Ingester

module _ {W E U X Q B P M Uuid Utc : Type 0} (http : Http W U X Q B P) (urls : Urls U X)
    (to_vec : PublishEventsRequest Uuid Utc → Result X (List ℕ))
    (unit_to_vec : Unit {0} → Result X (List ℕ))
    (read_result : List ℕ → Result X PublishEventsResult)
    (read_error : List ℕ → Result X ErrorResponse) (client : AmplifierApiClient U)
    (queue : EventQueue W E M (Event Uuid Utc)) where
  abbrev pub healthz : Ingester W → Answer × Ingester W
  healthz =
      handle_healthz
        (Ingester.check_health http urls to_vec unit_to_vec read_result read_error client queue)

  abbrev pub readyz : Ingester W → Answer × Ingester W
  readyz =
      handle_readyz
        (Ingester.check_health http urls to_vec unit_to_vec read_result read_error client queue)

  -- The consumer is healthy, and a request to the API could be built and has been answered, with
  -- whatever status.
  abbrev pub Answered : Ingester W → Type 0
  Answered s =
      let (r, w) = queue.check_health s.world in
      (r ≡ ok tt)
      × (q : Q) × (p : P) × (build_request http unit_to_vec (health_check urls) client (record {})
          ≡ ok q)
      × ((execute http q w).0 ≡ ok p)

  unanswered :
      (q q' : Q) (p : P) (e : _) (w : W)
      → build_request http unit_to_vec (health_check urls) client (record {}) ≡ ok q
      → build_request http unit_to_vec (health_check urls) client (record {}) ≡ ok q'
      → (execute http q w).0 ≡ err e
      → (execute http q' w).0 ≡ ok p
      → ⊥
  unanswered q q' p e w built built' bad sent =
      let same : q ≡ q' = ground (arith, built, built') in
      let good = subst (λ x. (execute http x w).0 ≡ ok p) (sym same) sent in
      ground (arith, bad, good)

  -- Both probes answer 200 exactly when the consumer is healthy and the API has answered the request,
  -- an error status of the answer included, and 503 otherwise.
  pub healthz_iff :
      (s : Ingester W)
      → (((healthz s).0.status_code ≡ 200) ↔ Answered s)
        × ((readyz s).0.status_code ≡ (healthz s).0.status_code)
  unfolding Ingester.check_health handle_healthz handle_readyz
  healthz_iff s =
      let (r, w) = queue.check_health s.world in
      elim (Result-cases r) [
        | inr (e, bad) ↦
            ((λ h. ground (arith, bad, h), λ h. ground (arith, bad, h.0)), ground (arith, bad))
        | inl (u, good) ↦
            elim (Result-cases
              (build_request http unit_to_vec (health_check urls) client (record {}))) [
                | inr (e, bad) ↦ (
                  (
                    λ h. ground (arith, good, bad, h),
                    λ (a, q, p, built, sent). ground (arith, bad, built),
                  ),
                  ground (arith, good, bad),
                )
                | inl (q, built) ↦ elim (Result-cases (execute http q w).0) [
                  | inr (e, bad) ↦ (
                    (
                      λ h. ground (arith, good, built, bad, h),
                      λ (a, q', p, built', sent).
                          absurd (unanswered q q' p e w built built' bad sent),
                    ),
                    ground (arith, good, built, bad),
                  )
                  | inl (p, sent) ↦ (
                    (λ h. (good, q, p, built, sent), λ h. ground (arith, good, built, sent)),
                    ground (arith, good, built, sent),
                  )
                ]
              ]
      ]
