-- ===== src/Ingester/Components/Outcomes.antt =====
-- What an ingester on GCP has when its set-up returns, whatever it returns.
use mathlib.Core.List.{append_assoc}
use axelar_relayer_core.Base.{
  ℕ, ◌≡◌, refl, ap, subst, ◌∙◌, List, [], ◌∷◌, ◌++◌, Text, Result, ok, err, Eff, Keeps, bind-Keeps,
  arith, Result-cases, Option-cases, inl, inr,
}
use axelar_relayer_core.AmplifierApi.Client.{AmplifierApiClient}
use axelar_relayer_core.AmplifierApi.Config.{
  ClientSettings, custom_provider, amplifier_api_client_new,
}
use axelar_relayer_core.BinUtil.Config.{ConfigCrate, Loadable, try_deserialize}
use axelar_relayer_core.BinUtil.Blank.{NotBlank, try_deserialize-validate}
use axelar_relayer_core.Infrastructure.Gcp.Defs.{
  GcpError, auth, kms_client, kms, certificate_read, rustls_builder,
}
use axelar_relayer_core.Infrastructure.Gcp.Connectors.{
  Provider, GcpConsumer, reader, connect_consumer, drop_consumer, call, lift, Kms,
  kms_tls_client_config,
}
use axelar_relayer_core.Infrastructure.Gcp.Connectors.Tasks.{
  Spawns, TaskEvent, started, cancelled, Reads, connect_consumer-Reads,
}
use axelar_relayer_core.Setup.{
  SetupError, config_failed, connect_failed, kms_failed, tls_not_set, client_failed, step,
  step-cases, dropping-cases, ok_or,
}
use axelar_relayer_core.Ingester.Components.{IngesterConfig, NewIngester, ingester_new}
use axelar_relayer_core.Ingester.Components.Checks.{
  validate-NotBlank, IsSection, validate_section_iff,
}
use axelar_relayer_core.Ingester.Components.Gcp.{
  GcpConfig, consumer_cfg, amplifier_client, new_amplifier_ingester, config_type, section_type,
}

-- Neither loading a configuration nor KMS starts a task that reads messages or cancels a token.
pub record Apart {W X Raw G A C T S P R K H A' C' P' D B L : Type 0} (config : ConfigCrate W X Raw)
    (provider : Provider W X A C T S P R K H) (cloud : Kms W X A' C' G P' D B L) : Type 0 where
  pub spawns : Spawns provider
  pub build_frame :
      (path : Text) (w : W) → spawns.history (config.build path w).1 ≡ spawns.history w
  pub auth_frame : (w : W) → spawns.history (cloud.kms_with_auth w).1 ≡ spawns.history w
  pub client_frame :
      (a : A') (w : W) → spawns.history (cloud.kms_new_client a w).1 ≡ spawns.history w
  pub provider_frame :
      (c : C') (g : G) (w : W) → spawns.history (cloud.provider c g w).1 ≡ spawns.history w

module _ {W X Raw I U O G A C T S P R K H A' C' P' D B L N : Type 0} (config : ConfigCrate W X Raw)
    (read_config : Raw → Result X (IngesterConfig I U O))
    (read_section : Raw → Result X (GcpConfig G)) (kms_validate : G → Result Text (Unit {0}))
    (provider : Provider W X A C T S P R K H) (cloud : Kms W X A' C' G P' D B L)
    (into_bytes : Text → List ℕ) (build : ClientSettings I L → Result X N)
    (apart : Apart config provider cloud) where
  abbrev history : W → List (TaskEvent R S K)
  history = apart.spawns.history

  try_deserialize_frame :
      {V : Type 0} (t : Loadable X Raw V) (path : Text) (w : W)
      → history (try_deserialize config t path w).1 ≡ history w
  unfolding try_deserialize
  try_deserialize_frame t path w =
      ground (arith, apart.build_frame path w, Result-cases (config.build path w).0)

  kms_frame : (bytes : List ℕ) (key : G) → Keeps history (kms_tls_client_config cloud bytes key)
  unfolding kms_tls_client_config
  kms_frame bytes key =
      bind-Keeps history (call auth cloud.kms_with_auth) _ (λ w. apart.auth_frame w)
        (λ a.
          bind-Keeps history (call kms_client (cloud.kms_new_client a)) _
            (λ w. apart.client_frame a w)
            (λ c.
              bind-Keeps history (call kms (cloud.provider c key)) _
                (λ w. apart.provider_frame c key w)
                (λ p.
                  bind-Keeps history (lift certificate_read (cloud.from_pem_slice bytes)) _
                    (λ w. refl)
                    (λ d.
                      bind-Keeps history
                        (lift rustls_builder (cloud.with_safe_default_protocol_versions p)) _
                        (λ w. refl) (λ b w. refl)))))

  abbrev client_of :
      IngesterConfig I U O
      → GcpConfig G
      → Eff W (SetupError (GcpError X) X) (N × AmplifierApiClient U)
  client_of =
      amplifier_client config read_config read_section kms_validate provider cloud into_bytes build

  client_frame :
      (cfg : IngesterConfig I U O) (infra : GcpConfig G) → Keeps history (client_of cfg infra)
  unfolding amplifier_client
  client_frame cfg infra =
      bind-Keeps history (ok_or cfg.amplifier.tls_public_certificate tls_not_set) _
        (λ w. ground (arith, Option-cases cfg.amplifier.tls_public_certificate))
        (λ c.
          bind-Keeps history
            (step kms_failed (kms_tls_client_config cloud (into_bytes c) infra.kms)) _
            (λ w. kms_frame (into_bytes c) infra.kms w) (λ l w. refl))

  -- One task has been started, for a section that meets its requirements, and this has come after.
  abbrev pub Started : K → W → W → GcpConfig G → List (TaskEvent R S K) → Type 0
  Started token w w' infra after =
      (client : C) × (r : R) × (history w'
        ≡ history w
          ++ started (
              reader provider (consumer_cfg infra) token
                (provider.subscription client infra.events_subscription) r)
            ∷ after)
      × IsSection kms_validate infra

  -- One task has been started, and then its token has been cancelled.
  abbrev pub Released : K → W → W → Type 0
  Released token w w' =
      (infra : GcpConfig G) × Started token w w' infra (cancelled (provider.child_token token) ∷ [])

  released :
      (infra : GcpConfig G) (token : K) (consumer : GcpConsumer K H) (w w' : W)
      → consumer.cancel_token ≡ provider.child_token token
      → Started token w w' infra []
      → Released token w (drop_consumer provider consumer w')
  unfolding drop_consumer
  released infra token consumer w w' child (c, r, run, section) =
      let one = started (
        reader provider (consumer_cfg infra) token
          (provider.subscription c infra.events_subscription) r) in
      let last = cancelled (provider.child_token token) in
      (
        infra,
        (
          c,
          r,
          apart.spawns.cancel_recorded consumer.cancel_token w'
              ∙ ap (λ k. history w' ++ cancelled k ∷ []) child
              ∙ ap (λ l. l ++ last ∷ []) run
              ∙ append_assoc (history w) (one ∷ []) (last ∷ []),
          section,
        ),
      )

  -- What is left behind, by the result.
  abbrev pub Outcome :
      K → W → Result (SetupError (GcpError X) X) (NewIngester N U (GcpConsumer K H)) × W → Type 0
  Outcome token w (err (config_failed e), w') = history w' ≡ history w
  Outcome token w (err (connect_failed e), w') = history w' ≡ history w
  Outcome token w (err (kms_failed e), w') = Released token w w'
  Outcome token w (err tls_not_set, w') = Released token w w'
  Outcome token w (err (client_failed e), w') = Released token w w'
  Outcome token w (ok ingester, w') =
      (cfg : IngesterConfig I U O) × (infra : GcpConfig G) × NotBlank cfg.amplifier.chain
      × (ingester.chain ≡ cfg.amplifier.chain)
      × (ingester.concurrent_queue_items ≡ cfg.concurrent_queue_items)
      × (ingester.event_queue_consumer.cancel_token ≡ provider.child_token token)
      × Started token w w' infra []

  not_started :
      (infra : GcpConfig G) (token : K) (w w2 : W) (e : GcpError X) (w3 : W)
      → Reads provider apart.spawns infra.events_subscription
          (consumer_cfg infra)
          token
          w2
          (err e, w3)
      → history w2 ≡ history w
      → history w3 ≡ history w
  not_started infra token w w2 e w3 reads same = reads ∙ same

  -- The errors of `amplifier_client`.
  abbrev IsClientError : SetupError (GcpError X) X → Type 0
  IsClientError (config_failed e) = ⊥
  IsClientError (connect_failed e) = ⊥
  IsClientError (kms_failed e) = Unit
  IsClientError tls_not_set = Unit
  IsClientError (client_failed e) = Unit

  is_error : (x e : SetupError (GcpError X) X) → IsClientError x → x ≡ e → IsClientError e
  is_error x e h same = subst IsClientError same h

  client_error :
      (cfg : IngesterConfig I U O) (infra : GcpConfig G) (w : W) (e : SetupError (GcpError X) X)
      → (client_of cfg infra w).0 ≡ err e
      → IsClientError e
  unfolding amplifier_client
  client_error cfg infra w e h = elim (Option-cases cfg.amplifier.tls_public_certificate) [
    | inl missing ↦ is_error tls_not_set e tt (ground (arith, missing, h))
    | inr (c, set) ↦
        elim (Result-cases (kms_tls_client_config cloud (into_bytes c) infra.kms w).0) [
          | inr (x, bad) ↦ is_error (kms_failed x) e tt (ground (arith, set, bad, h))
          | inl (l, good) ↦
              elim (Result-cases
                (amplifier_api_client_new build cfg.amplifier.url (custom_provider l))) [
                  | inr (x, bad) ↦
                      is_error (client_failed x) e tt (ground (arith, set, good, bad, h))
                  | inl (n, fine) ↦ ground (arith, set, good, fine, h)
                ]
        ]
  ]

  client_outcome :
      (token : K) (w w' : W) (infra : GcpConfig G) (cfg : IngesterConfig I U O) (w4 : W)
      (e : SetupError (GcpError X) X)
      → (client_of cfg infra w4).0 ≡ err e
      → Released token w w'
      → Outcome token w (err e, w')
  client_outcome token w w' infra cfg w4 (config_failed e) h st =
      absurd (client_error cfg infra w4 (config_failed e) h)
  client_outcome token w w' infra cfg w4 (connect_failed e) h st =
      absurd (client_error cfg infra w4 (connect_failed e) h)
  client_outcome token w w' infra cfg w4 (kms_failed e) h st = st
  client_outcome token w w' infra cfg w4 tls_not_set h st = st
  client_outcome token w w' infra cfg w4 (client_failed e) h st = st

  -- An ingester on GCP that has been set up has a chain that is not blank and the limit of its
  -- configuration, and one task reads the subscription of a section that meets its requirements, under
  -- a child token that has not been cancelled. When a configuration is refused or the consumer cannot
  -- be connected, no task has been started and no token cancelled; when the certificate is missing or
  -- KMS or the client fails, the one task that has been started has had its token cancelled.
  pub new_amplifier_ingester_outcome :
      (path : Text) (token : K) (w : W)
      → Outcome token w (
          new_amplifier_ingester config read_config read_section kms_validate provider cloud
            into_bytes build path token w)
  unfolding new_amplifier_ingester ingester_new
  new_amplifier_ingester_outcome path token w =
      let first =
        config_type config read_config read_section kms_validate provider cloud into_bytes build in
      let second =
        section_type config read_config read_section kms_validate provider cloud into_bytes build in
      let same1 = try_deserialize_frame first path w in
      step-cases (Outcome token w) config_failed (try_deserialize config first path) _ w
        (λ e bad. same1)
        (λ cfg loaded.
          let w1 = (try_deserialize config first path w).1 in
          let same2 = try_deserialize_frame second path w1 ∙ same1 in
          step-cases (Outcome token w) config_failed (try_deserialize config second path) _ w1
            (λ e bad. same2)
            (λ infra loaded'.
              let w2 = (try_deserialize config second path w1).1 in
              let chain =
                validate-NotBlank cfg (try_deserialize-validate config first path w cfg loaded) in
              let section =
                (validate_section_iff kms_validate infra).0
                  (try_deserialize-validate config second path w1 infra loaded') in
              let connect =
                connect_consumer provider infra.events_subscription (consumer_cfg infra) token in
              let reads =
                connect_consumer-Reads provider apart.spawns infra.events_subscription
                  (consumer_cfg infra) token w2 in
              step-cases (Outcome token w) connect_failed connect _ w2
                (λ e bad.
                  not_started infra token w w2 e (connect w2).1
                    (subst
                      (λ r.
                        Reads provider apart.spawns infra.events_subscription (consumer_cfg infra)
                          token w2 (r, (connect w2).1))
                      bad reads)
                    same2)
                (λ consumer linked.
                  let w3 = (connect w2).1 in
                  let (c, r, w0, there, run, child) =
                    (subst
                      (λ r.
                        Reads provider apart.spawns infra.events_subscription (consumer_cfg infra)
                          token w2 (r, w3))
                      linked reads) in
                  let w4 = (client_of cfg infra w3).1 in
                  let held : Started token w w4 infra [] = (
                    c,
                    r,
                    client_frame cfg infra w3
                        ∙ run
                        ∙ ap
                            (λ l.
                              l
                              ++ started (
                                  reader provider (consumer_cfg infra) token
                                    (provider.subscription c infra.events_subscription) r)
                                ∷ [])
                            same2,
                    section,
                  ) in
                  dropping-cases (Outcome token w) (drop_consumer provider consumer)
                    (client_of cfg infra) _ w3
                    (λ e bad.
                      client_outcome token w (drop_consumer provider consumer w4) infra cfg w3 e bad
                        (released infra token consumer w w4 child held))
                    (λ client made. (cfg, infra, chain, refl, refl, child, held)))))
