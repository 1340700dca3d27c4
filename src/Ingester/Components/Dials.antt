-- ===== src/Ingester/Components/Dials.antt =====
-- When an ingester on NATS connects to a server.
use axelar_relayer_core.Base.{
  ◌≡◌, ◌≢◌, refl, sym, ap, subst, ◌∙◌, ◌⊎◌, codes, List, [], ◌∷◌, Text, Result, ok, err, Eff, Keeps,
  bind-Keeps, and_then-cases, arith, Result-cases, Option-cases, inl, inr,
}
use axelar_relayer_core.AmplifierApi.Client.{AmplifierApiClient}
use axelar_relayer_core.AmplifierApi.Config.{certificate, ClientSettings, amplifier_api_client_new}
use axelar_relayer_core.AmplifierApi.Requests.{AmplifierApiError}
use axelar_relayer_core.BinUtil.Config.{ConfigCrate, Loadable, try_deserialize}
use axelar_relayer_core.BinUtil.Blank.{NotBlank, try_deserialize-validate}
use axelar_relayer_core.Infrastructure.Nats.Defs.{NatsError, create_stream}
use axelar_relayer_core.Infrastructure.Nats.Connectors.{
  AsyncNats, StreamArgs, stream_config, push_config, connect_to_nats, stream, consumer,
  connect_consumer, call, Builder, ConfiguredStream,
}
use axelar_relayer_core.Setup.{
  SetupError, config_failed, connect_failed, kms_failed, tls_not_set, client_failed, step-cases,
}
use axelar_relayer_core.Ingester.Components.{IngesterConfig, NewIngester, ingester_new}
use axelar_relayer_core.Ingester.Components.Checks.{validate-NotBlank}
use axelar_relayer_core.Ingester.Components.Nats.{
  NatsConfig, validate_section, events_stream, amplifier_client, new_amplifier_ingester,
  config_type, section_type,
}

-- The lists of servers that have been dialled: only `connect_with_options` dials.
pub record Dials {W X Raw U C J S N V : Type 0} (config : ConfigCrate W X Raw)
    (nats : AsyncNats W X U C J S N V) : Type 0 where
  pub dialled : W → List (List U)
  pub connect_dials :
      (urls : List U) (w : W) → dialled (nats.connect_with_options urls w).1 ≡ urls ∷ dialled w
  pub build_frame : (path : Text) (w : W) → dialled (config.build path w).1 ≡ dialled w
  pub inbox_frame : (c : C) (w : W) → dialled (nats.new_inbox c w).1 ≡ dialled w
  pub stream_frame :
      (j : J) (s : _) (w : W) → dialled (nats.get_or_create_stream j s w).1 ≡ dialled w
  pub uuid_frame : (w : W) → dialled (nats.new_v4 w).1 ≡ dialled w
  pub consumer_frame :
      (s : S) (c : _) (w : W) → dialled (nats.create_consumer_of s c w).1 ≡ dialled w

module _ {W X Raw I U O C J S N V L M : Type 0} (config : ConfigCrate W X Raw)
    (read_config : Raw → Result X (IngesterConfig I U O))
    (read_section : Raw → Result X (NatsConfig U)) (nats : AsyncNats W X U C J S N V)
    (build : ClientSettings I L → Result X M) (dials : Dials config nats) where
  try_deserialize_frame :
      {T : Type 0} (t : Loadable X Raw T) (path : Text) (w : W)
      → dials.dialled (try_deserialize config t path w).1 ≡ dials.dialled w
  unfolding try_deserialize
  try_deserialize_frame t path w =
      ground (arith, dials.build_frame path w, Result-cases (config.build path w).0)

  stream-Keeps :
      (builder : Builder J) (args : StreamArgs) → Keeps dials.dialled (stream nats builder args)
  unfolding stream
  stream-Keeps builder args =
      bind-Keeps dials.dialled
        (call create_stream (nats.get_or_create_stream builder.context (stream_config args))) _
        (λ w. dials.stream_frame builder.context (stream_config args) w) (λ s w. refl)

  consumer-Keeps :
      (s : ConfiguredStream J S) (description group : Text)
      → Keeps dials.dialled (consumer nats s description group)
  unfolding consumer
  consumer-Keeps s description group w =
      let (name, w') = nats.new_v4 w in
      dials.consumer_frame s.configured (push_config s.inbox name description group) w'
      ∙ dials.uuid_frame w

  connect_to_nats_dials :
      (urls : List U) (w : W)
      → dials.dialled (connect_to_nats nats urls w).1 ≡ urls ∷ dials.dialled w
  unfolding connect_to_nats
  connect_to_nats_dials urls w = elim (Result-cases (nats.connect_with_options urls w).0) [
    | inr (e, bad) ↦ ground (arith, bad, dials.connect_dials urls w)
    | inl (c, good) ↦ ground (
      arith,
      good,
      dials.connect_dials urls w,
      dials.inbox_frame c (nats.connect_with_options urls w).1,
    )
  ]

  connect_consumer_dials :
      (urls : List U) (args : StreamArgs) (description group : Text) (w : W)
      → dials.dialled (connect_consumer nats urls args description group w).1
        ≡ urls ∷ dials.dialled w
  unfolding connect_consumer
  connect_consumer_dials urls args description group w =
      and_then-cases (λ p. dials.dialled p.1 ≡ urls ∷ dials.dialled w) (connect_to_nats nats urls w)
        _ (λ e bad. connect_to_nats_dials urls w)
        (λ builder good.
          bind-Keeps dials.dialled (stream nats builder args) _ (stream-Keeps builder args)
            (λ s. consumer-Keeps s description group) (connect_to_nats nats urls w).1
          ∙ connect_to_nats_dials urls w)

  -- The servers that have been dialled, by the result.
  abbrev pub Outcome : W → Result (SetupError (NatsError X) X) (NewIngester M U N) × W → Type 0
  Outcome w (err (config_failed e), w') = dials.dialled w' ≡ dials.dialled w
  Outcome w (err (kms_failed e), w') = ⊥
  Outcome w (err tls_not_set, w') = dials.dialled w' ≡ dials.dialled w
  Outcome w (err (client_failed e), w') = dials.dialled w' ≡ dials.dialled w
  Outcome w (err (connect_failed e), w') =
      (urls : List U) × (urls ≢ []) × (dials.dialled w' ≡ urls ∷ dials.dialled w)
  Outcome w (ok ingester, w') =
      (cfg : IngesterConfig I U O) × (urls : List U) × NotBlank cfg.amplifier.chain
      × (ingester.chain ≡ cfg.amplifier.chain)
      × (ingester.concurrent_queue_items ≡ cfg.concurrent_queue_items)
      × (urls ≢ [])
      × (dials.dialled w' ≡ urls ∷ dials.dialled w)

  abbrev client_of :
      IngesterConfig I U O → Eff W (SetupError (NatsError X) X) (M × AmplifierApiClient U)
  client_of = amplifier_client config read_config read_section nats build

  client-Keeps : (cfg : IngesterConfig I U O) → Keeps dials.dialled (client_of cfg)
  unfolding amplifier_client
  client-Keeps cfg w = ground (arith, Option-cases cfg.amplifier.identity)

  client_errors :
      (cfg : IngesterConfig I U O) (w : W) (e : SetupError (NatsError X) X)
      → (client_of cfg w).0 ≡ err e
      → (e ≡ tls_not_set) ⊎ ((x : AmplifierApiError X) × (e ≡ client_failed x))
  unfolding amplifier_client
  client_errors cfg w e h = elim (Option-cases cfg.amplifier.identity) [
    | inl missing ↦ inl (ground (arith, missing, h))
    | inr (i, set) ↦
        elim (Result-cases (amplifier_api_client_new build cfg.amplifier.url (certificate i))) [
          | inr (x, bad) ↦ inr (x, ground (arith, set, bad, h))
          | inl (n, fine) ↦ absurd (ground (arith, set, fine, h))
        ]
  ]

  client_refused :
      (cfg : IngesterConfig I U O) (w w' : W) (e : SetupError (NatsError X) X)
      → (client_of cfg w').0 ≡ err e
      → dials.dialled w' ≡ dials.dialled w
      → Outcome w (err e, (client_of cfg w').1)
  client_refused cfg w w' e h same = elim (client_errors cfg w' e h) [
    | inl missing ↦
        subst (λ x. Outcome w (err x, (client_of cfg w').1)) (sym missing)
          (client-Keeps cfg w' ∙ same)
    | inr (x, failed) ↦
        subst (λ x. Outcome w (err x, (client_of cfg w').1)) (sym failed)
          (client-Keeps cfg w' ∙ same)
  ]

  validate_section-urls : (infra : NatsConfig U) → validate_section infra ≡ ok tt → infra.urls ≢ []
  unfolding validate_section
  validate_section-urls infra h e = ground (arith, h, e)

  -- An ingester on NATS that has been set up has a chain that is not blank and the limit of its
  -- configuration, and has dialled a list of servers that is not empty, once. Nothing is dialled before
  -- both configurations have been accepted and the client has been made of its identity.
  pub new_amplifier_ingester_dials :
      (path : Text) (w : W)
      → Outcome w (new_amplifier_ingester config read_config read_section nats build path w)
  unfolding new_amplifier_ingester ingester_new
  new_amplifier_ingester_dials path w =
      let first = config_type config read_config read_section nats build in
      let second = section_type config read_config read_section nats build in
      let same1 = try_deserialize_frame first path w in
      step-cases (Outcome w) config_failed (try_deserialize config first path) _ w (λ e bad. same1)
        (λ cfg loaded.
          let w1 = (try_deserialize config first path w).1 in
          let same2 = try_deserialize_frame second path w1 ∙ same1 in
          let chain =
            validate-NotBlank cfg (try_deserialize-validate config first path w cfg loaded) in
          step-cases (Outcome w) config_failed (try_deserialize config second path) _ w1
            (λ e bad. same2)
            (λ infra loaded'.
              let w2 = (try_deserialize config second path w1).1 in
              let urls =
                validate_section-urls infra
                  (try_deserialize-validate config second path w1 infra loaded') in
              and_then-cases (Outcome w) (client_of cfg w2) _
                (λ e bad. client_refused cfg w w2 e bad same2)
                (λ client made.
                  let w3 = (client_of cfg w2).1 in
                  let same3 = client-Keeps cfg w2 ∙ same2 in
                  let connect =
                    connect_consumer nats infra.urls events_stream
                      (codes "amplifier ingesters consume group for amplifier events")
                      (codes "amplifier-ingesters") in
                  let dialled =
                    connect_consumer_dials infra.urls events_stream
                      (codes "amplifier ingesters consume group for amplifier events")
                      (codes "amplifier-ingesters") w3
                    ∙ ap (λ l. infra.urls ∷ l) same3 in
                  step-cases (Outcome w) connect_failed connect _ w3
                    (λ e bad. (infra.urls, urls, dialled))
                    (λ q linked. (cfg, infra.urls, chain, refl, refl, urls, dialled)))))
