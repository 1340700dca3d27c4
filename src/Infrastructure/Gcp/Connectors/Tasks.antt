-- ===== src/Infrastructure/Gcp/Connectors/Tasks.antt =====
-- Which tasks connecting a consumer leaves behind.
use axelar_relayer_core.Base.{
  ◌≡◌, refl, ap, subst, ◌∙◌, List, [], ◌∷◌, ◌++◌, Text, Result, ok, err, and_then-cases, arith,
  Result-cases, Bool-cases, inl, inr, true,
}
use axelar_relayer_core.Infrastructure.Gcp.Defs.{GcpError}
use axelar_relayer_core.Infrastructure.Gcp.Connectors.{
  Provider, GcpConsumerConfig, GcpConsumer, ReadMessagesConfig, reader, connect_pubsub_client,
  get_subscription, connect_redis, gcp_consumer_new, connect_consumer,
}

-- A task that reads messages is started, or a token cancelled.
pub data TaskEvent (R S K : Type 0) : Type 0 where
  started : ReadMessagesConfig R S K → TaskEvent R S K
  cancelled : K → TaskEvent R S K

-- What has been started and cancelled, oldest first: only `spawn` starts a task, and only `cancel`
-- cancels a token.
pub record Spawns {W X A C T S P R K H : Type 0} (provider : Provider W X A C T S P R K H)
    : Type 0 where
  pub history : W → List (TaskEvent R S K)
  pub spawn_reads :
      (config : ReadMessagesConfig R S K) (w : W)
      → history (provider.spawn config w).1 ≡ history w ++ started config ∷ []
  pub cancel_recorded :
      (k : K) (w : W) → history (provider.cancel k w) ≡ history w ++ cancelled k ∷ []
  pub auth_frame : (w : W) → history (provider.with_auth w).1 ≡ history w
  pub client_frame : (a : A) (w : W) → history (provider.new_client a w).1 ≡ history w
  pub exists_frame : (s : S) (w : W) → history (provider.subscription_exists s w).1 ≡ history w
  pub redis_frame :
      (url : Text) (w : W) → history (provider.get_multiplexed_async_connection url w).1 ≡ history w

module _ {W X A C T S P R K H : Type 0} (provider : Provider W X A C T S P R K H)
    (spawns : Spawns provider) where
  connect_pubsub_client_frame :
      (w : W) → spawns.history (connect_pubsub_client provider w).1 ≡ spawns.history w
  unfolding connect_pubsub_client
  connect_pubsub_client_frame w = elim (Result-cases (provider.with_auth w).0) [
    | inr (e, bad) ↦ ground (arith, bad, spawns.auth_frame w)
    | inl (a, good) ↦
        ground (arith, good, spawns.auth_frame w, spawns.client_frame a (provider.with_auth w).1)
  ]

  get_subscription_frame :
      (client : C) (name : Text) (w : W)
      → spawns.history (get_subscription provider client name w).1 ≡ spawns.history w
  unfolding get_subscription
  get_subscription_frame client name w =
      let s = provider.subscription client name in
      elim (Result-cases (provider.subscription_exists s w).0) [
        | inr (e, bad) ↦ ground (arith, bad, spawns.exists_frame s w)
        | inl (b, good) ↦ ground (arith, good, Bool-cases b, spawns.exists_frame s w)
      ]

  connect_redis_frame :
      (url : Text) (w : W) → spawns.history (connect_redis provider url w).1 ≡ spawns.history w
  unfolding connect_redis
  connect_redis_frame url w = elim (Result-cases (provider.open_client url)) [
    | inr (e, bad) ↦ ground (arith, bad)
    | inl (u, good) ↦ ground (arith, good, spawns.redis_frame url w)
  ]

  get_subscription_found :
      (client : C) (name : Text) (w : W) (s : S)
      → (get_subscription provider client name w).0 ≡ ok s
      → (s ≡ provider.subscription client name) × ((provider.subscription_exists s w).0 ≡ ok true)
  unfolding get_subscription
  get_subscription_found client name w s h =
      elim (Result-cases (provider.subscription_exists (provider.subscription client name) w).0) [
        | inr (e, bad) ↦ ground (arith, bad, h)
        | inl (b, good) ↦ ground (arith, good, Bool-cases b, h)
      ]

  found_exists :
      (client : C) (name : Text) (w : W) (s : S)
      → (s ≡ provider.subscription client name) × ((provider.subscription_exists s w).0 ≡ ok true)
      → (provider.subscription_exists (provider.subscription client name) w).0 ≡ ok true
  found_exists client name w s (same, there) =
      subst (λ a. (provider.subscription_exists a w).0 ≡ ok true) same there

  spawned :
      (client : C) (name : Text) (config : GcpConsumerConfig) (token : K) (w w' : W) (s : S) (r : R)
      → s ≡ provider.subscription client name
      → spawns.history w' ≡ spawns.history w
      → spawns.history (provider.spawn (reader provider config token s r) w').1
        ≡ spawns.history w
          ++ started (reader provider config token (provider.subscription client name) r) ∷ []
  spawned client name config token w w' s r same frame =
      spawns.spawn_reads (reader provider config token s r) w'
      ∙ ap (λ l. l ++ started (reader provider config token s r) ∷ []) frame
      ∙ ap (λ a. spawns.history w ++ started (reader provider config token a r) ∷ []) same

  -- What became of the tasks, by the result: an error starts none and cancels nothing, and a consumer has one,
  -- which reads a subscription of the name that has been found to exist.
  abbrev pub Reads :
      Text → GcpConsumerConfig → K → W → Result (GcpError X) (GcpConsumer K H) × W → Type 0
  Reads name config token w (err e, w') = spawns.history w' ≡ spawns.history w
  Reads name config token w (ok c, w') =
      (client : C) × (r : R) × (w0 : W) × ((provider.subscription_exists
          (provider.subscription client name) w0).0
        ≡ ok true)
      × (spawns.history w'
          ≡ spawns.history w
            ++ started (reader provider config token (provider.subscription client name) r) ∷ [])
      × (c.cancel_token ≡ provider.child_token token)

  -- A consumer that is connected has started one task, which reads the subscription of the given name
  -- with the configuration's deadline, capacity and number of workers under a child of the token, and
  -- the subscription has been found to exist; whatever step fails, no task has been started.
  pub connect_consumer-Reads :
      (name : Text) (config : GcpConsumerConfig) (token : K) (w : W)
      → Reads name config token w (connect_consumer provider name config token w)
  unfolding connect_consumer gcp_consumer_new
  connect_consumer-Reads name config token w =
      and_then-cases (Reads name config token w) (connect_pubsub_client provider w) _
        (λ e bad. connect_pubsub_client_frame w)
        (λ client good.
          let w1 = (connect_pubsub_client provider w).1 in
          let same1 = connect_pubsub_client_frame w in
          and_then-cases (Reads name config token w) (get_subscription provider client name w1) _
            (λ e bad. get_subscription_frame client name w1 ∙ same1)
            (λ s found.
              let w2 = (get_subscription provider client name w1).1 in
              let same2 = get_subscription_frame client name w1 ∙ same1 in
              and_then-cases (Reads name config token w)
                (connect_redis provider config.redis_connection w2) _
                (λ e bad. connect_redis_frame config.redis_connection w2 ∙ same2)
                (λ r linked.
                  let w3 = (connect_redis provider config.redis_connection w2).1 in
                  let exists = get_subscription_found client name w1 s found in
                  (
                    client,
                    r,
                    w1,
                    found_exists client name w1 s exists,
                    spawned client name config token w w3 s r exists.0
                        (connect_redis_frame config.redis_connection w2 ∙ same2),
                    refl,
                  ))))
