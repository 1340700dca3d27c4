-- ===== src/Infrastructure/Gcp/Connectors/Sample.antt =====
-- Services of Google Cloud that answer every call.
use axelar_relayer_core.Base.{ℕ, ◌+◌, refl, true, List, [], ◌∷◌, ◌++◌, Text, ok}
use axelar_relayer_core.Infrastructure.Gcp.Connectors.{Provider, Kms}
use axelar_relayer_core.Infrastructure.Gcp.Connectors.Tasks.{Spawns, TaskEvent, started, cancelled}

-- The tasks that have been started and the tokens that have been cancelled; tokens are the depth of
-- their nesting.
abbrev pub World : Type 0
World = List (TaskEvent Text Text ℕ)

abbrev pub provider : Provider World ℕ ℕ ℕ Text Text ℕ Text ℕ ℕ
provider = record {
  with_auth = λ w. (ok 0, w);
  new_client = λ a w. (ok 0, w);
  topic = λ c name. name;
  topic_exists = λ t w. (ok true, w);
  new_publisher = λ t config w. (0, w);
  subscription = λ c name. name;
  subscription_exists = λ s w. (ok true, w);
  open_client = λ url. ok tt;
  get_multiplexed_async_connection = λ url w. (ok url, w);
  child_token = λ k. k + 1;
  spawn = λ config w. (0, w ++ started config ∷ []);
  cancel = λ k w. w ++ cancelled k ∷ [];
}

abbrev pub provider-Spawns : Spawns provider
provider-Spawns = record {
  history = λ w. w;
  spawn_reads = λ config w. refl;
  cancel_recorded = λ k w. refl;
  auth_frame = λ w. refl;
  client_frame = λ a w. refl;
  exists_frame = λ s w. refl;
  redis_frame = λ url w. refl;
}

abbrev pub cloud : Kms World ℕ ℕ ℕ ℕ ℕ ℕ ℕ ℕ
cloud = record {
  kms_with_auth = λ w. (ok 0, w);
  kms_new_client = λ a w. (ok 0, w);
  provider = λ c g w. (ok 0, w);
  from_pem_slice = λ bytes. ok 0;
  with_safe_default_protocol_versions = λ p. ok 0;
  with_client_auth_cert = λ b d. ok 0;
}
