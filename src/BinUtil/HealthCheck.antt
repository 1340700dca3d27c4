-- ===== src/BinUtil/HealthCheck.antt =====
-- crates/bin-util/src/health_check.rs: the server of the probes, over a check `S → Result E () × S`.
-- What axum does with the routes is the parameter `serve` of the start.
use axelar_relayer_core.Base.{ℕ, List, [], ◌∷◌, Text, codes, Result, ok, err, Eff, ltb}
use axelar_relayer_core.BinUtil.Config.{ConfigCrate, Loadable, ConfigError, try_deserialize, ensure}

-- `Config`; the port is 16 bits wide.
pub record HealthCheckConfig : Type 0 where
  pub health_check_port : ℕ

-- `<Config as ValidateConfig>::validate`.
unfoldable pub validate : HealthCheckConfig → Result Text (Unit {0})
validate config =
    ensure (ltb 0 config.health_check_port) (codes "specific port expected for health check")

-- A status and the field `status` of the JSON body.
pub record Answer : Type 0 where
  pub status_code : ℕ
  pub status : Text

abbrev answer : {E : Type 0} → Text → Text → Result E (Unit {0}) → Answer
answer good bad (ok u) = record { status_code = 200; status = good }
answer good bad (err e) = record { status_code = 503; status = bad }

-- `handle_healthz` and `handle_readyz`.
unfoldable pub handle_healthz : {S E : Type 0} → Eff S E (Unit {0}) → S → Answer × S
handle_healthz check_health s =
    let (r, s') = check_health s in (answer (codes "HEALTHY") (codes "UNHEALTHY") r, s')

unfoldable pub handle_readyz : {S E : Type 0} → Eff S E (Unit {0}) → S → Answer × S
handle_readyz check_health s =
    let (r, s') = check_health s in (answer (codes "READY") (codes "UNREADY") r, s')

-- `Server`, less its checker.
pub record Server : Type 0 where
  pub port : ℕ

-- The routes of `Server::run`.
unfoldable pub routes : {S E : Type 0} → Eff S E (Unit {0}) → List (Text × (S → Answer × S))
routes check_health =
    (codes "/healthz", handle_healthz check_health)
    ∷ (codes "/readyz", handle_readyz check_health)
    ∷ []

-- `run_health_check_server`: the server is started in a task of its own, with its handle `H`, once its
-- configuration has been loaded.
unfoldable pub run_health_check_server :
    {W X Raw S E H : Type 0}
    → ConfigCrate W X Raw
    → (Raw → Result X HealthCheckConfig)
    → (Server → List (Text × (S → Answer × S)) → W → H × W)
    → Text
    → Eff S E (Unit {0})
    → Eff W (ConfigError X) H
run_health_check_server config read_config serve config_path check_health w =
    let t : Loadable _ _ HealthCheckConfig = record {
      try_deserialize = read_config;
      validate = validate;
    } in
    let (r, w') = try_deserialize config t config_path w in
    elim r [
      | err e ↦ (err e, w')
      | ok cfg ↦
          let (h, w2) = serve (record { port = cfg.health_check_port }) (routes check_health) w' in
          (ok h, w2)
    ]
