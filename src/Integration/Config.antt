-- ===== src/Integration/Config.antt =====
-- crates/relayer-amplifier-api-integration/src/config.rs, and crates/common-serde-utils, which its
-- files of settings use. Durations are in nanoseconds. The base64 and PEM decoders are parameters.
pub mod Units
use axelar_relayer_core.Base.{
  ℕ, ◌^◌, Bool, Option, none, some, List, [], ◌∷◌, Text, Result, ok, err, if◌then◌else◌, ltb,
}
use axelar_relayer_core.Retry.Defs.{from_secs, from_millis}
use axelar_relayer_core.AmplifierApi.TxEvent.{parse_usize}

-- `Config`, for identities `I` and URLs `U`.
pub record Config (I U : Type 0) : Type 0 where
  pub identity : Option I
  pub tls_public_certificate : Option Text
  pub url : U
  pub chain : Text
  pub get_chains_poll_interval : ℕ
  pub get_chains_limit : ℕ
  pub healthcheck_interval : ℕ
  pub invalid_healthchecks_before_shutdown : ℕ

-- `config_defaults`.
abbrev pub healthcheck_interval_default_value : ℕ
healthcheck_interval_default_value = 10

abbrev pub chains_poll_interval_default_value : ℕ
chains_poll_interval_default_value = 10

abbrev pub default_healthcheck_interval : ℕ
default_healthcheck_interval = from_secs healthcheck_interval_default_value

abbrev pub default_get_chains_poll_interval : ℕ
default_get_chains_poll_interval = from_secs chains_poll_interval_default_value

abbrev pub default_invalid_healthchecks_before_shutdown : ℕ
default_invalid_healthchecks_before_shutdown = 5

abbrev pub default_get_chains_limit : ℕ
default_get_chains_limit = 4

-- `TypedBuilder`, which sets the four defaults.
unfoldable pub builder : {I U : Type 0} → Option I → Option Text → U → Text → Config I U
builder identity certificate url chain = record {
  identity = identity;
  tls_public_certificate = certificate;
  url = url;
  chain = chain;
  get_chains_poll_interval = default_get_chains_poll_interval;
  get_chains_limit = default_get_chains_limit;
  healthcheck_interval = default_healthcheck_interval;
  invalid_healthchecks_before_shutdown = default_invalid_healthchecks_before_shutdown;
}

module _ {I F : Type 0} (decode : Text → Result F (List ℕ))
    (new_from_pem_bytes : List ℕ → Result F I) where
  unfoldable pub parse_identity : Text → Result F (Option I)
  parse_identity [] = ok none
  parse_identity (c ∷ cs) = elim (decode (c ∷ cs)) [
    | err e ↦ err e
    | ok identity_bytes ↦ elim (new_from_pem_bytes identity_bytes) [
      | err e ↦ err e
      | ok identity ↦ ok (some identity)
    ]
  ]

-- `parse::<u64>`, whose range is that of usize on 64 bits.
abbrev pub seconds : Option ℕ → Option ℕ
seconds none = none
seconds (some n) = some (from_secs n)

unfoldable pub parse_chains_poll_interval : Text → Option ℕ
parse_chains_poll_interval input = seconds (parse_usize input)

unfoldable pub parse_healthcheck_interval : Text → Option ℕ
parse_healthcheck_interval input = seconds (parse_usize input)

-- `common_serde_utils::duration_ms_decode`, from the number in the file: `u64::deserialize` refuses
-- what does not fit.
unfoldable pub duration_ms_decode : ℕ → Option ℕ
duration_ms_decode raw_number =
    if ltb raw_number (2 ^ 64) then some (from_millis raw_number) else none
