-- ===== src/AmplifierApi/Config.antt =====
-- crates/amplifier-api/src/config.rs, and the set-up of the client in client.rs. What reqwest's builder
-- makes of its settings is the parameter `build`.
use axelar_relayer_core.Base.{ℕ, List, [], ◌∷◌, Option, Text, codes, Result, ok, err, map_err}
use axelar_relayer_core.AmplifierApi.Requests.{AmplifierApiError, reqwest}
use axelar_relayer_core.AmplifierApi.Client.{AmplifierApiClient}

-- `Config`, for identities `I` and URLs `U`.
pub record Config (I U : Type 0) : Type 0 where
  pub identity : Option I
  pub tls_public_certificate : Option Text
  pub url : U
  pub chain : Text
  pub get_chains_limit : ℕ

pub data TlsType (I L : Type 0) : Type 0 where
  certificate : I → TlsType I L
  custom_provider : L → TlsType I L

-- What the builder of the HTTP client is told.
pub record ClientSettings (I L : Type 0) : Type 0 where
  pub tls : TlsType I L
  pub keep_alive_secs : ℕ
  pub default_headers : List (Text × Text)

abbrev pub headers : List (Text × Text)
headers =
    (codes "Accept", codes "application/json")
    ∷ (codes "Accept-Encoding", codes "gzip, deflate")
    ∷ (codes "Content-Type", codes "application/json")
    ∷ []

-- `authenticated_client`.
unfoldable pub authenticated_client :
    {I L X N : Type 0}
    → (ClientSettings I L → Result X N)
    → TlsType I L
    → Result (AmplifierApiError X) N
authenticated_client build tls =
    map_err reqwest (build (record { tls = tls; keep_alive_secs = 15; default_headers = headers }))

-- `AmplifierApiClient::new`: the HTTP client, and the client that uses it.
unfoldable pub amplifier_api_client_new :
    {I L X N U : Type 0}
    → (ClientSettings I L → Result X N)
    → U
    → TlsType I L
    → Result (AmplifierApiError X) (N × AmplifierApiClient U)
amplifier_api_client_new build url tls = elim (authenticated_client build tls) [
  | err e ↦ err e
  | ok inner ↦ ok (inner, record { url = url })
]
