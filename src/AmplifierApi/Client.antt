-- ===== src/AmplifierApi/Client.antt =====
-- crates/amplifier-api/src/client.rs: the client, its requests and its responses. What it uses of the
-- HTTP client (reqwest) is the parameter `Http`; JSON (simd_json) is written by `to_vec` and read by
-- `from_slice`. Tracing is left out, and the set-up of TLS.
use axelar_relayer_core.Base.{
  ℕ, ◌≡◌, Bool, false, List, Result, ok, err, map_err, Eff, if◌then◌else◌, arith, Result-cases, inl,
  inr,
}
use axelar_relayer_core.AmplifierApi.Requests.{
  AmplifierApiError, reqwest_with_middleware, reqwest, Method, AmplifierApiRequest,
}

-- Requests `Q` that can be built into `B`, and responses `P`.
pub record Http (W U X Q B P : Type 0) : Type 0 where
  pub request : Method → U → List ℕ → Q
  pub build : Q → Result X B
  pub execute : B → Eff W X P
  pub is_success : P → Bool
  pub error_for_status : P → Result X (Unit {0})
  pub bytes : P → Eff W X (List ℕ)

-- `AmplifierApiClient`: the URL of the API, beside the HTTP client.
pub record AmplifierApiClient (U : Type 0) : Type 0 where
  pub url : U

module _ {W U X Q B P : Type 0} (http : Http W U X Q B P) where
  -- `AmplifierApiClient::build_request`.
  unfoldable pub build_request :
      {R Payload : Type 0}
      → (Payload → Result X (List ℕ))
      → AmplifierApiRequest U X R Payload
      → AmplifierApiClient U
      → R
      → Result (AmplifierApiError X) Q
  build_request to_vec kind client r = elim (kind.path r client.url) [
    | err e ↦ err e
    | ok endpoint ↦ elim (to_vec (kind.payload r)) [
      | err e ↦ err (AmplifierApiError.json e)
      | ok payload ↦ ok (http.request kind.method endpoint payload)
    ]
  ]

  -- `AmplifierRequest::execute`.
  unfoldable pub execute : Q → Eff W (AmplifierApiError X) P
  execute q w = elim (http.build q) [
    | err e ↦ (err (reqwest e), w)
    | ok request ↦ let (r, w') = http.execute request w in (map_err reqwest_with_middleware r, w')
  ]

  -- `AmplifierResponse::ok`.
  unfoldable pub response_ok : P → Result (AmplifierApiError X) (Unit {0})
  response_ok p = map_err reqwest (http.error_for_status p)

  -- `parse_amplifier_error`.
  unfoldable pub parse_amplifier_error :
      {Er : Type 0} → (List ℕ → Result X Er) → List ℕ → Result (AmplifierApiError X) Er
  parse_amplifier_error from_slice bytes = map_err AmplifierApiError.json (from_slice bytes)

  abbrev failed :
      {T Er : Type 0} → Result (AmplifierApiError X) Er → Result (AmplifierApiError X) (Result Er T)
  failed (err e) = err e
  failed (ok e) = ok (err e)

  abbrev succeeded : {T Er : Type 0} → Result X T → Result (AmplifierApiError X) (Result Er T)
  succeeded (err e) = err (AmplifierApiError.json e)
  succeeded (ok t) = ok (ok t)

  -- `AmplifierResponse::json_err`: the body is read only when the response is an error.
  unfoldable pub json_err :
      {Er : Type 0}
      → (List ℕ → Result X Er)
      → P
      → Eff W (AmplifierApiError X) (Result Er (Unit {0}))
  json_err read_error p w =
      let (r, w') = http.bytes p w in
      if http.is_success p then (ok (ok tt), w) else elim r [
        | err e ↦ (err (reqwest e), w')
        | ok bytes ↦ (failed (parse_amplifier_error read_error bytes), w')
      ]

  -- `AmplifierResponse::json`.
  unfoldable pub json_of :
      {T Er : Type 0}
      → (List ℕ → Result X T)
      → (List ℕ → Result X Er)
      → P
      → Eff W (AmplifierApiError X) (Result Er T)
  json_of read_result read_error p w =
      let (r, w') = http.bytes p w in
      elim r [
        | err e ↦ (err (reqwest e), w')
        | ok bytes ↦
            if http.is_success p
            then (succeeded (read_result bytes), w')
            else (failed (parse_amplifier_error read_error bytes), w')
      ]

  abbrev pub forget :
      {T Er : Type 0}
      → Result (AmplifierApiError X) (Result Er T)
      → Result (AmplifierApiError X) (Result Er (Unit {0}))
  forget (err e) = err e
  forget (ok (err e)) = ok (err e)
  forget (ok (ok t)) = ok (ok tt)

  -- On a response that is an error, `json_err` and `json` have the same outcome, the error's data or
  -- the failure to read it, and leave the same world; neither of them takes it for a success.
  pub json_err-json_of :
      {T Er : Type 0} (read_result : List ℕ → Result X T) (read_error : List ℕ → Result X Er)
      (p : P) (w : W)
      → http.is_success p ≡ false
      → let (short, w1) = json_err read_error p w in
        let (long, w2) = json_of read_result read_error p w in
        (forget long ≡ short) × (w1 ≡ w2) × ((t : T) → long ≡ ok (ok t) → ⊥)
  unfolding json_err json_of parse_amplifier_error
  json_err-json_of read_result read_error p w h =
      let (r, w') = http.bytes p w in
      elim (Result-cases r) [
        | inr (e, bad) ↦ ground (arith, h, bad)
        | inl (b, good) ↦ elim (Result-cases (read_error b)) [
          | inr (e, bad) ↦ ground (arith, h, good, bad)
          | inl (x, read) ↦ ground (arith, h, good, read)
        ]
      ]
