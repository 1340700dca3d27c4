-- ===== src/Setup.antt =====
-- What the set-ups of the components share: crates/amplifier-ingester/src/components and
-- crates/amplifier-subscriber/src/components.
use axelar_relayer_core.Base.{
  ◌≡◌, refl, Bool, false, Option, none, some, Result, ok, err, Eff, and_then, map_err, ltb,
}
use axelar_relayer_core.Base.Int.{ℤ, pos, negsuc}
use axelar_relayer_core.AmplifierApi.Requests.{AmplifierApiError}
use axelar_relayer_core.BinUtil.Config.{ConfigError}

-- The reports of the set-up, by the step that failed, for errors `E` of the infrastructure.
pub data SetupError (E X : Type 0) : Type 0 where
  config_failed : ConfigError X → SetupError E X
  connect_failed kms_failed : E → SetupError E X
  tls_not_set : SetupError E X
  client_failed : AmplifierApiError X → SetupError E X

-- A step of the set-up, with its `wrap_err`, and `ok_or_else`.
abbrev pub step : {W E F A : Type 0} → (E → F) → Eff W E A → Eff W F A
step wrap m w = let (r, w') = m w in (map_err wrap r, w')

abbrev pub settled : {W E F A : Type 0} → (E → F) → Result E A → Eff W F A
settled wrap r w = (map_err wrap r, w)

abbrev pub ok_or : {W F A : Type 0} → Option A → F → Eff W F A
ok_or (some a) e w = (ok a, w)
ok_or none e w = (err e, w)

-- A step while a value is held that is dropped if the step leaves with an error.
abbrev dropped : {W E A : Type 0} → (W → W) → Result E A × W → Result E A × W
dropped drop (ok a, w) = (ok a, w)
dropped drop (err e, w) = (err e, drop w)

abbrev pub dropping : {W E A : Type 0} → (W → W) → Eff W E A → Eff W E A
dropping drop m w = dropped drop (m w)

module _ {W E A B : Type 0} where
  dropping-cases_lem {ℓ} :
      (P : Result E B × W → Type ℓ) (drop : W → W) (p : Result E A × W) (k : A → Eff W E B)
      → ((e : E) → p.0 ≡ err e → P (err e, drop p.1))
      → ((a : A) → p.0 ≡ ok a → P (k a p.1))
      → P (and_then (dropped drop p) k)
  dropping-cases_lem P drop (ok a, w) k bad good = good a refl
  dropping-cases_lem P drop (err e, w) k bad good = bad e refl

  pub dropping-cases {ℓ} :
      (P : Result E B × W → Type ℓ) (drop : W → W) (m : Eff W E A) (k : A → Eff W E B) (w : W)
      → ((e : E) → (m w).0 ≡ err e → P (err e, drop (m w).1))
      → ((a : A) → (m w).0 ≡ ok a → P (k a (m w).1))
      → P (and_then (dropping drop m w) k)
  dropping-cases P drop m k w = dropping-cases_lem P drop (m w) k

-- A step leaves with its wrapped error or goes on with the value.
module _ {W E F A B : Type 0} where
  step-cases_lem {ℓ} :
      (P : Result F B × W → Type ℓ) (wrap : E → F) (p : Result E A × W) (k : A → Eff W F B)
      → ((e : E) → p.0 ≡ err e → P (err (wrap e), p.1))
      → ((a : A) → p.0 ≡ ok a → P (k a p.1))
      → P (and_then (map_err wrap p.0, p.1) k)
  step-cases_lem P wrap (ok a, w) k bad good = good a refl
  step-cases_lem P wrap (err e, w) k bad good = bad e refl

  pub step-cases {ℓ} :
      (P : Result F B × W → Type ℓ) (wrap : E → F) (m : Eff W E A) (k : A → Eff W F B) (w : W)
      → ((e : E) → (m w).0 ≡ err e → P (err (wrap e), (m w).1))
      → ((a : A) → (m w).0 ≡ ok a → P (k a (m w).1))
      → P (and_then (step wrap m w) k)
  step-cases P wrap m k w = step-cases_lem P wrap (m w) k

-- `> 0_i32`.
abbrev pub is_positive : ℤ → Bool
is_positive (pos n) = ltb 0 n
is_positive (negsuc n) = false
