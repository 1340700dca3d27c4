-- ===== src/Ingester/Components/Checks.antt =====
-- What the checks of an ingester's configuration and of its section `gcp` accept.
use axelar_relayer_core.Base.{
  ◌≡◌, ◌≢◌, ◌↔◌, refl, true, [], ◌∷◌, Text, Result, ok, arith, Result-cases, inl, inr,
}
use axelar_relayer_core.BinUtil.Config.{is_empty}
use axelar_relayer_core.BinUtil.Blank.{NotBlank, trim-NotBlank}
use axelar_relayer_core.Setup.{is_positive}
use axelar_relayer_core.Ingester.Components.{IngesterConfig, validate}
use axelar_relayer_core.Ingester.Components.Gcp.{GcpConfig, validate_section}

pub validate-NotBlank :
    {I U O : Type 0} (cfg : IngesterConfig I U O)
    → validate cfg ≡ ok tt
    → NotBlank cfg.amplifier.chain
unfolding validate
validate-NotBlank cfg h = (trim-NotBlank cfg.amplifier.chain).0 (ground (arith, h))

pub empty_iff : (t : Text) → (is_empty t ≡ true) ↔ (t ≡ [])
empty_iff [] = (λ h. refl, λ h. refl)
empty_iff (c ∷ cs) = (λ h. absurd (ground (arith, h)), λ h. absurd (ground (arith, h)))

-- What is required of the section `gcp`.
abbrev pub IsSection : {G : Type 0} → (G → Result Text (Unit {0})) → GcpConfig G → Type 0
IsSection kms_validate gcp =
    (kms_validate gcp.kms ≡ ok tt)
    × (gcp.redis_connection ≢ [])
    × (gcp.events_subscription ≢ [])
    × (is_positive gcp.ack_deadline_secs ≡ true)

-- The section is accepted exactly when its key is, neither text is empty and the deadline is positive.
pub validate_section_iff :
    {G : Type 0} (kms_validate : G → Result Text (Unit {0})) (gcp : GcpConfig G)
    → (validate_section kms_validate gcp ≡ ok tt) ↔ IsSection kms_validate gcp
unfolding validate_section
validate_section_iff kms_validate gcp = elim (Result-cases (kms_validate gcp.kms)) [
  | inr (e, bad) ↦ (λ h. ground (arith, bad, h), λ h. ground (arith, bad, h.0))
  | inl (u, good) ↦ (
    λ h. ground (arith, good, h, empty_iff gcp.redis_connection, empty_iff gcp.events_subscription),
    λ h. ground (arith, good, h, empty_iff gcp.redis_connection, empty_iff gcp.events_subscription),
  )
]
