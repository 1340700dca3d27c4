-- ===== src/BinUtil/Blank.antt =====
-- Texts that `trim` leaves nothing of, and what a loaded configuration satisfies.
use axelar_relayer_core.Base.{
  ◌≡◌, ◌↔◌, ◌⊎◌, inl, inr, true, false, not, [], ◌∷◌, Text, ok, arith, Bool-cases, Result-cases,
}
use axelar_relayer_core.BinUtil.Config.{
  ConfigCrate, Loadable, try_deserialize, is_empty, is_whitespace, trim_start, trim_end, trim,
}

-- A code point that is no white space stands in the text.
abbrev pub NotBlank : Text → Type 0
NotBlank [] = ⊥
NotBlank (c ∷ cs) = (is_whitespace c ≡ false) ⊎ NotBlank cs

trim_end-NotBlank : (t : Text) → NotBlank t → is_empty (trim_end t) ≡ false
unfolding trim_end
trim_end-NotBlank [] h = absurd h
trim_end-NotBlank (c ∷ cs) h = elim h [
  | inl dark ↦ elim (Bool-cases (is_empty (trim_end cs))) [
    | inl e ↦ ground (arith, e, dark)
    | inr e ↦ ground (arith, e, dark)
  ]
  | inr more ↦ ground (arith, trim_end-NotBlank cs more)
]

trim_end-blank : (t : Text) → is_empty (trim_end t) ≡ false → NotBlank t
unfolding trim_end
trim_end-blank [] h = absurd (cc)
trim_end-blank (c ∷ cs) h = elim (Bool-cases (is_whitespace c)) [
  | inr dark ↦ inl dark
  | inl white ↦ elim (Bool-cases (is_empty (trim_end cs))) [
    | inl e ↦ absurd (ground (arith, e, white, h))
    | inr e ↦ inr (trim_end-blank cs e)
  ]
]

trim_start-NotBlank : (t : Text) → NotBlank t → NotBlank (trim_start t)
unfolding trim_start
trim_start-NotBlank [] h = h
trim_start-NotBlank (c ∷ cs) h = elim (Bool-cases (is_whitespace c)) [
  | inr dark ↦ rw dark (inl dark)
  | inl white ↦ elim h [
    | inl dark ↦ absurd (ground (arith, white, dark))
    | inr more ↦ rw white (trim_start-NotBlank cs more)
  ]
]

trim_start-blank : (t : Text) → NotBlank (trim_start t) → NotBlank t
unfolding trim_start
trim_start-blank [] h = h
trim_start-blank (c ∷ cs) h = elim (Bool-cases (is_whitespace c)) [
  | inr dark ↦ inl dark
  | inl white ↦ inr (trim_start-blank cs (rw white at h))
]

-- `trim` leaves something exactly of a text that is not blank.
pub trim-NotBlank : (t : Text) → (not (is_empty (trim t)) ≡ true) ↔ NotBlank t
unfolding trim
trim-NotBlank t = (
  λ h. trim_start-blank t (trim_end-blank (trim_start t) (ground (arith, h))),
  λ h. ground (arith, trim_end-NotBlank (trim_start t) (trim_start-NotBlank t h)),
)

-- A configuration that has been loaded has passed its checks.
pub try_deserialize-validate :
    {W X Raw C : Type 0} (config : ConfigCrate W X Raw) (t : Loadable X Raw C) (path : Text) (w : W)
    (c : C)
    → (try_deserialize config t path w).0 ≡ ok c
    → t.validate c ≡ ok tt
unfolding try_deserialize
try_deserialize-validate config t path w c h = elim (Result-cases (config.build path w).0) [
  | inr (e, bad) ↦ ground (arith, bad, h)
  | inl (raw, good) ↦ elim (Result-cases (t.try_deserialize raw)) [
    | inr (e, bad) ↦ ground (arith, good, bad, h)
    | inl (c', read) ↦ elim (Result-cases (t.validate c')) [
      | inr (e, bad) ↦ ground (arith, good, read, bad, h)
      | inl (u, valid) ↦ ground (arith, good, read, valid, h)
    ]
  ]
]
