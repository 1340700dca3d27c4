-- ===== src/WorkLoop/GivesUp.antt =====
-- A count of failures in a row against a threshold.
use axelar_relayer_core.Base.{
  ℕ, zero, suc, ◌-◌, ◌≤◌, ◌<◌, ◌≡◌, ◌↔◌, ◌⊎◌, inl, inr, refl, List, [], ◌∷◌, Bool, true, false,
  Bool-cases, if◌then◌else◌, leb, arith, subst,
}

-- The first `n` results are there and are failures.
abbrev pub Starts : ℕ → List Bool → Type 0
Starts zero bs = Unit
Starts (suc n) [] = ⊥
Starts (suc n) (b ∷ bs) = (b ≡ true) × Starts n bs

-- Somewhere, `n` results in a row are failures.
abbrev pub HasRun : ℕ → List Bool → Type 0
HasRun n [] = Starts n []
HasRun n (b ∷ bs) = Starts n (b ∷ bs) ⊎ HasRun n bs

Starts-fewer : (n m : ℕ) (bs : List Bool) → m ≤ n → Starts n bs → Starts m bs
Starts-fewer n zero bs h s = tt
Starts-fewer zero (suc m) bs h s = elim h [ ]
Starts-fewer (suc n) (suc m) [] h s = s
Starts-fewer (suc n) (suc m) (b ∷ bs) h s = (s.0, Starts-fewer n m bs (omega arith) s.1)

Starts-HasRun : (n : ℕ) (bs : List Bool) → Starts n bs → HasRun n bs
Starts-HasRun n [] s = s
Starts-HasRun n (b ∷ bs) s = inl s

-- A loop over failures that gives up at the threshold `m`, from the count `c`.
unfoldable pub gives_up : ℕ → ℕ → List Bool → Bool
gives_up m c [] = false
gives_up m c (false ∷ bs) = gives_up m 0 bs
gives_up m c (true ∷ bs) = let rest = gives_up m (suc c) bs in if leb m (suc c) then true else rest

Starts-suc :
    (n : ℕ) (b : Bool) (bs : List Bool) → 0 < n → Starts n (b ∷ bs) → (b ≡ true) × Starts (n - 1) bs
Starts-suc zero b bs h s = absurd (omega arith)
Starts-suc (suc n) b bs h s = (s.0, subst (λ k. Starts k bs) (omega arith) s.1)

suc_Starts : (n : ℕ) (bs : List Bool) → 0 < n → Starts (n - 1) bs → Starts n (true ∷ bs)
suc_Starts zero bs h s = tt
suc_Starts (suc n) bs h s = (refl, subst (λ k. Starts k bs) (omega arith) s)

no_Starts : (n : ℕ) → 0 < n → Starts n [] → ⊥
no_Starts zero h s = absurd (omega arith)
no_Starts (suc n) h s = s

Starts-none : (n : ℕ) (bs : List Bool) → n ≤ 0 → Starts n bs
Starts-none zero bs h = tt
Starts-none (suc n) bs h = absurd (omega arith)

false_first : (n : ℕ) (bs : List Bool) → 0 < n → Starts n (false ∷ bs) → ⊥
false_first n bs h s = ground (arith, (Starts-suc n false bs h s).0)

-- The loop is right where the rest of it is, on a failure that is not the last one missing.
step_iff :
    (m c : ℕ) (bs : List Bool) (g : Bool)
    → suc c < m
    → (g ≡ true) ↔ (Starts (m - suc c) bs ⊎ HasRun m bs)
    → (g ≡ true) ↔ (Starts (m - c) (true ∷ bs) ⊎ HasRun m (true ∷ bs))
step_iff m c bs g h ih = (
  λ e. elim (ih.0 e) [
    | inl s ↦ inl (
        suc_Starts (m - c) bs (omega arith)
          (Starts-fewer (m - suc c) (m - c - 1) bs (omega arith) s))
    | inr r ↦ inr (inr r)
  ],
  λ d. elim d [
    | inl s ↦ ih.1 (
        inl (
          Starts-fewer (m - c - 1) (m - suc c) bs (omega arith)
            (Starts-suc (m - c) true bs (omega arith) s).1))
    | inr (inl s) ↦ ih.1 (
        inl (
          Starts-fewer (m - 1) (m - suc c) bs (omega arith)
            (Starts-suc m true bs (omega arith) s).1))
    | inr (inr r) ↦ ih.1 (inr r)
  ],
)

-- It does so exactly when the failures that are missing come first, or a whole run comes later.
gives_up_iff :
    (m c : ℕ) (bs : List Bool)
    → c < m
    → (gives_up m c bs ≡ true) ↔ (Starts (m - c) bs ⊎ HasRun m bs)
unfolding gives_up
gives_up_iff m c [] h = (
  λ e. ground (arith, e),
  λ d. elim d [
    | inl s ↦ absurd (no_Starts (m - c) (omega arith) s)
    | inr r ↦ absurd (no_Starts m (omega arith) r)
  ],
)
gives_up_iff m c (false ∷ bs) h = (
  λ e. elim ((gives_up_iff m 0 bs (omega arith)).0 e) [
    | inl s ↦ inr (inr (Starts-HasRun m bs (Starts-fewer (m - 0) m bs (omega arith) s)))
    | inr r ↦ inr (inr r)
  ],
  λ d. elim d [
    | inl s ↦ absurd (false_first (m - c) bs (omega arith) s)
    | inr (inl s) ↦ absurd (false_first m bs (omega arith) s)
    | inr (inr r) ↦ (gives_up_iff m 0 bs (omega arith)).1 (inr r)
  ],
)
gives_up_iff m c (true ∷ bs) h = elim (Bool-cases (leb m (suc c))) [
  | inl last_one ↦ (
    λ e. inl (
        suc_Starts (m - c) bs (omega arith)
          (Starts-none (m - c - 1) bs (ground (arith, last_one)))),
    λ d. ground (arith, last_one),
  )
  | inr more ↦ rw more (
      step_iff m c bs (gives_up m (suc c) bs) (ground (arith, more))
        (gives_up_iff m (suc c) bs (ground (arith, more))))
]

pub gives_up-HasRun : (m : ℕ) (bs : List Bool) → 0 < m → (gives_up m 0 bs ≡ true) ↔ HasRun m bs
gives_up-HasRun m bs h = (
  λ e. elim ((gives_up_iff m 0 bs h).0 e) [
    | inl s ↦ Starts-HasRun m bs (Starts-fewer (m - 0) m bs (omega arith) s)
    | inr r ↦ r
  ],
  λ r. (gives_up_iff m 0 bs h).1 (inr r),
)
