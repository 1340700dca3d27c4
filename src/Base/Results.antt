-- ===== src/Base/Results.antt =====
-- `Result`, and computations that read and write a state and may fail. The bind of `Eff` is the
-- source's `?`: the state so far is kept, and the rest does not run.
use mathlib.Core.Bool.{Bool, true, false}
use mathlib.Core.Logic.{◌⊎◌, inl, inr}
use mathlib.Core.Path.{◌≡◌, refl, ◌∙◌}

pub data Result {ℓ κ} (E : Type ℓ) (A : Type κ) : Type (ℓ ⊔ κ) where
  ok : A → Result E A
  err : E → Result E A

abbrev pub map_err {ℓ κ μ} :
    {E : Type ℓ} {F : Type κ} {A : Type μ} → (E → F) → Result E A → Result F A
map_err f (ok a) = ok a
map_err f (err e) = err (f e)

abbrev pub is_err {ℓ κ} : {E : Type ℓ} {A : Type κ} → Result E A → Bool
is_err (ok a) = false
is_err (err e) = true

-- `async` code over the state `S` that ends in a `Result<A, E>`.
abbrev pub Eff : Type 0 → Type 0 → Type 0 → Type 0
Eff S E A = S → Result E A × S

module _ {S E A B : Type 0} where
  abbrev pub and_then : Result E A × S → (A → Eff S E B) → Result E B × S
  and_then (ok a, s) f = f a s
  and_then (err e, s) f = (err e, s)

  infixl 5 ◌>>=◌ ◌>>◌
  abbrev pub ◌>>=◌ : Eff S E A → (A → Eff S E B) → Eff S E B
  (m >>= f) s = and_then (m s) f

  abbrev pub ◌>>◌ : Eff S E A → Eff S E B → Eff S E B
  (m >> k) s = and_then (m s) (λ _. k)

  -- A `?` leaves with the error or goes on with the value.
  pub and_then-cases {ℓ} :
      (P : Result E B × S → Type ℓ) (m : Result E A × S) (f : A → Eff S E B)
      → ((e : E) → m.0 ≡ err e → P (err e, m.1))
      → ((a : A) → m.0 ≡ ok a → P (f a m.1))
      → P (and_then m f)
  and_then-cases P (ok a, s) f bad good = good a refl
  and_then-cases P (err e, s) f bad good = bad e refl

-- `Ok(a)` at the end of a block.
abbrev pub pure : {S E A : Type 0} → A → Eff S E A
pure a s = (ok a, s)

-- Computations that leave `view` of the state alone, whatever their result.
module _ {S V : Type 0} (view : S → V) where
  abbrev pub Keeps : {E A : Type 0} → Eff S E A → Type 0
  Keeps m = (s : S) → view (m s).1 ≡ view s

  and_then-Keeps :
      {E A B : Type 0} (p : Result E A × S) (k : A → Eff S E B)
      → ((a : A) → Keeps (k a))
      → view (and_then p k).1 ≡ view p.1
  and_then-Keeps (ok a, s) k h = h a s
  and_then-Keeps (err e, s) k h = refl

  pub bind-Keeps :
      {E A B : Type 0} (m : Eff S E A) (k : A → Eff S E B)
      → Keeps m
      → ((a : A) → Keeps (k a))
      → Keeps (λ s. and_then (m s) k)
  bind-Keeps m k h h' s = and_then-Keeps (m s) k h' ∙ h s

pub Result-cases {ℓ κ} :
    {E : Type ℓ} {A : Type κ} (r : Result E A) → ((a : A) × (r ≡ ok a)) ⊎ ((e : E) × (r ≡ err e))
Result-cases (ok a) = inl (a, refl)
Result-cases (err e) = inr (e, refl)
