-- ===== src/Base/Lists.antt =====
-- Lists measured by native numbers, predicates on lists by recursion, and texts as code points.
use Prim.Native.Nat.{ℕ, suc, ◌+◌}
use Prim.Native.Char.{code}
use Prim.Native.String.{String}
use mathlib.Core.Path.{◌≡◌, subst}
use mathlib.Core.Logic.{◌⊎◌}
use mathlib.Core.List.{List, [], ◌∷◌, ◌++◌, List-discrete, append_assoc, Perm, perm_middle}
use mathlib.Core.List.Perm
use mathlib.Core.Option.{Option, none, some}
use native.Mathlib.Omega.{arith}
use native.Mathlib.Decide.{ℕ_discrete}

module _ {ℓ} {A : Type ℓ} where
  abbrev pub length : List A → ℕ
  length [] = 0
  length (x ∷ xs) = suc (length xs)

  pub length-append : (xs ys : List A) → length (xs ++ ys) ≡ length xs + length ys
  length-append [] ys = omega arith
  length-append (x ∷ xs) ys = omega (arith, length-append xs ys)

  -- `slice::last`.
  abbrev pub last : List A → Option A
  last [] = none
  last (x ∷ []) = some x
  last (x ∷ y ∷ ys) = last (y ∷ ys)

module _ {ℓ κ} {A : Type ℓ} (P : A → Type κ) where
  -- `P` holds of every element.
  abbrev pub All : List A → Type κ
  All [] = Unit
  All (x ∷ xs) = P x × All xs

  pub All-append : (xs ys : List A) → All xs → All ys → All (xs ++ ys)
  All-append [] ys hx hy = hy
  All-append (x ∷ xs) ys hx hy = (hx.0, All-append xs ys hx.1 hy)

  pub All-split : (xs ys : List A) → All (xs ++ ys) → All xs × All ys
  All-split [] ys h = (tt, h)
  All-split (x ∷ xs) ys h = let (hx, hy) = All-split xs ys h.1 in ((h.0, hx), hy)

-- A text is the list of its code points.
abbrev pub Text : Type 0
Text = List ℕ

abbrev pub codes : String → Text
codes String.[] = []
codes (String.◌∷◌ c s) = code c ∷ codes s

pub Text-discrete : Discrete Text
unfolding ℕ_discrete
Text-discrete = List-discrete ℕ_discrete

module _ {A : Type 0} where
  -- `a` is an element.
  abbrev pub In : A → List A → Type 0
  In a [] = ⊥
  In a (x ∷ xs) = (x ≡ a) ⊎ In a xs

module _ {A : Type 0} where
  exchange : (xs ys zs : List A) → Perm (xs ++ (ys ++ zs)) (ys ++ (xs ++ zs))
  exchange [] ys zs = Perm.refl (ys ++ zs)
  exchange (x ∷ xs) ys zs =
      Perm.trans (Perm.cons x (exchange xs ys zs)) (Perm.symm (perm_middle ys (xs ++ zs)))

  -- Messages in the middle move to the end of the first part.
  pub move_out :
      (done old before left rest : List A)
      → Perm
          ((done ++ old) ++ ((before ++ left) ++ rest))
          (done ++ ((before ++ (old ++ left)) ++ rest))
  move_out done old before left rest =
      subst (λ a. Perm a (done ++ ((before ++ (old ++ left)) ++ rest))) (simp append_assoc)
        (subst (λ b. Perm (done ++ (old ++ (before ++ (left ++ rest)))) b) (simp append_assoc)
          (Perm.append_left done (exchange old before (left ++ rest))))
