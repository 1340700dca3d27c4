-- ===== src/AmplifierApi/Order.antt =====
-- Lists of tasks in the order that the API keeps them in.
use axelar_relayer_core.Base.{
  ℕ, suc, ◌≤◌, ◌≡◌, refl, sym, Option, none, some, List, [], ◌∷◌, ◌++◌, In, if◌then◌else◌, ltb, inl,
  inr, arith,
}

-- The API keeps the tasks in an order: `position` is the place of an identifier in it.
module _ {I T : Type 0} (id_of : T → I) (position : I → ℕ) where
  -- The place behind the latest processed task.
  abbrev pub behind : Option I → ℕ
  behind none = 0
  behind (some i) = suc (position i)

  -- The tasks from a place on, one after another.
  abbrev pub Consecutive : ℕ → List T → Type 0
  Consecutive n [] = Unit
  Consecutive n (t ∷ ts) = (position (id_of t) ≡ n) × Consecutive (suc n) ts

  -- The place behind `n` and behind all the tasks.
  abbrev pub furthest : ℕ → ℕ → ℕ
  furthest n m = if ltb n m then m else n

  abbrev pub reach : ℕ → List T → ℕ
  reach n [] = n
  reach n (t ∷ ts) = reach (furthest n (suc (position (id_of t)))) ts

  -- Each task comes at most at the place behind `n` and behind all the tasks before it.
  abbrev pub Gapless : ℕ → List T → Type 0
  Gapless n [] = Unit
  Gapless n (t ∷ ts) = (position (id_of t) ≤ n) × Gapless (furthest n (suc (position (id_of t)))) ts

  le_furthest : (n m : ℕ) → (n ≤ furthest n m) × (m ≤ furthest n m)
  le_furthest n m = ground arith

  furthest_le : (n m p : ℕ) → n ≤ p → furthest n m ≤ furthest p m
  furthest_le n m p h = ground arith

  pub le-reach : (n : ℕ) (ts : List T) → n ≤ reach n ts
  le-reach n [] = omega arith
  le-reach n (t ∷ ts) =
      let m = suc (position (id_of t)) in omega (arith, le_furthest n m, le-reach (furthest n m) ts)

  pub reach-append : (n : ℕ) (xs ys : List T) → reach n (xs ++ ys) ≡ reach (reach n xs) ys
  reach-append n [] ys = refl
  reach-append n (x ∷ xs) ys = reach-append (furthest n (suc (position (id_of x)))) xs ys

  pub In-reach : (n : ℕ) (t : T) (ts : List T) → In t ts → suc (position (id_of t)) ≤ reach n ts
  In-reach n t [] h = elim h [ ]
  In-reach n t (x ∷ xs) (inl e) =
      let m = suc (position (id_of x)) in
      rw (sym e) (omega (arith, le_furthest n m, le-reach (furthest n m) xs))
  In-reach n t (x ∷ xs) (inr h) = In-reach (furthest n (suc (position (id_of x)))) t xs h

  pub Gapless-append :
      (n : ℕ) (xs ys : List T) → Gapless n xs → Gapless (reach n xs) ys → Gapless n (xs ++ ys)
  Gapless-append n [] ys hx hy = hy
  Gapless-append n (x ∷ xs) ys (h, hx) hy =
      (h, Gapless-append (furthest n (suc (position (id_of x)))) xs ys hx hy)

  pub Gapless-le : (n m : ℕ) (ts : List T) → n ≤ m → Gapless n ts → Gapless m ts
  Gapless-le n m [] h g = tt
  Gapless-le n m (t ∷ ts) h (first, g) = (
    omega arith,
    let p = suc (position (id_of t)) in
        Gapless-le (furthest n p) (furthest m p) ts (furthest_le n p m h) g,
  )

  pub Consecutive-Gapless : (a n : ℕ) (ts : List T) → a ≤ n → Consecutive a ts → Gapless n ts
  Consecutive-Gapless a n [] h c = tt
  Consecutive-Gapless a n (t ∷ ts) h (e, c) = (
    omega (arith, e),
    let p = suc (position (id_of t)) in
        Consecutive-Gapless (suc a) (furthest n p) ts (ground (arith, e)) c,
  )
