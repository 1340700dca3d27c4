-- ===== src/Ingester/Pool.antt =====
-- crates/amplifier-ingester/src/lib.rs: the `for_each_concurrent` of `Ingester::ingest`, for items `I`,
-- the futures `F` of its closure and a shared state `S`. The relation has every schedule that the
-- combinator documents: an item is taken from the stream while there are fewer futures than the
-- limit (zero is no limit), the futures are polled in any order, and each runs to its next `await`
-- without being interrupted.
use native.Mathlib.Nat.{zero-add, suc-add}
use native.Mathlib.Decide.{dec_lt}
use axelar_relayer_core.Base.{
  ℕ, zero, suc, ◌+◌, ◌≤◌, ◌<◌, ◌≡◌, refl, ◌⊎◌, inl, inr, Option, none, some, List, [], ◌∷◌, ◌++◌,
  length, length-append, arith, Option-cases,
}

pub record Pool (I F S : Type 0) : Type 0 where
  pub rest : List I
  pub flights : List F
  pub shared : S

abbrev pub optional : {A : Type 0} → Option A → List A
optional none = []
optional (some a) = a ∷ []

module _ {A : Type 0} (weight : A → ℕ) where
  abbrev pub total : List A → ℕ
  total [] = 0
  total (x ∷ xs) = weight x + total xs

  pub total-append : (xs ys : List A) → total (xs ++ ys) ≡ total xs + total ys
  total-append [] ys = omega arith
  total-append (x ∷ xs) ys = omega (arith, total-append xs ys)

module _ {I F S : Type 0} (start : I → F) (advance : F → S → Option F × S) (limit : ℕ) where
  -- What is left of the future at the place that is polled, and the state behind the poll.
  abbrev pub polled : List F → F → List F → Pool I F S → Pool I F S
  polled before f after u =
      let (left, s) = advance f u.shared in
      record { rest = u.rest; flights = before ++ (optional left ++ after); shared = s }

  abbrev pub pulled : I → List I → Pool I F S → Pool I F S
  pulled item more u = record { rest = more; flights = start item ∷ u.flights; shared = u.shared }

  pub data Step (u v : Pool I F S) : Type 0 where
    pull :
        (item : I) (more : List I)
        → u.rest ≡ item ∷ more
        → (limit ≡ 0) ⊎ (length u.flights < limit)
        → v ≡ pulled item more u
        → Step u v
    poll :
        (before after : List F) (f : F)
        → u.flights ≡ before ++ f ∷ after
        → v ≡ polled before f after u
        → Step u v

  -- `n` steps lead from one state to another.
  pub data Steps (u : Pool I F S) : ℕ → Pool I F S → Type 0 where
    here : Steps u 0 u
    next : {n : ℕ} {v w : Pool I F S} → Steps u n v → Step v w → Steps u (suc n) w

  -- The stream has ended and every future is done.
  abbrev pub IsDrained : Pool I F S → Type 0
  IsDrained u = (u.rest ≡ []) × (u.flights ≡ [])

  -- Some schedule leads to the end.
  abbrev pub Drains : Pool I F S → Type 0
  Drains u = (n : ℕ) × (v : Pool I F S) × Steps u n v × IsDrained v

  abbrev pub WithinLimit : Pool I F S → Type 0
  WithinLimit u = (limit ≡ 0) ⊎ (length u.flights ≤ limit)

  length-polled :
      (before after : List F) (f : F) (u : Pool I F S)
      → length (polled before f after u).flights ≤ length (before ++ f ∷ after)
  length-polled before after f u = elim (Option-cases (advance f u.shared).0) [
    | inl gone ↦ ground (arith, gone, length-append before after, length-append before (f ∷ after))
    | inr (g, stays) ↦
        ground (arith, stays, length-append before (g ∷ after), length-append before (f ∷ after))
  ]

  Step-WithinLimit : (u v : Pool I F S) → Step u v → WithinLimit u → WithinLimit v
  Step-WithinLimit u v (pull item more e room e') h = ground arith
  Step-WithinLimit u v (poll before after f e e') h =
      ground (arith, length-polled before after f u, e')

  pub Steps-WithinLimit :
      {u : Pool I F S} {n : ℕ} {v : Pool I F S} → Steps u n v → WithinLimit u → WithinLimit v
  Steps-WithinLimit here h = h
  Steps-WithinLimit (next {v = v} {w = w} r st) h = Step-WithinLimit v w st (Steps-WithinLimit r h)

  pub Steps-concat :
      {m : ℕ} {u v : Pool I F S}
      → Steps u m v
      → {n : ℕ} {w : Pool I F S} → Steps v n w
      → Steps u (n + m) w
  Steps-concat r here = rw zero-add r
  Steps-concat r (next q st) = rw suc-add (next (Steps-concat r q) st)

  step_or_end_lem :
      (is : List I) (fs : List F) (u : Pool I F S)
      → u.rest ≡ is
      → u.flights ≡ fs
      → IsDrained u ⊎ ((v : Pool I F S) × Step u v)
  step_or_end_lem is (f ∷ fs) u e e' = inr (polled [] f fs u, poll [] fs f e' refl)
  step_or_end_lem [] [] u e e' = inl (e, e')
  step_or_end_lem (i ∷ is) [] u e e' =
      inr (pulled i is u, pull i is e (ground (arith, e', dec_lt 0 limit)) refl)

  -- A pool that has not come to its end can go on.
  step_or_end : (u : Pool I F S) → IsDrained u ⊎ ((v : Pool I F S) × Step u v)
  step_or_end u = step_or_end_lem u.rest u.flights u refl refl

  module _ (item_work : ℕ) (work : F → ℕ) where
    -- The work that is left, for a weight of the items that wait and of the futures.
    abbrev pub remaining : Pool I F S → ℕ
    remaining u = total (λ (i : I). item_work) u.rest + total work u.flights

    module _ (started : (i : I) → work (start i) < item_work)
        (advanced : (f : F) (s : S) → total work (optional (advance f s).0) < work f) where
      Step-remaining : (u v : Pool I F S) → Step u v → remaining v < remaining u
      Step-remaining u v (pull item more e room e') = ground (arith, e, started item, e')
      Step-remaining u v (poll before after f e e') = ground (
        arith,
        e',
        advanced f u.shared,
        total-append work before (f ∷ after),
        total-append work before (optional (advance f u.shared).0 ++ after),
        total-append work (optional (advance f u.shared).0) after,
      )

      -- Every step leaves less work.
      pub Steps-remaining :
          {u : Pool I F S} {n : ℕ} {v : Pool I F S} → Steps u n v → n + remaining v ≤ remaining u
      Steps-remaining here = omega arith
      Steps-remaining (next {v = v} {w = w} r st) =
          omega (arith, Step-remaining v w st, Steps-remaining r)

      -- Some schedule comes to its end.
      pub Drains-within : (n : ℕ) (u : Pool I F S) → remaining u ≤ n → Drains u
      Drains-within zero u h = elim (step_or_end u) [
        | inl over ↦ (0, u, here, over)
        | inr (v, st) ↦ absurd (omega (arith, h, Step-remaining u v st))
      ]
      Drains-within (suc n) u h = elim (step_or_end u) [
        | inl over ↦ (0, u, here, over)
        | inr (v, st) ↦
            let (k, w, r, over) = Drains-within n v (omega (arith, h, Step-remaining u v st)) in
            (k + 1, w, Steps-concat (next here st) r, over)
      ]
