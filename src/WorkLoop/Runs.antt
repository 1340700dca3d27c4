-- ===== src/WorkLoop/Runs.antt =====
-- When the loops give up: at a run of failures as long as their threshold.
use axelar_relayer_core.Base.{
  ℕ, suc, ◌^◌, ◌<◌, ◌≡◌, ◌↔◌, ◌⊎◌, inl, inr, refl, List, [], ◌∷◌, Bool, true, false, Bool-cases,
  Result, ok, err, leb, arith, is_err, not, sym, ap, ◌∙◌, Option, none, some,
}
use axelar_relayer_core.WorkLoop.{
  saturating_suc, Flow, running, exited, work_loop, HealthFlow, watching, bailed, unreachable,
  process_healthcheck,
}
use axelar_relayer_core.WorkLoop.GivesUp.{HasRun, gives_up, gives_up-HasRun}

-- Which of the results are errors.
abbrev pub errors_of : {E A : Type 0} → List (Result E A) → List Bool
errors_of [] = []
errors_of (r ∷ rs) = is_err r ∷ errors_of rs

abbrev pub has_exited : Flow → Bool
has_exited exited = true
has_exited (running n) = false

exits : (f : Flow) → has_exited f ≡ true → f ≡ exited
exits exited e = refl
exits (running n) e = ground arith

work_loop-gives_up :
    {E A : Type 0} (m c : ℕ) (rs : List (Result E A))
    → c < m
    → m < 2 ^ 32
    → has_exited (work_loop m c rs) ≡ gives_up m c (errors_of rs)
unfolding work_loop gives_up
work_loop-gives_up m c [] h b = refl
work_loop-gives_up m c (ok a ∷ rs) h b = work_loop-gives_up m 0 rs (omega arith) b
work_loop-gives_up m c (err e ∷ rs) h b = elim (Bool-cases (leb m (suc c))) [
  | inl last_one ↦ ground (arith, last_one)
  | inr more ↦ ground (arith, more, work_loop-gives_up m (suc c) rs)
]

-- A worker's loop that starts without errors gives up exactly when as many ticks in a row fail as its
-- threshold says; failures that a success interrupts never add up. The threshold is not 0 and fits 32
-- bits.
pub work_loop_iff :
    {E A : Type 0} (max_errors : ℕ) (rs : List (Result E A))
    → 0 < max_errors
    → max_errors < 2 ^ 32
    → (work_loop max_errors 0 rs ≡ exited) ↔ HasRun max_errors (errors_of rs)
work_loop_iff m rs h b =
    let same = work_loop-gives_up m 0 rs h b in
    let (to_run, of_run) = gives_up-HasRun m (errors_of rs) h in
    (λ e. to_run (sym same ∙ ap has_exited e), λ r. exits (work_loop m 0 rs) (same ∙ of_run r))

-- What the checks answer up to the first that could not be made.
abbrev pub answered : {E : Type 0} → List (Result E Bool) → List Bool
answered [] = []
answered (err e ∷ rs) = []
answered (ok b ∷ rs) = not b ∷ answered rs

abbrev pub is_unreachable : {E : Type 0} → HealthFlow E → Bool
is_unreachable unreachable = true
is_unreachable (bailed e) = false
is_unreachable (watching n) = false

unreaches : {E : Type 0} (f : HealthFlow E) → is_unreachable f ≡ true → f ≡ unreachable
unreaches unreachable e = refl
unreaches (bailed x) e = ground arith
unreaches (watching n) e = ground arith

healthcheck-gives_up :
    {E : Type 0} (m c : ℕ) (rs : List (Result E Bool))
    → c < m
    → m < 2 ^ 64
    → is_unreachable (process_healthcheck m c rs) ≡ gives_up m c (answered rs)
unfolding process_healthcheck gives_up
healthcheck-gives_up m c [] h b = refl
healthcheck-gives_up m c (err e ∷ rs) h b = refl
healthcheck-gives_up m c (ok true ∷ rs) h b = healthcheck-gives_up m 0 rs (omega arith) b
healthcheck-gives_up m c (ok false ∷ rs) h b = elim (Bool-cases (leb m (suc c))) [
  | inl last_one ↦ ground (arith, last_one)
  | inr more ↦ ground (arith, more, healthcheck-gives_up m (suc c) rs)
]

-- The health check reports the API as unreachable exactly when as many answers in a row are errors as
-- its threshold says, among the checks before the first that could not be made.
pub process_healthcheck_iff :
    {E : Type 0} (before_shutdown : ℕ) (rs : List (Result E Bool))
    → 0 < before_shutdown
    → before_shutdown < 2 ^ 64
    → (process_healthcheck before_shutdown 0 rs ≡ unreachable)
      ↔ HasRun before_shutdown (answered rs)
process_healthcheck_iff m rs h b =
    let same = healthcheck-gives_up m 0 rs h b in
    let (to_run, of_run) = gives_up-HasRun m (answered rs) h in
    (
      λ e. to_run (sym same ∙ ap is_unreachable e),
      λ r. unreaches (process_healthcheck m 0 rs) (same ∙ of_run r),
    )

abbrev pub first_error : {E : Type 0} → List (Result E Bool) → Option E
first_error [] = none
first_error (err e ∷ rs) = some e
first_error (ok b ∷ rs) = first_error rs

bails_from :
    {E : Type 0} (m c : ℕ) (rs : List (Result E Bool)) (e : E)
    → first_error rs ≡ some e
    → (process_healthcheck m c rs ≡ unreachable) ⊎ (process_healthcheck m c rs ≡ bailed e)
unfolding process_healthcheck
bails_from m c [] e h = ground arith
bails_from m c (err x ∷ rs) e h = inr (ground arith)
bails_from m c (ok true ∷ rs) e h = bails_from m 0 rs e h
bails_from m c (ok false ∷ rs) e h = elim (Bool-cases (leb m (saturating_suc 64 c))) [
  | inl last_one ↦ inl (ground (arith, last_one))
  | inr more ↦ rw more (bails_from m (saturating_suc 64 c) rs e h)
]

-- A check that could not be made ends the health check with its own error, whatever the threshold is
-- and unless the API has been found unreachable before: it is never counted as a failure.
pub process_healthcheck_bails :
    {E : Type 0} (before_shutdown : ℕ) (rs : List (Result E Bool)) (e : E)
    → 0 < before_shutdown
    → before_shutdown < 2 ^ 64
    → first_error rs ≡ some e
    → (HasRun before_shutdown (answered rs) → ⊥)
    → process_healthcheck before_shutdown 0 rs ≡ bailed e
process_healthcheck_bails m rs e h b first quiet = elim (bails_from m 0 rs e first) [
  | inl lost ↦ absurd (quiet ((process_healthcheck_iff m rs h b).0 lost))
  | inr bailed_out ↦ bailed_out
]
