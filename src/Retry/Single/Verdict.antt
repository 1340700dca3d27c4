-- ===== src/Retry/Single/Verdict.antt =====
-- The retry of one function, against a specification that knows no delays.
use axelar_relayer_core.Base.{
  ℕ, zero, suc, ◌+◌, ◌*◌, ◌≤◌, ◌≡◌, refl, ◌≢◌, true, false, Option, none, length, inl, inr,
  Option-cases, Result, ok, err, arith,
}
use axelar_relayer_core.Retry.Elapse.{IsBlind, IsUnseen}
use axelar_relayer_core.Retry.Defs.{RetryError, aborted, max_attempts, Abortable}
use axelar_relayer_core.Retry.Single.{RetryFn, Run, attempt, rounds, retry}

module _ {W T Err : Type 0} (a : Abortable Err) (function : W → Result Err T × W) where
  -- The first of at most `n` answers that settles the matter: a result, or an abortable error.
  pub verdict : ℕ → W → Result (RetryError Err) T × W
  verdict zero w = (err max_attempts, w)
  verdict (suc n) w =
      let (answer, w') = function w in
      elim answer [
        | ok t ↦ (ok t, w')
        | err e ↦ elim (a.abortable e) [ true ↦ (err (aborted e), w') | false ↦ verdict n w' ]
      ]

module _ {W T Err B : Type 0} (a : Abortable Err) (sleep : ℕ → W → W)
    (function : W → Result Err T × W) (backoff_next : B → Option ℕ × B) where
  rounds_sleeps_le :
      (wait n : ℕ) (b : B) (s : Run W)
      → length (rounds a sleep function backoff_next wait n b s).1.sleeps ≤ 2 * n + length s.sleeps
  unfolding rounds attempt
  rounds_sleeps_le wait zero b s = omega arith
  rounds_sleeps_le wait (suc n) b s = elim (Option-cases (backoff_next b).0) [
    | inl e ↦ ground (arith, e)
    | inr (d, e) ↦
        let s' = (attempt a sleep function backoff_next wait d s).1 in
        ground (arith, e, rounds_sleeps_le wait n (backoff_next b).1 s')
  ]

  module _ (Same : W → W → Type 0) (unseen : IsUnseen Same sleep)
      (blind : IsBlind Same function) where
    after_sleep :
        (d : ℕ) (w w' : W)
        → Same w w'
        → ((function (sleep d w)).0 ≡ (function w').0)
          × Same (function (sleep d w)).1 (function w').1
    after_sleep d w w' same = blind (sleep d w) w' (unseen d w w' same)

    rounds-verdict :
        (endless : (b : B) → (backoff_next b).0 ≢ none) (wait n : ℕ) (b : B) (s : Run W) (w : W)
        → Same s.world w
        → ((rounds a sleep function backoff_next wait n b s).0 ≡ (verdict a function n w).0)
          × Same
              (rounds a sleep function backoff_next wait n b s).1.world
              (verdict a function n w).1
    unfolding rounds verdict attempt
    rounds-verdict endless wait zero b s w same = (refl, same)
    rounds-verdict endless wait (suc n) b s w same = elim (Option-cases (backoff_next b).0) [
      | inl e ↦ absurd (endless b e)
      | inr (d, e) ↦
          let s' = (attempt a sleep function backoff_next wait d s).1 in
          let w1 = (function w).1 in
          ground (
            arith,
            e,
            after_sleep d s.world w same,
            unseen wait (function (sleep d s.world)).1 w1,
            rounds-verdict endless wait n (backoff_next b).1 s' w1,
          )
    ]

    -- A retry of one function returns the first result, or abortable error, among the answers to
    -- its attempts, and `MaxAttempts` if there is none; it calls the function no further. This
    -- holds for every backoff that never ends, where the function does not see that sleeps have
    -- gone by: the answers are those that it gives without any.
    pub retry-verdict :
        (endless : (b : B) → (backoff_next b).0 ≢ none) (self : RetryFn B) (w w' : W)
        → Same w w'
        → ((retry a sleep function backoff_next self w).0
            ≡ (verdict a function self.max_attempts w').0)
          × Same
              (retry a sleep function backoff_next self w).1.world
              (verdict a function self.max_attempts w').1
    unfolding retry
    retry-verdict endless self w w' same = rounds-verdict endless _ _ _ _ w' same
