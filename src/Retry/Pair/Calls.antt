-- ===== src/Retry/Pair/Calls.antt =====
-- How often the pair of functions is called: how many calls a path gets in all, and that a path
-- that has aborted gets no more.
use axelar_relayer_core.Base.{
  ℕ, zero, suc, ◌+◌, ◌≤◌, ◌≡◌, refl, Bool, true, List, [], ◌∷◌, Result, arith,
}
use axelar_relayer_core.Retry.Defs.{Abortable}
use axelar_relayer_core.Retry.Backoff.{
  FloatRng, AlternationStep, first, second, BackoffPairIterator, next,
}
use axelar_relayer_core.Retry.Backoff.Bounds.{other, next_path}
use axelar_relayer_core.Retry.Pair.{new, Event, slept, called, Loop, start, round, rounds, retry}

-- 1 for an equal path.
abbrev pub same : AlternationStep → AlternationStep → ℕ
same first first = 1
same second second = 1
same _ _ = 0

-- The calls of a path in a trace.
abbrev pub calls : {Err : Type 0} → AlternationStep → List (Event Err) → ℕ
calls p [] = 0
calls p (slept d ∷ es) = calls p es
calls p (called q r ∷ es) = same p q + calls p es

-- The rounds of a path among `n` rounds that start with `q`.
abbrev pub turns : AlternationStep → ℕ → AlternationStep → ℕ
turns p zero q = 0
turns p (suc n) q = same p q + turns p n (other q)

-- The abort flag of a path.
abbrev pub is_aborted : {W Err : Type 0} → AlternationStep → Loop W Err → Bool
is_aborted first s = s.primary_fn_aborted
is_aborted second s = s.secondary_fn_aborted

module _ {W T Err : Type 0} (a : Abortable Err) (sleep : ℕ → W → W)
    (f g : W → Result Err T × W) where
  round-calls-le :
      (wait d : ℕ) (p q : AlternationStep) (s : Loop W Err)
      → calls p (round a sleep f g wait d q s).1.trace ≤ same p q + calls p s.trace
  unfolding round
  round-calls-le wait d first first s = ground arith
  round-calls-le wait d first second s = ground arith
  round-calls-le wait d second first s = ground arith
  round-calls-le wait d second second s = ground arith

  round_aborted :
      (wait d : ℕ) (p q : AlternationStep) (s : Loop W Err)
      → is_aborted p s ≡ true
      → (calls p (round a sleep f g wait d q s).1.trace ≡ calls p s.trace)
        × (is_aborted p (round a sleep f g wait d q s).1 ≡ true)
  unfolding round
  round_aborted wait d first first s h = ground arith
  round_aborted wait d first second s h = ground arith
  round_aborted wait d second first s h = ground arith
  round_aborted wait d second second s h = ground arith

  module _ {F R : Type 0} (fr : FloatRng F R) where
    rounds-calls-le :
        (wait n : ℕ) (p : AlternationStep) (it : BackoffPairIterator) (r : R) (s : Loop W Err)
        → calls p (rounds a sleep f g fr wait n it r s).1.trace
          ≤ turns p n it.backoff_path + calls p s.trace
    unfolding rounds
    rounds-calls-le wait zero p it r s = omega arith
    rounds-calls-le wait (suc n) p it r s =
        let (i, it', r') = next fr it r in
        let s' = (round a sleep f g wait i.duration i.alteration_step s).1 in
        ground (
          arith,
          next_path fr it r,
          round-calls-le wait i.duration p i.alteration_step s,
          rounds-calls-le wait n p it' r' s',
        )

    -- A retry with the default number of attempts calls neither of its functions more than ten
    -- times, whatever they return and however long it waits.
    pub retry-calls-le :
        (p : AlternationStep) (it : BackoffPairIterator) (r : R) (w : W)
        → calls p (retry a sleep f g fr (new it) r w).1.trace ≤ 10
    unfolding retry new start
    retry-calls-le p it r w =
        omega (arith, rounds-calls-le _ 20 p it r (start w), turns_twenty p it.backoff_path)
      where
        turns_twenty : (p q : AlternationStep) → turns p 20 q ≡ 10
        turns_twenty first first = refl
        turns_twenty first second = refl
        turns_twenty second first = refl
        turns_twenty second second = refl

    -- Once a function has returned an abortable error, no later round calls it, and it stays
    -- marked as aborted.
    pub rounds_aborted :
        (wait n : ℕ) (p : AlternationStep) (it : BackoffPairIterator) (r : R) (s : Loop W Err)
        → is_aborted p s ≡ true
        → (calls p (rounds a sleep f g fr wait n it r s).1.trace ≡ calls p s.trace)
          × (is_aborted p (rounds a sleep f g fr wait n it r s).1 ≡ true)
    unfolding rounds
    rounds_aborted wait zero p it r s h = (refl, h)
    rounds_aborted wait (suc n) p it r s h =
        let (i, it', r') = next fr it r in
        let s' = (round a sleep f g wait i.duration i.alteration_step s).1 in
        let once = round_aborted wait i.duration p i.alteration_step s h in
        ground (arith, once, rounds_aborted wait n p it' r' s' once.1)
