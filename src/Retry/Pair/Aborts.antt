-- ===== src/Retry/Pair/Aborts.antt =====
-- How a retry of a pair ends: with which result, in which state, and that neither `expect` fails.
use axelar_relayer_core.Base.{
  ℕ, zero, suc, ◌≡◌, Bool, true, false, ◌&&◌, ◌||◌, Option, none, some, List, [], ◌∷◌, Result, ok,
  err, if◌then◌else◌, arith,
}
use axelar_relayer_core.Retry.Defs.{Abortable, aborted, max_attempts}
use axelar_relayer_core.Retry.Backoff.{
  FloatRng, AlternationStep, first, second, BackoffPairIterator, next,
}
use axelar_relayer_core.Retry.Pair.{
  RetryPairFn, Event, slept, called, Loop, start, Flow, returns, continues, Outcome, returned,
  panicked, round, rounds, retry,
}

abbrev same_path : AlternationStep → AlternationStep → Bool
same_path first first = true
same_path second second = true
same_path _ _ = false

-- A call of the path has returned an abortable error.
abbrev pub has_aborted : {Err : Type 0} → Abortable Err → AlternationStep → List (Event Err) → Bool
has_aborted a p [] = false
has_aborted a p (slept d ∷ es) = has_aborted a p es
has_aborted a p (called q none ∷ es) = has_aborted a p es
has_aborted a p (called q (some e) ∷ es) = (same_path p q && a.abortable e) || has_aborted a p es

-- The latest abortable error that a call has returned.
abbrev pub last_abort : {Err : Type 0} → Abortable Err → List (Event Err) → Option Err
last_abort a [] = none
last_abort a (slept d ∷ es) = last_abort a es
last_abort a (called q none ∷ es) = last_abort a es
last_abort a (called q (some e) ∷ es) = if a.abortable e then some e else last_abort a es

-- The latest call has returned no error.
abbrev pub succeeded : {Err : Type 0} → List (Event Err) → Bool
succeeded [] = false
succeeded (slept d ∷ es) = succeeded es
succeeded (called q none ∷ es) = true
succeeded (called q (some e) ∷ es) = false

-- Some call has returned no error.
abbrev pub has_succeeded : {Err : Type 0} → List (Event Err) → Bool
has_succeeded [] = false
has_succeeded (slept d ∷ es) = has_succeeded es
has_succeeded (called q none ∷ es) = true
has_succeeded (called q (some e) ∷ es) = has_succeeded es

abbrev pub both_aborted : {Err : Type 0} → Abortable Err → List (Event Err) → Bool
both_aborted a es = has_aborted a first es && has_aborted a second es

-- What an outcome says of the calls that have been made.
abbrev pub Ends : {T Err : Type 0} → Abortable Err → Outcome T Err → List (Event Err) → Type 0
Ends a panicked es = ⊥
Ends a (returned (ok t)) es = (succeeded es ≡ true) × (both_aborted a es ≡ false)
Ends a (returned (err max_attempts)) es = (has_succeeded es ≡ false) × (both_aborted a es ≡ false)
Ends a (returned (err (aborted e))) es =
    (has_succeeded es ≡ false) × (both_aborted a es ≡ true) × (last_abort a es ≡ some e)

-- What holds between two rounds: the flags say which function has aborted, and one has not, and
-- nothing has succeeded.
record Inv {W Err : Type 0} (a : Abortable Err) (s : Loop W Err) : Type 0 where
  pub first_flag : s.primary_fn_aborted ≡ has_aborted a first s.trace
  pub second_flag : s.secondary_fn_aborted ≡ has_aborted a second s.trace
  pub one_alive : both_aborted a s.trace ≡ false
  pub no_success : has_succeeded s.trace ≡ false

abbrev After : {W T Err : Type 0} → Abortable Err → Flow T Err → Loop W Err → Type 0
After a (returns o) s = Ends a o s.trace
After a continues s = Inv a s

-- A round, and the rest of the loop if it goes on.
resume-Ends :
    {W T Err : Type 0} (a : Abortable Err) (flow : Flow T Err) (s : Loop W Err)
    (rest : Outcome T Err × Loop W Err)
    → After a flow s
    → (Inv a s → Ends a rest.0 rest.1.trace)
    → let end : Outcome T Err × Loop W Err = elim flow [ returns o ↦ (o, s) | continues ↦ rest ] in
      Ends a end.0 end.1.trace
resume-Ends a (returns o) s rest h k = h
resume-Ends a continues s rest h k = k h

module _ {W T Err : Type 0} (a : Abortable Err) (sleep : ℕ → W → W)
    (f g : W → Result Err T × W) where
  round-After :
      (wait d : ℕ) (q : AlternationStep) (s : Loop W Err)
      → Inv a s
      → After a (round a sleep f g wait d q s).0 (round a sleep f g wait d q s).1
  unfolding round
  round-After wait d first s v = grind arith
  round-After wait d second s v = grind arith

  module _ {F R : Type 0} (fr : FloatRng F R) where
    rounds-Ends :
        (wait n : ℕ) (it : BackoffPairIterator) (r : R) (s : Loop W Err)
        → Inv a s
        → Ends a
            (rounds a sleep f g fr wait n it r s).0
            (rounds a sleep f g fr wait n it r s).1.trace
    unfolding rounds
    rounds-Ends wait zero it r s v = (v.no_success, v.one_alive)
    rounds-Ends wait (suc n) it r s v =
        let (i, it', r') = next fr it r in
        let (flow, s') = round a sleep f g wait i.duration i.alteration_step s in
        resume-Ends a flow s' (rounds a sleep f g fr wait n it' r' s')
          (round-After wait i.duration i.alteration_step s v) (rounds-Ends wait n it' r' s')

    -- A retry never panics. It returns `Aborted` only when calls of both functions have returned an
    -- abortable error, and then with the latest of these errors, and `MaxAttempts` only when at least
    -- one of the functions has never returned an abortable error; either error is returned only
    -- when no call has succeeded, and a result only when the last call has.
    pub retry-Ends :
        (self : RetryPairFn) (r : R) (w : W)
        → Ends a (retry a sleep f g fr self r w).0 (retry a sleep f g fr self r w).1.trace
    unfolding retry start
    retry-Ends self r w = rounds-Ends _ _ _ r (start w) (ground arith)
