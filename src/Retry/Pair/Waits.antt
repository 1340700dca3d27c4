-- ===== src/Retry/Pair/Waits.antt =====
-- How long a retry of a pair waits, and in what way the waits have an influence on how it ends.
use axelar_relayer_core.Base.{
  ℕ, zero, suc, ◌+◌, ◌*◌, ◌≤◌, ◌≡◌, refl, subst, List, [], ◌∷◌, Result, if◌then◌else◌, arith,
}
use axelar_relayer_core.Retry.Elapse.{IsBlind, IsQuiet}
use axelar_relayer_core.Retry.Defs.{Abortable, from_millis, from_secs}
use axelar_relayer_core.Retry.Backoff.{
  FloatRng, AlternationStep, first, second, BackoffPairIterator, next,
}
use axelar_relayer_core.Retry.Backoff
use axelar_relayer_core.Retry.Backoff.Bounds.{
  next_path, next_duration_le, next_keeps_max, max_of_new,
}
use axelar_relayer_core.Retry.Pair.{
  RetryPairFn, new, Event, slept, called, Loop, start, round, rounds, retry,
}

-- The sum of the sleeps in a trace.
abbrev pub slept_total : {Err : Type 0} → List (Event Err) → ℕ
slept_total [] = 0
slept_total (slept d ∷ es) = d + slept_total es
slept_total (called q r ∷ es) = slept_total es

-- The same variables, and worlds that are the same as far as `Same` goes.
record Alike {W Err : Type 0} (Same : W → W → Type 0) (s t : Loop W Err) : Type 0 where
  pub same_primary : s.primary_fn_aborted ≡ t.primary_fn_aborted
  pub same_primary_limit : s.primary_fn_rate_limitted ≡ t.primary_fn_rate_limitted
  pub same_secondary : s.secondary_fn_aborted ≡ t.secondary_fn_aborted
  pub same_secondary_limit : s.secondary_fn_rate_limitted ≡ t.secondary_fn_rate_limitted
  pub same_error : s.last_abort_err ≡ t.last_abort_err
  pub same_world : Same s.world t.world

module _ {W T Err : Type 0} (a : Abortable Err) (sleep : ℕ → W → W)
    (f g : W → Result Err T × W) where
  round_slept_le :
      (wait d m : ℕ) (q : AlternationStep) (s : Loop W Err)
      → wait ≤ m
      → d ≤ m
      → slept_total (round a sleep f g wait d q s).1.trace ≤ m + slept_total s.trace
  unfolding round
  round_slept_le wait d m first s hw hd = ground arith
  round_slept_le wait d m second s hw hd = ground arith

  module _ {F R : Type 0} (fr : FloatRng F R) where
    rounds_slept_le :
        (wait n m : ℕ) (it : BackoffPairIterator) (r : R) (s : Loop W Err)
        → wait ≤ m
        → from_millis it.max_delay_ms ≤ m
        → slept_total (rounds a sleep f g fr wait n it r s).1.trace ≤ n * m + slept_total s.trace
    unfolding rounds
    rounds_slept_le wait zero m it r s hw hm = omega arith
    rounds_slept_le wait (suc n) m it r s hw hm =
        let (i, it', r') = next fr it r in
        let s' = (round a sleep f g wait i.duration i.alteration_step s).1 in
        ground (
          arith,
          next_duration_le fr it r,
          next_keeps_max fr it r,
          round_slept_le wait i.duration m i.alteration_step s,
          rounds_slept_le wait n m it' r' s',
        )

    -- A retry built with a maximal delay of at most `m`, where `m` is no less than the ten seconds
    -- of the rate limit, sleeps for at most twenty times `m` in all.
    pub retry_slept_le :
        (initial_delay factor max_delay m : ℕ) (r : R) (w : W)
        → max_delay ≤ m
        → from_secs 10 ≤ m
        → slept_total
            (retry a sleep f g fr (new (Backoff.new initial_delay factor max_delay)) r w).1.trace
          ≤ 20 * m
    unfolding retry new start
    retry_slept_le i k max_delay m r w h1 h2 = omega (
      arith,
      max_of_new i k max_delay,
      rounds_slept_le (from_secs 10) 20 m (Backoff.new i k max_delay) r (start w) h2,
    )

module _ {W T Err : Type 0} (a : Abortable Err) (sleep : ℕ → W → W) (f g : W → Result Err T × W)
    (Same : W → W → Type 0) (quiet : IsQuiet Same sleep) (blind_f : IsBlind Same f)
    (blind_g : IsBlind Same g) where
  after_sleep :
      (h : W → Result Err T × W)
      → IsBlind Same h
      → (d d' : ℕ) (w w' : W) → Same w w'
      → ((h (sleep d w)).0 ≡ (h (sleep d' w')).0) × Same (h (sleep d w)).1 (h (sleep d' w')).1
  after_sleep h blind d d' w w' same = blind (sleep d w) (sleep d' w') (quiet d d' w w' same)

  round-Alike :
      (wait wait' d d' : ℕ) (q : AlternationStep) (s t : Loop W Err)
      → Alike Same s t
      → ((round a sleep f g wait d q s).0 ≡ (round a sleep f g wait' d' q t).0)
        × Alike Same (round a sleep f g wait d q s).1 (round a sleep f g wait' d' q t).1
  unfolding round
  round-Alike wait wait' d d' first s t h =
      let x = if s.primary_fn_rate_limitted then wait else d in
      let y = if t.primary_fn_rate_limitted then wait' else d' in
      ground (arith, h, after_sleep f blind_f x y s.world t.world h.same_world)
  round-Alike wait wait' d d' second s t h =
      let x = if s.secondary_fn_rate_limitted then wait else d in
      let y = if t.secondary_fn_rate_limitted then wait' else d' in
      ground (arith, h, after_sleep g blind_g x y s.world t.world h.same_world)

  module _ {F R F' R' : Type 0} (fr : FloatRng F R) (fr' : FloatRng F' R') where
    rounds-Alike :
        (wait wait' n : ℕ) (it it' : BackoffPairIterator) (r : R) (r' : R') (s t : Loop W Err)
        → it.backoff_path ≡ it'.backoff_path
        → Alike Same s t
        → ((rounds a sleep f g fr wait n it r s).0 ≡ (rounds a sleep f g fr' wait' n it' r' t).0)
          × Alike Same
              (rounds a sleep f g fr wait n it r s).1
              (rounds a sleep f g fr' wait' n it' r' t).1
    unfolding rounds
    rounds-Alike wait wait' zero it it' r r' s t p h = (refl, h)
    rounds-Alike wait wait' (suc n) it it' r r' s t p h =
        let (i, jt, q) = next fr it r in
        let (i', jt', q') = next fr' it' r' in
        let s' = (round a sleep f g wait i.duration i.alteration_step s).1 in
        let t' = (round a sleep f g wait' i'.duration i.alteration_step t).1 in
        ground (
          arith,
          next_path fr it r,
          next_path fr' it' r',
          round-Alike wait wait' i.duration i'.duration i.alteration_step s t h,
          rounds-Alike wait wait' n jt jt' q q' s' t',
        )

    -- The delays, the random factors and the wait for a rate limit act on the end of a retry through
    -- the functions alone: where neither function sees what sleeps of different lengths leave behind,
    -- two retries of the functions, with the same number of attempts and the same first path, return
    -- the same result and leave behind worlds that the functions cannot tell apart.
    pub retry_ignores_delays :
        (self self' : RetryPairFn) (r : R) (r' : R') (w w' : W)
        → self.max_attempts ≡ self'.max_attempts
        → self.backoff.backoff_path ≡ self'.backoff.backoff_path
        → Same w w'
        → ((retry a sleep f g fr self r w).0 ≡ (retry a sleep f g fr' self' r' w').0)
          × Same (retry a sleep f g fr self r w).1.world (retry a sleep f g fr' self' r' w').1.world
    unfolding retry start
    retry_ignores_delays self self' r r' w w' n p same =
        let h =
          rounds-Alike self.rate_limit_wait self'.rate_limit_wait self.max_attempts self.backoff
            self'.backoff r r' (start w) (start w') p
            (record {
              same_primary = refl;
              same_primary_limit = refl;
              same_secondary = refl;
              same_secondary_limit = refl;
              same_error = refl;
              same_world = same;
            }) in
        subst
          (λ m.
            ((retry a sleep f g fr self r w).0
              ≡ (rounds a sleep f g fr' self'.rate_limit_wait m self'.backoff r' (start w')).0)
            × Same (retry a sleep f g fr self r w).1.world
                (rounds a sleep f g fr' self'.rate_limit_wait m self'.backoff r'
                  (start w')).1.world)
          n (h.0, h.1.same_world)
