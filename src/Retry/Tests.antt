-- ===== src/Retry/Tests.antt =====
-- The theorems on retries at concrete functions: the world is the number of calls so far, errors are
-- numbers, of which 0 is a rate limit and 1 aborts, and the floats are numbers.
use axelar_relayer_core.Base.{
  ℕ, suc, ◌+◌, ◌*◌, ◌^◌, ◌≤◌, ◌≡◌, refl, ap, true, Option, some, Result, ok, err, ltb, ◌==◌,
  if◌then◌else◌, arith,
}
use axelar_relayer_core.Retry.Elapse.{IsBlind}
use axelar_relayer_core.Retry.Defs.{Abortable, from_secs, u64_max}
use axelar_relayer_core.Retry.Backoff.{FloatRng, BackoffPairIterator, first, second, next, take}
use axelar_relayer_core.Retry.Backoff
use axelar_relayer_core.Retry.Single
use axelar_relayer_core.Retry.Single.Verdict.{verdict}
use axelar_relayer_core.Retry.Pair
use axelar_relayer_core.Retry.Pair.Aborts.{Ends, retry-Ends}
use axelar_relayer_core.Retry.Builder.{ExponentialBackoff, with_retry, with_retry_pair}
use axelar_relayer_core.Retry.Builder
use axelar_relayer_core.Retry.Builder.Built.{with_retry-verdict, with_retry_pair_slept_le}
use axelar_relayer_core.Retry.Pair.Waits.{slept_total, retry_ignores_delays}

abbrev errors : Abortable ℕ
errors = record { abortable = λ e. e == 1; rate_limit = λ e. e == 0 }

abbrev floats : FloatRng ℕ ℕ
floats = record {
  of_u64 = λ n. n;
  mul = λ a b. a * b;
  is_finite = λ x. true;
  is_sign_positive = λ x. true;
  lt = ltb;
  half_max = 2 ^ 1000;
  to_u64 = λ x. if ltb u64_max x then u64_max else x;
  random_range = λ r. (1, suc r);
}

-- Fails twice, by a rate limit, and then succeeds.
abbrev third_time : ℕ → Result ℕ ℕ × ℕ
third_time w = (if ltb w 2 then err 0 else ok w, suc w)

-- Aborts at once.
abbrev never : ℕ → Result ℕ ℕ × ℕ
never w = (err 1, suc w)

abbrev second_ms : BackoffPairIterator
second_ms = Backoff.new (from_secs 1) 2 (from_secs 5)

abbrev on_second : BackoffPairIterator
on_second = record {
  current_first_path_delay_ms = 4;
  current_second_path_delay_ms = 9;
  factor = 2;
  max_delay_ms = 100;
  backoff_path = second;
}

abbrev every : ℕ → Option ℕ × ℕ
every b = (some b, b + b)

-- The delays double, whatever the factor and the greatest delay.
abbrev doubling : ExponentialBackoff ℕ
doubling = record { from_millis = λ ms. ms; factor = λ k b. b; max_delay = λ m b. b }

-- A world of the time that has gone by and the calls so far.
abbrev timed : (ℕ → Result ℕ ℕ × ℕ) → (ℕ × ℕ) → Result ℕ ℕ × (ℕ × ℕ)
timed f (t, n) = let (r, n') = f n in (r, (t, n'))

abbrev pass : ℕ → ℕ × ℕ → ℕ × ℕ
pass d (t, n) = (t + d, n)

abbrev begin : ℕ × ℕ
begin = (0, 0)

abbrev Same : ℕ × ℕ → ℕ × ℕ → Type 0
Same w w' = w.1 ≡ w'.1

timed-IsBlind : (f : ℕ → Result ℕ ℕ × ℕ) → IsBlind Same (timed f)
timed-IsBlind f w w' same = (ap (λ n. (f n).0) same, ap (λ n. (f n).1) same)

with_retry-verdict_example :
    let run =
      Single.retry errors pass
        (timed third_time)
        every
        (with_retry doubling (Builder.new (from_secs 1) 2 (from_secs 5)))
        begin in
    (run.0 ≡ (verdict errors (timed third_time) 20 begin).0)
    × Same run.1.world (verdict errors (timed third_time) 20 begin).1
with_retry-verdict_example =
    with_retry-verdict errors doubling every (λ b e. ground (arith, e)) pass (timed third_time) Same
      (λ d w w' same. same) (timed-IsBlind third_time) (from_secs 1) 2 (from_secs 5) begin begin
      refl

abbrev pair : Pair.RetryPairFn
pair = Pair.new second_ms

retry-Ends_example :
    Ends errors
      (Pair.retry errors pass (timed third_time) (timed never) floats pair 0 begin).0
      (Pair.retry errors pass (timed third_time) (timed never) floats pair 0 begin).1.trace
retry-Ends_example = retry-Ends errors pass (timed third_time) (timed never) floats pair 0 begin

with_retry_pair_slept_le_example :
    slept_total
      (Pair.retry errors pass
        (timed third_time)
        (timed never)
        floats
        (with_retry_pair (Builder.new (from_secs 1) 2 (from_secs 5)))
        0
        begin).1.trace
    ≤ 20 * from_secs 10
with_retry_pair_slept_le_example =
    with_retry_pair_slept_le errors pass (timed third_time) (timed never) floats (from_secs 1) 2
      (from_secs 5) (from_secs 10) 0 begin (omega arith) (omega arith)

abbrev hasty : Pair.RetryPairFn
hasty = Pair.new (Backoff.new 0 1 0)

retry_ignores_delays_example :
    ((Pair.retry errors pass (timed third_time) (timed never) floats pair 0 begin).0
      ≡ (Pair.retry errors pass (timed third_time) (timed never) floats hasty 3 begin).0)
    × Same
        (Pair.retry errors pass (timed third_time) (timed never) floats pair 0 begin).1.world
        (Pair.retry errors pass (timed third_time) (timed never) floats hasty 3 begin).1.world
unfolding Pair.new Backoff.new
retry_ignores_delays_example =
    retry_ignores_delays errors pass (timed third_time) (timed never) Same (λ d d' w w' same. same)
      (timed-IsBlind third_time) (timed-IsBlind never) floats floats pair hasty 0 3 begin begin refl
      refl refl
