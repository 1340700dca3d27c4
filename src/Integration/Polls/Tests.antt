-- ===== src/Integration/Polls/Tests.antt =====
-- The polls at tasks that are their identifiers and their places. Two polls ask for the tasks behind 4
-- before the first answer, so that the task 5 is sent twice.
use native.Mathlib.Decide.{ℕ_discrete}
use mathlib.Core.Option
use axelar_relayer_core.Base.{
  ℕ, ◌≡◌, refl, sym, subst, Option, some, List, [], ◌∷◌, ◌++◌, Result, ok, inl, arith,
}
use axelar_relayer_core.Integration.FromAmplifier.{poll_spawns}
use axelar_relayer_core.Integration.Dispatch.{report_result}
use axelar_relayer_core.Integration.Polls.{
  Running, executing, sending, finished, spawned, Polling, on_tick, on_answer, on_sent, tick,
  answer, send, set_queried, join, take, set_processed, Steps, here, next, begin,
}
use axelar_relayer_core.AmplifierApi.Order.{Consecutive, behind, Gapless}
use axelar_relayer_core.Integration.Polls.Gapless.{no_task_skipped}
use axelar_relayer_core.Integration.Polls.Stall.{stall_lasts}

abbrev same : Discrete (Option ℕ)
same = Option.discrete ℕ_discrete

abbrev build_request : Option ℕ → Result ℕ (Option ℕ)
build_request after = ok after

abbrev place : ℕ → ℕ
place n = n

-- The answers of one or of two tasks.
abbrev Answers : Option ℕ → List ℕ → Type 0
Answers after tasks = Consecutive place place (behind place place after) tasks

in_order :
    (after : Option ℕ) (request : Option ℕ) (tasks : List ℕ)
    → build_request after ≡ ok request
    → Answers request tasks
    → Consecutive place place (behind place place after) tasks
in_order after request tasks e a =
    subst (λ q. Answers q tasks) (sym (ok_injective after request e)) a
  where
    ok_injective : (a b : Option ℕ) → build_request a ≡ ok b → a ≡ b
    ok_injective a b e = ground (arith, e)

abbrev sent_twice : Polling ℕ ℕ (Option ℕ) ℕ ℕ
sent_twice = record {
  bridge = record {
    latest_queried_task_id = some 5;
    latest_processed_task_id = some 5;
    channel = 5 ∷ 6 ∷ [];
    join_set = sending [] 6 ∷ [];
  };
  taken = 5 ∷ [];
  logged = [];
}

abbrev late : Running ℕ ℕ (Option ℕ) ℕ ℕ
late = executing (some 4)

-- Requests in flight, and nothing else.
abbrev asked : List (Running ℕ ℕ (Option ℕ) ℕ ℕ) → Polling ℕ ℕ (Option ℕ) ℕ ℕ
asked requests = record {
  bridge = record {
    latest_queried_task_id = some 4;
    latest_processed_task_id = some 4;
    channel = [];
    join_set = requests;
  };
  taken = [];
  logged = [];
}

asks :
    (requests : List (Running ℕ ℕ (Option ℕ) ℕ ℕ))
    → asked (requests ++ late ∷ []) ≡ on_tick same build_request place (asked requests)
unfolding on_tick report_result
asks requests =
    rw
      (poll_spawns same (spawned same build_request place) place (asked requests).bridge late refl
        refl refl)
      refl

abbrev Reaches : Polling ℕ ℕ (Option ℕ) ℕ ℕ → Type 0
Reaches v = Steps {J = ℕ} same build_request place Answers (begin (some 4) (some 4)) v

asked_twice : Reaches (asked (late ∷ late ∷ []))
unfolding begin
asked_twice = next (next here (tick (asks []))) (tick (asks (late ∷ [])))

run : Reaches sent_twice
unfolding on_answer on_sent report_result
run =
    let first = next asked_twice (answer [] (late ∷ []) (some 4) (5 ∷ []) refl (refl, tt) refl) in
    let taken = next (next first (send [] (late ∷ []) 5 [] 5 refl refl)) (take 5 [] refl refl) in
    let queried = next taken (set_queried [] (late ∷ []) 5 (ok tt) refl refl) in
    let processed =
      next (next queried (set_processed 5 (inl refl) refl))
        (join [] (late ∷ []) (ok (ok tt)) refl refl) in
    let second = next processed (answer [] [] (some 4) (5 ∷ 6 ∷ []) refl (refl, (refl, tt)) refl) in
    next (next second (send [] [] 5 (6 ∷ []) 6 refl refl)) (send [] [] 6 [] 6 refl refl)

no_task_skipped_example : Gapless place place 5 (5 ∷ 5 ∷ 6 ∷ [])
no_task_skipped_example =
    no_task_skipped same build_request place place Answers in_order (some 4) (some 4) sent_twice run

-- The answer to the first request holds the tasks 5 and 6, the later one to the second request the task
-- 5: it is the last task that is processed, and 6 the last one queried.
abbrev stalled : Polling ℕ ℕ (Option ℕ) ℕ ℕ
stalled = record {
  bridge = record {
    latest_queried_task_id = some 6;
    latest_processed_task_id = some 5;
    channel = [];
    join_set = [];
  };
  taken = 5 ∷ 6 ∷ 5 ∷ [];
  logged = [];
}

stall : Reaches stalled
unfolding on_answer on_sent report_result
stall =
    let first =
      next asked_twice (answer [] (late ∷ []) (some 4) (5 ∷ 6 ∷ []) refl (refl, (refl, tt)) refl) in
    let sent =
      next (next first (send [] (late ∷ []) 5 (6 ∷ []) 6 refl refl))
        (send [] (late ∷ []) 6 [] 6 refl refl) in
    let one = sending [] 6 in
    let second =
      next (next sent (answer (one ∷ []) [] (some 4) (5 ∷ []) refl (refl, tt) refl))
        (send (one ∷ []) [] 5 [] 5 refl refl) in
    let queried =
      next (next second (set_queried (one ∷ []) [] 5 (ok tt) refl refl))
        (set_queried [] (finished (ok (ok tt)) ∷ []) 6 (ok tt) refl refl) in
    let joined =
      next (next queried (join [] (finished (ok (ok tt)) ∷ []) (ok (ok tt)) refl refl))
        (join [] [] (ok (ok tt)) refl refl) in
    let taken =
      next (next (next joined (take 5 (6 ∷ 5 ∷ []) refl refl)) (take 6 (5 ∷ []) refl refl))
        (take 5 [] refl refl) in
    next taken (set_processed 5 (inl refl) refl)

stall_lasts_example :
    (on_tick same build_request place (on_tick same build_request place stalled)).bridge
    ≡ stalled.bridge
stall_lasts_example =
    stall_lasts same build_request place Answers stalled
      (on_tick same build_request place (on_tick same build_request place stalled))
      (next (next here (tick refl)) (tick refl)) (refl, refl, (λ e. ground (arith, e)))
      ((tt, (λ e. e)), (λ e. e))
