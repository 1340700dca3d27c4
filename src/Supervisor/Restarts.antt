-- ===== src/Supervisor/Restarts.antt =====
-- Which workers the supervisor restarts: those whose builder or runtime failed, and no others.
use mathlib.Core.Logic.{ite}
use axelar_relayer_core.Base.{
  ℕ, suc, ◌+◌, ◌≤◌, ◌≡◌, refl, Bool, true, false, List, [], ◌∷◌, ◌++◌, arith,
}
use axelar_relayer_core.Supervisor.{
  WorkerResult, Phase, starting_all, looping, restarting, stopped, State, init, start_worker, tick,
  receive, restart, build_runtime, finish, Step, starts, all_started, ticks, receives, restarts,
  builds_runtime, finishes, cancels, Reach, here, then_step,
}

module _ {Name : Type 0} (dec : Discrete Name) where
  abbrev pub count : Name → List Name → ℕ
  count n [] = 0
  count n (x ∷ xs) = ite (dec x n) (suc (count n xs)) (count n xs)

  count-append : (n : Name) (xs ys : List Name) → count n (xs ++ ys) ≡ count n xs + count n ys
  count-append n [] ys = omega arith
  count-append n (x ∷ xs) ys = ground (arith, count-append n xs ys)

  -- The starts of a worker that the supervisor thread itself still has at hand.
  abbrev pub in_phase : Name → Phase Name → ℕ
  in_phase n (starting_all ms) = count n ms
  in_phase n looping = 0
  in_phase n (restarting m) = ite (dec m n) 1 0
  in_phase n stopped = 0

  -- The crash reports that can still lead to a restart.
  abbrev pub reported : Name → Bool → List Name → ℕ
  reported n true ms = 0
  reported n false ms = count n ms

  -- All that can still make a worker run, and the runs that it has had.
  abbrev pub chances : Name → State Name → ℕ
  chances n s = in_phase n s.phase + reported n s.cancelled s.crashed + s.spawned n + s.runs n

  abbrev Kept : Name → State Name → State Name → Type 0
  Kept n s t =
      (chances n t ≤ chances n s)
      × (t.cancelled ≡ false → chances n t ≡ chances n s)
      × (s.cancelled ≡ true → t.cancelled ≡ true)

  Step-Kept : (n : Name) {s t : State Name} → Step dec s t → Kept n s t
  unfolding start_worker tick receive restart build_runtime finish
  Step-Kept n {s} (starts built m rest p e) = ground (arith, e, count-append n s.crashed (m ∷ []))
  Step-Kept n (all_started p e) = ground arith
  Step-Kept n (ticks p e) = ground arith
  Step-Kept n (receives m rest p c e) = ground arith
  Step-Kept n {s} (restarts built m p e) = ground (arith, e, count-append n s.crashed (m ∷ []))
  Step-Kept n {s} (builds_runtime built m k h e) =
      ground (arith, e, count-append n s.crashed (m ∷ []))
  Step-Kept n {s} (finishes result m k h e) = ground (arith, e, count-append n s.crashed (m ∷ []))
  Step-Kept n (cancels e) = ground arith

  Reach-Kept : (n : Name) {s t : State Name} → Reach dec s t → Kept n s t
  Reach-Kept n here = ground arith
  Reach-Kept n (then_step r st) = ground (arith, Reach-Kept n r, Step-Kept n st)

  -- Under a supervisor whose builders have distinct names, a worker's `do_work` is run by at most
  -- one thread ever; and once it has run, in no later state is a thread of that name being
  -- spawned, its restart under way, or a report pending that could lead to one.
  pub runs_le_one :
      (n : Name) (worker_builders : List Name) {t : State Name}
      → count n worker_builders ≤ 1
      → Reach dec (init worker_builders) t
      → (t.runs n ≤ 1)
        × (t.runs n ≡ 1
            → (t.spawned n ≡ 0) × (in_phase n t.phase ≡ 0) × (reported n t.cancelled t.crashed ≡ 0))
  runs_le_one n ws h r = ground (arith, Reach-Kept n r)

  -- Until the token is cancelled no start of a worker is lost, however often its builder or its
  -- runtime fails: for each name there is exactly one start to come, report, restart under way,
  -- thread being spawned, or run that has begun.
  pub chances-eq-one :
      (n : Name) (worker_builders : List Name) {t : State Name}
      → count n worker_builders ≡ 1
      → Reach dec (init worker_builders) t
      → t.cancelled ≡ false
      → chances n t ≡ 1
  chances-eq-one n ws h r c = ground (arith, Reach-Kept n r)

  abbrev IsDown : Name → State Name → Type 0
  IsDown n s = (s.working n ≡ 0) × (s.runs n ≡ 1) × (chances n s ≤ 1)

  Step-IsDown : (n : Name) {s t : State Name} → Step dec s t → Kept n s t → IsDown n s → IsDown n t
  unfolding start_worker tick receive restart build_runtime finish
  Step-IsDown n (starts built m rest p e) kept d = ground (arith, e)
  Step-IsDown n (all_started p e) kept d = ground (arith, e)
  Step-IsDown n (ticks p e) kept d = ground (arith, e)
  Step-IsDown n (receives m rest p c e) kept d = ground (arith, e)
  Step-IsDown n (restarts built m p e) kept d = ground (arith, e)
  Step-IsDown n (builds_runtime built m k h e) kept d = ground (arith, e)
  Step-IsDown n (finishes result m k h e) kept d = ground (arith, e)
  Step-IsDown n (cancels e) kept d = ground (arith, e)

  Reach-IsDown : (n : Name) {s t : State Name} → IsDown n s → Reach dec s t → IsDown n t
  Reach-IsDown n d here = d
  Reach-IsDown n d (then_step r st) = Step-IsDown n st (Step-Kept n st) (Reach-IsDown n d r)

  WorkingBelow : Name → State Name → Type 0
  WorkingBelow n s = s.working n ≤ s.runs n

  Step-WorkingBelow :
      (n : Name) {s t : State Name} → Step dec s t → WorkingBelow n s → WorkingBelow n t
  unfolding WorkingBelow start_worker tick receive restart build_runtime finish
  Step-WorkingBelow n (starts built m rest p e) h = ground (arith, e)
  Step-WorkingBelow n (all_started p e) h = ground (arith, e)
  Step-WorkingBelow n (ticks p e) h = ground (arith, e)
  Step-WorkingBelow n (receives m rest p c e) h = ground (arith, e)
  Step-WorkingBelow n (restarts built m p e) h = ground (arith, e)
  Step-WorkingBelow n (builds_runtime built m k w e) h = ground (arith, e)
  Step-WorkingBelow n (finishes result m k w e) h = ground (arith, e)
  Step-WorkingBelow n (cancels e) h = ground (arith, e)

  Reach-WorkingBelow :
      (n : Name) {s t : State Name} → WorkingBelow n s → Reach dec s t → WorkingBelow n t
  Reach-WorkingBelow n h here = h
  Reach-WorkingBelow n h (then_step r st) = Step-WorkingBelow n st (Reach-WorkingBelow n h r)

  -- A worker whose thread ends, with any result (an error or a panic among them), is down for
  -- good: in every state that the supervisor reaches from there no thread of it works, and none is
  -- being spawned.
  pub finished_stays_down :
      (n : Name) (worker_builders : List Name) (result : WorkerResult) (k : ℕ) {s t : State Name}
      → count n worker_builders ≤ 1
      → Reach dec (init worker_builders) s
      → s.working n ≡ suc k
      → Reach dec (finish dec result n k s) t
      → (t.working n ≡ 0) × (t.spawned n ≡ 0)
  unfolding finish WorkingBelow
  finished_stays_down n ws result k {s} h r w r' =
      let below = Reach-WorkingBelow n {s = init ws} (omega arith) r in
      let kept = Reach-Kept n r in
      let step = Step-Kept n {s = s} {t = finish dec result n k s} (finishes result n k w refl) in
      let down : IsDown n (finish dec result n k s) = ground (arith, below, kept, step) in
      ground (arith, Reach-IsDown n down r')
