-- ===== src/Integration/Polls/Gapless.antt =====
-- The tasks that from_amplifier.rs puts into the channel leave none out.
use mathlib.Core.List.{append_assoc}
use axelar_relayer_core.Base.{
  ℕ, ◌≡◌, refl, sym, subst, Option, List, [], ◌∷◌, ◌++◌, last, Result, ok, err, inl, inr, arith,
  Option-cases,
}
use axelar_relayer_core.Integration.Polls.{
  Running, executing, sending, finished, Polling, on_answer, Step, tick, answer, fail, send, unsent,
  set_queried, panic, join, take, set_processed, Steps, here, next, begin,
}
use axelar_relayer_core.AmplifierApi.Order.{
  behind, Consecutive, reach, Gapless, Consecutive-Gapless,
}
use axelar_relayer_core.Integration.Polls.Invariant.{
  Fits, AllFits, AllFits-at, AllFits-replaced, AllFits-removed, sent, Sound, Sound-alike,
  on_tick-Sound, ends_with, sent-Sound, set-Sound, processed-Sound,
}

module _ {I T Q F J : Type 0} (same : Discrete (Option I)) (build_request : Option I → Result F Q)
    (id_of : T → I) (position : I → ℕ) where
  module _ (Answers : Q → List T → Type 0)
      (in_order : (after : Option I) (request : Q) (tasks : List T)
        → build_request after ≡ ok request
        → Answers request tasks
        → Consecutive id_of position (behind id_of position after) tasks) where
    answered-AllFits :
        (n : ℕ) (before after : List (Running I T Q F J)) (request : Q) (tasks : List T)
        → AllFits same build_request id_of position n (before ++ executing request ∷ after)
        → Answers request tasks
        → AllFits same build_request id_of position n
            (before ++ on_answer same build_request id_of (ok tasks) ∷ after)
    unfolding on_answer
    answered-AllFits n before after request tasks f a =
        let (old, built, le) =
          AllFits-at same build_request id_of position n before after (executing request) f in
        elim (Option-cases (last tasks)) [
          | inl e ↦
              AllFits-replaced same build_request id_of position n before after (executing request)
                (on_answer same build_request id_of (ok tasks)) f (rw (e, Fits) tt)
          | inr (t, e) ↦
              AllFits-replaced same build_request id_of position n before after (executing request)
                (on_answer same build_request id_of (ok tasks)) f
                (rw (e, Fits)
                  (Consecutive-Gapless id_of position (behind id_of position old) n tasks le
                    (in_order old request tasks built a)))
        ]

    Step-Sound :
        (n : ℕ) (u v : Polling I T Q F J)
        → Step same build_request id_of Answers u v
        → Sound same build_request id_of position n u
        → Sound same build_request id_of position n v
    unfolding on_answer
    Step-Sound n u v (tick e) h =
        subst (Sound same build_request id_of position n) (sym e)
          (on_tick-Sound same build_request id_of position n u h)
    Step-Sound n u v (answer before after request tasks e a e') h =
        let m = reach id_of position n (sent same build_request id_of position u) in
        Sound-alike same build_request id_of position n u v h (rw e' refl) (rw e' refl) (
          rw e' (
            answered-AllFits m before after request tasks
              (subst (AllFits same build_request id_of position m) e h.fits) a))
    Step-Sound n u v (fail before after request x e e') h = rw e' (
        ends_with same build_request id_of position n u before after (executing request)
          (ok (err x)) e h)
    Step-Sound n u v (send before after task tasks i e e') h =
        rw e' (sent-Sound same build_request id_of position n u before after task tasks i e h)
    Step-Sound n u v (unsent before after tasks i x e e') h = rw e' (
        ends_with same build_request id_of position n u before after (sending tasks i) (ok (err x))
          e h)
    Step-Sound n u v (set_queried before after i res e e') h = rw e' (
        set-Sound same build_request id_of position n u before after i res (
          ends_with same build_request id_of position n u before after (sending [] i) (ok res) e h))
    Step-Sound n u v (panic before after running j e e') h =
        rw e' (ends_with same build_request id_of position n u before after running (err j) e h)
    Step-Sound n u v (join before after res e e') h =
        let m = reach id_of position n (sent same build_request id_of position u) in
        Sound-alike same build_request id_of position n u v h (rw e' refl) (rw e' refl) (
          rw e' (
            AllFits-removed same build_request id_of position m before after (finished res)
              (subst (AllFits same build_request id_of position m) e h.fits)))
    Step-Sound n u v (take task tasks e e') h =
        Sound-alike same build_request id_of position n u v h
          (rw (e', e) (append_assoc u.taken (task ∷ []) tasks)) (rw e' refl) (rw e' h.fits)
    Step-Sound n u v (set_processed task e e') h =
        rw e' (processed-Sound same build_request id_of position n u task e h)

    Steps-Sound :
        (queried processed : Option I) {v : Polling I T Q F J}
        → Steps same build_request id_of Answers (begin queried processed) v
        → Sound same build_request id_of position (behind id_of position processed) v
    unfolding AllFits begin
    Steps-Sound queried processed here = record { gapless = tt; processed = omega arith; fits = tt }
    Steps-Sound queried processed (next {v = v} {w = w} r st) =
        Step-Sound (behind id_of position processed) v w st (Steps-Sound queried processed r)

    -- When the API answers a request by tasks that follow one another from the one behind the
    -- identifier of the request on, then in every schedule of polls, requests and the downstream
    -- processor no task is left out: each task that is put into the channel comes at most one place
    -- behind all that have been put there before it and behind those processed before the start.
    -- This holds whether requests fail, panic or overlap.
    pub no_task_skipped :
        (queried processed : Option I) (v : Polling I T Q F J)
        → Steps same build_request id_of Answers (begin queried processed) v
        → Gapless id_of position
            (behind id_of position processed)
            (sent same build_request id_of position v)
    no_task_skipped queried processed v r = (Steps-Sound queried processed r).gapless
