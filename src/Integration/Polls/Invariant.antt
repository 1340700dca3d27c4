-- ===== src/Integration/Polls/Invariant.antt =====
-- The invariant of the polls of from_amplifier.rs: what has been put into the channel leaves no task
-- out, and neither will what the requests in the join set still send.
use mathlib.Core.List.{append_assoc}
use axelar_relayer_core.Base.{
  ℕ, ◌≤◌, ◌≡◌, ◌∙◌, In, refl, sym, ap, subst, Option, some, List, [], ◌∷◌, ◌++◌, All, All-append,
  All-split, Result, ok, err, inl, inr, arith, Result-cases,
}
use axelar_relayer_core.Integration.FromAmplifier.{internal_cases}
use axelar_relayer_core.Integration.Polls.{
  Running, executing, sending, finished, Polling, spawned, with_join_set, on_tick, on_sent,
}
use axelar_relayer_core.AmplifierApi.Order.{
  behind, reach, Gapless, le-reach, reach-append, In-reach, Gapless-append, Gapless-le,
}

module _ {I T Q F J : Type 0} (same : Discrete (Option I)) (build_request : Option I → Result F Q)
    (id_of : T → I) (position : I → ℕ) where
  -- What a request of the join set will send leaves nothing out behind `n`.
  abbrev pub Fits : ℕ → Running I T Q F J → Type 0
  Fits n (executing request) =
      (after : Option I) × (build_request after ≡ ok request) × (behind id_of position after ≤ n)
  Fits n (sending tasks i) = Gapless id_of position n tasks
  Fits n (finished res) = Unit

  Fits-le : (n m : ℕ) (r : Running I T Q F J) → n ≤ m → Fits n r → Fits m r
  Fits-le n m (executing request) h (after, built, le) = (after, built, omega arith)
  Fits-le n m (sending tasks i) h g = Gapless-le id_of position n m tasks h g
  Fits-le n m (finished res) h g = tt

  unfoldable pub AllFits : ℕ → List (Running I T Q F J) → Type 0
  AllFits n rs = All (Fits n) rs

  AllFits-le : (n m : ℕ) (rs : List (Running I T Q F J)) → n ≤ m → AllFits n rs → AllFits m rs
  unfolding AllFits
  AllFits-le n m [] h a = tt
  AllFits-le n m (r ∷ rs) h (f, a) = (Fits-le n m r h f, AllFits-le n m rs h a)

  pub AllFits-at :
      (n : ℕ) (before after : List (Running I T Q F J)) (r : Running I T Q F J)
      → AllFits n (before ++ r ∷ after)
      → Fits n r
  unfolding AllFits
  AllFits-at n before after r a = (All-split (Fits n) before (r ∷ after) a).1.0

  pub AllFits-replaced :
      (n : ℕ) (before after : List (Running I T Q F J)) (r r' : Running I T Q F J)
      → AllFits n (before ++ r ∷ after)
      → Fits n r'
      → AllFits n (before ++ r' ∷ after)
  unfolding AllFits
  AllFits-replaced n before after r r' a f =
      let (b, c) = All-split (Fits n) before (r ∷ after) a in
      All-append (Fits n) before (r' ∷ after) b (f, c.1)

  pub AllFits-removed :
      (n : ℕ) (before after : List (Running I T Q F J)) (r : Running I T Q F J)
      → AllFits n (before ++ r ∷ after)
      → AllFits n (before ++ after)
  unfolding AllFits
  AllFits-removed n before after r a =
      let (b, c) = All-split (Fits n) before (r ∷ after) a in All-append (Fits n) before after b c.1

  -- The tasks that have been put into the channel, in order.
  abbrev pub sent : Polling I T Q F J → List T
  sent s = s.taken ++ s.bridge.channel

  pub record Sound (n : ℕ) (s : Polling I T Q F J) : Type 0 where
    pub gapless : Gapless id_of position n (sent s)
    pub processed :
        behind id_of position s.bridge.latest_processed_task_id ≤ reach id_of position n (sent s)
    pub fits : AllFits (reach id_of position n (sent s)) s.bridge.join_set

  -- `v` has put the same tasks into the channel and has processed the same one.
  pub Sound-alike :
      (n : ℕ) (u v : Polling I T Q F J)
      → Sound n u
      → sent v ≡ sent u
      → v.bridge.latest_processed_task_id ≡ u.bridge.latest_processed_task_id
      → AllFits (reach id_of position n (sent u)) v.bridge.join_set
      → Sound n v
  Sound-alike n u v h e p f = record {
    gapless = subst (Gapless id_of position n) (sym e) h.gapless;
    processed = rw (e, p) h.processed;
    fits = rw e f;
  }

  spawned_lem :
      (after : Option I) (r : Running I T Q F J)
      → spawned same build_request id_of after ≡ ok r
      → (request : Q) × (build_request after ≡ ok request) × (r ≡ executing request)
  spawned_lem after r e = elim (Result-cases (build_request after)) [
    | inl (request, good) ↦ (request, good, ground (arith, e, good))
    | inr (x, bad) ↦ ground (arith, e, bad)
  ]

  pub on_tick-Sound :
      (n : ℕ) (s : Polling I T Q F J) → Sound n s → Sound n (on_tick same build_request id_of s)
  unfolding on_tick AllFits
  on_tick-Sound n s h =
      elim (internal_cases same (spawned same build_request id_of) id_of s.bridge) [
        | inl e ↦
            Sound-alike n s (on_tick same build_request id_of s) h (rw e refl) (rw e refl)
              (rw e h.fits)
        | inr (r, built, e) ↦
            let (request, good, is) = spawned_lem s.bridge.latest_processed_task_id r built in
            let m = reach id_of position n (sent s) in
            Sound-alike n s (on_tick same build_request id_of s) h (rw e refl) (rw e refl) (
              rw (e, is)
                (All-append (Fits m) s.bridge.join_set (executing request ∷ []) h.fits
                  ((s.bridge.latest_processed_task_id, good, h.processed), tt)))
      ]

  pub ends_with :
      (n : ℕ) (u : Polling I T Q F J) (before after : List (Running I T Q F J))
      (r : Running I T Q F J) (res : Result J (Result F (Unit {0})))
      → u.bridge.join_set ≡ before ++ r ∷ after
      → Sound n u
      → Sound n (with_join_set same build_request id_of u (before ++ finished res ∷ after))
  ends_with n u before after r res e h =
      let m = reach id_of position n (sent u) in
      let v = with_join_set same build_request id_of u (before ++ finished res ∷ after) in
      Sound-alike n u v h refl refl
        (AllFits-replaced m before after r (finished res) (subst (AllFits m) e h.fits) tt)

  pub sent-Sound :
      (n : ℕ) (u : Polling I T Q F J) (before after : List (Running I T Q F J)) (task : T)
      (tasks : List T) (i : I)
      → u.bridge.join_set ≡ before ++ sending (task ∷ tasks) i ∷ after
      → Sound n u
      → Sound n (record u {
        bridge = record u.bridge {
          channel = u.bridge.channel ++ task ∷ [];
          join_set = before ++ sending tasks i ∷ after;
        };
      })
  sent-Sound n u before after task tasks i e h =
      let m = reach id_of position n (sent u) in
      let m' = reach id_of position m (task ∷ []) in
      let f = subst (AllFits m) e h.fits in
      let g = AllFits-at m before after (sending (task ∷ tasks) i) f in
      let le = le-reach id_of position m (task ∷ []) in
      let more = sym (append_assoc u.taken u.bridge.channel (task ∷ [])) in
      let far =
        ap (reach id_of position n) more ∙ reach-append id_of position n (sent u) (task ∷ []) in
      record {
        gapless =
            subst (Gapless id_of position n) (sym more)
              (Gapless-append id_of position n (sent u) (task ∷ []) h.gapless (g.0, tt));
        processed = rw far (omega (arith, h.processed, le));
        fits = rw far (
            AllFits-replaced m' before after (sending (task ∷ tasks) i) (sending tasks i)
              (AllFits-le m m' (before ++ sending (task ∷ tasks) i ∷ after) le f) g.1);
      }

  pub set-Sound :
      (n : ℕ) (u : Polling I T Q F J) (before after : List (Running I T Q F J)) (i : I)
      (res : Result F (Unit {0}))
      → Sound n (with_join_set same build_request id_of u (before ++ finished (ok res) ∷ after))
      → Sound n (record u {
        bridge =
            on_sent {J = J} same build_request id_of res i
              (record u.bridge { join_set = before ++ finished (ok res) ∷ after });
      })
  unfolding on_sent
  set-Sound n u before after i (ok t) h =
      let v = with_join_set same build_request id_of u (before ++ finished (ok (ok t)) ∷ after) in
      Sound-alike n v (record v { bridge = record v.bridge { latest_queried_task_id = some i } }) h
        refl refl h.fits
  set-Sound n u before after i (err e) h = h

  pub processed-Sound :
      (n : ℕ) (u : Polling I T Q F J) (task : T)
      → In task u.taken
      → Sound n u
      → Sound n
          (record u { bridge = record u.bridge { latest_processed_task_id = some (id_of task) } })
  processed-Sound n u task e h = record {
    gapless = h.gapless;
    processed = rw (reach-append id_of position n u.taken u.bridge.channel) (
        omega (
          arith,
          In-reach id_of position n task u.taken e,
          le-reach id_of position (reach id_of position n u.taken) u.bridge.channel,
        ));
    fits = h.fits;
  }
