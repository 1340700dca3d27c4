-- ===== src/Subscriber/Rounds/Complete.antt =====
-- No task is lost on the way to the queue, whatever becomes of the single subscriptions.
use axelar_relayer_core.Base.{
  ℕ, ◌≤◌, ◌<◌, ◌≡◌, refl, sym, ◌∙◌, subst, Option, some, List, [], ◌∷◌, ◌++◌, In, inl, inr, none,
  map, Result, ok, Eff, Text, ltb, arith, Bool-cases, Result-cases,
}
use axelar_relayer_core.Infrastructure.Interfaces.{
  Delivers, QueueMsgId, PeekablePublisher, from_value,
}
use axelar_relayer_core.AmplifierApi.Types.{TaskItem, TaskItemId, GetTasksResult, ErrorResponse}
use axelar_relayer_core.AmplifierApi.Requests.{Urls, GetChains, get_chains}
use axelar_relayer_core.AmplifierApi.Requests
use axelar_relayer_core.AmplifierApi.Client.{
  Http, AmplifierApiClient, build_request, execute, json_of,
}
use axelar_relayer_core.AmplifierApi.Order.{behind, Consecutive}
use axelar_relayer_core.Subscriber.{Subscriber, Report, fetch, send, subscribe}
use axelar_relayer_core.Subscriber.Rounds.Newest.{newest-behind, newest-covers, contents_of_values}
use axelar_relayer_core.Subscriber.Rounds.{Rounds, here, tick, meanwhile}

module _ {W E U X Q B P Uuid Utc Return : Type 0} (http : Http W U X Q B P) (urls : Urls U X)
    (hyphenated : Uuid → Text) (to_vec : Unit {0} → Result X (List ℕ))
    (read_tasks : List ℕ → Result X (GetTasksResult Uuid Utc))
    (read_error : List ℕ → Result X ErrorResponse) (client : AmplifierApiClient U)
    (sort : List (TaskItem Uuid Utc) → List (TaskItem Uuid Utc))
    (q : QueueMsgId (TaskItem Uuid Utc) (TaskItemId Uuid))
    (publisher : PeekablePublisher W E (TaskItem Uuid Utc) (TaskItemId Uuid) Return)
    (position : TaskItemId Uuid → ℕ) (d : Delivers q publisher) where
  -- `w'` remembers the same identifier, and what has been delivered is there still.
  abbrev pub Alike : W → W → Type 0
  Alike w w' =
      (d.remembered w' ≡ d.remembered w)
      × ((t : TaskItem Uuid Utc) → In t (d.delivered w) → In t (d.delivered w'))

  Alike-trans : (a b c : W) → Alike a b → Alike b c → Alike a c
  Alike-trans a b c (e, f) (e', f') = (e' ∙ e, λ t i. f' t (f t i))

  -- The places from `n` on that have been passed are those of tasks that have been delivered.
  record Complete (n : ℕ) (w : W) : Type 0 where
    pub onward : n ≤ behind q.id position (d.remembered w)
    pub covered :
        (k : ℕ)
        → n ≤ k
        → k < behind q.id position (d.remembered w)
        → (t : TaskItem Uuid Utc) × In t (d.delivered w) × (position (q.id t) ≡ k)

  Alike-Complete : (n : ℕ) (w w' : W) → Alike w w' → Complete n w → Complete n w'
  Alike-Complete n w w' (e, f) h = record {
    onward = rw e h.onward;
    covered = λ k l l'. let (t, i, e') = h.covered k l (rw (← e) l') in (t, f t i, e');
  }

  abbrev fetched :
      Option (TaskItemId Uuid) → Eff (Subscriber W) (Report E X) (GetTasksResult Uuid Utc)
  fetched = fetch http urls hyphenated to_vec read_tasks read_error client sort q publisher

  abbrev sent : List (TaskItem Uuid Utc) → Eff (Subscriber W) (Report E X) (Unit {0})
  sent = send http urls hyphenated to_vec read_tasks read_error client sort q publisher

  batch-Complete :
      (n : ℕ) (ts : List (TaskItem Uuid Utc)) (w : W)
      → Consecutive q.id position (behind q.id position (d.remembered w)) ts
      → Complete n w
      → Complete n (publisher.publish_batch (map (from_value q) ts) w).1
  batch-Complete n ts w c h =
      let batch = map (from_value q) ts in
      let (done, rest, split, arrived, newer, whole) = d.batch_delivers batch w in
      let m = behind q.id position (d.remembered w) in
      let c' : Consecutive q.id position m (done ++ rest) =
        subst (Consecutive q.id position m) (sym (contents_of_values q ts) ∙ split) c in
      record {
        onward = rw newer (
            omega
              (arith, h.onward, newest-behind q.id position m done rest (d.remembered w) refl c'));
        covered = λ k l l'. elim (Bool-cases (ltb k m)) [
          | inl old ↦
              let (t, i, e) = h.covered k l (ground (arith, old)) in
              (t, d.batch_grows batch w t i, e)
          | inr fresh ↦
              let (t, i, e) =
                newest-covers q.id position m k done rest (d.remembered w) refl c'
                  (ground (arith, fresh)) (rw (← newer) l') in
              (t, arrived t i, e)
        ];
      }

  sent_world :
      (t : TaskItem Uuid Utc) (ts : List (TaskItem Uuid Utc)) (s : Subscriber W)
      → (sent (t ∷ ts) s).1.world
        ≡ (publisher.publish_batch (map (from_value q) (t ∷ ts)) s.world).1
  unfolding send
  sent_world t ts s =
      elim (Result-cases (publisher.publish_batch (map (from_value q) (t ∷ ts)) s.world).0) [
        | inl (r, good) ↦ ground (arith, good)
        | inr (e, bad) ↦ ground (arith, bad)
      ]

  send-Complete :
      (n : ℕ) (ts : List (TaskItem Uuid Utc)) (s : Subscriber W)
      → Consecutive q.id position (behind q.id position (d.remembered s.world)) ts
      → Complete n s.world
      → Complete n (sent ts s).1.world
  unfolding send
  send-Complete n [] s c h = h
  send-Complete n (t ∷ ts) s c h =
      subst (Complete n) (sym (sent_world t ts s)) (batch-Complete n (t ∷ ts) s.world c h)

  module _ (execute_frame : (b : B) (w : W) → Alike w (http.execute b w).1)
      (bytes_frame : (p : P) (w : W) → Alike w (http.bytes p w).1)
      (in_order : (l : Option (TaskItemId Uuid)) (s : Subscriber W)
          (answer : GetTasksResult Uuid Utc)
        → (fetched l s).0 ≡ ok answer
        → Consecutive q.id position (behind q.id position l) (sort answer.tasks)) where
    execute-Alike : (r : Q) (w : W) → Alike w (execute http r w).1
    unfolding execute
    execute-Alike r w = elim (Result-cases (http.build r)) [
      | inl (b, good) ↦ rw (good, execute) (execute_frame b w)
      | inr (e, bad) ↦ ground (arith, bad)
    ]

    json_world : (p : P) (w : W) → (json_of http read_tasks read_error p w).1 ≡ (http.bytes p w).1
    unfolding json_of
    json_world p w = ground arith

    Alike-refl : (w : W) → Alike w w
    Alike-refl w = (refl, λ t i. i)

    fetch-Alike :
        (l : Option (TaskItemId Uuid)) (s : Subscriber W) → Alike s.world (fetched l s).1.world
    unfolding fetch
    fetch-Alike l s =
        let r : GetChains Uuid = record {
          chain = Requests.new s.chain;
          after = l;
          before = none;
          limit = some s.limit_items;
        } in
        let to = λ (w : W). Alike s.world w in
        elim (Result-cases (build_request http to_vec (get_chains urls hyphenated) client r)) [
          | inr (e, bad) ↦ subst to (ground (arith, bad)) (Alike-refl s.world)
          | inl (request, good) ↦
              let got = execute http request s.world in
              let there = execute-Alike request s.world in
              elim (Result-cases got.0) [
                | inr (e, bad) ↦ subst to (ground (arith, good, bad)) there
                | inl (response, answered) ↦
                    subst to (ground (arith, good, answered, json_world response got.1)) (
                      Alike-trans s.world got.1 (http.bytes response got.1).1 there
                        (bytes_frame response got.1))
              ]
        ]

    subscribed : Eff (Subscriber W) (Report E X) (Unit {0})
    subscribed = subscribe http urls hyphenated to_vec read_tasks read_error client sort q publisher

    subscribe-Complete :
        (n : ℕ) (s : Subscriber W) → Complete n s.world → Complete n (subscribed s).1.world
    unfolding subscribe subscribed
    subscribe-Complete n s h =
        let (r, w) = publisher.peek_last s.world in
        let s0 = record s { world = w } in
        let h0 = Alike-Complete n s.world w (d.peek_frame s.world) h in
        elim (Result-cases r) [
          | inr (e, bad) ↦ subst (Complete n) (ground (arith, bad)) h0
          | inl (l, peeked) ↦
              let got = fetched l s0 in
              let like = fetch-Alike l s0 in
              let h1 = Alike-Complete n w got.1.world like h0 in
              elim (Result-cases got.0) [
                | inr (e, bad) ↦ subst (Complete n) (ground (arith, peeked, bad)) h1
                | inl (answer, good) ↦
                    let same : l ≡ d.remembered got.1.world =
                      d.peek_reads s.world l peeked ∙ (sym (d.peek_frame s.world).0 ∙ sym like.0) in
                    subst (Complete n) (ground (arith, peeked, good)) (
                      send-Complete n (sort answer.tasks) got.1
                        (subst
                          (λ o.
                            Consecutive q.id position (behind q.id position o) (sort answer.tasks))
                          same (in_order l s0 answer good))
                        h1)
              ]
        ]

    module _ (Env : W → W → Type 0) (env_frame : (w w' : W) → Env w w' → Alike w w') where
      Rounds-Complete :
          (n : ℕ) (u v : Subscriber W)
          → Rounds http urls hyphenated to_vec read_tasks read_error client sort q publisher Env u v
          → Complete n u.world
          → Complete n v.world
      unfolding subscribed
      Rounds-Complete n u v here h = h
      Rounds-Complete n u v (tick {v = w} r e) h =
          rw e (subscribe-Complete n w (Rounds-Complete n u w r h))
      Rounds-Complete n u v (meanwhile {v = w} world r env e) h =
          rw e (
            Alike-Complete n w.world world (env_frame w.world world env)
              (Rounds-Complete n u w r h))

      -- However many subscriptions are made, and whichever of them fail at whatever point, no task is
      -- lost: the place of the task that the queue remembers never goes back, and each place that it
      -- has passed since the start is that of a task that has been delivered to the queue. The API
      -- answers by tasks that follow one another from the one behind the identifier asked for, in the
      -- order of the sort; the queue keeps `Delivers`; and neither the API's client nor the rest of
      -- the world takes tasks back or moves what is remembered.
      pub no_task_lost :
          (u v : Subscriber W)
          → Rounds http urls hyphenated to_vec read_tasks read_error client sort q publisher Env u v
          → let from = behind q.id position (d.remembered u.world) in
            let to = behind q.id position (d.remembered v.world) in
            (from ≤ to)
            × ((k : ℕ)
                → from ≤ k
                → k < to
                → (t : TaskItem Uuid Utc) × In t (d.delivered v.world) × (position (q.id t) ≡ k))
      no_task_lost u v r =
          let from = behind q.id position (d.remembered u.world) in
          let start : Complete from u.world = record {
            onward = omega arith;
            covered = λ k l l'. absurd (omega arith);
          } in
          let h = Rounds-Complete from u v r start in (h.onward, h.covered)
