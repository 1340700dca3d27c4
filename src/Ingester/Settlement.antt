-- ===== src/Ingester/Settlement.antt =====
-- What becomes of the messages of the event queue, and of the count of errors.
use mathlib.Core.List.{append_assoc, append-nil}
use axelar_relayer_core.Base.{
  ◌⊎◌, sym, ap, ◌∙◌, Bool-cases, ℕ, suc, ◌+◌, ◌≤◌, ◌≡◌, refl, List, [], ◌∷◌, ◌++◌, Result, ok, err,
  Eff, arith, Result-cases, inl, inr,
}
use axelar_relayer_core.Infrastructure.Interfaces.{AckKind}
use axelar_relayer_core.AmplifierApi.Types.{
  Event, PublishEventsRequest, PublishEventsResult, ErrorResponse,
}
use axelar_relayer_core.AmplifierApi.Requests.{Urls, PostEvents, post_events}
use axelar_relayer_core.AmplifierApi.Requests
use axelar_relayer_core.AmplifierApi.Client.{
  Http, AmplifierApiClient, build_request, execute, json_of,
}
use axelar_relayer_core.Ingester.{
  EventQueue, Ingester, Report, publish_event, settle, process_queue_msg, process_item,
  process_items, ingest, record_error,
}

-- The acknowledgements that the queue has been sent, oldest first, failed ones included: `ack`
-- appends one, and the calls of the API and the reading of messages leave them alone.
pub record Logs {W E U X Q B P M Ev : Type 0} (http : Http W U X Q B P)
    (queue : EventQueue W E M Ev) : Type 0 where
  pub log : W → List (M × AckKind)
  pub ack_logs :
      (kind : AckKind) (m : M) (w : W) → log (queue.ack kind m w).1 ≡ log w ++ (m, kind) ∷ []
  pub messages_frame : (w : W) → log (queue.messages w).1 ≡ log w
  pub execute_frame : (b : B) (w : W) → log (http.execute b w).1 ≡ log w
  pub bytes_frame : (p : P) (w : W) → log (http.bytes p w).1 ≡ log w

-- The kind that a message is settled with.
abbrev pub kind_of : {F A : Type 0} → Result F A → AckKind
kind_of (ok answer) = AckKind.ack
kind_of (err e) = AckKind.nak

-- One acknowledgement, positive or negative, for each message, in the order of the stream, and none
-- for the errors of the stream.
abbrev pub Settles : {E M : Type 0} → List (Result E M) → List (M × AckKind) → Type 0
Settles [] [] = Unit
Settles [] (l ∷ ls) = ⊥
Settles (ok m ∷ rs) [] = ⊥
Settles (ok m ∷ rs) ((m', kind) ∷ ls) =
    (m' ≡ m) × ((kind ≡ AckKind.ack) ⊎ (kind ≡ AckKind.nak)) × Settles rs ls
Settles (err e ∷ rs) ls = Settles rs ls

abbrev pub naks : {M : Type 0} → List (M × AckKind) → ℕ
naks [] = 0
naks ((m, AckKind.nak) ∷ ls) = suc (naks ls)
naks ((m, AckKind.ack) ∷ ls) = naks ls
naks ((m, AckKind.progress) ∷ ls) = naks ls

abbrev pub failures : {E M : Type 0} → List (Result E M) → ℕ
failures [] = 0
failures (ok m ∷ rs) = failures rs
failures (err e ∷ rs) = suc (failures rs)

module _ {W E U X Q B P M Ev : Type 0} (http : Http W U X Q B P) (queue : EventQueue W E M Ev)
    (logs : Logs http queue) where
  pub execute_log : (q : Q) (w : W) → logs.log (execute http q w).1 ≡ logs.log w
  unfolding execute
  execute_log q w = elim (Result-cases (http.build q)) [
    | inr (e, bad) ↦ ground (arith, bad)
    | inl (b, good) ↦ ground (arith, good, logs.execute_frame b w)
  ]

  pub json_of_log :
      {T Er : Type 0} (read_result : List ℕ → Result X T) (read_error : List ℕ → Result X Er)
      (p : P) (w : W)
      → logs.log (json_of http read_result read_error p w).1 ≡ logs.log w
  unfolding json_of
  json_of_log read_result read_error p w = elim (Result-cases (http.bytes p w).0) [
    | inr (e, bad) ↦ ground (arith, bad, logs.bytes_frame p w)
    | inl (b, good) ↦ elim (Bool-cases (http.is_success p)) [
      | inl b1 ↦ ground (arith, good, b1, logs.bytes_frame p w)
      | inr b0 ↦ ground (arith, good, b0, logs.bytes_frame p w)
    ]
  ]

module _ {W E U X Q B P M Uuid Utc : Type 0} (http : Http W U X Q B P) (urls : Urls U X)
    (to_vec : PublishEventsRequest Uuid Utc → Result X (List ℕ))
    (unit_to_vec : Unit {0} → Result X (List ℕ))
    (read_result : List ℕ → Result X PublishEventsResult)
    (read_error : List ℕ → Result X ErrorResponse) (client : AmplifierApiClient U)
    (queue : EventQueue W E M (Event Uuid Utc)) where
  abbrev published : Event Uuid Utc → Eff (Ingester W) (Report E X) PublishEventsResult
  published = publish_event http urls to_vec unit_to_vec read_result read_error client queue

  abbrev processed : M → Ingester W → Ingester W
  processed = process_queue_msg http urls to_vec unit_to_vec read_result read_error client queue

  abbrev processed_items : List (Result E M) → Ingester W → Ingester W
  processed_items = process_items http urls to_vec unit_to_vec read_result read_error client queue

  abbrev ingested : Eff (Ingester W) (Report E X) (Unit {0})
  ingested = ingest http urls to_vec unit_to_vec read_result read_error client queue

  naks_count :
      (kind : AckKind) (m : M) (ls : List (M × AckKind)) (a b c f : ℕ)
      → a + naks ((m, kind) ∷ []) ≤ b
      → b + naks ls + f ≤ c
      → a + naks ((m, kind) ∷ ls) + f ≤ c
  naks_count AckKind.ack m ls a b c f h k = omega (arith, h, k)
  naks_count AckKind.nak m ls a b c f h k = omega (arith, h, k)
  naks_count AckKind.progress m ls a b c f h k = omega (arith, h, k)

  module _ (logs : Logs http queue) where
    publish_event_frame :
        (event : Event Uuid Utc) (s : Ingester W)
        → (logs.log (published event s).1.world ≡ logs.log s.world)
          × ((published event s).1.errors ≡ s.errors)
    unfolding publish_event
    publish_event_frame event s =
        let r : PostEvents Uuid Utc = record {
          chain = Requests.new s.chain;
          payload = record { events = event ∷ [] };
        } in
        elim (Result-cases (build_request http to_vec (post_events urls) client r)) [
          | inr (e, bad) ↦ ground (arith, bad)
          | inl (request, built) ↦
              let sent = execute http request s.world in
              elim (Result-cases sent.0) [
                | inr (e, bad) ↦
                    ground (arith, built, bad, execute_log http queue logs request s.world)
                | inl (p, good) ↦
                    let answered = json_of http read_result read_error p sent.1 in
                    elim (Result-cases answered.0) [
                      | inr (e, bad) ↦ ground (
                        arith,
                        built,
                        good,
                        bad,
                        execute_log http queue logs request s.world,
                        json_of_log http queue logs read_result read_error p sent.1,
                      )
                      | inl (a, fine) ↦ ground (
                        arith,
                        built,
                        good,
                        fine,
                        execute_log http queue logs request s.world,
                        json_of_log http queue logs read_result read_error p sent.1,
                      )
                    ]
              ]
        ]

    pub process_queue_msg_settles :
        (msg : M) (s : Ingester W)
        → let kind = kind_of (published (queue.decoded msg) s).0 in
          let s' = processed msg s in
          (logs.log s'.world ≡ logs.log s.world ++ (msg, kind) ∷ [])
          × (s.errors + naks ((msg, kind) ∷ []) ≤ s'.errors)
    unfolding process_queue_msg settle
    process_queue_msg_settles msg s =
        let (r, t) = published (queue.decoded msg) s in
        elim (Result-cases r) [
          | inr (e, bad) ↦ ground (
            arith,
            bad,
            publish_event_frame (queue.decoded msg) s,
            logs.ack_logs AckKind.nak msg t.world,
          )
          | inl (a, good) ↦ ground (
            arith,
            good,
            publish_event_frame (queue.decoded msg) s,
            logs.ack_logs AckKind.ack msg t.world,
          )
        ]

    abbrev pub Settled : List (Result E M) → Ingester W → Ingester W → Type 0
    Settled items s s' =
        (ls : List (M × AckKind)) × (logs.log s'.world ≡ logs.log s.world ++ ls)
        × Settles items ls
        × (s.errors + naks ls + failures items ≤ s'.errors)

    kind_of-cases :
        {F A : Type 0} (r : Result F A) → (kind_of r ≡ AckKind.ack) ⊎ (kind_of r ≡ AckKind.nak)
    kind_of-cases (ok a) = inl refl
    kind_of-cases (err e) = inr refl

    process_items_settle :
        (items : List (Result E M)) (s : Ingester W) → Settled items s (processed_items items s)
    unfolding process_items process_item
    process_items_settle [] s = ([], sym (append-nil (logs.log s.world)), tt, omega arith)
    process_items_settle (err e ∷ rs) s =
        let (ls, logged, settled, counted) = process_items_settle rs (record_error s) in
        (ls, logged, settled, omega (arith, counted))
    process_items_settle (ok m ∷ rs) s =
        let kind = kind_of (published (queue.decoded m) s).0 in
        let (one, more) = process_queue_msg_settles m s in
        let (ls, logged, settled, counted) = process_items_settle rs (processed m s) in
        (
          (m, kind) ∷ ls,
          logged ∙ ap (λ l. l ++ ls) one ∙ append_assoc (logs.log s.world) ((m, kind) ∷ []) ls,
          (refl, kind_of-cases (published (queue.decoded m) s).0, settled),
          naks_count kind m ls s.errors (processed m s).errors
              (processed_items rs (processed m s)).errors (failures rs) more counted,
        )

    -- When the queue hands out its messages, `ingest` succeeds: every message has been settled by one
    -- acknowledgement, positive or negative, in the order of the stream, nothing else has been
    -- acknowledged, and the errors counted are at least the negative ones and those of the stream.
    pub ingest_settles :
        (items : List (Result E M)) (w : W) (s : Ingester W)
        → queue.messages s.world ≡ (ok items, w)
        → ((ingested s).0 ≡ ok tt) × Settled items s (ingested s).1
    unfolding ingest
    ingest_settles items w s h =
        let s0 = record s { world = w } in
        let (ls, logged, settled, counted) = process_items_settle items s0 in
        let same : logs.log w ≡ logs.log s.world = ground (arith, h, logs.messages_frame s.world) in
        (
          ground (arith, h),
          (ls, ground (arith, h, logged, same), settled, ground (arith, h, counted)),
        )
