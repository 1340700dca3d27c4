-- ===== src/Ingester/Accounts.antt =====
-- What holds of the acknowledgements and the errors when `Ingester::ingest` has come to its end with
-- several messages in flight.
use mathlib.Core.List.{Perm, append_assoc, append-nil, perm_middle}
use mathlib.Core.List.Perm
use axelar_relayer_core.Base.{
  ℕ, ◌+◌, ◌≤◌, ◌≡◌, refl, sym, ap, ◌∙◌, subst, Option, List, [], ◌∷◌, ◌++◌, Result, ok, err, All,
  All-append, All-split, move_out, arith,
}
use axelar_relayer_core.Infrastructure.Interfaces.{AckKind}
use axelar_relayer_core.AmplifierApi.Types.{
  Event, PublishEventsRequest, PublishEventsResult, ErrorResponse,
}
use axelar_relayer_core.AmplifierApi.Requests.{Urls}
use axelar_relayer_core.AmplifierApi.Client.{Http, AmplifierApiClient}
use axelar_relayer_core.Ingester.{EventQueue, Report, Ingester}
use axelar_relayer_core.Ingester.Pool.{
  Pool, Step, pull, poll, Steps, here, next, IsDrained, optional, total, total-append,
}
use axelar_relayer_core.Ingester.Flights.{Flight, created, advance, Ingests, refused, drained}
use axelar_relayer_core.Ingester.Settlement.{Logs, naks, failures}
use axelar_relayer_core.Ingester.Ledger.{
  acked, received, Verdicts, acked-append, naks-append, owner, owners, owners-append, naking,
  failing, Decided, Polls, go-Polls,
}

module _ {W E U X Q B P M Uuid Utc : Type 0} (http : Http W U X Q B P) (urls : Urls U X)
    (to_vec : PublishEventsRequest Uuid Utc → Result X (List ℕ))
    (unit_to_vec : Unit {0} → Result X (List ℕ))
    (read_result : List ℕ → Result X PublishEventsResult)
    (read_error : List ℕ → Result X ErrorResponse) (client : AmplifierApiClient U)
    (queue : EventQueue W E M (Event Uuid Utc)) (logs : Logs http queue) where
  abbrev Closure : Type 0
  Closure = Flight E M Q P

  abbrev Loop : Type 0
  Loop = Pool (Result E M) Closure (Ingester W)

  abbrev go : Closure → Ingester W → Option Closure × Ingester W
  go = advance http urls to_vec unit_to_vec read_result read_error client queue

  -- The accounts of a loop that began with the acknowledgements `base` and `errors` errors.
  Balanced : List (Result E M) → List (M × AckKind) → ℕ → Loop → Type 0
  Balanced items base errors u =
      (ls : List (M × AckKind)) × (logs.log u.shared.world ≡ base ++ ls)
      × Perm (acked ls ++ (owners u.flights ++ received u.rest)) (received items)
      × Verdicts ls
      × All Decided u.flights
      × (errors + naks ls + total naking u.flights + failures items
          ≤ u.shared.errors + total failing u.flights + failures u.rest)

  module _ (items : List (Result E M)) (base : List (M × AckKind)) (errors : ℕ) where
    pulled_balance :
        (item : Result E M) (more : List (Result E M)) (fs : List Closure) (s : Ingester W)
        → Balanced items base errors (record { rest = item ∷ more; flights = fs; shared = s })
        → Balanced items base errors
            (record { rest = more; flights = created item ∷ fs; shared = s })
    unfolding Balanced
    pulled_balance (err e) more fs s (ls, logged, perm, verdicts, decided, counted) =
        (ls, logged, perm, verdicts, (tt, decided), omega (arith, counted))
    pulled_balance (ok m) more fs s (ls, logged, perm, verdicts, decided, counted) = (
      ls,
      logged,
      Perm.trans (Perm.append_left (acked ls) (Perm.symm (perm_middle (owners fs) (received more))))
          perm,
      verdicts,
      (tt, decided),
      omega (arith, counted),
    )

    polled_perm :
        (ls ls' : List (M × AckKind)) (before after left : List Closure) (f : Closure) (r : List M)
        → owner f ≡ acked ls' ++ owners left
        → Perm (acked ls ++ (owners (before ++ f ∷ after) ++ r)) (received items)
        → Perm (acked (ls ++ ls') ++ (owners (before ++ (left ++ after)) ++ r)) (received items)
    polled_perm ls ls' before after left f r e perm =
        let new : owners (before ++ (left ++ after))
            ≡ owners before ++ (owners left ++ owners after) =
          owners-append before (left ++ after)
          ∙ ap (λ l. owners before ++ l) (owners-append left after) in
        let old : owners (before ++ f ∷ after)
            ≡ owners before ++ (acked ls' ++ (owners left ++ owners after)) =
          owners-append before (f ∷ after)
          ∙ ap (λ l. owners before ++ l)
              (ap (λ l. l ++ owners after) e
                ∙ append_assoc (acked ls') (owners left) (owners after)) in
        rw (acked-append ls ls', new)
          (Perm.trans
            (move_out (acked ls) (acked ls') (owners before) (owners left ++ owners after) r)
            (rw (← old) perm))

    polled_balance :
        (rest : List (Result E M)) (before after : List Closure) (f : Closure) (s s' : Ingester W)
        (left : Option Closure)
        → (Decided f
            → Polls http urls to_vec unit_to_vec read_result read_error client queue logs f s left
                s')
        → Balanced items base errors
            (record { rest = rest; flights = before ++ f ∷ after; shared = s })
        → Balanced items base errors
            (record { rest = rest; flights = before ++ (optional left ++ after); shared = s' })
    unfolding Balanced Polls
    polled_balance rest before after f s s' left polls
          (ls, logged, perm, verdicts, decided, counted) =
        let (settled_before, settled_more) = All-split Decided before (f ∷ after) decided in
        let (ls', logged', owned, verdicts', decided', counted') = polls settled_more.0 in
        (
          ls ++ ls',
          logged' ∙ ap (λ l. l ++ ls') logged ∙ append_assoc base ls ls',
          polled_perm ls ls' before after (optional left) f (received rest) owned perm,
          All-append _ ls ls' verdicts verdicts',
          All-append Decided before (optional left ++ after) settled_before
              (All-append Decided (optional left) after decided' settled_more.1),
          omega (
            arith,
            counted,
            counted',
            naks-append ls ls',
            total-append naking before (f ∷ after),
            total-append naking before (optional left ++ after),
            total-append naking (optional left) after,
            total-append failing before (f ∷ after),
            total-append failing before (optional left ++ after),
            total-append failing (optional left) after,
          ),
        )

    Step-Balanced :
        (limit : ℕ) (u v : Loop)
        → Step created go limit u v
        → Balanced items base errors u
        → Balanced items base errors v
    Step-Balanced limit u v (pull item more e room e') h =
        subst (Balanced items base errors) (sym e') (
          pulled_balance item more u.flights u.shared (
            subst
              (λ is.
                Balanced items base errors
                  (record { rest = is; flights = u.flights; shared = u.shared }))
              e h))
    Step-Balanced limit u v (poll before after f e e') h =
        let (left, s') = go f u.shared in
        subst (Balanced items base errors) (sym e') (
          polled_balance u.rest before after f u.shared s' left
            (go-Polls http urls to_vec unit_to_vec read_result read_error client queue logs f
              u.shared)
            (subst
              (λ fs.
                Balanced items base errors
                  (record { rest = u.rest; flights = fs; shared = u.shared }))
              e h))

    Steps-Balanced :
        (limit : ℕ) {u : Loop} {n : ℕ} {v : Loop}
        → Steps created go limit u n v
        → Balanced items base errors u
        → Balanced items base errors v
    Steps-Balanced limit here h = h
    Steps-Balanced limit (next {v = v} {w = w} r st) h =
        Step-Balanced limit v w st (Steps-Balanced limit r h)

  opened_balance :
      (items : List (Result E M)) (s : Ingester W)
      → Balanced items
          (logs.log s.world)
          s.errors
          (record { rest = items; flights = []; shared = s })
  unfolding Balanced
  opened_balance items s =
      ([], sym (append-nil (logs.log s.world)), Perm.refl (received items), tt, tt, omega arith)

  -- Every message has been settled once.
  abbrev pub SettledOnce : List (Result E M) → Ingester W → Ingester W → Type 0
  SettledOnce items s t =
      (ls : List (M × AckKind)) × (logs.log t.world ≡ logs.log s.world ++ ls)
      × Perm (acked ls) (received items)
      × Verdicts ls
      × (s.errors + naks ls + failures items ≤ t.errors)

  drained_balance :
      (items : List (Result E M)) (base : List (M × AckKind)) (errors : ℕ) (limit : ℕ) (v : Loop)
      → IsDrained created go limit v
      → Balanced items base errors v
      → (ls : List (M × AckKind)) × (logs.log v.shared.world ≡ base ++ ls)
        × Perm (acked ls) (received items)
        × Verdicts ls
        × (errors + naks ls + failures items ≤ v.shared.errors)
  unfolding Balanced
  drained_balance items base errors limit v (e, e') (ls, logged, perm, verdicts, decided, counted) =
      (
        ls,
        logged,
        subst (λ l. Perm l (received items)) (append-nil (acked ls))
            (subst (λ l. Perm (acked ls ++ l) (received items)) (rw (e, e') refl) perm),
        verdicts,
        ground (arith, counted, e, e'),
      )

  -- With any number of messages in flight and in every schedule, `ingest` succeeds once it has been
  -- handed its messages: each of them has been settled by exactly one acknowledgement, positive or
  -- negative, in some order, nothing else has been acknowledged, and the errors counted are at least
  -- the negative ones and those of the stream.
  pub concurrent_settles :
      (limit : ℕ) (items : List (Result E M)) (s t : Ingester W)
      (r : Result (Report E X) (Unit {0}))
      → Ingests http urls to_vec unit_to_vec read_result read_error client queue limit s r t
      → (queue.messages s.world).0 ≡ ok items
      → (r ≡ ok tt) × SettledOnce items s t
  concurrent_settles limit items s t r (refused e w failed e' e'') h = ground (arith, failed, h)
  concurrent_settles limit items s t r (drained items' w n v read run over e' e'') h =
      let begun = record s { world = w } in
      let same : items' ≡ items = ground (arith, read, h) in
      let kept : logs.log w ≡ logs.log s.world =
        ground (arith, read, logs.messages_frame s.world) in
      let (ls, logged, perm, verdicts, counted) =
        drained_balance items' (logs.log w) s.errors limit v over
          (Steps-Balanced items' (logs.log w) s.errors limit run (opened_balance items' begun)) in
      (
        e',
        (
          ls,
          ground (arith, e'', logged, kept),
          subst (λ is. Perm (acked ls) (received is)) same perm,
          verdicts,
          ground (arith, e'', counted, same),
        ),
      )
