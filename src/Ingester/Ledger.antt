-- ===== src/Ingester/Ledger.antt =====
-- The acknowledgements and the errors of `Ingester::ingest` with several messages in flight.
use mathlib.Core.List.{append_assoc, append-nil}
use axelar_relayer_core.Base.{
  ℕ, ◌+◌, ◌≤◌, ◌≡◌, refl, sym, ap, ◌∙◌, subst, ◌⊎◌, Option, some, List, [], ◌∷◌, ◌++◌, Result, ok,
  err, All, arith, Result-cases, inl, inr,
}
use axelar_relayer_core.Infrastructure.Interfaces.{AckKind}
use axelar_relayer_core.AmplifierApi.Types.{
  Event, PublishEventsRequest, PublishEventsResult, ErrorResponse,
}
use axelar_relayer_core.AmplifierApi.Requests.{Urls, PostEvents, post_events}
use axelar_relayer_core.AmplifierApi.Requests
use axelar_relayer_core.AmplifierApi.Client.{
  Http, AmplifierApiClient, build_request, execute, json_of,
}
use axelar_relayer_core.Ingester.{EventQueue, Ingester, record_error, settle}
use axelar_relayer_core.Ingester.Pool.{Pool, optional, total}
use axelar_relayer_core.Ingester.Flights.{Flight, created, executing, reading, settling, advance}
use axelar_relayer_core.Ingester.Settlement.{Logs, naks, execute_log, json_of_log}

-- The messages that acknowledgements are for, and those of a stream.
abbrev pub acked : {M : Type 0} → List (M × AckKind) → List M
acked [] = []
acked ((m, kind) ∷ ls) = m ∷ acked ls

abbrev pub received : {E M : Type 0} → List (Result E M) → List M
received [] = []
received (ok m ∷ rs) = m ∷ received rs
received (err e ∷ rs) = received rs

abbrev pub IsVerdict : AckKind → Type 0
IsVerdict kind = (kind ≡ AckKind.ack) ⊎ (kind ≡ AckKind.nak)

abbrev pub Verdicts : {M : Type 0} → List (M × AckKind) → Type 0
Verdicts ls = All (λ l. IsVerdict l.1) ls

module _ {M : Type 0} where
  pub acked-append : (xs ys : List (M × AckKind)) → acked (xs ++ ys) ≡ acked xs ++ acked ys
  acked-append [] ys = refl
  acked-append ((m, kind) ∷ xs) ys = ap (λ l. m ∷ l) (acked-append xs ys)

  pub naks-append : (xs ys : List (M × AckKind)) → naks (xs ++ ys) ≡ naks xs + naks ys
  naks-append [] ys = omega arith
  naks-append ((m, AckKind.ack) ∷ xs) ys = omega (arith, naks-append xs ys)
  naks-append ((m, AckKind.nak) ∷ xs) ys = omega (arith, naks-append xs ys)
  naks-append ((m, AckKind.progress) ∷ xs) ys = omega (arith, naks-append xs ys)

module _ {E M Q P : Type 0} where
  -- The message that a future works on.
  abbrev pub owner : Flight E M Q P → List M
  owner (created (ok m)) = m ∷ []
  owner (created (err e)) = []
  owner (executing m q) = m ∷ []
  owner (reading m p) = m ∷ []
  owner (settling kind m) = m ∷ []

  abbrev pub owners : List (Flight E M Q P) → List M
  owners [] = []
  owners (f ∷ fs) = owner f ++ owners fs

  pub owners-append : (xs ys : List (Flight E M Q P)) → owners (xs ++ ys) ≡ owners xs ++ owners ys
  owners-append [] ys = refl
  owners-append (f ∷ xs) ys =
      ap (λ l. owner f ++ l) (owners-append xs ys)
      ∙ sym (append_assoc (owner f) (owners xs) (owners ys))

  -- Negative acknowledgements and errors of the stream that are still to come.
  abbrev pub naking : Flight E M Q P → ℕ
  naking (settling AckKind.nak m) = 1
  naking _ = 0

  abbrev pub failing : Flight E M Q P → ℕ
  failing (created (err e)) = 1
  failing _ = 0

  abbrev pub Decided : Flight E M Q P → Type 0
  Decided (settling kind m) = IsVerdict kind
  Decided _ = Unit

module _ {W E U X Q B P M Uuid Utc : Type 0} (http : Http W U X Q B P) (urls : Urls U X)
    (to_vec : PublishEventsRequest Uuid Utc → Result X (List ℕ))
    (unit_to_vec : Unit {0} → Result X (List ℕ))
    (read_result : List ℕ → Result X PublishEventsResult)
    (read_error : List ℕ → Result X ErrorResponse) (client : AmplifierApiClient U)
    (queue : EventQueue W E M (Event Uuid Utc)) (logs : Logs http queue) where
  abbrev pub Closure : Type 0
  Closure = Flight E M Q P

  abbrev Loop : Type 0
  Loop = Pool (Result E M) Closure (Ingester W)

  abbrev pub go : Closure → Ingester W → Option Closure × Ingester W
  go = advance http urls to_vec unit_to_vec read_result read_error client queue

  -- What a poll appends to the acknowledgements, and how that changes the accounts.
  unfoldable pub Polls : Closure → Ingester W → Option Closure → Ingester W → Type 0
  Polls f s left s' =
      (ls : List (M × AckKind)) × (logs.log s'.world ≡ logs.log s.world ++ ls)
      × (owner f ≡ acked ls ++ owners (optional left))
      × Verdicts ls
      × All Decided (optional left)
      × (s.errors + naks ls + total naking (optional left) + failing f
          ≤ s'.errors + naking f + total failing (optional left))

  frame : (w w' : W) → logs.log w' ≡ logs.log w → logs.log w' ≡ logs.log w ++ []
  frame w w' h = h ∙ sym (append-nil (logs.log w))

  -- A poll with a known result.
  Polls-to :
      (f : Closure) (s : Ingester W) (left : Option Closure) (s' : Ingester W)
      → go f s ≡ (left, s')
      → Polls f s left s'
      → Polls f s (go f s).0 (go f s).1
  Polls-to f s left s' e h = subst (λ p. Polls f s p.0 p.1) (sym e) h

  -- A poll that ends in the error arm.
  unsettled :
      (f : Closure) (m : M) (s : Ingester W) (w : W)
      → go f s ≡ (some (settling AckKind.nak m), record_error (record s { world = w }))
      → owner f ≡ m ∷ []
      → logs.log w ≡ logs.log s.world ++ []
      → failing f ≤ naking f
      → Polls f s (go f s).0 (go f s).1
  unfolding Polls
  unsettled f m s w e o same h =
      Polls-to f s (some (settling AckKind.nak m)) (record_error (record s { world = w })) e
        ([], same, o, tt, (inr refl, tt), omega (arith, h))

  pub go-Polls : (f : Closure) (s : Ingester W) → Decided f → Polls f s (go f s).0 (go f s).1
  unfolding advance Polls settle
  go-Polls (created (err e)) s d = ([], frame s.world s.world refl, refl, tt, tt, omega arith)
  go-Polls (created (ok m)) s d =
      let r : PostEvents Uuid Utc = record {
        chain = Requests.new s.chain;
        payload = record { events = queue.decoded m ∷ [] };
      } in
      elim (Result-cases (build_request http to_vec (post_events urls) client r)) [
        | inl (q, built) ↦
            Polls-to (created (ok m)) s (some (executing m q)) s (ground (arith, built))
              ([], frame s.world s.world refl, refl, tt, (tt, tt), omega arith)
        | inr (e, bad) ↦
            unsettled (created (ok m)) m s s.world (ground (arith, bad)) refl
              (frame s.world s.world refl) (omega arith)
      ]
  go-Polls (executing m q) s d =
      let (r, w) = execute http q s.world in
      let same = frame s.world w (execute_log http queue logs q s.world) in
      elim (Result-cases r) [
        | inl (p, good) ↦
            Polls-to (executing m q) s (some (reading m p)) (record s { world = w })
              (ground (arith, good)) ([], same, refl, tt, (tt, tt), omega arith)
        | inr (e, bad) ↦
            unsettled (executing m q) m s w (ground (arith, bad)) refl same (omega arith)
      ]
  go-Polls (reading m p) s d =
      let (r, w) = json_of http read_result read_error p s.world in
      let same = frame s.world w (json_of_log http queue logs read_result read_error p s.world) in
      elim (Result-cases r) [
        | inl (ok a, good) ↦
            Polls-to (reading m p) s (some (settling AckKind.ack m)) (record s { world = w })
              (ground (arith, good)) ([], same, refl, tt, (inl refl, tt), omega arith)
        | inl (err e, good) ↦
            unsettled (reading m p) m s w (ground (arith, good)) refl same (omega arith)
        | inr (e, bad) ↦ unsettled (reading m p) m s w (ground (arith, bad)) refl same (omega arith)
      ]
  go-Polls (settling kind m) s d = (
    (m, kind) ∷ [],
    ground (arith, logs.ack_logs kind m s.world, Result-cases (queue.ack kind m s.world).0),
    refl,
    (d, tt),
    tt,
    ground (arith, d, Result-cases (queue.ack kind m s.world).0),
  )
