-- ===== src/Integration/ToAmplifier.antt =====
-- crates/relayer-amplifier-api-integration/src/to_amplifier.rs and component.rs: publishing events, and
-- the result of the component. The request, its answer and the subprocesses are parameters.
use axelar_relayer_core.Base.{
  ◌≡◌, refl, true, Option, none, some, List, [], ◌∷◌, ◌++◌, Result, ok, err, is_err, arith,
  Result-cases, inl, inr,
}
use axelar_relayer_core.AmplifierApi.Types.{
  PublishEventsResult, PublishEventResultItem, accepted_item, error_item, ErrorResponse,
}

-- `AmplifierCommand`.
pub data AmplifierCommand (Events : Type 0) : Type 0 where
  publish_events : Events → AmplifierCommand Events

-- `internal`: the request joins the join set, or could not be built.
unfoldable pub internal :
    {Events Q F : Type 0}
    → (Events → Result F Q)
    → AmplifierCommand Events
    → List Q
    → Result F (Unit {0}) × List Q
internal build_request (publish_events events) join_set = elim (build_request events) [
  | err e ↦ (err e, join_set)
  | ok request ↦ (ok tt, join_set ++ request ∷ [])
]

-- What is logged of an item.
pub data Logged : Type 0 where
  event_registered could_not_publish : Logged

-- The loop over the items of an answer.
unfoldable pub log_items : List PublishEventResultItem → List Logged
log_items [] = []
log_items (accepted_item a ∷ items) = event_registered ∷ log_items items
log_items (error_item e ∷ items) = could_not_publish ∷ log_items items

-- `process_publish_events_request`, from the outcomes of `execute` and `json`.
unfoldable pub process_publish_events_request :
    {F : Type 0}
    → (ErrorResponse → F)
    → Result F (Result ErrorResponse PublishEventsResult)
    → Result F (Unit {0}) × List Logged
process_publish_events_request report (err e) = (err e, [])
process_publish_events_request report (ok (err e)) = (err (report e), [])
process_publish_events_request report (ok (ok res)) = (ok tt, log_items res.results)

-- `Amplifier::process_internal`, from the configured identity, the client made of it, the clock, and
-- the result of the first of the subprocesses to end.
unfoldable pub process_internal :
    {Identity Client F : Type 0}
    → Option Identity
    → (Identity → Result F Client)
    → Result F (Unit {0})
    → (Client → Result F (Unit {0}))
    → (identity_not_set listener_crashed : F) → Result F (Unit {0})
process_internal none new_client clock race identity_not_set listener_crashed = err identity_not_set
process_internal (some identity) new_client clock race identity_not_set listener_crashed =
    elim (new_client identity) [
      | err e ↦ err e
      | ok client ↦ elim clock [
        | err e ↦ err e
        | ok u ↦ elim (race client) [ err e ↦ err e | ok u' ↦ err listener_crashed ]
      ]
    ]

-- The component never ends with a success, so that its end always stops the engine.
pub process_internal_fails :
    {Identity Client F : Type 0} (identity : Option Identity)
    (new_client : Identity → Result F Client) (clock : Result F (Unit {0}))
    (race : Client → Result F (Unit {0})) (identity_not_set listener_crashed : F)
    → is_err (process_internal identity new_client clock race identity_not_set listener_crashed)
      ≡ true
unfolding process_internal
process_internal_fails none new_client clock race a b = refl
process_internal_fails (some i) new_client clock race a b = elim (Result-cases (new_client i)) [
  | inr (e, bad) ↦ ground (arith, bad)
  | inl (client, good) ↦ ground (arith, good)
]
