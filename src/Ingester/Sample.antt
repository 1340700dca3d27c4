-- ===== src/Ingester/Sample.antt =====
-- A queue of two messages and an error, and an API that is up for the first call only.
use axelar_relayer_core.Base.{
  ℕ, suc, refl, true, none, List, [], ◌∷◌, ◌++◌, Text, codes, Result, ok, err, ◌==◌, if◌then◌else◌,
}
use axelar_relayer_core.Infrastructure.Interfaces.{AckKind}
use axelar_relayer_core.AmplifierApi.Types.{
  Event, signers_rotated, PublishEventsRequest, PublishEventsResult, ErrorResponse,
}
use axelar_relayer_core.AmplifierApi.Requests.{Urls}
use axelar_relayer_core.AmplifierApi.Client.{Http, AmplifierApiClient}
use axelar_relayer_core.Base.Int.{pos}
use axelar_relayer_core.Ingester.{EventQueue, Ingester}
use axelar_relayer_core.Ingester.Settlement.{Logs}

-- The acknowledgements so far, and the number of calls of the API.
pub record World : Type 0 where
  pub acks : List (ℕ × AckKind)
  pub calls : ℕ

abbrev pub event : Event ℕ ℕ
event = signers_rotated (record {
  base = record { event_id = record { text = codes "0x1-2" }; meta = none };
  cost = record { token_id = none; amount = pos 3 };
})

abbrev pub queue : EventQueue World ℕ ℕ (Event ℕ ℕ)
queue = record {
  messages = λ w. (ok (ok 10 ∷ err 1 ∷ ok 11 ∷ []), w);
  decoded = λ m. event;
  ack = λ kind m w. (ok tt, record w { acks = w.acks ++ (m, kind) ∷ [] });
  check_health = λ w. (ok tt, w);
}

abbrev pub http : Http World Text ℕ ℕ ℕ ℕ
http = record {
  request = λ m u b. 0;
  build = λ q. ok q;
  execute = λ b w. (if w.calls == 0 then ok 200 else err 5, record w { calls = suc w.calls });
  is_success = λ p. true;
  error_for_status = λ p. ok tt;
  bytes = λ p w. (ok [], w);
}

abbrev pub http-Logs : Logs http queue
http-Logs = record {
  log = λ w. w.acks;
  ack_logs = λ kind m w. refl;
  messages_frame = λ w. refl;
  execute_frame = λ b w. refl;
  bytes_frame = λ p w. refl;
}

abbrev pub urls : Urls Text ℕ
urls = record { join = λ u t. ok (u ++ t); append_pair = λ u k v. u }

abbrev pub to_vec : PublishEventsRequest ℕ ℕ → Result ℕ (List ℕ)
to_vec r = ok []

abbrev pub unit_to_vec : Unit {0} → Result ℕ (List ℕ)
unit_to_vec u = ok []

abbrev pub read_result : List ℕ → Result ℕ PublishEventsResult
read_result bs = ok (record { results = [] })

abbrev pub read_error : List ℕ → Result ℕ ErrorResponse
read_error bs = err 0

abbrev pub client : AmplifierApiClient Text
client = record { url = codes "https://api/" }

abbrev pub ingester : ℕ → Ingester World
ingester calls = record {
  chain = codes "flow";
  errors = 0;
  world = record { acks = []; calls = calls };
}
