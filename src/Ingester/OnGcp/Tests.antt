-- ===== src/Ingester/OnGcp/Tests.antt =====
-- A message of the ingester on Google Cloud that comes again, after the API has taken its event and after
-- it could not be reached. Sample.antt of the infrastructure gives the services.
use axelar_relayer_core.Base.{
  ℕ, ◌≡◌, refl, Bool, true, false, none, List, [], ◌∷◌, Text, codes, Result, ok, err, arith,
}
use axelar_relayer_core.Base.Int.{pos}
use axelar_relayer_core.Infrastructure.Interfaces.{AckKind}
use axelar_relayer_core.Infrastructure.Gcp.Defs.{GcpError, MessageContent}
use axelar_relayer_core.Infrastructure.Gcp.Sample
use axelar_relayer_core.Infrastructure.Gcp.Sample.{World, put_at_same}
use axelar_relayer_core.Infrastructure.Gcp.Consumer.{GcpMessage, State, redis_id_key, ack}
use axelar_relayer_core.AmplifierApi.Types.{Event}
use axelar_relayer_core.AmplifierApi.Requests.{post_events}
use axelar_relayer_core.AmplifierApi.Requests
use axelar_relayer_core.AmplifierApi.Client.{Http, build_request, execute, json_of}
use axelar_relayer_core.Ingester.{Ingester, publish_event, process_queue_msg, settle}
use axelar_relayer_core.Ingester.Sample.{
  event, urls, to_vec, unit_to_vec, read_result, read_error, client,
}
use axelar_relayer_core.Ingester.OnGcp.{redelivered, published_once}

abbrev message : GcpMessage (Event ℕ ℕ) (Text × List ℕ)
message = record {
  id = codes "m";
  decoded = event;
  subscription_name = codes "sub";
  msg = (codes "m", 1 ∷ []);
  ack_deadline_secs = pos 10;
}

abbrev http : Bool → Http (State World) Text ℕ ℕ ℕ ℕ
http up = record {
  request = λ m u b. 0;
  build = λ q. ok q;
  execute = λ b w. (elim up [ true ↦ ok 200 | false ↦ err 5 ], w);
  is_success = λ p. true;
  error_for_status = λ p. ok tt;
  bytes = λ p w. (ok [], w);
}

abbrev content : MessageContent (Event ℕ ℕ)
content = record { headers = λ k. none; content = event }

abbrev deserialize : List ℕ → Result ℕ (MessageContent (Event ℕ ℕ))
deserialize b = ok content

abbrev forward : Result (GcpError ℕ) (GcpMessage (Event ℕ ℕ) (Text × List ℕ)) → World → Bool × World
forward r w = (true, w)

abbrev finished : World → Bool
finished w = false

abbrev stream : World → List (Result (GcpError ℕ) (GcpMessage (Event ℕ ℕ) (Text × List ℕ))) × World
stream w = ([], w)

abbrev consumer : State World
consumer = record {
  metrics = record {
    received = 0;
    duplicates = 0;
    error_raised = 0;
    acks = 0;
    nacks = 0;
    deadline_extensions = 0;
  };
  world = Sample.start;
  cancelled = false;
}

abbrev ingester : Ingester (State World)
ingester = record { chain = codes "flow"; errors = 0; world = consumer }

abbrev acked : State World
acked = (ack Sample.redis (Sample.pubsub false) AckKind.ack message consumer).0.1

published_once_example :
    redelivered
      (http true)
      urls
      to_vec
      unit_to_vec
      read_result
      read_error
      client
      Sample.redis
      (Sample.pubsub false)
      finished
      stream
      (Sample.expires false)
      deserialize
      forward
      (codes "sub")
      (pos 10)
      (codes "m", 1 ∷ [])
      acked
    ≡ record acked { metrics = record acked.metrics { received = 1; duplicates = 1 } }
unfolding ack process_queue_msg publish_event settle build_request execute json_of post_events
    Requests.new
published_once_example =
    published_once (http true) urls to_vec unit_to_vec read_result read_error client Sample.redis
      (Sample.pubsub false) finished stream (Sample.expires false) deserialize forward message
      ingester ingester (record { results = [] }) (codes "m", 1 ∷ []) (pos 10) content true acked
      refl refl refl refl refl (omega arith)
      (rw (put_at_same {A = ℕ} (λ k. 0) (redis_id_key message) 605) refl) refl

abbrev nacked : State World
nacked = (ack Sample.redis (Sample.pubsub false) AckKind.nak message consumer).0.1
