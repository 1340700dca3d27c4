-- ===== src/Lib.antt =====
-- A verification library for the Axelar relayer core: the processes that carry tasks from the Amplifier
-- API to a queue and events from a queue back to it, and the libraries below them.
--
-- The program's parts, with the paths from the repository's root. The subscriber
-- (crates/amplifier-subscriber) asks the API for the tasks behind the last one that its queue remembers
-- and publishes them; the ingester (crates/amplifier-ingester) takes events from its queue and posts
-- them. Both call the API by crates/amplifier-api, and reach their queues by the traits of
-- crates/infrastructure, which Google Pub/Sub with Redis and NATS JetStream implement. They run in a
-- loop of their own or under crates/supervisor. The in-process relayer is crates/relayer-engine with
-- the component crates/relayer-amplifier-api-integration. crates/retry retries calls.
--
-- Files.
--   Base: tests on numbers, lists, results, effects with early return, texts as lists of code points,
--     decimal numbers, integers.
--   Retry: Defs is retry/src/lib.rs, Backoff backoff_pair_iterator.rs (`next` is next_from at the path
--     of the iterator), Single retry_fn.rs, Pair retry_pair_fn.rs (the body of its loop is `round`),
--     Builder builder.rs. Sleeps and closures act on one world; Elapse says what closures see of it.
--   Supervisor: supervisor/src/lib.rs as a step relation; each constructor of Step is one action of the
--     supervisor thread, of a worker's thread, or of the environment.
--   Infrastructure: Interfaces is interfaces.rs, Tracking tracking.rs; Gcp and Nats follow the files of the crate's folders.
--     The services are records of functions on a world, with the documented behaviour that a theorem
--     relies on in a record of laws beside them (Expires, Stores, Arrives, Keeps, Revisions).
--     Gcp/Passage is the way of a message from the publisher to the consumer.
--   AmplifierApi: Types, TxEvent, BigInt, Time, Requests and Client follow the files of the crate; Display
--     is the texts of events in types.rs and of the command in component.rs of the integration, over
--     Lines, which is `str::lines` and `writeln!`; Order is the order of tasks that clients rely on.
--   Subscriber, Ingester: the lib.rs of the two crates; `fetch` and `publish_event` are the calls of the
--     API inside subscribe and process_queue_msg. Ingester/Pool is the combinator for_each_concurrent as
--     a step relation, and Ingester/Flights the futures that ingest gives it, cut at their awaits. The
--     children Components are config.rs and components/ of the two crates, over Setup. Subscriber/Rounds
--     is the ticks of the subscriber's worker one after another, over what a queue keeps (Delivers of
--     Infrastructure/Interfaces, which Gcp/Publisher/Parts fills); Ingester/OnGcp the ingester with the consumer of Google Pub/Sub as its queue.
--   BinUtil: bin-util/src/lib.rs and config_defaults.rs (Config, the two kinds of metrics) and
--     health_check.rs. Gcp/Connectors and Nats/Connectors below Infrastructure are the connectors.rs,
--     with the constructors of what they connect.
--   WorkLoop: the loops of the two main.rs and of healthcheck.rs, over the results of their ticks.
--     Process: the two main.rs as a step relation over the tasks, the cancel token and Ctrl+C, with
--     `register_cancel` of bin-util/src/lib.rs.
--   Integration: Config is config.rs with common-serde-utils, FromAmplifier from_amplifier.rs over the
--     trait of crates/relayer-amplifier-state, ToAmplifier to_amplifier.rs and the result of
--     component.rs, Amplifier its constructor and clock, and Dispatch and Polls the streams of
--     to_amplifier.rs and from_amplifier.rs as step relations.
--   Engine: relayer-engine/src/lib.rs.
--   The theorems stand in child modules named for what they show, the runs at concrete data in Tests;
--     Infrastructure/Gcp/Sample holds concrete services for them.
--
-- Bounds and fuel. Durations are numbers of nanoseconds, and delays are kept in milliseconds of 64 bits
-- with the saturation of the source; error counts saturate at 32 bits (64 for the health check); a
-- deadline is an i32 whose doubling is checked. Decimal printing runs on fuel, one more than the number,
-- which is enough because each step divides it by ten. Loops over attempts are recursions on the number
-- of attempts; the loops that never end are taken over the results of any number of ticks.
--
-- Not modelled: the clients of the services, telemetry, logging and histograms, command lines, derived
-- JSON and borsh encodings and builders, the build tool xtask, and the example of crates/amplifier-api.
pub mod Base
pub mod Retry
pub mod BinUtil
pub mod Setup
pub mod Supervisor
pub mod Infrastructure
pub mod AmplifierApi
pub mod Subscriber
pub mod Ingester
pub mod WorkLoop
pub mod Process
pub mod Integration
pub mod Engine
