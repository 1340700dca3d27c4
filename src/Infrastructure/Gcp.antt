-- ===== src/Infrastructure/Gcp.antt =====
-- crates/infrastructure/src/gcp. `Defs` is gcp.rs and util.rs, `KvStore` kv_store.rs, `Consumer`
-- consumer.rs and `Publisher` publisher.rs; `Passage` is the way of a message from the publisher of
-- one process to the consumer of another, and `Sample` holds concrete services for tests.
pub mod Defs
pub mod KvStore
pub mod Connectors
pub mod Consumer
pub mod Publisher
pub mod Passage
pub mod Sample
mod Tests
