-- ===== src/Infrastructure/Nats.antt =====
-- crates/infrastructure/src/nats. `Defs` is the errors and the JetStream clients, `Publisher` is
-- publisher.rs, `Consumer` consumer.rs and `KvStore` kv_store.rs.
pub mod Defs
pub mod Connectors
pub mod Publisher
pub mod Consumer
pub mod KvStore
mod Tests
