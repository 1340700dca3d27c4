-- ===== src/Infrastructure.antt =====
-- crates/infrastructure. `Interfaces` is interfaces.rs, `Tracking` is tracking.rs; the queues and
-- the key-value stores of the two providers are in `Gcp` and `Nats`.
pub mod Interfaces
pub mod Tracking
pub mod Gcp
pub mod Nats
